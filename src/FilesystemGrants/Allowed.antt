-- ===== src/FilesystemGrants/Allowed.antt =====
-- What every grant that is made of permissions satisfies.
use mathlib.Core.Path.{subst}
use freebsd_flatpak.Prelude.{
  if-cases, ◌≡◌, refl, inl, inr, ◌&&◌, ◌||◌, List, [], ◌∷◌, Option, none, some, if◌then◌else◌, any,
  ok, map_err, All, Among, here, there, Bool-cases, >>=-eq-ok, ok-inj,
}
use freebsd_flatpak.Text.{Text, text, text_eq, starts_with, split_once}
use freebsd_flatpak.Paths.{to_path, FilePath, path_eq}
use freebsd_flatpak.FilesystemPermissions.{FilesystemPermission, parse_filesystem_permissions}
use freebsd_flatpak.FilesystemGrants.{
  unsupported_xdg, disabled_xdg, unsupported_permission, append_permission_suffix, is_none,
  is_app_data, xdg_names, get_dir, base_of, suffix_of, nothing_built, unreadable_permissions,
  HostPathGrant, Setting, add_grant_or_expand, add_roots, add_host_grants, add_home, add_same,
  add_xdg, apply_base, apply_permission, apply_permissions, insert_grant, sort_grants, grant_le,
  HostFilesystem, from_metadata,
}
use freebsd_flatpak.FilesystemGrants.Kept.{
  IsAllowed, Fine, Keeps, ok-Keeps, warn-Keeps, add_grant_or_expand-Keeps,
}

module _ (s : Setting) (permissions : List FilesystemPermission) where
  module _ (permission : FilesystemPermission) (granted : Among permission permissions) where
    add_roots-Keeps : (roots : List Text) → Keeps s permissions (add_roots s permission roots)
    unfolding add_roots
    add_roots-Keeps [] b b' h fine = ok-Keeps s permissions b b' h fine
    add_roots-Keeps (root ∷ roots) b b' h fine =
        let path = to_path root in
        let (middle, first, second) =
          >>=-eq-ok
            (if s.disk.is_dir b.created path
              then add_grant_or_expand s permission (text "host") path path permission.create b
              else ok b)
            _ h in
        add_roots-Keeps roots middle b' second
          (elim (if-cases (s.disk.is_dir b.created path) _ _ first) [
            | inl (c, e) ↦
                add_grant_or_expand-Keeps s permissions permission granted (text "host") path path
                  permission.create b middle e fine
            | inr (c, e) ↦ ok-Keeps s permissions b middle e fine
          ])

    add_host_grants-Keeps : Keeps s permissions (add_host_grants s permission)
    unfolding add_host_grants
    add_host_grants-Keeps b b' h fine = add_roots-Keeps _ b b' h fine

    add_home-Keeps : (suffix : Option Text) → Keeps s permissions (add_home s permission suffix)
    unfolding add_home
    add_home-Keeps suffix b b' h fine =
        let (host, read, rest) = >>=-eq-ok (append_permission_suffix s.home suffix) _ h in
        let (sandbox, read', rest') =
          >>=-eq-ok (append_permission_suffix s.sandbox_home suffix) _ rest in
        add_grant_or_expand-Keeps s permissions permission granted (text "home") host sandbox
          permission.create b b' rest' fine

    add_same-Keeps :
        (label : Text) (base : FilePath) (suffix : Option Text)
        → Keeps s permissions (add_same s permission label base suffix)
    unfolding add_same
    add_same-Keeps label base suffix b b' h fine =
        let (host, read, rest) = >>=-eq-ok (append_permission_suffix base suffix) _ h in
        add_grant_or_expand-Keeps s permissions permission granted label host host permission.create
          b b' rest fine

    add_xdg-Keeps :
        (base : Text) (dir : Option FilePath) (suffix : Option Text)
        → Keeps s permissions (add_xdg s permission base dir suffix)
    add_xdg-Keeps base none suffix b b' h fine =
        warn-Keeps s permissions (unsupported_xdg base) b b' h fine
    add_xdg-Keeps base (some dir) suffix b b' h fine = elim (if-cases (path_eq dir s.home) _ _ h) [
      | inl (c, e) ↦ warn-Keeps s permissions (disabled_xdg base) b b' e fine
      | inr (c, e) ↦ add_same-Keeps base dir suffix b b' e fine
    ]

    apply_base-Keeps :
        (base : Text) (suffix : Option Text)
        → Keeps s permissions (apply_base s permission base suffix)
    unfolding apply_base
    apply_base-Keeps base suffix b b' h fine = elim (if-cases (starts_with base (text "!")) _ _ h) [
      | inl (c, e) ↦ ok-Keeps s permissions b b' e fine
      | inr (c, h2) ↦
          elim (if-cases (text_eq base (text "host") && is_none s permission suffix) _ _ h2) [
            | inl (c2, e) ↦ add_host_grants-Keeps b b' e fine
            | inr (c2, h3) ↦
                elim (if-cases (text_eq base (text "home") || text_eq base (text "~")) _ _ h3) [
                  | inl (c3, e) ↦ add_home-Keeps suffix b b' e fine
                  | inr (c3, h4) ↦
                      elim (if-cases (any (text_eq base) (xdg_names s permission)) _ _ h4) [
                        | inl (c4, e) ↦
                            add_xdg-Keeps base (get_dir s.xdg_dirs base) suffix b b' e fine
                        | inr (c4, h5) ↦ elim (if-cases (text_eq base (text "xdg-data")) _ _ h5) [
                          | inr (c5, e) ↦
                              warn-Keeps s permissions (unsupported_permission permission.original)
                                b b' e fine
                          | inl (c5, h6) ↦
                              elim (if-cases (is_app_data s permission suffix) _ _ h6) [
                                | inl (c6, e) ↦ ok-Keeps s permissions b b' e fine
                                | inr (c6, e) ↦
                                    add_same-Keeps (text "xdg-data") s.xdg_data_home suffix b b' e
                                      fine
                              ]
                        ]
                      ]
                ]
          ]
    ]

  apply_permissions-Keeps :
      (rest : List FilesystemPermission)
      → ((p : FilesystemPermission) → Among p rest → Among p permissions)
      → Keeps s permissions (apply_permissions s rest)
  unfolding apply_permissions apply_permission
  apply_permissions-Keeps [] within b b' h fine = ok-Keeps s permissions b b' h fine
  apply_permissions-Keeps (p ∷ rest) within b b' h fine =
      let parts = split_once p.path b'/' in
      let (middle, first, second) = >>=-eq-ok (apply_permission s p b) _ h in
      apply_permissions-Keeps rest (λ q m. within q (there m)) middle b' second
        (apply_base-Keeps p (within p (here refl)) (base_of s p parts) (suffix_of s p parts) b
          middle first fine)

  insert_grant-All :
      (g : HostPathGrant) (gs : List HostPathGrant)
      → (Fine s permissions) g
      → All (Fine s permissions) gs
      → All (Fine s permissions) (insert_grant g gs)
  insert_grant-All g [] fine rest = (fine, tt)
  insert_grant-All g (h ∷ hs) fine (first, rest) = elim (Bool-cases (grant_le g h)) [
    | inl before ↦ rw before (fine, (first, rest))
    | inr after ↦ rw after (first, insert_grant-All g hs fine rest)
  ]

  sort_grants-All :
      (gs : List HostPathGrant)
      → All (Fine s permissions) gs
      → All (Fine s permissions) (sort_grants gs)
  unfolding sort_grants
  sort_grants-All [] fine = tt
  sort_grants-All (g ∷ gs) (first, rest) =
      insert_grant-All g (sort_grants gs) first (sort_grants-All gs rest)

-- Each grant that is made of metadata is allowed: its directory does not lie in the project's own,
-- neither lies in the place where the sandbox mounts it nor has that place in it, and it is
-- writable only if one of the metadata's permissions is for writing.
pub from_metadata-IsAllowed :
    (metadata : Text) (s : Setting) {f : HostFilesystem}
    → from_metadata metadata s ≡ ok f
    → All (IsAllowed s f.permissions) f.grants
unfolding from_metadata
from_metadata-IsAllowed metadata s {f} h =
    let (permissions, parsed, rest) =
      >>=-eq-ok (map_err (λ _. unreadable_permissions) (parse_filesystem_permissions metadata)) _
        h in
    let (b, applied, rest') = >>=-eq-ok (apply_permissions s permissions nothing_built) _ rest in
    subst (λ (k : HostFilesystem). All (IsAllowed s k.permissions) k.grants) (ok-inj rest')
      (sort_grants-All s permissions b.grants
        (apply_permissions-Keeps s permissions permissions (λ p m. m) nothing_built b applied tt))
