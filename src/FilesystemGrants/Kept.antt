-- ===== src/FilesystemGrants/Kept.antt =====
-- The steps that add grants keep all grants allowed.
use mathlib.Core.Path.{subst}
use freebsd_flatpak.Prelude.{
  if-cases, ℕ, zero, suc, ◌≡◌, refl, sym, ap, ◌∙◌, ◌⊎◌, inl, inr, Bool, true, false, ◌&&◌, not,
  List, [], ◌∷◌, ◌++◌, Option, none, some, any, is_empty, Result, ok, err, ◌>>=◌, All, All-append,
  Among, Bool-cases, >>=-eq-ok, ok-inj,
}
use freebsd_flatpak.Text.{Text}
use freebsd_flatpak.Paths.{normal, FilePath, is_under, is_rooted, join_onto, strip_path}
use freebsd_flatpak.FilesystemPermissions.{
  AccessMode, read_only, read_write, merge, FilesystemPermission,
}
use freebsd_flatpak.FilesystemGrants.{
  expanding, deeply_recursive, onto, authorized_grant_paths, GrantError, HostPathGrant, new_grant,
  same_mount, Setting, GrantBuilder, Built, Warning, warn, merge_access, add_grant, create_missing,
  grant_or_overlap, grant_canonical, grant_found, grant_at, add_children, expand_directory_children,
  sort_entries, add_deeper, add_mounted, add_each, add_grant_or_expand, absolute_to_chroot_relative,
  path_overlaps, label_for_host_path, or_label,
}

-- The directory of the host does not lie in the project's own, it neither lies in nor contains the
-- place where the sandbox mounts it, and it is writable only by a permission to write.
abbrev pub IsAllowed : Setting → List FilesystemPermission → HostPathGrant → Type 0
IsAllowed s permissions g =
    (is_under g.host_path s.project_root ≡ false)
    × ((relative : FilePath) × (absolute_to_chroot_relative g.sandbox_path ≡ ok relative)
        × (path_overlaps g.host_path (join_onto s.sandbox_root relative) ≡ false))
    × (g.access ≡ read_write
        → (p : FilesystemPermission) × Among p permissions × (p.access ≡ read_write))

merge-read_write : (a b : AccessMode) → merge a b ≡ read_write → (a ≡ read_write) ⊎ (b ≡ read_write)
unfolding merge
merge-read_write read_write b h = inl refl
merge-read_write read_only b h = inr h

new_grant-fields :
    (s : Setting) (created : List FilePath) (label source : Text) (host sandbox : FilePath)
    (access : AccessMode) {g : HostPathGrant}
    → new_grant s.disk created label source host sandbox access ≡ ok g
    → (g.host_path ≡ host) × (g.sandbox_path ≡ sandbox) × (g.access ≡ access)
unfolding new_grant
new_grant-fields s created label source host sandbox access {g} h =
    elim (if-cases (not (is_rooted host)) _ _ h) [
      | inl (c, e) ↦ cc
      | inr (c, e) ↦ elim (if-cases (not (is_rooted sandbox)) _ _ e) [
        | inl (d, e') ↦ cc
        | inr (d, e') ↦
            let same = ok-inj e' in
            (
              sym (ap (λ (k : HostPathGrant). k.host_path) same),
              sym (ap (λ (k : HostPathGrant). k.sandbox_path) same),
              sym (ap (λ (k : HostPathGrant). k.access) same),
            )
      ]
    ]

module _ (s : Setting) (permissions : List FilesystemPermission) where
  abbrev pub Fine : HostPathGrant → Type 0
  Fine = IsAllowed s permissions

  -- A step after which the grants are still allowed.
  abbrev pub Keeps : (GrantBuilder → Built) → Type 0
  Keeps f = (b b' : GrantBuilder) → f b ≡ ok b' → All Fine b.grants → All Fine b'.grants

  pub ok-Keeps :
      (b b' : GrantBuilder)
      → ◌≡◌ {A = Built} (ok b) (ok b')
      → All Fine b.grants
      → All Fine b'.grants
  ok-Keeps b b' h fine = subst (λ (k : GrantBuilder). All Fine k.grants) (ok-inj h) fine

  pub warn-Keeps : (w : Warning) → Keeps (warn w)
  warn-Keeps w b b' h fine = subst (λ (k : GrantBuilder). All Fine k.grants) (ok-inj h) fine

  >>=-Keeps : (f g : GrantBuilder → Built) → Keeps f → Keeps g → Keeps (λ b. f b >>= g)
  >>=-Keeps f g keeps_f keeps_g b b' h fine =
      let (middle, first, second) = >>=-eq-ok (f b) g h in
      keeps_g middle b' second (keeps_f b middle first fine)

  -- a call that reads before
  read-Keeps :
      {A : Type 0} (r : Result GrantError A) (f : A → GrantBuilder → Built)
      → ((a : A) → r ≡ ok a → Keeps (f a))
      → Keeps (λ b. r >>= λ a. f a b)
  read-Keeps (err e) f keeps b b' h fine = cc
  read-Keeps (ok a) f keeps b b' h fine = keeps a refl b b' h fine

  merge_access-All :
      (host sandbox : FilePath) (access : AccessMode)
      → (access ≡ read_write
          → (p : FilesystemPermission) × Among p permissions × (p.access ≡ read_write))
      → (gs : List HostPathGrant) → All Fine gs
      → All Fine (merge_access host sandbox access gs)
  unfolding merge_access
  merge_access-All host sandbox access why [] fine = tt
  merge_access-All host sandbox access why (g ∷ gs) (fine, rest) =
      elim (Bool-cases (same_mount g host sandbox)) [
        | inr other ↦ rw other (fine, merge_access-All host sandbox access why gs rest)
        | inl same ↦
            let (apart, place, writes) = fine in
            rw same (
              (
                apart,
                place,
                λ w. elim (merge-read_write g.access access w) [ inl e ↦ writes e | inr e ↦ why e ],
              ),
              rest,
            )
      ]

  module _ (permission : FilesystemPermission) (granted : Among permission permissions)
      (label : Text) where
    add_grant-Keeps :
        (host sandbox relative : FilePath)
        → is_under host s.project_root ≡ false
        → absolute_to_chroot_relative sandbox ≡ ok relative
        → path_overlaps host (join_onto s.sandbox_root relative) ≡ false
        → Keeps (add_grant s label permission.original host sandbox permission.access)
    unfolding add_grant
    add_grant-Keeps host sandbox relative apart place disjoint b b' h fine =
        let why : permission.access ≡ read_write
            → (p : FilesystemPermission) × Among p permissions × (p.access ≡ read_write) =
          λ w. (permission, granted, w) in
        elim (if-cases (any (λ g. same_mount g host sandbox) b.grants) _ _ h) [
          | inl (c, e) ↦
              subst (λ (k : GrantBuilder). All Fine k.grants) (ok-inj e)
                (merge_access-All host sandbox permission.access why b.grants fine)
          | inr (c, e) ↦
              let l = or_label (label_for_host_path s.disk b.created s.xdg_dirs host) label in
              let (g, made, e') =
                >>=-eq-ok
                  (new_grant s.disk b.created l permission.original host sandbox permission.access)
                  _ e in
              let (same_host, same_sandbox, same_access) =
                new_grant-fields s b.created l permission.original host sandbox permission.access
                  made in
              let new : Fine g = (
                rw same_host apart,
                (relative, rw same_sandbox place, rw same_host disjoint),
                λ w. why (sym same_access ∙ w),
              ) in
              subst (λ (k : GrantBuilder). All Fine k.grants) (ok-inj e')
                (All-append Fine b.grants (g ∷ []) fine (new, tt))
        ]

    create_missing-Keeps : (create : Bool) (host : FilePath) → Keeps (create_missing s create host)
    unfolding create_missing
    create_missing-Keeps create host b b' h fine =
        elim (if-cases (create && not (s.disk.exists b.created host)) _ _ h) [
          | inr (c, e) ↦ ok-Keeps b b' e fine
          | inl (c, e) ↦
              let (u, made, e') = >>=-eq-ok (s.disk.create_dir_all b.created host) _ e in
              subst (λ (k : GrantBuilder). All Fine k.grants) (ok-inj e') fine
        ]

    module _ (on_overlap : FilePath → GrantBuilder → Built)
        (keeps : (p : FilePath) → Keeps (on_overlap p)) where
      grant_or_overlap-Keeps :
          (host sandbox relative : FilePath)
          → is_under host s.project_root ≡ false
          → absolute_to_chroot_relative sandbox ≡ ok relative
          → Keeps (grant_or_overlap s permission label on_overlap host sandbox relative)
      grant_or_overlap-Keeps host sandbox relative apart place b b' h fine =
          elim (if-cases (path_overlaps host (join_onto s.sandbox_root relative)) _ _ h) [
            | inl (c, e) ↦ keeps host b b' e fine
            | inr (c, e) ↦ add_grant-Keeps host sandbox relative apart place c b b' e fine
          ]

      grant_canonical-Keeps :
          (host sandbox : FilePath)
          → Keeps (grant_canonical s permission label on_overlap host sandbox)
      unfolding grant_canonical
      grant_canonical-Keeps host sandbox b b' h fine =
          elim (if-cases (not (s.disk.is_dir b.created host)) _ _ h) [
            | inl (c, e) ↦ subst (λ (k : GrantBuilder). All Fine k.grants) (ok-inj e) fine
            | inr (c, e) ↦ elim (if-cases (is_under host s.project_root) _ _ e) [
              | inl (d, e') ↦ subst (λ (k : GrantBuilder). All Fine k.grants) (ok-inj e') fine
              | inr (d, e') ↦
                  let (relative, place, e'') =
                    >>=-eq-ok (absolute_to_chroot_relative sandbox) _ e' in
                  grant_or_overlap-Keeps host sandbox relative d place b b' e'' fine
            ]
          ]

      grant_found-Keeps :
          (host : FilePath) (found : Option FilePath) (sandbox : FilePath)
          → Keeps (grant_found s permission label on_overlap host found sandbox)
      grant_found-Keeps host none sandbox b b' h fine =
          subst (λ (k : GrantBuilder). All Fine k.grants) (ok-inj h) fine
      grant_found-Keeps host (some p) sandbox b b' h fine =
          grant_canonical-Keeps p sandbox b b' h fine

      grant_at-Keeps :
          (host sandbox : FilePath) (create : Bool)
          → Keeps (grant_at s permission label on_overlap host sandbox create)
      unfolding grant_at
      grant_at-Keeps host sandbox create b b' h fine =
          let (middle, first, second) = >>=-eq-ok (create_missing s create host b) _ h in
          grant_found-Keeps host (s.disk.canonicalize middle.created host) sandbox middle b' second
            (create_missing-Keeps create host b middle first fine)

    add_children-Keeps :
        (add : FilePath → FilePath → Bool → GrantBuilder → Built)
        → ((p q : FilePath) (c : Bool) → Keeps (add p q c))
        → (host sandbox : FilePath) (entries : List (Text × Result GrantError Bool))
        → Keeps (add_children s permission label add host sandbox entries)
    unfolding add_children
    add_children-Keeps add keeps host sandbox [] b b' h fine = ok-Keeps b b' h fine
    add_children-Keeps add keeps host sandbox ((name, err e) ∷ entries) b b' h fine = cc
    add_children-Keeps add keeps host sandbox ((name, ok false) ∷ entries) b b' h fine =
        add_children-Keeps add keeps host sandbox entries b b' h fine
    add_children-Keeps add keeps host sandbox ((name, ok true) ∷ entries) b b' h fine =
        let (middle, first, second) =
          >>=-eq-ok
            (add (host ++ (normal name ∷ [])) (join_onto sandbox (normal name ∷ [])) false b) _ h in
        add_children-Keeps add keeps host sandbox entries middle b' second (
          keeps (host ++ (normal name ∷ [])) (join_onto sandbox (normal name ∷ [])) false b middle
            first fine)

    expand-Keeps :
        (add : FilePath → FilePath → Bool → GrantBuilder → Built)
        → ((p q : FilePath) (c : Bool) → Keeps (add p q c))
        → (sandbox host : FilePath)
        → Keeps (expand_directory_children s permission label add sandbox host)
    unfolding expand_directory_children
    expand-Keeps add keeps sandbox host b b' h fine =
        let (entries, read, rest) = >>=-eq-ok (s.disk.read_dir b.created host) _ h in
        add_children-Keeps add keeps host sandbox (sort_entries s permission label entries)
          (record b { warnings = b.warnings ++ (expanding permission.original host ∷ []) }) b' rest
          fine

    add_deeper-Keeps :
        (left : ℕ) (host sandbox : FilePath) (create : Bool)
        → Keeps (add_deeper s permission label left host sandbox create)
    unfolding add_deeper
    add_deeper-Keeps zero host sandbox create b b' h fine =
        grant_at-Keeps (λ found. warn (deeply_recursive permission.original found))
          (λ p. warn-Keeps (deeply_recursive permission.original p)) host sandbox create b b' h fine
    add_deeper-Keeps (suc left) host sandbox create b b' h fine =
        grant_at-Keeps
          (expand_directory_children s permission label (add_deeper s permission label left)
            sandbox)
          (expand-Keeps (add_deeper s permission label left) (add_deeper-Keeps left) sandbox) host
          sandbox create b b' h fine

    add_mounted-Keeps :
        (host sandbox : FilePath) (create : Bool) (path : FilePath) (suffix : Option FilePath)
        → Keeps (add_mounted s permission label host sandbox create path suffix)
    add_mounted-Keeps host sandbox create path none b b' h fine = cc
    add_mounted-Keeps host sandbox create path (some suffix) b b' h fine =
        add_deeper-Keeps 7 path (onto sandbox suffix) (create && is_empty suffix) b b' h fine

    add_each-Keeps :
        (host sandbox : FilePath) (create : Bool) (paths : List FilePath)
        → Keeps (add_each s permission label host sandbox create paths)
    unfolding add_each
    add_each-Keeps host sandbox create [] b b' h fine = ok-Keeps b b' h fine
    add_each-Keeps host sandbox create (path ∷ rest) b b' h fine =
        let (middle, first, second) =
          >>=-eq-ok
            (add_mounted s permission label host sandbox create path (strip_path path host) b) _
            h in
        add_each-Keeps host sandbox create rest middle b' second
          (add_mounted-Keeps host sandbox create path (strip_path path host) b middle first fine)

    pub add_grant_or_expand-Keeps :
        (host sandbox : FilePath) (create : Bool)
        → Keeps (add_grant_or_expand s permission label host sandbox create)
    unfolding add_grant_or_expand
    add_grant_or_expand-Keeps host sandbox create b b' h fine =
        add_each-Keeps host sandbox create (authorized_grant_paths (host ∷ []) s.mount_points) b b'
          h fine
