-- ===== src/FilesystemGrants/Builder.antt =====
-- src/sandbox/filesystem_grants.rs: `GrantBuilder`, which makes grants of permissions.
use Prim.Native.Nat.{compare, Ordering}
use freebsd_flatpak.Prelude.{
  ℕ, zero, suc, Bool, true, false, ◌&&◌, ◌||◌, not, List, [], ◌∷◌, ◌++◌, Option, none, some,
  if◌then◌else◌, length, any, is_empty, Result, ok, err, ◌>>=◌,
}
use freebsd_flatpak.Text.{Text, text, text_eq, text_cmp, split_once, starts_with}
use freebsd_flatpak.Paths.{
  normal, FilePath, to_path, path_eq, path_cmp, path_le, is_under, strip_path, join_onto,
}
use freebsd_flatpak.FilesystemPermissions.{AccessMode, merge, FilesystemPermission}
use freebsd_flatpak.FilesystemGrants.Grants.{
  GrantError, unmapped_mount, HostPathGrant, Disk, new_grant, onto, same_mount,
  absolute_to_chroot_relative, path_overlaps, append_permission_suffix, authorized_grant_paths,
}
use freebsd_flatpak.FilesystemGrants.Dirs.{XdgUserDirs, get_dir, label_for_host_path}

pub data Warning : Type 0 where
  unsupported_xdg disabled_xdg unsupported_permission : Text → Warning
  missing not_directory project_directory deeply_recursive expanding : Text → FilePath → Warning

-- What a `GrantBuilder` does not change.
pub record Setting : Type 0 where
  pub disk : Disk
  pub mount_points : List FilePath
  pub home : FilePath
  pub sandbox_home : FilePath
  pub project_root : FilePath
  pub sandbox_root : FilePath
  pub xdg_dirs : XdgUserDirs
  pub xdg_data_home : FilePath

-- What it changes, with the directories that it has created.
pub record GrantBuilder : Type 0 where
  pub grants : List HostPathGrant
  pub warnings : List Warning
  pub created : List FilePath

abbrev pub Built : Type 0
Built = Result GrantError GrantBuilder

abbrev pub warn : Warning → GrantBuilder → Built
warn w b = ok (record b { warnings = b.warnings ++ (w ∷ []) })

abbrev pub or_label : Option Text → Text → Text
or_label (some l) label = l
or_label none label = label

-- the first grant of the mount takes the stronger access
unfoldable pub merge_access :
    FilePath → FilePath → AccessMode → List HostPathGrant → List HostPathGrant
merge_access host sandbox access [] = []
merge_access host sandbox access (g ∷ gs) =
    let later = merge_access host sandbox access gs in
    if same_mount g host sandbox
    then record g { access = merge g.access access } ∷ gs
    else g ∷ later

module _ (s : Setting) where
  unfoldable pub add_grant : Text → Text → FilePath → FilePath → AccessMode → GrantBuilder → Built
  add_grant label source host sandbox access b =
      let label' = or_label (label_for_host_path s.disk b.created s.xdg_dirs host) label in
      if any (λ g. same_mount g host sandbox) b.grants
      then ok (record b { grants = merge_access host sandbox access b.grants })
      else new_grant s.disk b.created label' source host sandbox access >>= λ g.
          ok (record b { grants = b.grants ++ (g ∷ []) })

  -- a directory is created where the permission asks for it and it is not there
  unfoldable pub create_missing : Bool → FilePath → GrantBuilder → Built
  create_missing create host b =
      if create && not (s.disk.exists b.created host)
      then (s.disk.create_dir_all b.created host >>= λ _.
          ok (record b { created = b.created ++ (host ∷ []) }))
      else ok b

  module _ (permission : FilesystemPermission) (label : Text) where
    -- the end of `add_grant_or_expand`, on the canonical path of a directory
    abbrev pub grant_or_overlap :
        (FilePath → GrantBuilder → Built) → FilePath → FilePath → FilePath → GrantBuilder → Built
    grant_or_overlap on_overlap host sandbox relative b =
        if path_overlaps host (join_onto s.sandbox_root relative)
        then on_overlap host b
        else add_grant label permission.original host sandbox permission.access b

    unfoldable pub grant_canonical :
        (FilePath → GrantBuilder → Built) → FilePath → FilePath → GrantBuilder → Built
    grant_canonical on_overlap host sandbox b =
        if not (s.disk.is_dir b.created host)
        then warn (not_directory permission.original host) b
        else if is_under host s.project_root
        then warn (project_directory permission.original host) b
        else absolute_to_chroot_relative sandbox >>= λ relative.
            grant_or_overlap on_overlap host sandbox relative b

    abbrev pub grant_found :
        (FilePath → GrantBuilder → Built)
        → FilePath
        → Option FilePath
        → FilePath
        → GrantBuilder
        → Built
    grant_found on_overlap host none sandbox b = warn (missing permission.original host) b
    grant_found on_overlap host (some found) sandbox b = grant_canonical on_overlap found sandbox b

    unfoldable pub grant_at :
        (FilePath → GrantBuilder → Built) → FilePath → FilePath → Bool → GrantBuilder → Built
    grant_at on_overlap host sandbox create b = create_missing create host b >>= λ b'.
        grant_found on_overlap host (s.disk.canonicalize b'.created host) sandbox b'

    -- the loop over the entries, sorted by name; `metadata` of an entry may fail
    unfoldable pub add_children :
        (FilePath → FilePath → Bool → GrantBuilder → Built)
        → FilePath
        → FilePath
        → List (Text × Result GrantError Bool)
        → GrantBuilder
        → Built
    add_children add host sandbox [] b = ok b
    add_children add host sandbox ((name, err e) ∷ entries) b = err e
    add_children add host sandbox ((name, ok false) ∷ entries) b =
        add_children add host sandbox entries b
    add_children add host sandbox ((name, ok true) ∷ entries) b =
        add (host ++ (normal name ∷ [])) (join_onto sandbox (normal name ∷ [])) false b
        >>= add_children add host sandbox entries

    unfoldable pub insert_entry :
        Text × Result GrantError Bool
        → List (Text × Result GrantError Bool)
        → List (Text × Result GrantError Bool)
    insert_entry e [] = e ∷ []
    insert_entry (name, d) ((other, d') ∷ rest) =
        let later = insert_entry (name, d) rest in
        elim (text_cmp name other) [
          | Ordering.gt ↦ (other, d') ∷ later
          | _ ↦ (name, d) ∷ (other, d') ∷ rest
        ]

    abbrev pub sort_entries :
        List (Text × Result GrantError Bool) → List (Text × Result GrantError Bool)
    sort_entries [] = []
    sort_entries (e ∷ entries) = insert_entry e (sort_entries entries)

    unfoldable pub expand_directory_children :
        (FilePath → FilePath → Bool → GrantBuilder → Built)
        → FilePath
        → FilePath
        → GrantBuilder
        → Built
    expand_directory_children add sandbox host b =
        warn (expanding permission.original host) b >>= λ b'.
        s.disk.read_dir b'.created host >>= λ entries.
        add_children add host sandbox (sort_entries entries) b'

    -- `add_grant_or_expand` from depth 1 on; the number is what is left to the depth 8
    unfoldable pub add_deeper : ℕ → FilePath → FilePath → Bool → GrantBuilder → Built
    add_deeper zero host sandbox create b =
        grant_at (λ found. warn (deeply_recursive permission.original found)) host sandbox create b
    add_deeper (suc left) host sandbox create b =
        grant_at (expand_directory_children (add_deeper left) sandbox) host sandbox create b

    abbrev pub add_mounted :
        FilePath → FilePath → Bool → FilePath → Option FilePath → GrantBuilder → Built
    add_mounted host sandbox create granted none b = err (unmapped_mount granted host)
    add_mounted host sandbox create granted (some suffix) b =
        add_deeper 7 granted (onto sandbox suffix) (create && is_empty suffix) b

    -- the loop over the granted path and the mounts below it
    unfoldable pub add_each : FilePath → FilePath → Bool → List FilePath → GrantBuilder → Built
    add_each host sandbox create [] b = ok b
    add_each host sandbox create (granted ∷ rest) b =
        add_mounted host sandbox create granted (strip_path granted host) b
        >>= add_each host sandbox create rest

    -- `add_grant_or_expand` at depth 0
    unfoldable pub add_grant_or_expand : FilePath → FilePath → Bool → GrantBuilder → Built
    add_grant_or_expand host sandbox create b =
        add_each host sandbox create (authorized_grant_paths (host ∷ []) s.mount_points) b

  module _ (permission : FilesystemPermission) where
    -- the roots that are directories
    unfoldable pub add_roots : List Text → GrantBuilder → Built
    add_roots [] b = ok b
    add_roots (root ∷ roots) b =
        (if s.disk.is_dir b.created (to_path root)
          then add_grant_or_expand permission (text "host") (to_path root) (to_path root)
              permission.create b
          else ok b)
        >>= add_roots roots

    unfoldable pub add_host_grants : GrantBuilder → Built
    add_host_grants b =
        add_roots
          (text "/home"
            ∷ text "/media"
            ∷ text "/mnt"
            ∷ text "/opt"
            ∷ text "/run/media"
            ∷ text "/srv"
            ∷ [])
          b

    abbrev pub base_of : Option (Text × Text) → Text
    base_of none = permission.path
    base_of (some (base, suffix)) = base

    abbrev pub suffix_of : Option (Text × Text) → Option Text
    suffix_of none = none
    suffix_of (some (base, suffix)) = some suffix

    unfoldable pub add_home : Option Text → GrantBuilder → Built
    add_home suffix b = append_permission_suffix s.home suffix >>= λ host.
        append_permission_suffix s.sandbox_home suffix >>= λ sandbox.
        add_grant_or_expand permission (text "home") host sandbox permission.create b

    abbrev pub xdg_names : List Text
    xdg_names =
        text "xdg-desktop"
        ∷ text "xdg-documents"
        ∷ text "xdg-download"
        ∷ text "xdg-music"
        ∷ text "xdg-pictures"
        ∷ text "xdg-public-share"
        ∷ text "xdg-templates"
        ∷ text "xdg-videos"
        ∷ []

    -- the same path on the host and in the sandbox
    unfoldable pub add_same : Text → FilePath → Option Text → GrantBuilder → Built
    add_same label base suffix b = append_permission_suffix base suffix >>= λ host.
        add_grant_or_expand permission label host host permission.create b

    abbrev pub add_xdg : Text → Option FilePath → Option Text → GrantBuilder → Built
    add_xdg base none suffix b = warn (unsupported_xdg base) b
    add_xdg base (some dir) suffix b =
        if path_eq dir s.home then warn (disabled_xdg base) b else add_same base dir suffix b

    abbrev pub is_app_data : Option Text → Bool
    is_app_data none = false
    is_app_data (some suffix) = text_eq suffix (text "flatpak/app")

    abbrev pub is_none : Option Text → Bool
    is_none none = true
    is_none (some _) = false

    unfoldable pub apply_base : Text → Option Text → GrantBuilder → Built
    apply_base base suffix b =
        if starts_with base (text "!")
        then ok b
        else if text_eq base (text "host") && is_none suffix
        then add_host_grants b
        else if text_eq base (text "home") || text_eq base (text "~")
        then add_home suffix b
        else if any (text_eq base) xdg_names
        then add_xdg base (get_dir s.xdg_dirs base) suffix b
        else if text_eq base (text "xdg-data")
        then (if is_app_data suffix
            then ok b
            else add_same (text "xdg-data") s.xdg_data_home suffix b)
        else warn (unsupported_permission permission.original) b

    unfoldable pub apply_permission : GrantBuilder → Built
    apply_permission b =
        let parts = split_once permission.path b'/' in
        apply_base (base_of parts) (suffix_of parts) b

  unfoldable pub apply_permissions : List FilesystemPermission → GrantBuilder → Built
  apply_permissions [] b = ok b
  apply_permissions (permission ∷ rest) b = apply_permission permission b >>= apply_permissions rest

-- by the depth of the path in the sandbox, then by the paths
abbrev pub grant_le : HostPathGrant → HostPathGrant → Bool
grant_le g h = elim (compare (length g.sandbox_path) (length h.sandbox_path)) [
  | Ordering.lt ↦ true
  | Ordering.gt ↦ false
  | Ordering.eq ↦ elim (path_cmp g.sandbox_path h.sandbox_path) [
    | Ordering.lt ↦ true
    | Ordering.gt ↦ false
    | Ordering.eq ↦ path_le g.host_path h.host_path
  ]
]

abbrev pub insert_grant : HostPathGrant → List HostPathGrant → List HostPathGrant
insert_grant g [] = g ∷ []
insert_grant g (h ∷ hs) =
    let later = insert_grant g hs in if grant_le g h then g ∷ h ∷ hs else h ∷ later

-- a stable sort
unfoldable pub sort_grants : List HostPathGrant → List HostPathGrant
sort_grants [] = []
sort_grants (g ∷ gs) = insert_grant g (sort_grants gs)
