-- ===== src/FilesystemGrants/Filesystem.antt =====
-- src/sandbox/filesystem_grants.rs: `HostFilesystem`, made of the metadata.
use freebsd_flatpak.Prelude.{
  ◌++◌, ok_or, ℕ, ◌&&◌, ◌||◌, List, [], ◌∷◌, Option, none, some, if◌then◌else◌, length, ltb, any,
  Result, ok, err, ◌>>=◌, map_err, or_else,
}
use freebsd_flatpak.Text.{Text, text, text_eq, starts_with}
use freebsd_flatpak.Paths.{
  root_dir, normal, is_rooted, FilePath, to_path, is_under, join_onto, spell,
}
use freebsd_flatpak.FileArguments.{push_components}
use freebsd_flatpak.FilesystemPermissions.{FilesystemPermission, parse_filesystem_permissions}
use freebsd_flatpak.FilesystemGrants.Grants.{
  GrantError, unreadable_permissions, no_home, no_current_dir, HostPathGrant, Disk,
  canonical_or_same, grant_map_host_path,
}
use freebsd_flatpak.FilesystemGrants.Dirs.{XdgUserDirs, get_dir, dir_entries, load_from_config_home}
use freebsd_flatpak.FilesystemGrants.Builder.{
  Warning, Setting, GrantBuilder, apply_permissions, sort_grants,
}

pub record HostFilesystem : Type 0 where
  pub permissions : List FilesystemPermission
  pub grants : List HostPathGrant
  pub warnings : List Warning
  pub sandbox_home : FilePath
  pub xdg_dirs : XdgUserDirs

abbrev pub nothing_built : GrantBuilder
nothing_built = record { grants = []; warnings = []; created = [] }

abbrev pub finish : List FilesystemPermission → Setting → GrantBuilder → HostFilesystem
finish permissions s b = record {
  permissions = permissions;
  grants = sort_grants b.grants;
  warnings = b.warnings;
  sandbox_home = s.sandbox_home;
  xdg_dirs = s.xdg_dirs;
}

-- `from_metadata_with_xdg_dirs_and_data_home`, where the setting is made of its arguments
unfoldable pub from_metadata : Text → Setting → Result GrantError HostFilesystem
from_metadata metadata s =
    map_err (λ _. unreadable_permissions) (parse_filesystem_permissions metadata) >>= λ permissions.
    apply_permissions s permissions nothing_built >>= λ b. ok (finish permissions s b)

module _ (disk : Disk) where
  -- the constants of the builder
  abbrev pub setting_of :
      Text → FilePath → FilePath → FilePath → List FilePath → XdgUserDirs → FilePath → Setting
  setting_of user home project_root sandbox_root mount_points xdg_dirs xdg_data_home = record {
    disk = disk;
    mount_points = mount_points;
    home = home;
    sandbox_home = join_onto (to_path (text "/home")) (to_path user);
    project_root = canonical_or_same (disk.canonicalize [] project_root) project_root;
    sandbox_root = sandbox_root;
    xdg_dirs = xdg_dirs;
    xdg_data_home = xdg_data_home;
  }

  abbrev pub non_empty : Option Text → Option FilePath
  non_empty none = none
  non_empty (some []) = none
  non_empty (some (c ∷ value)) = some (to_path (c ∷ value))

  abbrev pub path_or : Option FilePath → FilePath → FilePath
  path_or (some p) q = p
  path_or none q = q

  abbrev pub path_of : Option Text → Option FilePath
  path_of none = none
  path_of (some value) = some (to_path value)

  -- with the environment, the mount points, and the text of `user-dirs.dirs` as arguments
  unfoldable pub from_metadata_for_user :
      Option Text
      → Option Text
      → Option Text
      → List FilePath
      → (FilePath → Option Text)
      → Text
      → Text
      → FilePath
      → FilePath
      → Result GrantError HostFilesystem
  from_metadata_for_user home_var data_var config_var mount_points read metadata user project_root
        sandbox_root =
      elim home_var [
        | none ↦ err no_home
        | some value ↦
            let home = to_path value in
            let config_home =
              path_or (path_of config_var) (join_onto home (to_path (text ".config"))) in
            from_metadata metadata (
              setting_of user home project_root sandbox_root mount_points
                (load_from_config_home home config_home
                  (read (join_onto config_home (to_path (text "user-dirs.dirs")))))
                (path_or (non_empty data_var) (join_onto home (to_path (text ".local/share")))))
      ]

abbrev pub longer : Option FilePath → Option FilePath → Option FilePath
longer best none = best
longer none (some mapped) = some mapped
longer (some current) (some mapped) =
    if ltb (length current) (length mapped) then some mapped else some current

-- the loop of `map_host_path`
unfoldable pub best_match : Option FilePath → FilePath → List HostPathGrant → Option FilePath
best_match best host [] = best
best_match best host (g ∷ gs) = best_match (longer best (grant_map_host_path g host)) host gs

-- a path from its parts, the last one first
abbrev pub path_of_parts : List Text → FilePath
path_of_parts [] = root_dir ∷ []
path_of_parts (part ∷ parts) = path_of_parts parts ++ (normal part ∷ [])

abbrev pub absolute_path : Option FilePath → FilePath → Option FilePath
absolute_path cwd path =
    if is_rooted path
    then some path
    else elim cwd [ none ↦ none | some dir ↦ some (join_onto dir path) ]

-- `normalize_absolute_path` of FileArguments, on a path's components
unfoldable pub normalize_path : Option FilePath → FilePath → Result GrantError FilePath
normalize_path cwd path = ok_or (absolute_path cwd path) no_current_dir >>= λ absolute.
    ok (path_of_parts (push_components [] absolute))

abbrev pub more_specific : Option (ℕ × FilePath) → ℕ → Option FilePath → Option (ℕ × FilePath)
more_specific best n none = best
more_specific none n (some p) = some (n, p)
more_specific (some (m, q)) n (some p) = if ltb n m then some (m, q) else some (n, p)

-- `filter_map(..).max_by_key(..)`, which gives the last of equal maxima
unfoldable pub most_specific :
    Option (ℕ × FilePath) → FilePath → FilePath → List HostPathGrant → Option (ℕ × FilePath)
most_specific best host canonical [] = best
most_specific best host canonical (g ∷ gs) =
    most_specific
      (more_specific best (length g.host_path)
        (or_else (grant_map_host_path g host) (grant_map_host_path g canonical)))
      host canonical gs

abbrev pub path_of_best : Option (ℕ × FilePath) → Option FilePath
path_of_best none = none
path_of_best (some (n, p)) = some p

module _ (f : HostFilesystem) where
  -- `cwd` is the working directory, if it can be read
  unfoldable pub map_host_path : Option FilePath → FilePath → Result GrantError (Option FilePath)
  map_host_path cwd host =
      normalize_path cwd host >>= λ normalized. ok (best_match none normalized f.grants)

  unfoldable pub sandbox_home_env : Text → Text
  sandbox_home_env fallback =
      if any
        (λ (g : HostPathGrant).
          starts_with g.label (text "xdg-")
          || (is_under g.sandbox_path f.sandbox_home
              && (text_eq g.label (text "home") || text_eq g.source_permission (text "host"))))
        f.grants
      then spell f.sandbox_home
      else fallback

  module _ (disk : Disk) where
    -- the disk is read as it is then
    unfoldable pub sandbox_dir_for_xdg_label : Text → Option FilePath
    sandbox_dir_for_xdg_label label = elim (get_dir f.xdg_dirs label) [
      | none ↦ none
      | some host ↦
          path_of_best
            (most_specific none host (canonical_or_same (disk.canonicalize [] host) host) f.grants)
    ]

    abbrev pub env_entry : Text → Option FilePath → List (Text × Text) → List (Text × Text)
    env_entry key none later = later
    env_entry key (some p) later = (key, spell p) ∷ later

    abbrev pub env_of : List (Text × Text) → List (Text × Text)
    env_of [] = []
    env_of ((label, key) ∷ rest) = env_entry key (sandbox_dir_for_xdg_label label) (env_of rest)

    unfoldable pub user_dir_env : List (Text × Text)
    user_dir_env = env_of dir_entries
