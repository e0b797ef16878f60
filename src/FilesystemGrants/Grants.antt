-- ===== src/FilesystemGrants/Grants.antt =====
-- src/sandbox/filesystem_grants.rs: one grant, and the paths of grants.
use Prim.Native.Nat.{compare, Ordering}
use freebsd_flatpak.Prelude.{
  ℕ, Bool, true, false, ◌&&◌, ◌||◌, not, List, [], ◌∷◌, ◌++◌, Option, none, some, if◌then◌else◌,
  any, all, keep, length, Result, ok, err, ◌>>=◌, or_else,
}
use freebsd_flatpak.Text.{Text}
use freebsd_flatpak.Paths.{
  root_dir, cur_dir, parent_dir, normal, FilePath, to_path, path_eq, path_le, is_under, is_rooted,
  strip_path, join_onto,
}
use freebsd_flatpak.FilesystemPermissions.{AccessMode}

pub data GrantError : Type 0 where
  host_not_absolute sandbox_not_absolute invalid_sandbox_path sandbox_root_target :
      FilePath → GrantError
  invalid_subpath : Text → GrantError
  unmapped_mount : FilePath → FilePath → GrantError
  no_home no_current_dir : GrantError
  unreadable_permissions : GrantError
  -- a failure of the filesystem
  outside : ℕ → GrantError

pub record HostPathGrant : Type 0 where
  pub label : Text
  pub source_permission : Text
  pub host_path : FilePath
  pub canonical_host_path : FilePath
  pub sandbox_path : FilePath
  pub access : AccessMode

-- What the filesystem answers, where the first argument lists the directories that were created
-- before. An entry of a directory is its name, and whether it is a directory.
pub record Disk : Type 0 where
  pub canonicalize : List FilePath → FilePath → Option FilePath
  pub exists : List FilePath → FilePath → Bool
  pub is_dir : List FilePath → FilePath → Bool
  pub create_dir_all : List FilePath → FilePath → Result GrantError (Unit {0})
  pub read_dir : List FilePath → FilePath → Result GrantError (List (Text × Result GrantError Bool))

-- `fs::canonicalize(..).unwrap_or_else(..)`
abbrev pub canonical_or_same : Option FilePath → FilePath → FilePath
canonical_or_same (some p) q = p
canonical_or_same none q = q

-- `HostPathGrant::new`
unfoldable pub new_grant :
    Disk
    → List FilePath
    → Text
    → Text
    → FilePath
    → FilePath
    → AccessMode
    → Result GrantError HostPathGrant
new_grant disk created label source host sandbox access =
    if not (is_rooted host)
    then err (host_not_absolute host)
    else if not (is_rooted sandbox)
    then err (sandbox_not_absolute sandbox)
    else ok (record {
      label = label;
      source_permission = source;
      host_path = host;
      canonical_host_path = canonical_or_same (disk.canonicalize created host) host;
      sandbox_path = sandbox;
      access = access;
    })

-- an empty path is the path joined to itself
abbrev pub onto : FilePath → FilePath → FilePath
onto sandbox [] = sandbox
onto sandbox (c ∷ suffix) = join_onto sandbox (c ∷ suffix)

abbrev pub onto_option : FilePath → Option FilePath → Option FilePath
onto_option sandbox none = none
onto_option sandbox (some suffix) = some (onto sandbox suffix)

-- `HostPathGrant::map_host_path`
unfoldable pub grant_map_host_path : HostPathGrant → FilePath → Option FilePath
grant_map_host_path g host =
    or_else (onto_option g.sandbox_path (strip_path host g.host_path))
      (onto_option g.sandbox_path (strip_path host g.canonical_host_path))

unfoldable pub same_mount : HostPathGrant → FilePath → FilePath → Bool
same_mount g host sandbox =
    (path_eq g.host_path host || path_eq g.canonical_host_path host)
    && path_eq g.sandbox_path sandbox

-- the loop of `absolute_to_chroot_relative`
unfoldable pub relative_parts : FilePath → FilePath → Result GrantError FilePath
relative_parts path [] = ok []
relative_parts path (root_dir ∷ rest) = relative_parts path rest
relative_parts path (cur_dir ∷ rest) = relative_parts path rest
relative_parts path (parent_dir ∷ rest) = err (invalid_sandbox_path path)
relative_parts path (normal part ∷ rest) =
    relative_parts path rest >>= λ later. ok (normal part ∷ later)

abbrev pub unless_root : FilePath → FilePath → Result GrantError FilePath
unless_root path [] = err (sandbox_root_target path)
unless_root path (c ∷ relative) = ok (c ∷ relative)

unfoldable pub absolute_to_chroot_relative : FilePath → Result GrantError FilePath
absolute_to_chroot_relative path =
    if is_rooted path
    then relative_parts path path >>= unless_root path
    else err (sandbox_not_absolute path)

unfoldable pub path_overlaps : FilePath → FilePath → Bool
path_overlaps left right = is_under left right || is_under right left

-- the loop of `append_permission_suffix`
unfoldable pub append_components : Text → FilePath → FilePath → Result GrantError FilePath
append_components suffix path [] = ok path
append_components suffix path (normal part ∷ rest) =
    append_components suffix (path ++ (normal part ∷ [])) rest
append_components suffix path (cur_dir ∷ rest) = append_components suffix path rest
append_components suffix path (root_dir ∷ rest) = err (invalid_subpath suffix)
append_components suffix path (parent_dir ∷ rest) = err (invalid_subpath suffix)

unfoldable pub append_permission_suffix : FilePath → Option Text → Result GrantError FilePath
append_permission_suffix base none = ok base
append_permission_suffix base (some suffix) = append_components suffix base (to_path suffix)

unfoldable pub clean_absolute_path : FilePath → Bool
clean_absolute_path path =
    is_rooted path && all (λ c. elim c [ root_dir ↦ true | normal _ ↦ true | _ ↦ false ]) path

-- by the number of components, then by the paths
abbrev pub shorter_le : FilePath → FilePath → Bool
shorter_le p q = elim (compare (length p) (length q)) [
  | Ordering.lt ↦ true
  | Ordering.eq ↦ path_le p q
  | Ordering.gt ↦ false
]

-- a stable sort
abbrev pub insert_short : FilePath → List FilePath → List FilePath
insert_short p [] = p ∷ []
insert_short p (q ∷ qs) =
    let later = insert_short p qs in if shorter_le p q then p ∷ q ∷ qs else q ∷ later

abbrev pub sort_short : List FilePath → List FilePath
sort_short [] = []
sort_short (p ∷ ps) = insert_short p (sort_short ps)

abbrev pub behind : FilePath → List FilePath → List FilePath
behind p [] = p ∷ []
behind p (q ∷ qs) = if path_eq p q then q ∷ qs else p ∷ q ∷ qs

-- `dedup`
abbrev pub dedup : List FilePath → List FilePath
dedup [] = []
dedup (p ∷ ps) = behind p (dedup ps)

unfoldable pub authorized_grant_paths : List FilePath → List FilePath → List FilePath
authorized_grant_paths roots mount_points = dedup (
    sort_short (
      roots
      ++ keep
          (λ mount.
            clean_absolute_path mount
            && any (λ root. not (path_eq mount root) && is_under mount root) roots)
          mount_points))
