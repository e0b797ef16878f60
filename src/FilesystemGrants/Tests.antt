-- ===== src/FilesystemGrants/Tests.antt =====
-- A home with the project's directory in it, granted to an application.
use freebsd_flatpak.FlatpakMetadata.{value_loop, value_here}
use freebsd_flatpak.FlatpakMetadata.{header, value}
use freebsd_flatpak.Prelude.{
  ◌≡◌, refl, Bool, true, false, List, [], ◌∷◌, some, none, arith, Result, ok, All,
}
use freebsd_flatpak.Text.{
  strip_suffix, split, text_cmp, strip_return, line_list, trim_start, trim_end, is_whitespace,
  text_eq, strip_prefix, strip_last, has_infix, rsplit_once, starts_with, split_once, trim, lines,
  Text, text,
}
use freebsd_flatpak.Paths.{
  FilePath, is_rooted, path_le, path_cmp, join_onto, is_under, components_of, component_eq,
  component_cmp, strip_path, to_path, path_eq,
}
use freebsd_flatpak.FilesystemPermissions.{
  suffix_access, parse_permissions, parse_permission, parse_access_suffix, merge,
  parse_filesystem_permissions, read_write,
}
use freebsd_flatpak.FilesystemGrants.{
  defaults, set_dir, unescape_rest, unescape_xdg_value, load_line, grant_map_host_path, best_match,
  same_mount, relative_parts, path_overlaps, new_grant, clean_absolute_path, append_components,
  absolute_to_chroot_relative, labelled, label_for_host_path, sort_grants, merge_access,
  insert_entry, grant_canonical, grant_at, expand_directory_children, create_missing, add_same,
  add_roots, add_host_grants, add_grant, add_deeper, add_children, authorized_grant_paths, add_each,
  add_grant_or_expand, append_permission_suffix, add_home, apply_base, apply_permission,
  apply_permissions, GrantError, HostPathGrant, Disk, Setting, XdgUserDirs, load_from_config_home,
  setting_of, HostFilesystem, absolute_path, normalize_path, from_metadata, map_host_path,
  parse_xdg_user_dir_value, get_dir, expanding, project_directory,
}
use freebsd_flatpak.FilesystemGrants.Allowed.{from_metadata-IsAllowed}
use freebsd_flatpak.FilesystemGrants.Kept.{IsAllowed}
use freebsd_flatpak.FilesystemGrants.Normal.{Reduces, IsNormalForm}
use freebsd_flatpak.FileArguments.{push_components}
use mathlib.Core.Path.{subst}
use freebsd_flatpak.FilesystemGrants.Mapped.{IsBest, map_host_path-IsBest}

-- `/home/u` has a directory, the project's and a file.
abbrev entries_of : Bool → Result GrantError (List (Text × Result GrantError Bool))
entries_of true =
    ok ((text "proj", ok true) ∷ (text "notes", ok false) ∷ (text "Music", ok true) ∷ [])
entries_of false = ok []

abbrev disk : Disk
disk = record {
  canonicalize = λ created p. some p;
  exists = λ created p. true;
  is_dir = λ created p. true;
  create_dir_all = λ created p. ok tt;
  read_dir = λ created p. entries_of (path_eq p (to_path (text "/home/u")));
}

abbrev dirs : XdgUserDirs
dirs =
    load_from_config_home (to_path (text "/home/u")) (to_path (text "/home/u/.config"))
      (some (text "# own\nXDG_DOWNLOAD_DIR=\"$HOME/Music\"\n"))

abbrev setting : Setting
setting =
    setting_of disk (text "u") (to_path (text "/home/u")) (to_path (text "/home/u/proj"))
      (to_path (text "/home/u/proj/s")) [] dirs (to_path (text "/home/u/.local/share"))

abbrev metadata : Text
metadata = text "[Context]\nfilesystems=home;\n"

abbrev music : HostPathGrant
music = record {
  label = text "xdg-download";
  source_permission = text "home";
  host_path = to_path (text "/home/u/Music");
  canonical_host_path = to_path (text "/home/u/Music");
  sandbox_path = to_path (text "/home/u/Music");
  access = read_write;
}

abbrev filesystem : HostFilesystem
filesystem = record {
  permissions =
      record { original = text "home"; path = text "home"; access = read_write; create = false }
      ∷ [];
  grants = music ∷ [];
  warnings =
      expanding (text "home") (to_path (text "/home/u"))
      ∷ project_directory (text "home") (to_path (text "/home/u/proj"))
      ∷ [];
  sandbox_home = to_path (text "/home/u");
  xdg_dirs = dirs;
}

made : from_metadata metadata setting ≡ ok filesystem
unfolding from_metadata parse_filesystem_permissions value lines header trim split_once starts_with
    rsplit_once apply_permissions apply_permission apply_base add_home append_permission_suffix
    add_grant_or_expand add_each authorized_grant_paths strip_path add_children add_deeper add_grant
    add_host_grants add_roots add_same create_missing expand_directory_children grant_at
    grant_canonical insert_entry merge_access sort_grants get_dir label_for_host_path labelled
    absolute_to_chroot_relative append_components clean_absolute_path new_grant path_overlaps
    relative_parts same_mount merge parse_access_suffix parse_permission parse_permissions
    suffix_access value_here value_loop component_cmp component_eq components_of is_under join_onto
    path_cmp path_eq path_le to_path has_infix strip_last strip_prefix text_eq is_whitespace
    trim_end trim_start line_list strip_return text_cmp split load_from_config_home load_line
    parse_xdg_user_dir_value unescape_xdg_value unescape_rest strip_suffix set_dir defaults
made = refl

abbrev home : FilePath
home = to_path (text "/home/u")

song :
    map_host_path filesystem (some home) (to_path (text "Music/x/../a.ogg"))
    ≡ ok (some (to_path (text "/home/u/Music/a.ogg")))
unfolding map_host_path normalize_path push_components best_match grant_map_host_path strip_path
    to_path join_onto
song = refl

-- A path that leaves the granted directory by `..` is not mapped.
outside : map_host_path filesystem none (to_path (text "/home/u/Music/../secret")) ≡ ok none
unfolding map_host_path normalize_path push_components best_match grant_map_host_path strip_path
    to_path join_onto
outside = refl

home_rooted : (dir : FilePath) → some home ≡ some dir → is_rooted dir ≡ true
unfolding to_path
home_rooted dir h =
    let same : home ≡ dir = ground (arith, h) in
    subst (λ (p : FilePath). is_rooted p ≡ true) same refl

from_metadata-IsAllowed_example : All (IsAllowed setting filesystem.permissions) filesystem.grants
from_metadata-IsAllowed_example = from_metadata-IsAllowed metadata setting made

map_host_path-IsBest_example :
    (absolute : FilePath) × (normalized : FilePath) × (absolute_path
        (some home)
        (to_path (text "Music/x/../a.ogg"))
      ≡ some absolute)
    × Reduces normalized absolute
    × IsNormalForm normalized
    × IsBest filesystem.grants normalized (some (to_path (text "/home/u/Music/a.ogg")))
map_host_path-IsBest_example =
    map_host_path-IsBest filesystem (some home) (to_path (text "Music/x/../a.ogg")) home_rooted song
