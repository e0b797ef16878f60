-- ===== src/FilesystemPermissions/Tests.antt =====
-- Permissions of an application, and the theorems there.
use freebsd_flatpak.FlatpakMetadata.{header, value}
use freebsd_flatpak.Prelude.{◌≡◌, refl, true, false, List, [], ◌∷◌, ◌++◌, map, ok}
use freebsd_flatpak.Text.{
  split_once, trim, lines, has_infix, text_eq, rsplit_once, starts_with, Text, text,
}
use freebsd_flatpak.FilesystemPermissions.{
  read_only, read_write, FilesystemPermission, parse_access_suffix, parse_permissions,
  parse_filesystem_permissions,
}
use freebsd_flatpak.FilesystemPermissions.Suffixes.{
  parse_access_suffix_modes, parse_permissions-originals,
}

parse_access_suffix_modes_example :
    (parse_access_suffix (text "home" ++ text ":ro") ≡ ok (text "home", read_only, false))
    × (parse_access_suffix (text "home" ++ text ":rw") ≡ ok (text "home", read_write, false))
    × (parse_access_suffix (text "home" ++ text ":create") ≡ ok (text "home", read_write, true))
parse_access_suffix_modes_example = parse_access_suffix_modes (text "home")

abbrev items : List Text
items = text "!home" ∷ text "xdg-music:ro" ∷ text "/a:b" ∷ []

abbrev permissions : List FilesystemPermission
permissions =
    record { original = text "!home"; path = text "!home"; access = read_only; create = false }
    ∷ record {
      original = text "xdg-music:ro";
      path = text "xdg-music";
      access = read_only;
      create = false;
    }
    ∷ record { original = text "/a:b"; path = text "/a:b"; access = read_write; create = false }
    ∷ []

permissions_read : parse_permissions items ≡ ok permissions
unfolding parse_permissions starts_with rsplit_once text_eq has_infix
permissions_read = refl

from_metadata :
    parse_filesystem_permissions (text "[Context]\nfilesystems=!home; xdg-music:ro;;/a:b;")
    ≡ ok permissions
unfolding parse_filesystem_permissions value lines header trim split_once starts_with rsplit_once
    has_infix
from_metadata = refl

parse_permissions-originals_example : map (λ p. p.original) permissions ≡ items
parse_permissions-originals_example = parse_permissions-originals items permissions_read
