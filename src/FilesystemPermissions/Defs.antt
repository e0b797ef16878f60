-- ===== src/FilesystemPermissions/Defs.antt =====
-- src/sandbox/filesystem_permissions.rs: reading `filesystems` of the metadata's `[Context]`.
use freebsd_flatpak.Prelude.{
  Bool, true, false, not, List, [], ◌∷◌, map, none, some, if◌then◌else◌, is_empty, keep, Result, ok,
  err, ◌>>=◌,
}
use freebsd_flatpak.Text.{Text, text, text_eq, trim, split, rsplit_once, starts_with, has_infix}
use freebsd_flatpak.FlatpakMetadata.{value}

pub data AccessMode : Type 0 where
  read_only read_write : AccessMode

-- `AccessMode::merge`
unfoldable pub merge : AccessMode → AccessMode → AccessMode
merge read_write other = read_write
merge read_only other = other

pub record FilesystemPermission : Type 0 where
  pub original : Text
  pub path : Text
  pub access : AccessMode
  pub create : Bool

pub data PermissionError : Type 0 where
  unsupported_suffix : Text → PermissionError

abbrev pub Suffixed : Type 0
Suffixed = Text × AccessMode × Bool

unfoldable pub suffix_access : Text → Text → Text → Result PermissionError Suffixed
suffix_access raw path suffix =
    if text_eq suffix (text "ro")
    then ok (path, read_only, false)
    else if text_eq suffix (text "rw")
    then ok (path, read_write, false)
    else if text_eq suffix (text "create")
    then ok (path, read_write, true)
    else if has_infix path (text "/")
    then ok (raw, read_write, false)
    else err (unsupported_suffix raw)

unfoldable pub parse_access_suffix : Text → Result PermissionError Suffixed
unfolding suffix_access
parse_access_suffix raw = elim (rsplit_once raw b':') [
  | none ↦ ok (raw, read_write, false)
  | some (path, suffix) ↦ suffix_access raw path suffix
]

-- the body of the loop
unfoldable pub parse_permission : Text → Result PermissionError FilesystemPermission
unfolding parse_access_suffix
parse_permission raw =
    if starts_with raw (text "!")
    then ok (record { original = raw; path = raw; access = read_only; create = false })
    else parse_access_suffix raw >>= λ (path, access, create).
        ok (record { original = raw; path = path; access = access; create = create })

unfoldable pub parse_permissions : List Text → Result PermissionError (List FilesystemPermission)
unfolding parse_permission
parse_permissions [] = ok []
parse_permissions (raw ∷ items) = do
  permission ← parse_permission raw
  later ← parse_permissions items
  ok (permission ∷ later)

unfoldable pub parse_filesystem_permissions :
    Text → Result PermissionError (List FilesystemPermission)
unfolding parse_permissions
parse_filesystem_permissions metadata =
    elim (value metadata (text "Context") (text "filesystems")) [
      | none ↦ ok []
      | some items ↦
          parse_permissions (keep (λ item. not (is_empty item)) (map trim (split items b';')))
    ]
