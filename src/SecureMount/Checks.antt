-- ===== src/SecureMount/Checks.antt =====
-- src/secure_mount.rs: what the helper checks of its arguments and of the files that they name.
use mathlib.Core.List.{reverse}
use freebsd_flatpak.Prelude.{
  ℕ, Bool, true, false, ◌&&◌, ◌==◌, not, List, [], ◌∷◌, Option, none, some, all, is_empty, Result,
  ok, err, ◌>>=◌, ok_or,
}
use freebsd_flatpak.Text.{Text, text, text_eq, parse_unsigned}
use freebsd_flatpak.Paths.{Component, root_dir, normal, FilePath, is_rooted, strip_path}

pub data HelperError : Type 0 where
  not_root root_caller : HelperError
  missing_argument invalid_number : Text → HelperError
  extra_argument unsupported_operation unsupported_special : HelperError
  invalid_access invalid_mode : HelperError
  changed : Text → HelperError
  not_absolute not_normalized no_final_component no_parent : HelperError
  not_relative : HelperError
  not_instance not_private not_caller_info : HelperError
  outside_staging bad_source : HelperError
  not_chroots outside_chroots not_document not_caller_document instance_exists not_nullfs :
      HelperError
  -- a failure of the system
  system : ℕ → HelperError

pub record FileIdentity : Type 0 where
  pub device : ℕ
  pub inode : ℕ
  pub uid : ℕ
  pub gid : ℕ

pub data FileType : Type 0 where
  regular directory other : FileType

-- the flags of an open that the helper depends on
pub data OpenFlag : Type 0 where
  o_directory o_nofollow o_resolve_beneath : OpenFlag

-- What the kernel answers. An open file is the number of its descriptor.
pub record Kernel : Type 0 where
  pub effective_uid : ℕ
  pub real_uid : ℕ
  -- `open` of `/`
  pub open_root : Result HelperError ℕ
  pub openat : ℕ → Text → List OpenFlag → Result HelperError ℕ
  pub fstat_identity : ℕ → Result HelperError FileIdentity
  pub fstat_type : ℕ → Result HelperError FileType
  pub canonicalize : FilePath → Result HelperError FilePath
  -- the owner, and whether no one else has a right (`mode & 0o077 == 0`)
  pub metadata : FilePath → Result HelperError (ℕ × Bool)
  -- the type of the filesystem that is mounted on a path
  pub mounted_type : Text → Result HelperError Text

-- `libc::ENOENT`
abbrev pub enoent : ℕ
enoent = 2

-- `u64::MAX`, and that of `uid_t`
abbrev pub u64_max : ℕ
u64_max = 18446744073709551615

abbrev pub u32_max : ℕ
u32_max = 4294967295

-- `Path::parent`
abbrev pub parent_of_back : List Component → Option FilePath
parent_of_back [] = none
parent_of_back (root_dir ∷ back) = none
parent_of_back (c ∷ back) = some (reverse back)

unfoldable pub parent_of : FilePath → Option FilePath
parent_of p = parent_of_back (reverse p)

-- `Path::file_name`
abbrev pub name_of_back : List Component → Option Text
name_of_back (normal name ∷ back) = some name
name_of_back _ = none

unfoldable pub file_name : FilePath → Option Text
file_name p = name_of_back (reverse p)

abbrev pub guard : Bool → HelperError → Result HelperError (Unit {0})
guard true e = ok tt
guard false e = err e

unfoldable pub required_arg : List Text → Text → Result HelperError (Text × List Text)
required_arg [] label = err (missing_argument label)
required_arg (arg ∷ args) label = ok (arg, args)

unfoldable pub reject_extra_args : List Text → Result HelperError (Unit {0})
reject_extra_args [] = ok tt
reject_extra_args (arg ∷ args) = err extra_argument

unfoldable pub parse_u64 : Text → Text → Result HelperError ℕ
parse_u64 value label = ok_or (parse_unsigned u64_max value) (invalid_number label)

-- `FileIdentity::parse`
unfoldable pub parse_file_identity : Text → Text → Result HelperError FileIdentity
parse_file_identity device inode = parse_u64 device (text "device") >>= λ d.
    parse_u64 inode (text "inode") >>= λ i. ok (record { device = d; inode = i; uid = 0; gid = 0 })

abbrev pub is_normal : Component → Bool
is_normal (normal name) = true
is_normal _ = false

abbrev pub is_root_or_normal : Component → Bool
is_root_or_normal root_dir = true
is_root_or_normal (normal name) = true
is_root_or_normal _ = false

unfoldable pub validate_relative : FilePath → Result HelperError (Unit {0})
validate_relative path = guard (not (is_empty path) && all is_normal path) not_relative

module _ (k : Kernel) where
  -- `FileIdentity::from_fd`, `file_type`
  abbrev pub from_fd : ℕ → Result HelperError FileIdentity
  from_fd fd = k.fstat_identity fd

  abbrev pub file_type : ℕ → Result HelperError FileType
  file_type fd = k.fstat_type fd

  -- `FileIdentity::verify`
  unfoldable pub verify : FileIdentity → ℕ → Text → Result HelperError (Unit {0})
  verify expected fd label = from_fd fd >>= λ actual.
      guard (expected.device == actual.device && expected.inode == actual.inode) (changed label)

  unfoldable pub open_child_dir : ℕ → Text → Result HelperError ℕ
  open_child_dir parent name =
      k.openat parent name (o_directory ∷ o_nofollow ∷ o_resolve_beneath ∷ [])

  unfoldable pub open_child_entry : ℕ → Text → Result HelperError ℕ
  open_child_entry parent name = k.openat parent name (o_nofollow ∷ o_resolve_beneath ∷ [])

  -- the loop of `open_absolute_dir`
  unfoldable pub open_components : ℕ → FilePath → Result HelperError ℕ
  open_components current [] = ok current
  open_components current (root_dir ∷ path) = open_components current path
  open_components current (normal name ∷ path) =
      open_child_dir current name >>= λ next. open_components next path
  open_components current (c ∷ path) = err not_normalized

  unfoldable pub open_absolute_dir : FilePath → Result HelperError ℕ
  open_absolute_dir path =
      guard (is_rooted path) not_absolute >>= λ _. k.open_root >>= λ root. open_components root path

  unfoldable pub open_absolute_entry : FilePath → Result HelperError ℕ
  open_absolute_entry path = guard (is_rooted path) not_absolute >>= λ _.
      ok_or (parent_of path) no_parent >>= λ parent.
      ok_or (file_name path) no_final_component >>= λ name.
      open_absolute_dir parent >>= λ dir. open_child_entry dir name

  -- the loop of `open_relative_dir`
  unfoldable pub open_names : ℕ → FilePath → Result HelperError ℕ
  open_names current [] = ok current
  open_names current (normal name ∷ path) =
      open_child_dir current name >>= λ next. open_names next path
  open_names current (c ∷ path) = err not_relative

  unfoldable pub open_relative_dir : ℕ → FilePath → Result HelperError ℕ
  open_relative_dir start path = validate_relative path >>= λ _. open_names start path

  abbrev pub is_named : Option Text → Text → Bool
  is_named none name = false
  is_named (some n) name = text_eq n name

  abbrev pub is_some : Option Text → Bool
  is_some none = false
  is_some (some n) = true

  abbrev pub is_regular : FileType → Bool
  is_regular regular = true
  is_regular directory = false
  is_regular other = false

  unfoldable pub validate_sandbox_root : FilePath → ℕ → Result HelperError (Unit {0})
  validate_sandbox_root root root_fd = k.canonicalize root >>= λ canonical.
      ok_or (parent_of canonical) no_parent >>= λ app.
      ok_or (parent_of app) no_parent >>= λ chroots.
      ok_or (parent_of chroots) no_parent >>= λ runtime.
      guard
        (is_named (file_name chroots) (text "chroots")
          && is_some (file_name canonical)
          && is_some (file_name app))
        not_instance
      >>= λ _. k.metadata runtime >>= λ (owner, private). from_fd root_fd >>= λ identity.
          guard (owner == k.real_uid && private && identity.uid == k.real_uid) not_private >>= λ _.
          k.openat root_fd (text ".flatpak-info") (o_nofollow ∷ []) >>= λ info_fd.
          from_fd info_fd >>= λ info. file_type info_fd >>= λ type.
          guard (is_regular type && info.uid == k.real_uid) not_caller_info

  abbrev pub is_uid : Option ℕ → Bool
  is_uid none = false
  is_uid (some n) = n == k.real_uid

  -- only an instance that does not exist is gone
  abbrev pub absent : Result HelperError ℕ → Result HelperError (Unit {0})
  absent (ok fd) = err instance_exists
  absent (err (system code)) = guard (code == enoent) (system code)
  absent (err e) = err e

  -- the parts of a document's path behind the chroots
  unfoldable pub validate_document_parts : ℕ → FilePath → Result HelperError (Unit {0})
  validate_document_parts chroots_fd
        (normal app
          ∷ normal instance_id
          ∷ normal run
          ∷ normal user
          ∷ normal uid
          ∷ normal doc
          ∷ normal grant
          ∷ normal file
          ∷ []) =
      guard
        (text_eq run (text "run")
          && text_eq user (text "user")
          && text_eq doc (text "doc")
          && is_uid (parse_unsigned u32_max uid))
        not_caller_document
      >>= λ _. absent (open_relative_dir chroots_fd (normal app ∷ normal instance_id ∷ []))
  validate_document_parts chroots_fd _ = err not_document

  unfoldable pub validate_orphaned_document_mountpoint :
      FilePath → ℕ → FilePath → Result HelperError (Unit {0})
  validate_orphaned_document_mountpoint chroots chroots_fd mountpoint =
      k.canonicalize chroots >>= λ canonical.
      guard (is_named (file_name canonical) (text "chroots")) not_chroots >>= λ _.
      ok_or (parent_of canonical) no_parent >>= λ runtime.
      k.metadata runtime >>= λ (owner, private). from_fd chroots_fd >>= λ identity.
      guard (owner == k.real_uid && private && identity.uid == k.real_uid) not_private >>= λ _.
      guard (is_rooted mountpoint && all is_root_or_normal mountpoint) not_normalized >>= λ _.
      ok_or (strip_path mountpoint canonical) outside_chroots >>= λ relative.
      validate_document_parts chroots_fd relative
