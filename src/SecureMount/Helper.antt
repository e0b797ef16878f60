-- ===== src/SecureMount/Helper.antt =====
-- src/secure_mount.rs: from the helper's arguments to what it does.
use freebsd_flatpak.Prelude.{
  ℕ, ◌==◌, not, Bool, true, false, ◌&&◌, ◌||◌, List, Option, none, some, if◌then◌else◌, Result, ok,
  err, ◌>>=◌,
}
use freebsd_flatpak.Text.{Text, text, text_eq}
use freebsd_flatpak.Paths.{FilePath, to_path, is_under, join_onto}
use freebsd_flatpak.SecureMount.Checks.{
  HelperError, not_root, root_caller, unsupported_operation, unsupported_special, invalid_access,
  invalid_mode, outside_staging, bad_source, not_nullfs, FileIdentity, FileType, regular, directory,
  other, Kernel, guard, required_arg, reject_extra_args, parse_file_identity, verify, file_type,
  validate_relative, open_absolute_dir, open_absolute_entry, validate_sandbox_root,
  validate_orphaned_document_mountpoint,
}

-- What the helper does in the end, in the sandbox's root where it has one.
pub data Operation : Type 0 where
  nullfs_directory nullfs_file :
      (root : Text) → (target : FilePath) → (source : Text) → (read_only : Bool) → Operation
  tmpfs : (root : Text) → (target : FilePath) → (options : Text) → Operation
  special : (root : Text) → (target : FilePath) → (type : Text) → Operation
  unmount_target : (root : Text) → (target : FilePath) → (force : Bool) → Operation
  unmount_orphan_document : (mountpoint : Text) → (force : Bool) → Operation

-- `PRIVATE_SOURCE_ROOT`
abbrev pub private_source_root : Text
private_source_root = text ".freebsd-flatpak-mount-sources"

unfoldable pub access_of : Text → Result HelperError Bool
access_of mode =
    if text_eq mode (text "ro")
    then ok true
    else if text_eq mode (text "rw")
    then ok false
    else err invalid_access

unfoldable pub force_of : Text → Result HelperError Bool
force_of mode =
    if text_eq mode (text "normal")
    then ok false
    else if text_eq mode (text "force")
    then ok true
    else err invalid_mode

-- the identity that the source must have; none where it is in the private staging directory
unfoldable pub expected_source :
    FilePath → FilePath → Text → Text → Result HelperError (Option FileIdentity)
expected_source root source device inode =
    if text_eq device (text "-") && text_eq inode (text "-")
    then (guard (is_under source (join_onto root (to_path private_source_root))) outside_staging
        >>= λ _. ok none)
    else (parse_file_identity device inode >>= λ identity. ok (some identity))

abbrev pub verify_if : Kernel → Option FileIdentity → ℕ → Result HelperError (Unit {0})
verify_if k none fd = ok tt
verify_if k (some expected) fd = verify k expected fd (text "nullfs source")

abbrev pub nullfs_of : Text → FilePath → Text → Bool → FileType → Result HelperError Operation
nullfs_of root target source read_only directory =
    ok (nullfs_directory root target source read_only)
nullfs_of root target source read_only regular = ok (nullfs_file root target source read_only)
nullfs_of root target source read_only other = err bad_source

-- the pairs of type and source
abbrev pub is_special : Text → Text → Bool
is_special type source =
    text_eq type source
    && (text_eq type (text "devfs")
        || text_eq type (text "fdescfs")
        || text_eq type (text "linprocfs")
        || text_eq type (text "linsysfs"))

module _ (k : Kernel) where
  -- the operations, each behind the arguments for the root and the target
  module _ (root : Text) (target : FilePath) where
    unfoldable pub run_nullfs : List Text → Result HelperError Operation
    run_nullfs args = required_arg args (text "nullfs source") >>= λ (source, args).
        required_arg args (text "nullfs source device") >>= λ (device, args).
        required_arg args (text "nullfs source inode") >>= λ (inode, args).
        expected_source (to_path root) (to_path source) device inode >>= λ expected.
        required_arg args (text "nullfs access mode") >>= λ (access, args).
        access_of access >>= λ read_only. reject_extra_args args >>= λ _.
        open_absolute_entry k (to_path source) >>= λ source_fd.
        verify_if k expected source_fd >>= λ _. file_type k source_fd >>= λ type.
        nullfs_of root target source read_only type >>= λ operation.
        validate_relative target >>= λ _. ok operation

    unfoldable pub run_tmpfs : List Text → Result HelperError Operation
    run_tmpfs args = required_arg args (text "tmpfs options") >>= λ (options, args).
        reject_extra_args args >>= λ _.
        validate_relative target >>= λ _. ok (tmpfs root target options)

    unfoldable pub run_special : List Text → Result HelperError Operation
    run_special args = required_arg args (text "special filesystem type") >>= λ (type, args).
        required_arg args (text "special filesystem source") >>= λ (source, args).
        reject_extra_args args >>= λ _. guard (is_special type source) unsupported_special >>= λ _.
        validate_relative target >>= λ _. ok (special root target type)

    unfoldable pub run_unmount : List Text → Result HelperError Operation
    run_unmount args = required_arg args (text "unmount mode") >>= λ (mode, args).
        force_of mode >>= λ force. reject_extra_args args >>= λ _.
        validate_relative target >>= λ _. ok (unmount_target root target force)

    unfoldable pub run_operation : Text → List Text → Result HelperError Operation
    run_operation operation args =
        if text_eq operation (text "nullfs")
        then run_nullfs args
        else if text_eq operation (text "tmpfs")
        then run_tmpfs args
        else if text_eq operation (text "special")
        then run_special args
        else if text_eq operation (text "unmount")
        then run_unmount args
        else err unsupported_operation

  -- `recover_orphaned_document_unmount`
  unfoldable pub recover_orphaned_document_unmount : List Text → Result HelperError Operation
  recover_orphaned_document_unmount args =
      required_arg args (text "chroots root") >>= λ (chroots, args).
      required_arg args (text "chroots root device") >>= λ (device, args).
      required_arg args (text "chroots root inode") >>= λ (inode, args).
      parse_file_identity device inode >>= λ expected.
      required_arg args (text "orphaned document mountpoint") >>= λ (mountpoint, args).
      required_arg args (text "unmount mode") >>= λ (mode, args). force_of mode >>= λ force.
      reject_extra_args args >>= λ _. open_absolute_dir k (to_path chroots) >>= λ chroots_fd.
      verify k expected chroots_fd (text "chroots root") >>= λ _.
      validate_orphaned_document_mountpoint k (to_path chroots) chroots_fd (to_path mountpoint)
      >>= λ _. k.mounted_type mountpoint >>= λ type.
          guard (text_eq type (text "nullfs")) not_nullfs >>= λ _.
          ok (unmount_orphan_document mountpoint force)

  -- the operations in a sandbox
  unfoldable pub run_in_root : Text → List Text → Result HelperError Operation
  run_in_root operation args = required_arg args (text "sandbox root") >>= λ (root, args).
      required_arg args (text "sandbox root device") >>= λ (device, args).
      required_arg args (text "sandbox root inode") >>= λ (inode, args).
      parse_file_identity device inode >>= λ expected.
      required_arg args (text "sandbox-relative target") >>= λ (target, args).
      open_absolute_dir k (to_path root) >>= λ root_fd.
      verify k expected root_fd (text "sandbox root") >>= λ _.
      validate_sandbox_root k (to_path root) root_fd >>= λ _.
      run_operation root (to_path target) operation args

  -- `run_helper`, up to the operation itself
  unfoldable pub run_helper : List Text → Result HelperError Operation
  run_helper args = guard (k.effective_uid == 0) not_root >>= λ _.
      guard (not (k.real_uid == 0)) root_caller >>= λ _.
      required_arg args (text "mount operation") >>= λ (operation, args).
      (if text_eq operation (text "recover-orphaned-document-unmount")
        then recover_orphaned_document_unmount args
        else run_in_root operation args)
