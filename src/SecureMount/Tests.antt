-- ===== src/SecureMount/Tests.antt =====
-- A mount of a directory, asked for by a user.
use freebsd_flatpak.Prelude.{if◌then◌else◌, ◌==◌, err, ◌≡◌, ◌≢◌, refl, true, List, [], ◌∷◌, ok}
use freebsd_flatpak.Text.{
  split, parse_up_to, parse_digits, is_ascii_digit, strip_prefix, starts_with, parse_unsigned,
  text_eq, Text, text,
}
use freebsd_flatpak.Paths.{strip_path, join_onto, is_under, components_of, component_eq, to_path}
use freebsd_flatpak.SecureMount.{
  open_relative_dir, open_names, open_child_entry, open_child_dir, open_components, system, enoent,
  not_caller_document, unmount_orphan_document, run_unmount, run_tmpfs, run_special,
  recover_orphaned_document_unmount, force_of, validate_relative,
  validate_orphaned_document_mountpoint, validate_document_parts, open_absolute_entry,
  reject_extra_args, access_of, expected_source, run_nullfs, run_operation, file_name, parent_of,
  validate_sandbox_root, verify, open_absolute_dir, parse_u64, parse_file_identity, run_in_root,
  required_arg, FileIdentity, regular, directory, Kernel, Operation, nullfs_directory, run_helper,
}
use freebsd_flatpak.SecureMount.Rules.{IsCleared}
use freebsd_flatpak.SecureMount.Cleared.{run_helper-IsCleared}

abbrev own : FileIdentity
own = record { device = 1; inode = 2; uid = 1001; gid = 1001 }

abbrev kernel : Kernel
kernel = record {
  effective_uid = 0;
  real_uid = 1001;
  open_root = ok 3;
  openat = λ fd name flags.
      if text_eq name (text ".flatpak-info")
      then ok 5
      else if text_eq name (text "gone")
      then err (system enoent)
      else ok 4;
  fstat_identity = λ fd. ok own;
  fstat_type = λ fd. if fd == 5 then ok regular else ok directory;
  canonicalize = λ p. ok p;
  metadata = λ p. ok (1001, true);
  mounted_type = λ m. ok (text "nullfs");
}

abbrev arguments : List Text
arguments =
    text "nullfs"
    ∷ text "/u/chroots/a/1"
    ∷ text "1"
    ∷ text "2"
    ∷ text "usr/share"
    ∷ text "/usr/share"
    ∷ text "1"
    ∷ text "2"
    ∷ text "ro"
    ∷ []

abbrev operation : Operation
operation =
    nullfs_directory (text "/u/chroots/a/1") (to_path (text "usr/share")) (text "/usr/share") true

mounts : run_helper kernel arguments ≡ ok operation
unfolding run_helper required_arg text_eq run_in_root parse_file_identity parse_u64 parse_unsigned
    open_absolute_dir to_path verify validate_sandbox_root parent_of file_name run_operation
    run_nullfs expected_source access_of reject_extra_args component_eq components_of is_under
    join_onto strip_path open_absolute_entry validate_document_parts
    validate_orphaned_document_mountpoint validate_relative force_of
    recover_orphaned_document_unmount run_special run_tmpfs run_unmount starts_with strip_prefix
    is_ascii_digit parse_digits parse_up_to split open_components open_child_dir open_child_entry
mounts = refl

abbrev orphan : Text
orphan = text "/u/chroots/a/gone/run/user/1001/doc/g/f"

-- A document of an instance that is gone may be unmounted; one of another user's may not.
unmounts :
    run_helper kernel (
      text "recover-orphaned-document-unmount"
      ∷ text "/u/chroots"
      ∷ text "1"
      ∷ text "2"
      ∷ orphan
      ∷ text "force"
      ∷ [])
    ≡ ok (unmount_orphan_document orphan true)
unfolding run_helper required_arg text_eq recover_orphaned_document_unmount parse_file_identity
    parse_u64 parse_unsigned force_of reject_extra_args open_absolute_dir to_path open_components
    open_child_dir verify validate_orphaned_document_mountpoint file_name parent_of strip_path
    component_eq components_of is_under join_onto open_absolute_entry open_child_entry open_names
    open_relative_dir validate_document_parts validate_relative validate_sandbox_root access_of
    expected_source run_in_root run_nullfs run_operation run_special run_tmpfs run_unmount
    starts_with strip_prefix is_ascii_digit parse_digits parse_up_to split
unmounts = refl

refuses :
    run_helper kernel (
      text "recover-orphaned-document-unmount"
      ∷ text "/u/chroots"
      ∷ text "1"
      ∷ text "2"
      ∷ text "/u/chroots/a/gone/run/user/1002/doc/g/f"
      ∷ text "force"
      ∷ [])
    ≡ err not_caller_document
unfolding run_helper required_arg text_eq recover_orphaned_document_unmount parse_file_identity
    parse_u64 parse_unsigned force_of reject_extra_args open_absolute_dir to_path open_components
    open_child_dir verify validate_orphaned_document_mountpoint file_name parent_of strip_path
    component_eq components_of is_under join_onto open_absolute_entry open_child_entry open_names
    open_relative_dir validate_document_parts validate_relative validate_sandbox_root access_of
    expected_source run_in_root run_nullfs run_operation run_special run_tmpfs run_unmount
    starts_with strip_prefix is_ascii_digit parse_digits parse_up_to split
refuses = refl

run_helper-IsCleared_example :
    (kernel.effective_uid ≡ 0) × (kernel.real_uid ≢ 0) × IsCleared kernel operation
run_helper-IsCleared_example = run_helper-IsCleared kernel arguments mounts
