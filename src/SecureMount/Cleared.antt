-- ===== src/SecureMount/Cleared.antt =====
-- What has been checked before the helper does anything.
use mathlib.Core.Path.{subst}
use freebsd_flatpak.Prelude.{
  ℕ, ◌≡◌, ◌≢◌, ap, ◌∙◌, inl, inr, Bool, true, ◌&&◌, ◌==◌, not, List, [], ◌∷◌, arith, all, ok, ok_or,
  Among, here, there, Bool-cases, >>=-eq-ok, ok-inj, if-cases,
}
use freebsd_flatpak.Text.{Text, text, text_eq, text_eq→eq}
use freebsd_flatpak.Paths.{FilePath, to_path, is_rooted, strip_path, strip_path_sound}
use freebsd_flatpak.SecureMount.{
  FileType, regular, directory, other, Kernel, parent_of, file_name, guard, required_arg,
  reject_extra_args, parse_file_identity, verify, is_root_or_normal, validate_relative,
  validate_document_parts, open_absolute_dir, open_absolute_entry, is_named, validate_sandbox_root,
  validate_orphaned_document_mountpoint, Operation, tmpfs, special, unmount_target,
  unmount_orphan_document, access_of, force_of, expected_source, verify_if, nullfs_of, is_special,
  run_nullfs, run_tmpfs, run_special, run_unmount, run_operation, recover_orphaned_document_unmount,
  run_in_root, run_helper, not_private, not_root, root_caller, unsupported_special, not_nullfs,
  not_chroots, not_normalized, outside_chroots, no_parent,
}
use freebsd_flatpak.SecureMount.Rules.{IsBelow, IsInstance, IsCleared, IsEntry}
use freebsd_flatpak.SecureMount.Validated.{
  guard-ok, ok_or-ok, validate_relative-IsBelow, is_named-eq, open_absolute_entry-IsEntry,
  open_absolute_dir-IsReached, ok-pair, validate_sandbox_root-IsInstance,
  validate_document_parts-IsDocumentOf,
}

module _ (k : Kernel) where
  module _ (root : Text) (instance_of : IsInstance k root) (target : FilePath) where
    nullfs_of-IsCleared :
        (source : Text) (read_only : Bool) (fd : ℕ) (type : FileType) {operation : Operation}
        → is_rooted (to_path source) ≡ true
        → IsEntry k (to_path source) fd
        → k.fstat_type fd ≡ ok type
        → IsBelow target
        → nullfs_of root target source read_only type ≡ ok operation
        → IsCleared k operation
    nullfs_of-IsCleared source read_only fd directory rooted entry typed below h =
        subst (IsCleared k) (ok-inj h) (instance_of, below, (fd, rooted, entry, typed))
    nullfs_of-IsCleared source read_only fd regular rooted entry typed below h =
        subst (IsCleared k) (ok-inj h) (instance_of, below, (fd, rooted, entry, typed))
    nullfs_of-IsCleared source read_only fd other rooted entry typed below h = cc

    run_nullfs-IsCleared :
        (args : List Text) {operation : Operation}
        → run_nullfs k root target args ≡ ok operation
        → IsCleared k operation
    unfolding run_nullfs
    run_nullfs-IsCleared args {operation} h =
        let ((source, a1), e1, h1) = >>=-eq-ok (required_arg args (text "nullfs source")) _ h in
        let ((device, a2), e2, h2) =
          >>=-eq-ok (required_arg a1 (text "nullfs source device")) _ h1 in
        let ((inode, a3), e3, h3) = >>=-eq-ok (required_arg a2 (text "nullfs source inode")) _ h2 in
        let (expected, e4, h4) =
          >>=-eq-ok (expected_source (to_path root) (to_path source) device inode) _ h3 in
        let ((access, a4), e5, h5) = >>=-eq-ok (required_arg a3 (text "nullfs access mode")) _ h4 in
        let (read_only, e6, h6) = >>=-eq-ok (access_of access) _ h5 in
        let (u, e7, h7) = >>=-eq-ok (reject_extra_args a4) _ h6 in
        let (fd, e8, h8) = >>=-eq-ok (open_absolute_entry k (to_path source)) _ h7 in
        let (u2, e9, h9) = >>=-eq-ok (verify_if k expected fd) _ h8 in
        let (type, typed, h9b) = >>=-eq-ok (k.fstat_type fd) _ h9 in
        let (done, e10, h10) = >>=-eq-ok (nullfs_of root target source read_only type) _ h9b in
        let (u3, below, same) = >>=-eq-ok (validate_relative target) (λ _. ok done) h10 in
        let (rooted, entry) = open_absolute_entry-IsEntry k (to_path source) e8 in
        subst (IsCleared k) (ok-inj same) (
          nullfs_of-IsCleared source read_only fd type rooted entry typed
            (validate_relative-IsBelow target below) e10)

    run_tmpfs-IsCleared :
        (args : List Text) {operation : Operation}
        → run_tmpfs k root target args ≡ ok operation
        → IsCleared k operation
    unfolding run_tmpfs
    run_tmpfs-IsCleared args h =
        let ((options, a1), e1, h1) = >>=-eq-ok (required_arg args (text "tmpfs options")) _ h in
        let (u, e2, h2) = >>=-eq-ok (reject_extra_args a1) _ h1 in
        let (u2, below, same) =
          >>=-eq-ok (validate_relative target) (λ _. ok (tmpfs root target options)) h2 in
        subst (IsCleared k) (ok-inj same) (instance_of, validate_relative-IsBelow target below)

    is_special-Among :
        (type source : Text)
        → is_special type source ≡ true
        → Among type (text "devfs" ∷ text "fdescfs" ∷ text "linprocfs" ∷ text "linsysfs" ∷ [])
    is_special-Among type source h = elim (Bool-cases (text_eq type (text "devfs"))) [
      | inl e ↦ here (text_eq→eq type (text "devfs") e)
      | inr n ↦ elim (Bool-cases (text_eq type (text "fdescfs"))) [
        | inl e ↦ there (here (text_eq→eq type (text "fdescfs") e))
        | inr n2 ↦ elim (Bool-cases (text_eq type (text "linprocfs"))) [
          | inl e ↦ there (there (here (text_eq→eq type (text "linprocfs") e)))
          | inr n3 ↦ there (
              there
                (there (here (text_eq→eq type (text "linsysfs") (ground (arith, h, n, n2, n3))))))
        ]
      ]
    ]

    run_special-IsCleared :
        (args : List Text) {operation : Operation}
        → run_special k root target args ≡ ok operation
        → IsCleared k operation
    unfolding run_special
    run_special-IsCleared args h =
        let ((type, a1), e1, h1) =
          >>=-eq-ok (required_arg args (text "special filesystem type")) _ h in
        let ((source, a2), e2, h2) =
          >>=-eq-ok (required_arg a1 (text "special filesystem source")) _ h1 in
        let (u, e3, h3) = >>=-eq-ok (reject_extra_args a2) _ h2 in
        let (u2, e4, h4) = >>=-eq-ok (guard (is_special type source) unsupported_special) _ h3 in
        let (u3, below, same) =
          >>=-eq-ok (validate_relative target) (λ _. ok (special root target type)) h4 in
        subst (IsCleared k) (ok-inj same) (
          instance_of,
          validate_relative-IsBelow target below,
          is_special-Among type source (guard-ok (is_special type source) unsupported_special e4),
        )

    run_unmount-IsCleared :
        (args : List Text) {operation : Operation}
        → run_unmount k root target args ≡ ok operation
        → IsCleared k operation
    unfolding run_unmount
    run_unmount-IsCleared args h =
        let ((mode, a1), e1, h1) = >>=-eq-ok (required_arg args (text "unmount mode")) _ h in
        let (force, e2, h2) = >>=-eq-ok (force_of mode) _ h1 in
        let (u, e3, h3) = >>=-eq-ok (reject_extra_args a1) _ h2 in
        let (u2, below, same) =
          >>=-eq-ok (validate_relative target) (λ _. ok (unmount_target root target force)) h3 in
        subst (IsCleared k) (ok-inj same) (instance_of, validate_relative-IsBelow target below)

    run_operation-IsCleared :
        (name : Text) (args : List Text) {operation : Operation}
        → run_operation k root target name args ≡ ok operation
        → IsCleared k operation
    unfolding run_operation
    run_operation-IsCleared name args h = elim (if-cases (text_eq name (text "nullfs")) _ _ h) [
      | inl (c, e) ↦ run_nullfs-IsCleared args e
      | inr (c, h2) ↦ elim (if-cases (text_eq name (text "tmpfs")) _ _ h2) [
        | inl (c2, e) ↦ run_tmpfs-IsCleared args e
        | inr (c2, h3) ↦ elim (if-cases (text_eq name (text "special")) _ _ h3) [
          | inl (c3, e) ↦ run_special-IsCleared args e
          | inr (c3, h4) ↦ elim (if-cases (text_eq name (text "unmount")) _ _ h4) [
            | inl (c4, e) ↦ run_unmount-IsCleared args e
            | inr (c4, e) ↦ cc
          ]
        ]
      ]
    ]

  run_in_root-IsCleared :
      (name : Text) (args : List Text) {operation : Operation}
      → run_in_root k name args ≡ ok operation
      → IsCleared k operation
  unfolding run_in_root
  run_in_root-IsCleared name args h =
      let ((root, a1), e1, h1) = >>=-eq-ok (required_arg args (text "sandbox root")) _ h in
      let ((device, a2), e2, h2) = >>=-eq-ok (required_arg a1 (text "sandbox root device")) _ h1 in
      let ((inode, a3), e3, h3) = >>=-eq-ok (required_arg a2 (text "sandbox root inode")) _ h2 in
      let (expected, e4, h4) = >>=-eq-ok (parse_file_identity device inode) _ h3 in
      let ((target, a4), e5, h5) =
        >>=-eq-ok (required_arg a3 (text "sandbox-relative target")) _ h4 in
      let (fd, opened, h6) = >>=-eq-ok (open_absolute_dir k (to_path root)) _ h5 in
      let (u, e7, h7) = >>=-eq-ok (verify k expected fd (text "sandbox root")) _ h6 in
      let (u2, valid, h8) = >>=-eq-ok (validate_sandbox_root k (to_path root) fd) _ h7 in
      run_operation-IsCleared root (validate_sandbox_root-IsInstance k root fd opened valid)
        (to_path target) name a4 h8

  orphan-IsCleared :
      (chroots : FilePath) (fd : ℕ) (mountpoint : Text) (type : Text) (force : Bool) {u : Unit {0}}
      → open_absolute_dir k chroots ≡ ok fd
      → validate_orphaned_document_mountpoint k chroots fd (to_path mountpoint) ≡ ok u
      → k.mounted_type mountpoint ≡ ok type
      → text_eq type (text "nullfs") ≡ true
      → IsCleared k (unmount_orphan_document mountpoint force)
  unfolding validate_orphaned_document_mountpoint
  orphan-IsCleared chroots fd mountpoint type force opened h mounted same =
      let (canonical, e1, h1) = >>=-eq-ok (k.canonicalize chroots) _ h in
      let (u1, e2, h2) =
        >>=-eq-ok (guard (is_named k (file_name canonical) (text "chroots")) not_chroots) _ h1 in
      let (runtime, e3, h3) = >>=-eq-ok (ok_or (parent_of canonical) no_parent) _ h2 in
      let ((owner, private), e4, h4) = >>=-eq-ok (k.metadata runtime) _ h3 in
      let (identity, e5, h5) = >>=-eq-ok (k.fstat_identity fd) _ h4 in
      let (u2, e6, h6) =
        >>=-eq-ok (guard (owner == k.real_uid && private && identity.uid == k.real_uid) not_private)
          _ h5 in
      let (u3, e7, h7) =
        >>=-eq-ok
          (guard (is_rooted (to_path mountpoint) && all is_root_or_normal (to_path mountpoint))
            not_normalized)
          _ h6 in
      let (relative, e8, h8) =
        >>=-eq-ok (ok_or (strip_path (to_path mountpoint) canonical) outside_chroots)
          (λ r. validate_document_parts k fd r) h7 in
      let owners =
        guard-ok (owner == k.real_uid && private && identity.uid == k.real_uid) not_private e6 in
      let plain =
        guard-ok (is_rooted (to_path mountpoint) && all is_root_or_normal (to_path mountpoint))
          not_normalized e7 in
      let same_owner : owner ≡ k.real_uid = ground (arith, owners) in
      let is_private : private ≡ true = ground (arith, owners) in
      (
        fd,
        canonical,
        relative,
        (
          chroots,
          runtime,
          identity,
          open_absolute_dir-IsReached k chroots opened,
          e1,
          is_named-eq k (file_name canonical) (text "chroots")
              (guard-ok (is_named k (file_name canonical) (text "chroots")) not_chroots e2),
          ok_or-ok (parent_of canonical) no_parent e3,
          e4 ∙ ok-pair owner private same_owner is_private,
          e5,
          ground (arith, owners),
        ),
        ground (arith, plain),
        ground (arith, plain),
        strip_path_sound (to_path mountpoint) canonical
            (ok_or-ok (strip_path (to_path mountpoint) canonical) outside_chroots e8),
        validate_document_parts-IsDocumentOf k fd relative h8,
        mounted ∙ ap (λ (t : Text). ok t) (text_eq→eq type (text "nullfs") same),
      )

  recover-IsCleared :
      (args : List Text) {operation : Operation}
      → recover_orphaned_document_unmount k args ≡ ok operation
      → IsCleared k operation
  unfolding recover_orphaned_document_unmount
  recover-IsCleared args h =
      let ((chroots, a1), e1, h1) = >>=-eq-ok (required_arg args (text "chroots root")) _ h in
      let ((device, a2), e2, h2) = >>=-eq-ok (required_arg a1 (text "chroots root device")) _ h1 in
      let ((inode, a3), e3, h3) = >>=-eq-ok (required_arg a2 (text "chroots root inode")) _ h2 in
      let (expected, e4, h4) = >>=-eq-ok (parse_file_identity device inode) _ h3 in
      let ((mountpoint, a4), e5, h5) =
        >>=-eq-ok (required_arg a3 (text "orphaned document mountpoint")) _ h4 in
      let ((mode, a5), e6, h6) = >>=-eq-ok (required_arg a4 (text "unmount mode")) _ h5 in
      let (force, e7, h7) = >>=-eq-ok (force_of mode) _ h6 in
      let (u, e8, h8) = >>=-eq-ok (reject_extra_args a5) _ h7 in
      let (fd, e9, h9) = >>=-eq-ok (open_absolute_dir k (to_path chroots)) _ h8 in
      let (u2, e10, h10) = >>=-eq-ok (verify k expected fd (text "chroots root")) _ h9 in
      let (u3, valid, h11) =
        >>=-eq-ok
          (validate_orphaned_document_mountpoint k (to_path chroots) fd (to_path mountpoint)) _
          h10 in
      let (type, mounted, h12) = >>=-eq-ok (k.mounted_type mountpoint) _ h11 in
      let (u4, nullfs, same) =
        >>=-eq-ok (guard (text_eq type (text "nullfs")) not_nullfs)
          (λ _. ok (unmount_orphan_document mountpoint force)) h12 in
      subst (IsCleared k) (ok-inj same) (
        orphan-IsCleared (to_path chroots) fd mountpoint type force e9 valid mounted
          (guard-ok (text_eq type (text "nullfs")) not_nullfs nullfs))

-- The helper acts only with the rights of root and for a caller who is not root: in an instance of
-- the caller's below a directory that only the caller can use, at a path that leads down only,
-- where a mounted source was opened name by name with no link followed and a special filesystem is
-- one of four; or on a mounted document of the caller's, of an instance that does not exist, in the
-- directory of his instances below a directory that only he can use.
pub run_helper-IsCleared :
    (k : Kernel) (args : List Text) {operation : Operation}
    → run_helper k args ≡ ok operation
    → (k.effective_uid ≡ 0) × (k.real_uid ≢ 0) × IsCleared k operation
unfolding run_helper
run_helper-IsCleared k args h =
    let (u, e1, h1) = >>=-eq-ok (guard (k.effective_uid == 0) not_root) _ h in
    let (u2, e2, h2) = >>=-eq-ok (guard (not (k.real_uid == 0)) root_caller) _ h1 in
    let ((name, rest), e3, h3) = >>=-eq-ok (required_arg args (text "mount operation")) _ h2 in
    let as_root = guard-ok (k.effective_uid == 0) not_root e1 in
    let for_other = guard-ok (not (k.real_uid == 0)) root_caller e2 in
    (
      ground (arith, as_root),
      λ zero_uid. ground (arith, for_other, zero_uid),
      elim (if-cases (text_eq name (text "recover-orphaned-document-unmount")) _ _ h3) [
        | inl (c, e) ↦ recover-IsCleared k rest e
        | inr (c, e) ↦ run_in_root-IsCleared k name rest e
      ],
    )
