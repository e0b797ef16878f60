-- ===== src/StaleRecovery/Recover.antt =====
-- src/sandbox/stale_sandbox_recovery.rs: the recovery, root by root.
use freebsd_flatpak.Prelude.{
  ℕ, zero, suc, Bool, true, false, not, List, [], ◌∷◌, ◌++◌, Option, none, some, if◌then◌else◌,
  keep, Result, ok, err, ◌>>=◌,
}
use freebsd_flatpak.Text.{Text, text, get}
use freebsd_flatpak.Paths.{FilePath, path_eq, path_contains, is_under}
use freebsd_flatpak.StaleRecovery.Views.{
  MountInfo, RunRecord, RecoverError, recovery_failed, outside, View, root_of, sandbox_roots,
}
use freebsd_flatpak.StaleRecovery.Active.{active_sandbox_roots}
use freebsd_flatpak.StaleRecovery.Topological.{
  order_sandbox_roots_for_recovery, order_mounts_for_recovery,
}
use freebsd_flatpak.StaleRecovery.Teardown.{
  Action, remove_root, remove_record, unmount_document, Outcome, ◌then◌, reading, chroot_processes,
  terminate_chroot_processes, unmount_mountpoint_with, sandbox_mount_target, mount_points_under,
  is_mounted, mountpoint_is_read_only, is_orphaned_regular_document_mount,
}

-- What the system answers while one root is torn down. What is read again and again is numbered.
pub record Round : Type 0 where
  pub view : Result RecoverError View
  -- the number of the process itself
  pub own : ℕ
  pub snapshot : ℕ → Result RecoverError (List (ℕ × FilePath))
  pub has_info : FilePath → Bool
  -- `mount_infos` in `unmount_under`, in `mountpoint_is_read_only`, in `is_mounted` and after all
  pub table : Result RecoverError (List MountInfo)
  pub options_table : FilePath → Result RecoverError (List MountInfo)
  pub mounted_table : FilePath → ℕ → Result RecoverError (List MountInfo)
  pub table_left : Result RecoverError (List MountInfo)
  -- `fs::metadata` of a root, `umount`, and the removals
  pub metadata : FilePath → Result RecoverError (Unit {0})
  pub try_unmount : FilePath → Bool → Result RecoverError (Unit {0})
  pub try_remove_root : Result RecoverError (Unit {0})
  pub try_remove_record : Text → Result RecoverError (Unit {0})

abbrev pub done : Outcome (Unit {0})
done = ([], ok tt)

module _ (round : Round) (root : FilePath) where
  abbrev pub processes_of : ℕ → Result RecoverError (List ℕ)
  processes_of i =
      round.snapshot i >>= λ references. ok (chroot_processes round.own references root)

  abbrev pub read_only_of : Result RecoverError (List MountInfo) → FilePath → Bool
  read_only_of (err e) target = false
  read_only_of (ok mounts) target = mountpoint_is_read_only target mounts

  abbrev pub mounted_at : FilePath → ℕ → Result RecoverError Bool
  mounted_at target i = round.mounted_table target i >>= λ mounts. ok (is_mounted target mounts)

  unfoldable pub unmount_mountpoint : FilePath → Bool → Outcome (Unit {0})
  unmount_mountpoint target allow_force =
      reading (sandbox_mount_target round.has_info target) (λ (above, relative).
        reading (round.metadata above) (λ _.
          unmount_mountpoint_with target allow_force (mounted_at target)
            (round.try_unmount target)))

  -- the number of the errors, of each mount point in turn
  abbrev pub count_error : Result RecoverError (Unit {0}) → ℕ → ℕ
  count_error (ok _) n = n
  count_error (err e) n = suc n

  unfoldable pub unmount_each : List FilePath → List Action × ℕ
  unmount_each [] = ([], 0)
  unmount_each (target ∷ targets) =
      let (acts, result) =
        unmount_mountpoint target (read_only_of (round.options_table target) target) in
      let (later, errors) = unmount_each targets in (acts ++ later, count_error result errors)

  abbrev pub unless_failed : ℕ → Result RecoverError (Unit {0})
  unless_failed zero = ok tt
  unless_failed (suc n) = err (recovery_failed (suc n))

  unfoldable pub unmount_mountpoints : List FilePath → Outcome (Unit {0})
  unmount_mountpoints targets =
      let (acts, errors) = unmount_each targets in (acts, unless_failed errors)

  unfoldable pub unmount_under : Outcome (Unit {0})
  unmount_under = reading round.table (λ mounts.
      unmount_mountpoints
        (order_mounts_for_recovery (keep (λ (m : MountInfo). is_under m.mountpoint root) mounts)))

  abbrev pub is_record_of : Option FilePath → Bool
  is_record_of none = false
  is_record_of (some p) = path_eq p root

  -- the record's own file
  abbrev pub record_file : RunRecord → Option Text
  record_file r = if is_record_of (root_of r) then get (text "_path") r else none

  unfoldable pub remove_records : List RunRecord → Outcome (Unit {0})
  remove_records [] = done
  remove_records (r ∷ records) =
      let later = remove_records records in
      elim (record_file r) [
        | none ↦ later
        | some file ↦ (remove_record file ∷ [], round.try_remove_record file) then (λ _. later)
      ]

  unfoldable pub remove_if_empty : List RunRecord → List FilePath → Outcome (Unit {0})
  remove_if_empty records [] =
      (remove_root root ∷ [], round.try_remove_root) then (λ _. remove_records records)
  remove_if_empty records (_ ∷ _) = done

  unfoldable pub tear_down : View → Outcome (Unit {0})
  tear_down v = terminate_chroot_processes processes_of then (λ _. unmount_under then (λ _.
      reading round.table_left (λ left. remove_if_empty v.records (mount_points_under root left))))

  -- the body of the loop; `none` is excluded by `Held.active_sandbox_roots_iff`
  abbrev pub unless_active : View → Option (List FilePath) → Outcome (Unit {0})
  unless_active v none = ([], err (outside 0))
  unless_active v (some active) = if path_contains active root then done else tear_down v

  unfoldable pub recover_root : Outcome (Unit {0})
  recover_root = reading round.view (λ v. reading (active_sandbox_roots v) (unless_active v))

abbrev pub difference : List FilePath → List FilePath → List FilePath
difference roots active = keep (λ root. not (path_contains active root)) roots

module _ (rounds : FilePath → Round) where
  unfoldable pub recover_roots : List FilePath → Outcome (Unit {0})
  recover_roots [] = done
  recover_roots (root ∷ roots) =
      let later = recover_roots roots in recover_root (rounds root) root then (λ _. later)

  unfoldable pub recover_stale : View → Option (List FilePath) → Outcome (Unit {0})
  recover_stale v none = ([], err (outside 0))
  recover_stale v (some active) =
      recover_roots (order_sandbox_roots_for_recovery v (difference (sandbox_roots v) active))

-- What the system answers to `recover_orphaned_document_mounts`.
pub record Documents : Type 0 where
  pub metadata : Result RecoverError (Unit {0})
  pub table : Result RecoverError (List MountInfo)
  pub exists : FilePath → Bool
  pub try_unmount : FilePath → Bool → Result RecoverError (Unit {0})
  pub mounted_table : FilePath → Result RecoverError (List MountInfo)

module _ (chroots : FilePath) (documents : Documents) where
  unfoldable pub unmount_orphan : FilePath → Outcome (Unit {0})
  unmount_orphan target = elim (documents.try_unmount target false) [
    | ok _ ↦ (unmount_document target false ∷ [], ok tt)
    | err e ↦ (unmount_document target false ∷ [], documents.mounted_table target) then (λ mounts.
        if is_mounted target mounts
        then (unmount_document target true ∷ [], documents.try_unmount target true)
        else done)
  ]

  abbrev pub unmount_if_orphan : FilePath → Outcome (Unit {0}) → Bool → Outcome (Unit {0})
  unmount_if_orphan target later true = unmount_orphan target then (λ _. later)
  unmount_if_orphan target later false = later

  unfoldable pub unmount_orphans : List FilePath → Outcome (Unit {0})
  unmount_orphans [] = done
  unmount_orphans (target ∷ targets) =
      unmount_if_orphan target (unmount_orphans targets)
        (is_orphaned_regular_document_mount documents.exists chroots target)

  unfoldable pub recover_orphaned_document_mounts : Outcome (Unit {0})
  recover_orphaned_document_mounts =
      reading documents.metadata (λ _.
        reading documents.table (λ mounts. unmount_orphans (mount_points_under chroots mounts)))

-- `ensure_layout`, the orphans, the roots, and the orphans again
unfoldable pub recover_stale_mounts :
    FilePath
    → Result RecoverError (Unit {0})
    → Documents
    → Result RecoverError View
    → (FilePath → Round)
    → Documents
    → Outcome (Unit {0})
recover_stale_mounts chroots ensure_layout before first rounds after = reading ensure_layout (λ _.
    recover_orphaned_document_mounts chroots before then (λ _.
      reading first (λ v. reading (active_sandbox_roots v) (recover_stale rounds v))
      then (λ _. recover_orphaned_document_mounts chroots after)))
