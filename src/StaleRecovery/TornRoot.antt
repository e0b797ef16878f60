-- ===== src/StaleRecovery/TornRoot.antt =====
-- The teardown of one root does nothing without a reason.
use mathlib.Core.Path.{subst}
use freebsd_flatpak.Prelude.{
  ok-inj, ℕ, ◌≡◌, ◌≢◌, refl, sym, ap, ◌∙◌, inl, inr, true, not, ◌==◌, List, [], ◌∷◌, Option, none,
  some, arith, if◌then◌else◌, keep, ok, All, All-append, Among, here, there, keep-Among, Bool-cases,
  >>=-eq-ok,
}
use freebsd_flatpak.Text.{Text, text, get}
use freebsd_flatpak.Paths.{FilePath, path_eq, is_under, path_eq→eq}
use freebsd_flatpak.StaleRecovery.{
  MountInfo, RunRecord, View, root_of, Action, remove_root, remove_record, ◌then◌,
  pids_referencing_roots, chroot_processes, mount_points_under, is_mounted, Round, processes_of,
  read_only_of, mounted_at, unmount_mountpoint, unmount_each, unmount_mountpoints, unmount_under,
  record_file, is_record_of, remove_records, remove_if_empty, tear_down, order_mounts_for_recovery,
  sandbox_mount_target, terminate_chroot_processes,
}
use freebsd_flatpak.StaleRecovery.Acts.{
  Acts, Acts-then, Acts-reading, Acts-terminate_chroot_processes, Acts-unmount_mountpoint_with,
}
use freebsd_flatpak.StaleRecovery.Reasons.{IsJustified, pids-Among, none_left, order_mounts-under}

module _ (round : Round) (root : FilePath) (v : View) where
  abbrev Why : Action → Type 0
  Why = IsJustified round root v

  own_apart :
      (pids : List ℕ) {pid : ℕ}
      → Among pid (keep (λ p. not (p == round.own)) pids)
      → pid ≢ round.own
  own_apart pids {pid} m e =
      let apart = (keep-Among (λ p. not (p == round.own)) pids {x = pid} m).1 in
      ground (arith, apart, e)

  Acts-terminate : Acts Why (terminate_chroot_processes (processes_of round root))
  unfolding chroot_processes
  Acts-terminate =
      Acts-terminate_chroot_processes Why (processes_of round root) (λ i pids read pid m s.
        let (references, seen, same) =
          >>=-eq-ok (round.snapshot i)
            (λ references. ok (chroot_processes round.own references root)) read in
        let listed : Among pid (chroot_processes round.own references root) =
          subst (Among pid) (sym (ok-inj same)) m in
        let (path, held, below) =
          pids-Among references root
            (keep-Among (λ p. not (p == round.own)) (pids_referencing_roots references (root ∷ []))
              listed).0 in
        (
          i,
          references,
          path,
          seen,
          held,
          below,
          own_apart (pids_referencing_roots references (root ∷ [])) listed,
        ))

  module _ (target : FilePath) (below : is_under target root ≡ true) where
    seen_mounted :
        (i : ℕ)
        → mounted_at round root target i ≡ ok true
        → (j : ℕ) × (mounts : List MountInfo) × (round.mounted_table target j ≡ ok mounts)
          × (is_mounted target mounts ≡ true)
    seen_mounted i h =
        let (mounts, read, same) =
          >>=-eq-ok (round.mounted_table target i) (λ mounts. ok (is_mounted target mounts)) h in
        (i, mounts, read, ok-inj same)

    Acts-unmount_mountpoint : Acts Why (
        unmount_mountpoint round root target
          (read_only_of round root (round.options_table target) target))
    unfolding unmount_mountpoint
    Acts-unmount_mountpoint =
        let allow = read_only_of round root (round.options_table target) target in
        Acts-reading Why (sandbox_mount_target round.has_info target) _ (λ (above, relative) _.
          Acts-reading Why (round.metadata above) _ (λ _ _.
            Acts-unmount_mountpoint_with Why target allow (mounted_at round root target)
              (round.try_unmount target) (λ i h. (below, seen_mounted i h, λ e. cc))
              (λ i h allowed. (below, seen_mounted i h, λ _. allowed))))

  All-unmount_each :
      (targets : List FilePath)
      → ((x : FilePath) → Among x targets → is_under x root ≡ true)
      → All Why (unmount_each round root targets).0
  unfolding unmount_each
  All-unmount_each [] below = tt
  All-unmount_each (target ∷ targets) below =
      All-append Why
        (unmount_mountpoint round root target
          (read_only_of round root (round.options_table target) target)).0
        (unmount_each round root targets).0
        (Acts-unmount_mountpoint target (below target (here refl)))
        (All-unmount_each targets (λ x m. below x (there m)))

  Acts-unmount_under : Acts Why (unmount_under round root)
  unfolding unmount_under unmount_mountpoints
  Acts-unmount_under = Acts-reading Why round.table _ (λ mounts _.
      All-unmount_each
        (order_mounts_for_recovery (keep (λ (m : MountInfo). is_under m.mountpoint root) mounts))
        (λ x m. order_mounts-under root mounts {x = x} m))

  record_file-inv :
      (r : RunRecord) {file : Text}
      → record_file round root r ≡ some file
      → (root_of r ≡ some root) × (get (text "_path") r ≡ some file)
  record_file-inv r {file} h = go (root_of r) refl h
    where
      go :
          (of : Option FilePath)
          → root_of r ≡ of
          → (if is_record_of round root of then get (text "_path") r else none) ≡ some file
          → (root_of r ≡ some root) × (get (text "_path") r ≡ some file)
      go none k h = cc
      go (some p) k h = elim (Bool-cases (path_eq p root)) [
        | inl same ↦ (k ∙ ap some (path_eq→eq p root same), rw same at h)
        | inr differs ↦ absurd (cc (rw differs at h))
      ]

  Acts-remove_records :
      (records : List RunRecord)
      → ((r : RunRecord) → Among r records → Among r v.records)
      → Acts Why (remove_records round root records)
  unfolding remove_records
  Acts-remove_records [] within = tt
  Acts-remove_records (r ∷ records) within =
      go (record_file round root r) refl (Acts-remove_records records (λ s m. within s (there m)))
    where
      go :
          (file : Option Text)
          → record_file round root r ≡ file
          → Acts Why (remove_records round root records)
          → Acts Why (elim file [
            | none ↦ remove_records round root records
            | some f ↦
                (remove_record f ∷ [], round.try_remove_record f)
                then (λ _. remove_records round root records)
          ])
      go none h later = later
      go (some f) h later =
          let (of, path) = record_file-inv r h in
          Acts-then Why (remove_record f ∷ [], round.try_remove_record f)
            (λ _. remove_records round root records) ((r, within r (here refl), of, path), tt)
            (λ _ _. later)

  Acts-remove_if_empty :
      (mounts : List MountInfo)
      → round.table_left ≡ ok mounts
      → (left : List FilePath) → mount_points_under root mounts ≡ left
      → Acts Why (remove_if_empty round root v.records left)
  unfolding remove_if_empty
  Acts-remove_if_empty mounts read (m ∷ left) h = tt
  Acts-remove_if_empty mounts read [] h =
      Acts-then Why (remove_root root ∷ [], round.try_remove_root)
        (λ _. remove_records round root v.records)
        ((refl, (mounts, read, none_left root mounts h)), tt)
        (λ _ _. Acts-remove_records v.records (λ r m. m))

  pub Acts-tear_down : Acts Why (tear_down round root v)
  unfolding tear_down
  Acts-tear_down =
      Acts-then Why (terminate_chroot_processes (processes_of round root)) _ Acts-terminate (λ _ _.
        Acts-then Why (unmount_under round root) _ Acts-unmount_under (λ _ _.
          Acts-reading Why round.table_left _ (λ mounts read.
            Acts-remove_if_empty mounts read (mount_points_under root mounts) refl)))
