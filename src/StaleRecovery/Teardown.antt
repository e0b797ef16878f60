-- ===== src/StaleRecovery/Teardown.antt =====
-- src/sandbox/stale_sandbox_recovery.rs, src/sandbox/process_supervision.rs: what is done to the
-- processes and the mounts of one root.
use freebsd_flatpak.Prelude.{
  ltb, ℕ, zero, suc, ◌+◌, Bool, true, false, ◌&&◌, ◌==◌, not, List, [], ◌∷◌, ◌++◌, map, Option,
  none, some, if◌then◌else◌, any, keep, find, Result, ok, err,
}
use freebsd_flatpak.Text.{Text, text, text_eq}
use freebsd_flatpak.Paths.{normal, FilePath, path_eq, is_under, strip_path, join_onto, ancestors}
use freebsd_flatpak.StaleRecovery.Views.{
  MountInfo, RecoverError, is_read_only, survived, not_below_root, outside_root, is_root,
}
use freebsd_flatpak.StaleRecovery.Topological.{deeper_le}

pub data Signal : Type 0 where
  sigterm sigkill : Signal

-- What the teardown of a root does to the system.
pub data Action : Type 0 where
  send : (pid : ℕ) → Signal → Action
  unmount : (target : FilePath) → (force : Bool) → Action
  remove_root : FilePath → Action
  remove_record : Text → Action
  unmount_document : (target : FilePath) → (force : Bool) → Action

-- The actions done, and the result.
abbrev pub Outcome : Type 0 → Type 0
Outcome A = List Action × Result RecoverError A

-- `?` on a call that acts
infixl 5 ◌then◌
abbrev pub ◌then◌ : {A : Type 0} {B : Type 0} → Outcome A → (A → Outcome B) → Outcome B
(done, err e) then next = (done, err e)
(done, ok a) then next = let (later, result) = next a in (done ++ later, result)

-- `?` on a call that only reads
abbrev pub reading : {A : Type 0} {B : Type 0} → Result RecoverError A → (A → Outcome B) → Outcome B
reading (err e) next = ([], err e)
reading (ok a) next = next a

-- a set of process numbers, in order
abbrev pub insert_pid : ℕ → List ℕ → List ℕ
insert_pid pid [] = pid ∷ []
insert_pid pid (p ∷ ps) =
    let later = insert_pid pid ps in
    if pid == p then p ∷ ps else if ltb pid p then pid ∷ p ∷ ps else p ∷ later

-- `pids_referencing_roots`
unfoldable pub pids_referencing_roots : List (ℕ × FilePath) → List FilePath → List ℕ
pids_referencing_roots [] roots = []
pids_referencing_roots ((pid, path) ∷ references) roots =
    let later = pids_referencing_roots references roots in
    if any (λ root. is_under path root) roots then insert_pid pid later else later

-- `chroot_processes`, where `own` is the process itself
unfoldable pub chroot_processes : ℕ → List (ℕ × FilePath) → FilePath → List ℕ
chroot_processes own references root =
    keep (λ pid. not (pid == own)) (pids_referencing_roots references (root ∷ []))

abbrev pub signal_all : Signal → List ℕ → List Action
signal_all s pids = map (λ pid. send pid s) pids

-- one round, which ends the loops where no process is left
abbrev pub signal_round : Signal → Outcome (Option (List ℕ)) → List ℕ → Outcome (Option (List ℕ))
signal_round s later [] = ([], ok (some []))
signal_round s later (pid ∷ pids) = (signal_all s (pid ∷ pids), ok tt) then (λ _. later)

-- `terminate_processes_with`: the inner loop, whose readings count from `at`; the result is none
-- where the loop ends with processes left
unfoldable pub signal_rounds :
    ℕ → Signal → (ℕ → Result RecoverError (List ℕ)) → ℕ → Outcome (Option (List ℕ))
signal_rounds zero s processes at = ([], ok none)
signal_rounds (suc rounds) s processes at =
    reading (processes at) (signal_round s (signal_rounds rounds s processes (at + 1)))

abbrev pub unless_ended : Option (List ℕ) → Outcome (Option (List ℕ)) → Outcome (Option (List ℕ))
unless_ended (some pids) next = ([], ok (some pids))
unless_ended none next = next

abbrev pub last_reading : (ℕ → Result RecoverError (List ℕ)) → Option (List ℕ) → Outcome (List ℕ)
last_reading processes (some pids) = ([], ok pids)
last_reading processes none = ([], processes 40)

-- first `SIGTERM`, then `SIGKILL`, each at most 20 times
unfoldable pub terminate_processes_with : (ℕ → Result RecoverError (List ℕ)) → Outcome (List ℕ)
terminate_processes_with processes =
    (signal_rounds 20 sigterm processes 0
      then (λ ended. unless_ended ended (signal_rounds 20 sigkill processes 20)))
    then last_reading processes

abbrev pub check_none_left : List ℕ → Outcome (Unit {0})
check_none_left [] = ([], ok tt)
check_none_left (pid ∷ pids) = ([], err (survived (pid ∷ pids)))

abbrev pub unless_no_process : (ℕ → Result RecoverError (List ℕ)) → List ℕ → Outcome (Unit {0})
unless_no_process processes [] = ([], ok tt)
unless_no_process processes (_ ∷ _) =
    terminate_processes_with (λ i. processes (suc i)) then check_none_left

-- `terminate_chroot_processes`; the first reading comes before the loops
unfoldable pub terminate_chroot_processes : (ℕ → Result RecoverError (List ℕ)) → Outcome (Unit {0})
terminate_chroot_processes processes = reading (processes 0) (unless_no_process processes)

-- `unmount_mountpoint_with`; the readings of the mount table are numbered
module _ (mountpoint : FilePath) (allow_force : Bool) (mounted : ℕ → Result RecoverError Bool)
    (try_unmount : Bool → Result RecoverError (Unit {0})) where
  -- the end of the function
  abbrev pub finally_mounted : RecoverError → Bool → Outcome (Unit {0})
  finally_mounted normal_error true = ([], err normal_error)
  finally_mounted normal_error false = ([], ok tt)

  abbrev pub force_if : RecoverError → Bool → Outcome (Unit {0})
  force_if normal_error true = (unmount mountpoint true ∷ [], try_unmount true)
  force_if normal_error false = reading (mounted 3) (finally_mounted normal_error)

  -- `allow_force && mounted(mountpoint)?`
  abbrev pub when_allowed : Bool → RecoverError → Outcome (Unit {0})
  when_allowed true normal_error = reading (mounted 2) (force_if normal_error)
  when_allowed false normal_error = reading (mounted 2) (finally_mounted normal_error)

  abbrev pub still_mounted : RecoverError → Bool → Outcome (Unit {0})
  still_mounted normal_error true = when_allowed allow_force normal_error
  still_mounted normal_error false = ([], ok tt)

  abbrev pub after_normal : Result RecoverError (Unit {0}) → Outcome (Unit {0})
  after_normal (ok done) = ([], ok tt)
  after_normal (err normal_error) = reading (mounted 1) (still_mounted normal_error)

  abbrev pub if_mounted : Bool → Outcome (Unit {0})
  if_mounted false = ([], ok tt)
  if_mounted true =
      (unmount mountpoint false ∷ [], ok tt) then (λ _. after_normal (try_unmount false))

  unfoldable pub unmount_mountpoint_with : Outcome (Unit {0})
  unmount_mountpoint_with = reading (mounted 0) if_mounted

-- `sandbox_mount_target`, less the identity of the root
unfoldable pub sandbox_mount_target :
    (FilePath → Bool) → FilePath → Result RecoverError (FilePath × FilePath)
sandbox_mount_target has_info mountpoint = elim (find has_info (ancestors mountpoint)) [
  | none ↦ err (not_below_root mountpoint)
  | some root ↦ elim (strip_path mountpoint root) [
    | none ↦ err (outside_root mountpoint)
    | some [] ↦ err (is_root root)
    | some (c ∷ relative) ↦ ok (root, c ∷ relative)
  ]
]

-- `sort_mountpoints_deepest_first`, a stable sort
abbrev pub insert_deep : FilePath → List FilePath → List FilePath
insert_deep p [] = p ∷ []
insert_deep p (q ∷ qs) =
    let later = insert_deep p qs in if deeper_le q p then p ∷ q ∷ qs else q ∷ later

unfoldable pub sort_mountpoints_deepest_first : List FilePath → List FilePath
sort_mountpoints_deepest_first [] = []
sort_mountpoints_deepest_first (p ∷ ps) = insert_deep p (sort_mountpoints_deepest_first ps)

-- `mount_points_under`
unfoldable pub mount_points_under : FilePath → List MountInfo → List FilePath
mount_points_under root mounts =
    sort_mountpoints_deepest_first
      (keep (λ p. is_under p root) (map (λ (m : MountInfo). m.mountpoint) mounts))

unfoldable pub is_mounted : FilePath → List MountInfo → Bool
is_mounted target mounts = any (λ (m : MountInfo). path_eq m.mountpoint target) mounts

-- `mountpoint_is_read_only`
unfoldable pub mountpoint_is_read_only : FilePath → List MountInfo → Bool
mountpoint_is_read_only mountpoint mounts =
    elim (find (λ (m : MountInfo). path_eq m.mountpoint mountpoint) mounts) [
      | none ↦ false
      | some m ↦ is_read_only m
    ]

-- `is_orphaned_regular_document_mount`
unfoldable pub is_orphaned_regular_document_mount : (FilePath → Bool) → FilePath → FilePath → Bool
is_orphaned_regular_document_mount exists chroots mountpoint =
    elim (strip_path mountpoint chroots) [
      | some
            (normal app
              ∷ normal instance_id
              ∷ normal run
              ∷ normal user
              ∷ normal uid
              ∷ normal doc
              ∷ normal grant
              ∷ normal file
              ∷ []) ↦
          text_eq run (text "run")
          && text_eq user (text "user")
          && text_eq doc (text "doc")
          && not (exists (join_onto chroots (normal app ∷ normal instance_id ∷ [])))
      | _ ↦ false
    ]
