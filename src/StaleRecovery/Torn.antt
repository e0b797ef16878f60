-- ===== src/StaleRecovery/Torn.antt =====
-- What a recovery does to the system, it does to a root that is not in use, and for a reason.
use mathlib.Core.Path.{subst}
use freebsd_flatpak.Prelude.{
  ◌≡◌, refl, ◌⊎◌, inl, inr, Bool, true, false, List, [], ◌∷◌, Option, none, some, if◌then◌else◌,
  Result, ok, err, All-weaken, Among, Bool-cases,
}
use freebsd_flatpak.Paths.{FilePath, path_contains, Among-path_contains}
use freebsd_flatpak.StaleRecovery.{
  MountInfo, RecoverError, View, Action, send, unmount, remove_root, remove_record,
  unmount_document, Outcome, ◌then◌, reading, mount_points_under, is_mounted, Round, sandbox_roots,
  tear_down, unless_active, recover_root, recover_roots, recover_stale, Documents,
  unmount_if_orphan, unmount_orphan, unmount_orphans, recover_orphaned_document_mounts,
  recover_stale_mounts, is_orphaned_regular_document_mount, active_sandbox_roots,
  order_sandbox_roots_for_recovery, done, difference,
}
use freebsd_flatpak.StaleRecovery.Held.{IsHeld, active_sandbox_roots_iff}
use freebsd_flatpak.StaleRecovery.Acts.{Acts, Acts-then, Acts-reading, All-Among}
use freebsd_flatpak.StaleRecovery.Reasons.{IsJustified}
use freebsd_flatpak.StaleRecovery.TornRoot.{Acts-tear_down}

-- An action for a root that a fresh reading shows not to be in use, for its reason.
abbrev pub IsSafe : (FilePath → Round) → Action → Type 0
IsSafe rounds act =
    (root : FilePath) × (v : View) × ((rounds root).view ≡ ok v)
    × (¬ IsHeld v root)
    × IsJustified (rounds root) root v act

-- An unmount of a document of an instance that is gone.
abbrev pub IsOrphaned : FilePath → Documents → Action → Type 0
IsOrphaned chroots documents (unmount_document target force) =
    is_orphaned_regular_document_mount documents.exists chroots target ≡ true
IsOrphaned chroots documents (send pid s) = ⊥
IsOrphaned chroots documents (unmount target force) = ⊥
IsOrphaned chroots documents (remove_root root) = ⊥
IsOrphaned chroots documents (remove_record file) = ⊥

module _ (rounds : FilePath → Round) where
  Acts-unless_active :
      (root : FilePath) (v : View)
      → (rounds root).view ≡ ok v
      → (answer : Option (List FilePath)) → active_sandbox_roots v ≡ ok answer
      → Acts (IsSafe rounds) (unless_active (rounds root) root v answer)
  Acts-unless_active root v seen none h = tt
  Acts-unless_active root v seen (some active) h = elim (Bool-cases (path_contains active root)) [
    | inl held ↦ rw held tt
    | inr free ↦
        let (roots, same, iff) = active_sandbox_roots_iff v (some active) h in
        let apart : ¬ IsHeld v root = λ used.
          let listed : Among root active = subst (Among root) (cc same) ((iff root).1 used) in
          cc (Among-path_contains active {x = root} listed, free) in
        rw free (
          All-weaken (IsJustified (rounds root) root v) (IsSafe rounds)
            (tear_down (rounds root) root v).0 (λ act why. (root, v, seen, apart, why))
            (Acts-tear_down (rounds root) root v))
  ]

  Acts-recover_root : (root : FilePath) → Acts (IsSafe rounds) (recover_root (rounds root) root)
  unfolding recover_root
  Acts-recover_root root = Acts-reading (IsSafe rounds) (rounds root).view _ (λ v seen.
      Acts-reading (IsSafe rounds) (active_sandbox_roots v) _
        (λ answer h. Acts-unless_active root v seen answer h))

  Acts-recover_roots : (roots : List FilePath) → Acts (IsSafe rounds) (recover_roots rounds roots)
  unfolding recover_roots
  Acts-recover_roots [] = tt
  Acts-recover_roots (root ∷ roots) =
      Acts-then (IsSafe rounds) (recover_root (rounds root) root) (λ _. recover_roots rounds roots)
        (Acts-recover_root root) (λ _ _. Acts-recover_roots roots)

  Acts-recover_stale :
      (v : View) (answer : Option (List FilePath))
      → Acts (IsSafe rounds) (recover_stale rounds v answer)
  unfolding recover_stale
  Acts-recover_stale v none = tt
  Acts-recover_stale v (some active) =
      Acts-recover_roots (order_sandbox_roots_for_recovery v (difference (sandbox_roots v) active))

module _ (chroots : FilePath) (documents : Documents) where
  Acts-unmount_orphan :
      (target : FilePath)
      → is_orphaned_regular_document_mount documents.exists chroots target ≡ true
      → Acts (IsOrphaned chroots documents) (unmount_orphan chroots documents target)
  unfolding unmount_orphan
  Acts-unmount_orphan target gone = go (documents.try_unmount target false)
    where
      forced :
          (mounts : List MountInfo)
          → Acts (IsOrphaned chroots documents) (
              if is_mounted target mounts
              then (unmount_document target true ∷ [], documents.try_unmount target true)
              else done)
      forced mounts = elim (Bool-cases (is_mounted target mounts)) [
        | inl still ↦ rw still (gone, tt)
        | inr free ↦ rw free tt
      ]

      go :
          (answer : Result RecoverError (Unit {0}))
          → Acts (IsOrphaned chroots documents) (elim answer [
            | ok _ ↦ (unmount_document target false ∷ [], ok tt)
            | err e ↦
                (unmount_document target false ∷ [], documents.mounted_table target) then (λ mounts.
                  if is_mounted target mounts
                  then (unmount_document target true ∷ [], documents.try_unmount target true)
                  else done)
          ])
      go (ok _) = (gone, tt)
      go (err e) =
          Acts-then (IsOrphaned chroots documents)
            (unmount_document target false ∷ [], documents.mounted_table target) _ (gone, tt)
            (λ mounts _. forced mounts)

  Acts-unmount_if_orphan :
      (target : FilePath) (later : Outcome (Unit {0})) (gone : Bool)
      → is_orphaned_regular_document_mount documents.exists chroots target ≡ gone
      → Acts (IsOrphaned chroots documents) later
      → Acts (IsOrphaned chroots documents) (unmount_if_orphan chroots documents target later gone)
  Acts-unmount_if_orphan target later true h rest =
      Acts-then (IsOrphaned chroots documents) (unmount_orphan chroots documents target)
        (λ _. later) (Acts-unmount_orphan target h) (λ _ _. rest)
  Acts-unmount_if_orphan target later false h rest = rest

  Acts-unmount_orphans :
      (targets : List FilePath)
      → Acts (IsOrphaned chroots documents) (unmount_orphans chroots documents targets)
  unfolding unmount_orphans
  Acts-unmount_orphans [] = tt
  Acts-unmount_orphans (target ∷ targets) =
      Acts-unmount_if_orphan target (unmount_orphans chroots documents targets)
        (is_orphaned_regular_document_mount documents.exists chroots target) refl
        (Acts-unmount_orphans targets)

  Acts-recover_document_mounts :
      Acts (IsOrphaned chroots documents) (recover_orphaned_document_mounts chroots documents)
  unfolding recover_orphaned_document_mounts
  Acts-recover_document_mounts =
      Acts-reading (IsOrphaned chroots documents) documents.metadata _ (λ _ _.
        Acts-reading (IsOrphaned chroots documents) documents.table _
          (λ mounts _. Acts-unmount_orphans (mount_points_under chroots mounts)))

module _ (chroots : FilePath) (ensure_layout : Result RecoverError (Unit {0})) (before : Documents)
    (first : Result RecoverError View) (rounds : FilePath → Round) (after : Documents) where
  abbrev May : Action → Type 0
  May a = IsSafe rounds a ⊎ (IsOrphaned chroots before a ⊎ IsOrphaned chroots after a)

  Acts-recover_stale_mounts :
      Acts May (recover_stale_mounts chroots ensure_layout before first rounds after)
  unfolding recover_stale_mounts
  Acts-recover_stale_mounts = Acts-reading May ensure_layout _ (λ _ _.
      Acts-then May (recover_orphaned_document_mounts chroots before) _
        (All-weaken (IsOrphaned chroots before) May _ (λ a o. inr (inl o))
          (Acts-recover_document_mounts chroots before))
        (λ _ _.
          Acts-then May
            (reading first (λ v. reading (active_sandbox_roots v) (recover_stale rounds v))) _
            (Acts-reading May first _ (λ v _.
              Acts-reading May (active_sandbox_roots v) _ (λ answer _.
                All-weaken (IsSafe rounds) May (recover_stale rounds v answer).0 (λ a s. inl s)
                  (Acts-recover_stale rounds v answer))))
            (λ _ _.
              All-weaken (IsOrphaned chroots after) May _ (λ a o. inr (inr o))
                (Acts-recover_document_mounts chroots after))))

-- All that a recovery does is to unmount documents of instances that are gone, and, for a root that
-- a fresh reading shows not to be in use, to signal processes that have it open, to unmount what is
-- mounted below it, with force only where that is read-only, to remove the root if no mount below it
-- is left, and to remove its records.
pub recover_stale_mounts-IsSafe :
    (chroots : FilePath) (ensure_layout : Result RecoverError (Unit {0})) (before : Documents)
    (first : Result RecoverError View) (rounds : FilePath → Round) (after : Documents)
    {act : Action}
    → Among act (recover_stale_mounts chroots ensure_layout before first rounds after).0
    → IsSafe rounds act ⊎ (IsOrphaned chroots before act ⊎ IsOrphaned chroots after act)
recover_stale_mounts-IsSafe chroots ensure_layout before first rounds after m =
    All-Among (May chroots ensure_layout before first rounds after)
      (recover_stale_mounts chroots ensure_layout before first rounds after).0
      (Acts-recover_stale_mounts chroots ensure_layout before first rounds after) m
