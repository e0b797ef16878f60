-- ===== src/StaleRecovery/Ended.antt =====
-- What the success of a teardown step says.
use freebsd_flatpak.Prelude.{
  ℕ, zero, suc, ◌+◌, ◌≤◌, ◌<◌, ◌≡◌, refl, ap, ◌∙◌, ◌⊎◌, inl, inr, Bool, true, false, List, [], ◌∷◌,
  Option, none, some, arith, Result, ok, err, ok-inj,
}
use freebsd_flatpak.Paths.{FilePath}
use freebsd_flatpak.StaleRecovery.{
  RecoverError, Signal, Outcome, ◌then◌, reading, signal_round, signal_rounds, unless_ended,
  last_reading, terminate_processes_with, check_none_left, terminate_chroot_processes,
  unless_no_process, signal_all, sigterm, sigkill, unmount_mountpoint_with, if_mounted,
  after_normal, still_mounted, when_allowed, force_if, finally_mounted,
}

-- A success of two calls is a success of both.
then-ok :
    {A : Type 0} {B : Type 0} (o : Outcome A) (next : A → Outcome B) {b : B}
    → (o then next).1 ≡ ok b
    → (a : A) × (o.1 ≡ ok a) × ((next a).1 ≡ ok b)
then-ok (acts, err e) next h = cc
then-ok (acts, ok a) next h = (a, refl, h)

reading-ok :
    {A : Type 0} {B : Type 0} (r : Result RecoverError A) (next : A → Outcome B) {b : B}
    → (reading r next).1 ≡ ok b
    → (a : A) × (r ≡ ok a) × ((next a).1 ≡ ok b)
reading-ok (err e) next h = cc
reading-ok (ok a) next h = (a, refl, h)

module _ (processes : ℕ → Result RecoverError (List ℕ)) where
  -- a reading with no process, of those numbered up to `last`
  abbrev HasNone : ℕ → ℕ → Type 0
  HasNone first last = (i : ℕ) × (first ≤ i) × (i < last) × (processes i ≡ ok [])

  signal_round_ended :
      (s : Signal) (later : Outcome (Option (List ℕ))) (pids : List ℕ) {left : List ℕ}
      → (signal_round s later pids).1 ≡ ok (some left)
      → ((pids ≡ []) × (left ≡ [])) ⊎ (later.1 ≡ ok (some left))
  signal_round_ended s later [] h = inl (refl, ground (arith, h))
  signal_round_ended s later (pid ∷ pids) h =
      let (done, acted, rest) = then-ok (signal_all s (pid ∷ pids), ok tt) (λ _. later) h in
      inr rest

  signal_rounds_ended :
      (rounds : ℕ) (s : Signal) (at : ℕ) {left : List ℕ}
      → (signal_rounds rounds s processes at).1 ≡ ok (some left)
      → HasNone at (at + rounds) × (left ≡ [])
  unfolding signal_rounds
  signal_rounds_ended zero s at h = cc
  signal_rounds_ended (suc rounds) s at {left} h =
      let (pids, read, rest) =
        reading-ok (processes at) (signal_round s (signal_rounds rounds s processes (at + 1))) h in
      elim (signal_round_ended s (signal_rounds rounds s processes (at + 1)) pids rest) [
        | inl (empty, nothing) ↦ ((at, omega arith, omega arith, read ∙ ap ok empty), nothing)
        | inr later ↦
            let ((i, low, high, seen), nothing) = signal_rounds_ended rounds s (at + 1) later in
            ((i, omega arith, omega arith, seen), nothing)
      ]

  unless_ended_ok :
      (ended : Option (List ℕ)) (next : Outcome (Option (List ℕ))) {left : Option (List ℕ)}
      → (unless_ended ended next).1 ≡ ok left
      → (ended ≡ left) ⊎ (next.1 ≡ ok left)
  unless_ended_ok (some pids) next h = inl (ok-inj h)
  unless_ended_ok none next h = inr h

  terminate_ended :
      {left : List ℕ} → (terminate_processes_with processes).1 ≡ ok left → left ≡ [] → HasNone 0 41
  unfolding terminate_processes_with
  terminate_ended {left} h nothing =
      let kills = signal_rounds 20 sigkill processes 20 in
      let (ended, both, last) =
        then-ok (signal_rounds 20 sigterm processes 0 then (λ ended. unless_ended ended kills))
          (last_reading processes) h in
      let (first, terms, second) =
        then-ok (signal_rounds 20 sigterm processes 0) (λ ended. unless_ended ended kills) both in
      go ended first both terms second last
    where
      go :
          (ended first : Option (List ℕ))
          → (signal_rounds 20 sigterm processes 0
              then (λ ended. unless_ended ended (signal_rounds 20 sigkill processes 20))).1
            ≡ ok ended
          → (signal_rounds 20 sigterm processes 0).1 ≡ ok first
          → (unless_ended first (signal_rounds 20 sigkill processes 20)).1 ≡ ok ended
          → (last_reading processes ended).1 ≡ ok left
          → HasNone 0 41
      go none first both terms second last = (40, omega arith, omega arith, last ∙ ap ok nothing)
      go (some pids) (some early) both terms second last =
          let ((i, low, high, seen), _) = signal_rounds_ended 20 sigterm 0 terms in
          (i, omega arith, omega arith, seen)
      go (some pids) none both terms second last =
          let ((i, low, high, seen), _) = signal_rounds_ended 20 sigkill 20 second in
          (i, omega arith, omega arith, seen)

check_none_left_ok : (pids : List ℕ) → (check_none_left pids).1 ≡ ok tt → pids ≡ []
check_none_left_ok [] h = refl
check_none_left_ok (pid ∷ pids) h = cc

-- The processes of a root are terminated without an error only if one of at most 42 readings shows
-- that none is left.
pub terminate_chroot_processes_ended :
    (processes : ℕ → Result RecoverError (List ℕ))
    → (terminate_chroot_processes processes).1 ≡ ok tt
    → (i : ℕ) × (i < 42) × (processes i ≡ ok [])
unfolding terminate_chroot_processes
terminate_chroot_processes_ended processes h =
    let (initial, read, rest) = reading-ok (processes 0) (unless_no_process processes) h in
    go initial read rest
  where
    go :
        (initial : List ℕ)
        → processes 0 ≡ ok initial
        → (unless_no_process processes initial).1 ≡ ok tt
        → (i : ℕ) × (i < 42) × (processes i ≡ ok [])
    go [] read rest = (0, omega arith, read)
    go (pid ∷ pids) read rest =
        let (left, ended, checked) =
          then-ok (terminate_processes_with (λ i. processes (suc i))) check_none_left rest in
        let (i, low, high, seen) =
          terminate_ended (λ i. processes (suc i)) ended (check_none_left_ok left checked) in
        (suc i, omega arith, seen)

module _ (target : FilePath) (allow : Bool) (mounted : ℕ → Result RecoverError Bool)
    (try_unmount : Bool → Result RecoverError (Unit {0})) where
  -- gone, by a reading or by an unmount, which is forced only where that is allowed
  abbrev IsGone : Type 0
  IsGone =
      ((i : ℕ) × (i < 4) × (mounted i ≡ ok false))
      ⊎ ((force : Bool) × (try_unmount force ≡ ok tt) × (force ≡ true → allow ≡ true))

  finally_gone :
      (e : RecoverError) (i : ℕ)
      → i < 4
      → (b : Bool) → mounted i ≡ ok b
      → (finally_mounted target allow mounted try_unmount e b).1 ≡ ok tt
      → IsGone
  finally_gone e i low true read h = cc
  finally_gone e i low false read h = inl (i, low, read)

  force_gone :
      (e : RecoverError) (b : Bool)
      → allow ≡ true
      → (force_if target allow mounted try_unmount e b).1 ≡ ok tt
      → IsGone
  force_gone e true allowed h = inr (true, h, λ _. allowed)
  force_gone e false allowed h =
      let (b, read, rest) =
        reading-ok (mounted 3) (finally_mounted target allow mounted try_unmount e) h in
      finally_gone e 3 (omega arith) b read rest

  allowed_gone :
      (allowed : Bool) (e : RecoverError)
      → allow ≡ allowed
      → (when_allowed target allow mounted try_unmount allowed e).1 ≡ ok tt
      → IsGone
  allowed_gone true e same h =
      let (b, read, rest) =
        reading-ok (mounted 2) (force_if target allow mounted try_unmount e) h in
      force_gone e b same rest
  allowed_gone false e same h =
      let (b, read, rest) =
        reading-ok (mounted 2) (finally_mounted target allow mounted try_unmount e) h in
      finally_gone e 2 (omega arith) b read rest

  still_gone :
      (e : RecoverError) (b : Bool)
      → mounted 1 ≡ ok b
      → (still_mounted target allow mounted try_unmount e b).1 ≡ ok tt
      → IsGone
  still_gone e true read h = allowed_gone allow e refl h
  still_gone e false read h = inl (1, omega arith, read)

  normal_gone :
      (r : Result RecoverError (Unit {0}))
      → try_unmount false ≡ r
      → (after_normal target allow mounted try_unmount r).1 ≡ ok tt
      → IsGone
  normal_gone (ok u) tried h = inr (false, tried, λ e. cc)
  normal_gone (err e) tried h =
      let (b, read, rest) =
        reading-ok (mounted 1) (still_mounted target allow mounted try_unmount e) h in
      still_gone e b read rest

  mounted_gone :
      (b : Bool)
      → mounted 0 ≡ ok b
      → (if_mounted target allow mounted try_unmount b).1 ≡ ok tt
      → IsGone
  mounted_gone false read h = inl (0, omega arith, read)
  mounted_gone true read h = normal_gone (try_unmount false) refl h

-- An unmount succeeds only if one of at most four readings shows that the target is not mounted, or
-- if an attempt succeeds, which was a forced one only if that is allowed.
pub unmount_mountpoint_with_gone :
    (target : FilePath) (allow : Bool) (mounted : ℕ → Result RecoverError Bool)
    (try_unmount : Bool → Result RecoverError (Unit {0}))
    → (unmount_mountpoint_with target allow mounted try_unmount).1 ≡ ok tt
    → ((i : ℕ) × (i < 4) × (mounted i ≡ ok false))
      ⊎ ((force : Bool) × (try_unmount force ≡ ok tt) × (force ≡ true → allow ≡ true))
unfolding unmount_mountpoint_with
unmount_mountpoint_with_gone target allow mounted try_unmount h =
    let (b, read, rest) = reading-ok (mounted 0) (if_mounted target allow mounted try_unmount) h in
    mounted_gone target allow mounted try_unmount b read rest
