-- ===== src/StaleRecovery/Acts.antt =====
-- The actions of the teardown of one root, for any property of actions.
use mathlib.Core.Path.{subst}
use freebsd_flatpak.Prelude.{
  ℕ, zero, suc, ◌+◌, ◌≡◌, refl, sym, Bool, true, false, List, [], ◌∷◌, map, Option, none, some,
  if◌then◌else◌, Result, ok, err, All, All-append, Among, here, there,
}
use freebsd_flatpak.Paths.{FilePath}
use freebsd_flatpak.StaleRecovery.{
  RecoverError, Signal, Action, send, unmount, Outcome, ◌then◌, reading, signal_all, signal_round,
  signal_rounds, sigterm, sigkill, unless_no_process, finally_mounted, force_if, when_allowed,
  still_mounted, after_normal, if_mounted, unless_ended, last_reading, terminate_processes_with,
  check_none_left, terminate_chroot_processes, unmount_mountpoint_with,
}

-- Every action of an outcome has a property.
abbrev pub Acts : {A : Type 0} → (Action → Type 0) → Outcome A → Type 0
Acts P (acts, result) = All P acts

module _ (P : Action → Type 0) where
  pub Acts-then :
      {A : Type 0} {B : Type 0} (o : Outcome A) (next : A → Outcome B)
      → Acts P o
      → ((a : A) → o.1 ≡ ok a → Acts P (next a))
      → Acts P (o then next)
  Acts-then (acts, err e) next h k = h
  Acts-then (acts, ok a) next h k = All-append P acts (next a).0 h (k a refl)

  pub Acts-reading :
      {A : Type 0} {B : Type 0} (r : Result RecoverError A) (next : A → Outcome B)
      → ((a : A) → r ≡ ok a → Acts P (next a))
      → Acts P (reading r next)
  Acts-reading (err e) next k = tt
  Acts-reading (ok a) next k = k a refl

  pub All-map :
      {A : Type 0} (f : A → Action) (xs : List A)
      → ((x : A) → Among x xs → P (f x))
      → All P (map f xs)
  All-map f [] h = tt
  All-map f (x ∷ xs) h = (h x (here refl), All-map f xs (λ y m. h y (there m)))

  pub All-Among : (acts : List Action) → All P acts → {a : Action} → Among a acts → P a
  All-Among [] h m = elim m [ ]
  All-Among (b ∷ acts) (p, h) (here e) = subst P (sym e) p
  All-Among (b ∷ acts) (p, h) (there m) = All-Among acts h m

  -- The signals go to the processes that the readings show.
  module _ (processes : ℕ → Result RecoverError (List ℕ))
      (may : (i : ℕ) (pids : List ℕ)
        → processes i ≡ ok pids
        → (pid : ℕ) → Among pid pids
        → (s : Signal) → P (send pid s)) where
    Acts-signal_round :
        (s : Signal) (later : Outcome (Option (List ℕ))) (i : ℕ) (pids : List ℕ)
        → processes i ≡ ok pids
        → Acts P later
        → Acts P (signal_round s later pids)
    Acts-signal_round s later i [] read h = tt
    Acts-signal_round s later i (pid ∷ pids) read h =
        Acts-then (signal_all s (pid ∷ pids), ok tt) (λ _. later)
          (All-map (λ p. send p s) (pid ∷ pids) (λ p m. may i (pid ∷ pids) read p m s)) (λ _ _. h)

    Acts-signal_rounds :
        (rounds : ℕ) (s : Signal) (at : ℕ) → Acts P (signal_rounds rounds s processes at)
    unfolding signal_rounds
    Acts-signal_rounds zero s at = tt
    Acts-signal_rounds (suc rounds) s at =
        let later = Acts-signal_rounds rounds s (at + 1) in
        Acts-reading (processes at) (signal_round s (signal_rounds rounds s processes (at + 1)))
          (λ pids read.
            Acts-signal_round s (signal_rounds rounds s processes (at + 1)) at pids read later)

    Acts-unless_ended :
        (ended : Option (List ℕ)) (next : Outcome (Option (List ℕ)))
        → Acts P next
        → Acts P (unless_ended ended next)
    Acts-unless_ended (some pids) next h = tt
    Acts-unless_ended none next h = h

    Acts-last_reading : (ended : Option (List ℕ)) → Acts P (last_reading processes ended)
    Acts-last_reading (some pids) = tt
    Acts-last_reading none = tt

    Acts-terminate_processes_with : Acts P (terminate_processes_with processes)
    unfolding terminate_processes_with
    Acts-terminate_processes_with =
        let kills = signal_rounds 20 sigkill processes 20 in
        let all = signal_rounds 20 sigterm processes 0 then (λ ended. unless_ended ended kills) in
        Acts-then all (last_reading processes)
          (Acts-then (signal_rounds 20 sigterm processes 0) (λ ended. unless_ended ended kills)
            (Acts-signal_rounds 20 sigterm 0)
            (λ ended _. Acts-unless_ended ended kills (Acts-signal_rounds 20 sigkill 20)))
          (λ ended _. Acts-last_reading ended)

  Acts-check : (pids : List ℕ) → Acts P (check_none_left pids)
  Acts-check [] = tt
  Acts-check (pid ∷ pids) = tt

  module _ (processes : ℕ → Result RecoverError (List ℕ))
      (may : (i : ℕ) (pids : List ℕ)
        → processes i ≡ ok pids
        → (pid : ℕ) → Among pid pids
        → (s : Signal) → P (send pid s)) where
    Acts-unless_no_process : (pids : List ℕ) → Acts P (unless_no_process processes pids)
    Acts-unless_no_process [] = tt
    Acts-unless_no_process (pid ∷ pids) =
        Acts-then (terminate_processes_with (λ i. processes (suc i))) check_none_left
          (Acts-terminate_processes_with (λ i. processes (suc i)) (λ i. may (suc i)))
          (λ pids _. Acts-check pids)

    pub Acts-terminate_chroot_processes : Acts P (terminate_chroot_processes processes)
    unfolding terminate_chroot_processes
    Acts-terminate_chroot_processes =
        Acts-reading (processes 0) (unless_no_process processes)
          (λ pids _. Acts-unless_no_process pids)

  -- An unmount is tried of what is mounted, and forced where that is allowed.
  module _ (target : FilePath) (allow_force : Bool) (mounted : ℕ → Result RecoverError Bool)
      (try_unmount : Bool → Result RecoverError (Unit {0}))
      (may : (i : ℕ) → mounted i ≡ ok true → P (unmount target false))
      (may_force : (i : ℕ)
        → mounted i ≡ ok true
        → allow_force ≡ true
        → P (unmount target true)) where
    Acts-finally :
        (e : RecoverError) (b : Bool)
        → Acts P (finally_mounted target allow_force mounted try_unmount e b)
    Acts-finally e true = tt
    Acts-finally e false = tt

    Acts-force_if :
        (e : RecoverError) (b : Bool)
        → mounted 2 ≡ ok b
        → allow_force ≡ true
        → Acts P (force_if target allow_force mounted try_unmount e b)
    Acts-force_if e true read allowed = (may_force 2 read allowed, tt)
    Acts-force_if e false read allowed =
        Acts-reading (mounted 3) (finally_mounted target allow_force mounted try_unmount e)
          (λ b _. Acts-finally e b)

    Acts-when_allowed :
        (allowed : Bool) (e : RecoverError)
        → allow_force ≡ allowed
        → Acts P (when_allowed target allow_force mounted try_unmount allowed e)
    Acts-when_allowed true e same =
        Acts-reading (mounted 2) (force_if target allow_force mounted try_unmount e)
          (λ b read. Acts-force_if e b read same)
    Acts-when_allowed false e same =
        Acts-reading (mounted 2) (finally_mounted target allow_force mounted try_unmount e)
          (λ b _. Acts-finally e b)

    Acts-still :
        (e : RecoverError) (b : Bool)
        → Acts P (still_mounted target allow_force mounted try_unmount e b)
    Acts-still e true = Acts-when_allowed allow_force e refl
    Acts-still e false = tt

    Acts-after_normal :
        (r : Result RecoverError (Unit {0}))
        → Acts P (after_normal target allow_force mounted try_unmount r)
    Acts-after_normal (ok done) = tt
    Acts-after_normal (err e) =
        Acts-reading (mounted 1) (still_mounted target allow_force mounted try_unmount e)
          (λ b _. Acts-still e b)

    Acts-if_mounted :
        (b : Bool) → mounted 0 ≡ ok b → Acts P (if_mounted target allow_force mounted try_unmount b)
    Acts-if_mounted false read = tt
    Acts-if_mounted true read =
        Acts-then (unmount target false ∷ [], ok tt)
          (λ _. after_normal target allow_force mounted try_unmount (try_unmount false))
          (may 0 read, tt) (λ _ _. Acts-after_normal (try_unmount false))

    pub Acts-unmount_mountpoint_with :
        Acts P (unmount_mountpoint_with target allow_force mounted try_unmount)
    unfolding unmount_mountpoint_with
    Acts-unmount_mountpoint_with =
        Acts-reading (mounted 0) (if_mounted target allow_force mounted try_unmount)
          (λ b read. Acts-if_mounted b read)
