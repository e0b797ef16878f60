-- ===== src/StaleRecovery/Spreading.antt =====
-- The loop that follows the edges ends, with the paths that they lead to.
use mathlib.Core.Path.{subst}
use freebsd_flatpak.Prelude.{
  ℕ, zero, suc, ◌<◌, ◌≡◌, refl, sym, ◌∙◌, ◌↔◌, inl, inr, Bool, true, false, List, [], ◌∷◌, none,
  some, arith, Among, here, there, Bool-cases,
}
use freebsd_flatpak.Paths.{
  FilePath, path_insert, path_contains, path_contains-Among, Among-path_contains, path_insert_sound,
  path_insert_here,
}
use freebsd_flatpak.StaleRecovery.Active.{Edge, follow, follow_edges, spread, spread_fuel}
use freebsd_flatpak.StaleRecovery.Rounds.{
  missing-le-length, Leads, from, along, IsClosed, missing, insert_grows, follow-none, follow_free,
  follow_known, follow_new, insert_known, follow_edges_grows, follow_edges_still, missing_le,
  missing_lt,
}

-- The ends that were missing before a round and are not after it, if it sets the flag.
missing-follow_edges :
    (every edges : List Edge) (set : List FilePath)
    → ((e : Edge) → Among e edges → Among e every)
    → (follow_edges edges (set, false)).1 ≡ true
    → missing every (follow_edges edges (set, false)).0 < missing every set
unfolding follow_edges
missing-follow_edges every [] set within h = cc
missing-follow_edges every (none ∷ edges) set within h =
    subst (λ s. missing every (follow_edges edges s).0 < missing every set)
      (sym (follow-none set false))
      (missing-follow_edges every edges set (λ e m. within e (there m))
        (rw (follow-none set false, follow_edges) at h))
missing-follow_edges every (some (a, b) ∷ edges) set within h =
    elim (Bool-cases (path_contains set a)) [
      | inr free ↦
          let step = follow_free a b set false free in
          subst (λ s. missing every (follow_edges edges s).0 < missing every set) (sym step)
            (missing-follow_edges every edges set (λ e m. within e (there m))
              (rw (step, follow_edges) at h))
      | inl held ↦ elim (Bool-cases (path_contains set b)) [
        | inl known ↦
            let step = follow_known a b set false held known in
            let less =
              missing-follow_edges every edges (path_insert b set) (λ e m. within e (there m))
                (rw (step, follow_edges) at h) in
            let same =
              missing_le set (path_insert b set) (λ x k. insert_known a b set known x ∙ k) every in
            subst (λ s. missing every (follow_edges edges s).0 < missing every set) (sym step)
              (omega arith)
        | inr new ↦
            let step = follow_new a b set false held new in
            subst (λ s. missing every (follow_edges edges s).0 < missing every set) (sym step)
              (missing_lt set (follow_edges edges (path_insert b set, true)).0
                (λ x k.
                  follow_edges_grows edges (path_insert b set, true) x (insert_grows b set x k))
                every (within (some (a, b)) (here refl)) new
                (follow_edges_grows edges (path_insert b set, true) b
                  (Among-path_contains (path_insert b set) (path_insert_here b set))))
      ]
    ]

follow-Leads :
    (every : List Edge) (start : List FilePath) (e : Edge) (s : List FilePath × Bool)
    → Among e every
    → ((x : FilePath) → Among x s.0 → Leads start every x)
    → (x : FilePath) → Among x (follow e s).0
    → Leads start every x
unfolding follow
follow-Leads every start none s m led x n = led x n
follow-Leads every start (some (a, b)) s m led x n = elim (Bool-cases (path_contains s.0 a)) [
  | inr free ↦ led x (rw free at n)
  | inl held ↦ elim (path_insert_sound b s.0 {x = x} (rw held at n)) [
    | inr k ↦ led x k
    | inl same ↦
        subst (Leads start every) (sym same) (along m (led a (path_contains-Among s.0 a held)))
  ]
]

spread_more :
    (fuel : ℕ) (edges : List Edge) (set : List FilePath)
    → (follow_edges edges (set, false)).1 ≡ true
    → spread (suc fuel) edges set ≡ spread fuel edges (follow_edges edges (set, false)).0
unfolding spread
spread_more fuel edges set h = ground (arith, h)

spread_still :
    (fuel : ℕ) (edges : List Edge) (set : List FilePath)
    → (follow_edges edges (set, false)).1 ≡ false
    → spread (suc fuel) edges set ≡ some (follow_edges edges (set, false)).0
unfolding spread
spread_still fuel edges set h = ground (arith, h)

-- A round adds only what an edge leads to.
follow_edges-Leads :
    (every edges : List Edge) (start : List FilePath) (s : List FilePath × Bool)
    → ((e : Edge) → Among e edges → Among e every)
    → ((x : FilePath) → Among x s.0 → Leads start every x)
    → (x : FilePath) → Among x (follow_edges edges s).0
    → Leads start every x
unfolding follow_edges
follow_edges-Leads every [] start s within led x m = led x m
follow_edges-Leads every (e ∷ edges) start s within led x m =
    follow_edges-Leads every edges start (follow e s) (λ d n. within d (there n))
      (follow-Leads every start e s (within e (here refl)) led) x m

-- The loop ends within its fuel, with a closed set of what the edges lead to.
spread_loop :
    (fuel : ℕ) (edges : List Edge) (start set : List FilePath)
    → missing edges set < fuel
    → ((x : FilePath) → path_contains start x ≡ true → path_contains set x ≡ true)
    → ((x : FilePath) → Among x set → Leads start edges x)
    → (result : List FilePath) × (spread fuel edges set ≡ some result)
      × ((x : FilePath) → path_contains start x ≡ true → path_contains result x ≡ true)
      × ((x : FilePath) → Among x result → Leads start edges x)
      × IsClosed edges result
spread_loop zero edges start set enough has led = absurd (omega arith)
spread_loop (suc fuel) edges start set enough has led =
    let round = follow_edges edges (set, false) in
    elim (Bool-cases round.1) [
      | inl more ↦
          let less = missing-follow_edges edges edges set (λ e m. m) more in
          let (result, ends, holds, leads, closed) =
            spread_loop fuel edges start round.0 (omega arith)
              (λ x k. follow_edges_grows edges (set, false) x (has x k))
              (follow_edges-Leads edges edges start (set, false) (λ e m. m) led) in
          (result, spread_more fuel edges set more ∙ ends, holds, leads, closed)
      | inr still ↦
          let (same, closed) = follow_edges_still edges set still in
          (
            round.0,
            spread_still fuel edges set still,
            λ x k. follow_edges_grows edges (set, false) x (has x k),
            follow_edges-Leads edges edges start (set, false) (λ e m. m) led,
            λ a b m k. same b ∙ closed a b m (sym (same a) ∙ k),
          )
    ]

closed-Leads :
    {start : List FilePath} {edges : List Edge} (result : List FilePath)
    → ((x : FilePath) → path_contains start x ≡ true → path_contains result x ≡ true)
    → IsClosed edges result
    → {x : FilePath} → Leads start edges x
    → path_contains result x ≡ true
closed-Leads {start} result holds closed (from {x} m) =
    holds x (Among-path_contains start {x = x} m)
closed-Leads result holds closed (along {a} {b} m l) =
    closed a b m (closed-Leads result holds closed l)

-- The loop over the edges ends, and what it gives is what the edges lead to.
pub spread_iff :
    (edges : List Edge) (start : List FilePath)
    → (result : List FilePath) × (spread (spread_fuel edges) edges start ≡ some result)
      × ((x : FilePath) → Among x result ↔ Leads start edges x)
spread_iff edges start =
    let bound = missing-le-length edges start in
    let (result, ends, holds, leads, closed) =
      spread_loop (spread_fuel edges) edges start start (omega arith) (λ x k. k) (λ x m. from m) in
    (
      result,
      ends,
      λ x. (
        leads x,
        λ l. path_contains-Among result x (closed-Leads {start = start} result holds closed l),
      ),
    )
