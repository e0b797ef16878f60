-- ===== src/StaleRecovery/Choice.antt =====
-- The choice of the next path to recover.
use freebsd_flatpak.Prelude.{
  ℕ, ◌≤◌, ◌<◌, ◌≡◌, ◌≢◌, refl, ap, ◌∙◌, inl, inr, Bool, true, false, not, ◌&&◌, List, [], ◌∷◌,
  Option, none, some, arith, if◌then◌else◌, length, keep, any, or_else, leb, Among, here, there,
  keep-Among, Among-keep, Bool-cases,
}
use freebsd_flatpak.Paths.{
  FilePath, path_eq, path_contains, path_erase, path_eq→eq, path_eq_refl, path_contains-Among,
  Among-path_contains,
}
use freebsd_flatpak.StaleRecovery.Topological.{
  Dependency, deeper_le, deepest, last_path, is_blocked, next_ready,
}

erase_le : (p : FilePath) (set : List FilePath) → length (path_erase p set) ≤ length set
unfolding path_erase
erase_le p [] = omega arith
erase_le p (q ∷ set) = ground (arith, erase_le p set)

pub erase_lt :
    (p : FilePath) (set : List FilePath) → Among p set → length (path_erase p set) < length set
unfolding path_erase
erase_lt p [] m = elim m [ ]
erase_lt p (q ∷ set) (here e) =
    let same : path_eq q p ≡ true = rw e (path_eq_refl q) in
    let shorter = erase_le p set in rw same (omega arith)
erase_lt p (q ∷ set) (there m) = ground (arith, erase_lt p set m)

pub deepest-Among : (set : List FilePath) {p : FilePath} → deepest set ≡ some p → Among p set
unfolding deepest
deepest-Among [] h = cc
deepest-Among (q ∷ set) {p} h = go (deepest set) (λ r k. deepest-Among set {p = r} k) h
  where
    go :
        (rest : Option FilePath)
        → ((r : FilePath) → rest ≡ some r → Among r set)
        → (elim rest [ none ↦ some q | some r ↦ if deeper_le q r then some r else some q ]) ≡ some p
        → Among p (q ∷ set)
    go none later h = here (ground (arith, h))
    go (some r) later h = elim (Bool-cases (deeper_le q r)) [
      | inl deeper ↦ let e : r ≡ p = ground (arith, deeper, h) in there (later p (ap some e))
      | inr higher ↦ let e : p ≡ q = ground (arith, higher, h) in here e
    ]

pub deepest-some : (set : List FilePath) {q : FilePath} → Among q set → deepest set ≢ none
unfolding deepest
deepest-some [] m h = elim m [ ]
deepest-some (p ∷ set) m h = go (deepest set) h
  where
    go :
        (rest : Option FilePath)
        → (elim rest [ none ↦ some p | some r ↦ if deeper_le p r then some r else some p ]) ≢ none
    go none h = cc
    go (some r) h = elim (Bool-cases (deeper_le p r)) [
      | inl t ↦ ground (arith, t, h)
      | inr f ↦ ground (arith, f, h)
    ]

last-Among : (set : List FilePath) {p : FilePath} → last_path set ≡ some p → Among p set
unfolding last_path
last-Among [] h = cc
last-Among (q ∷ set) {p} h = go (last_path set) (λ k. last-Among set {p = p} k) h
  where
    go :
        (rest : Option FilePath)
        → (rest ≡ some p → Among p set)
        → or_else rest (some q) ≡ some p
        → Among p (q ∷ set)
    go none later h = here (ground (arith, h))
    go (some r) later h = there (later h)

last-some : (q : FilePath) (set : List FilePath) → last_path (q ∷ set) ≢ none
unfolding last_path
last-some q set h = go (last_path set) h
  where
    go : (rest : Option FilePath) → or_else rest (some q) ≢ none
    go none h = cc
    go (some r) h = cc

pub any-false :
    {A : Type 0} (p : A → Bool) (xs : List A) {x : A} → any p xs ≡ false → Among x xs → p x ≡ false
any-false p [] h m = elim m [ ]
any-false p (y ∷ xs) h (here e) = rw e (ground (arith, h))
any-false p (y ∷ xs) {x} h (there m) = any-false p xs {x = x} (ground (arith, h)) m

pub any-true :
    {A : Type 0} (p : A → Bool) (xs : List A)
    → any p xs ≡ true
    → (x : A) × Among x xs × (p x ≡ true)
any-true p [] h = cc
any-true p (y ∷ xs) h = elim (Bool-cases (p y)) [
  | inl holds ↦ (y, here refl, holds)
  | inr other ↦ let (x, m, t) = any-true p xs (ground (arith, h, other)) in (x, there m, t)
]

module _ (dependencies : List Dependency) where
  -- The next path is one of the remaining ones, if there are any.
  pub next_ready-Among :
      (remaining : List FilePath) {p : FilePath}
      → next_ready dependencies remaining ≡ some p
      → Among p remaining
  unfolding next_ready
  next_ready-Among remaining {p} h =
      go (deepest (keep (λ c. not (is_blocked dependencies remaining c)) remaining)) refl h
    where
      go :
          (best : Option FilePath)
          → deepest (keep (λ c. not (is_blocked dependencies remaining c)) remaining) ≡ best
          → or_else best (last_path remaining) ≡ some p
          → Among p remaining
      go none k h = last-Among remaining h
      go (some q) k h =
          (keep-Among (λ c. not (is_blocked dependencies remaining c)) remaining
            (deepest-Among (keep (λ c. not (is_blocked dependencies remaining c)) remaining)
              (k ∙ h))).0

  pub next_ready-some :
      (q : FilePath) (rest : List FilePath) → next_ready dependencies (q ∷ rest) ≢ none
  unfolding next_ready
  next_ready-some q rest h =
      go (deepest (keep (λ c. not (is_blocked dependencies (q ∷ rest) c)) (q ∷ rest))) h
    where
      go : (best : Option FilePath) → or_else best (last_path (q ∷ rest)) ≢ none
      go none h = last-some q rest h
      go (some r) h = cc

  is_blocked_by :
      (remaining : List FilePath) {before after : FilePath}
      → is_blocked dependencies remaining after ≡ false
      → Among (before, after) dependencies
      → ¬ Among before remaining
  unfolding is_blocked
  is_blocked_by remaining {before} {after} free m held =
      let test =
        any-false (λ (d : Dependency). path_eq d.1 after && path_contains remaining d.0)
          dependencies free m in
      let same = path_eq_refl after in
      let there_still = Among-path_contains remaining {x = before} held in
      ground (arith, test, same, there_still)

  -- A rank that falls along the dependencies, which no cycle of them has.
  module _ (rank : FilePath → ℕ)
      (falls : (before after : FilePath)
        → Among (before, after) dependencies
        → rank before < rank after) where
    lowest :
        (q : FilePath) (rest : List FilePath)
        → (p : FilePath) × Among p (q ∷ rest)
          × ((x : FilePath) → Among x (q ∷ rest) → rank p ≤ rank x)
    lowest q [] =
        (q, here refl, λ x m. elim m [ here e ↦ rw e (omega arith) | there n ↦ elim n [ ] ])
    lowest q (r ∷ rest) =
        let (p, m, least) = lowest r rest in
        elim (Bool-cases (leb (rank q) (rank p))) [
          | inl low ↦ (
            q,
            here refl,
            λ x n. elim n [
              | here e ↦ rw e (omega arith)
              | there k ↦ let above = least x k in ground (arith, low, above)
            ],
          )
          | inr high ↦ (
            p,
            there m,
            λ x n. elim n [ here e ↦ rw e (ground (arith, high)) | there k ↦ least x k ],
          )
        ]

    lowest_free :
        (remaining : List FilePath) (p : FilePath)
        → ((x : FilePath) → Among x remaining → rank p ≤ rank x)
        → is_blocked dependencies remaining p ≡ false
    unfolding is_blocked
    lowest_free remaining p least = elim (Bool-cases (is_blocked dependencies remaining p)) [
      | inr free ↦ free
      | inl blocked ↦
          let ((before, after), m, test) =
            any-true (λ (d : Dependency). path_eq d.1 p && path_contains remaining d.0) dependencies
              blocked in
          let same : after ≡ p = path_eq→eq after p (ground (arith, test)) in
          let held : Among before remaining =
            path_contains-Among remaining before (ground (arith, test)) in
          let lower = falls before after m in
          let above = least before held in
          let at_p : rank after ≡ rank p = ap rank same in absurd (omega arith)
    ]

    -- The next path is one that none of the remaining ones must go before.
    pub next_ready-free :
        (remaining : List FilePath) {p before : FilePath}
        → next_ready dependencies remaining ≡ some p
        → Among (before, p) dependencies
        → ¬ Among before remaining
    unfolding next_ready
    next_ready-free [] h m held = elim held [ ]
    next_ready-free (q ∷ rest) {p} {before} h m held =
        let (low, n, least) = lowest q rest in
        let free = lowest_free (q ∷ rest) low least in
        let among : Among low (keep (λ c. not (is_blocked dependencies (q ∷ rest) c)) (q ∷ rest)) =
          Among-keep (λ c. not (is_blocked dependencies (q ∷ rest) c)) (q ∷ rest) n (ap not free) in
        go (deepest (keep (λ c. not (is_blocked dependencies (q ∷ rest) c)) (q ∷ rest))) refl among
          h
      where
        go :
            (best : Option FilePath)
            → deepest (keep (λ c. not (is_blocked dependencies (q ∷ rest) c)) (q ∷ rest)) ≡ best
            → {low : FilePath}
            → Among low (keep (λ c. not (is_blocked dependencies (q ∷ rest) c)) (q ∷ rest))
            → or_else best (last_path (q ∷ rest)) ≡ some p
            → ⊥
        go none k among h =
            deepest-some (keep (λ c. not (is_blocked dependencies (q ∷ rest) c)) (q ∷ rest)) among k
        go (some r) k among h =
            let kept =
              (keep-Among (λ c. not (is_blocked dependencies (q ∷ rest) c)) (q ∷ rest)
                (deepest-Among (keep (λ c. not (is_blocked dependencies (q ∷ rest) c)) (q ∷ rest))
                  (k ∙ h))).1 in
            let unblocked : is_blocked dependencies (q ∷ rest) p ≡ false = ground (arith, kept) in
            is_blocked_by (q ∷ rest) unblocked m held
