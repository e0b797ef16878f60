-- ===== src/StaleRecovery/Ordered.antt =====
-- The order of recovery: every path once, and none after one that it must go before.
use mathlib.Core.Path.{subst}
use freebsd_flatpak.Prelude.{
  ℕ, zero, suc, ◌≤◌, ◌<◌, ◌≡◌, refl, sym, ◌↔◌, inl, inr, List, [], ◌∷◌, Option, none, some, arith,
  length, Among, here, there,
}
use freebsd_flatpak.Paths.{
  FilePath, path_erase, path_eq_refl, path_erase_sound, path_erase_complete,
}
use freebsd_flatpak.StaleRecovery.Topological.{
  Dependency, next_ready, order_loop, topological_path_order,
}
use freebsd_flatpak.StaleRecovery.Choice.{
  erase_lt, next_ready-Among, next_ready-some, next_ready-free,
}

-- No path comes after one that it must go before, and none comes twice.
abbrev pub IsOrdered : List Dependency → List FilePath → Type 0
IsOrdered dependencies [] = Unit
IsOrdered dependencies (after ∷ rest) =
    ((before : FilePath) → Among (before, after) dependencies → ¬ Among before rest)
    × IsOrdered dependencies rest

abbrev pub IsDistinct : List FilePath → Type 0
IsDistinct [] = Unit
IsDistinct (p ∷ rest) = (¬ Among p rest) × IsDistinct rest

module _ (dependencies : List Dependency) where
  order_loop_step :
      (fuel : ℕ) (remaining : List FilePath) {p : FilePath}
      → next_ready dependencies remaining ≡ some p
      → order_loop (suc fuel) dependencies remaining
        ≡ p ∷ order_loop fuel dependencies (path_erase p remaining)
  unfolding order_loop
  order_loop_step fuel remaining h = ground (arith, h)

  order_loop_stop :
      (fuel : ℕ) (remaining : List FilePath)
      → next_ready dependencies remaining ≡ none
      → order_loop (suc fuel) dependencies remaining ≡ []
  unfolding order_loop
  order_loop_stop fuel remaining h = ground (arith, h)

  -- Nothing is made up.
  order_loop-Among :
      (fuel : ℕ) (remaining : List FilePath) {x : FilePath}
      → Among x (order_loop fuel dependencies remaining)
      → Among x remaining
  unfolding order_loop
  order_loop-Among zero remaining m = elim m [ ]
  order_loop-Among (suc fuel) remaining {x} m =
      go (next_ready dependencies remaining) refl
        (λ p. order_loop-Among fuel (path_erase p remaining) {x = x})
    where
      go :
          (next : Option FilePath)
          → next_ready dependencies remaining ≡ next
          → ((p : FilePath)
              → Among x (order_loop fuel dependencies (path_erase p remaining))
              → Among x (path_erase p remaining))
          → Among x remaining
      go none h later = elim (subst (Among x) (order_loop_stop fuel remaining h) m) [ ]
      go (some p) h later = elim (subst (Among x) (order_loop_step fuel remaining h) m) [
        | here e ↦
            subst (λ y. Among y remaining) (sym e) (next_ready-Among dependencies remaining h)
        | there n ↦ (path_erase_sound p remaining {x = x} (later p n)).0
      ]

  -- Nothing is lost.
  Among-order_loop :
      (fuel : ℕ) (remaining : List FilePath)
      → length remaining ≤ fuel
      → {x : FilePath} → Among x remaining
      → Among x (order_loop fuel dependencies remaining)
  Among-order_loop zero [] enough m = elim m [ ]
  Among-order_loop zero (q ∷ rest) enough m = absurd (omega arith)
  Among-order_loop (suc fuel) [] enough m = elim m [ ]
  Among-order_loop (suc fuel) (q ∷ rest) enough {x} m =
      go (next_ready dependencies (q ∷ rest)) refl
        (λ p k. Among-order_loop fuel (path_erase p (q ∷ rest)) k {x = x})
    where
      go :
          (next : Option FilePath)
          → next_ready dependencies (q ∷ rest) ≡ next
          → ((p : FilePath)
              → length (path_erase p (q ∷ rest)) ≤ fuel
              → Among x (path_erase p (q ∷ rest))
              → Among x (order_loop fuel dependencies (path_erase p (q ∷ rest))))
          → Among x (order_loop (suc fuel) dependencies (q ∷ rest))
      go none h later = absurd (next_ready-some dependencies q rest h)
      go (some p) h later =
          let fewer = erase_lt p (q ∷ rest) (next_ready-Among dependencies (q ∷ rest) h) in
          subst (Among x) (sym (order_loop_step fuel (q ∷ rest) h))
            (elim (path_erase_complete p (q ∷ rest) {x = x} m) [
              | inl e ↦ here e
              | inr n ↦ there (later p (omega arith) n)
            ])

  order_loop-IsDistinct :
      (fuel : ℕ) (remaining : List FilePath) → IsDistinct (order_loop fuel dependencies remaining)
  unfolding order_loop
  order_loop-IsDistinct zero remaining = tt
  order_loop-IsDistinct (suc fuel) remaining =
      go (next_ready dependencies remaining) refl
        (λ p. order_loop-IsDistinct fuel (path_erase p remaining))
    where
      go :
          (next : Option FilePath)
          → next_ready dependencies remaining ≡ next
          → ((p : FilePath) → IsDistinct (order_loop fuel dependencies (path_erase p remaining)))
          → IsDistinct (order_loop (suc fuel) dependencies remaining)
      go none h later = subst IsDistinct (sym (order_loop_stop fuel remaining h)) tt
      go (some p) h later = subst IsDistinct (sym (order_loop_step fuel remaining h)) (
        λ m.
            let (n, other) =
              path_erase_sound p remaining {x = p}
                (order_loop-Among fuel (path_erase p remaining) {x = p} m) in
            absurd (cc (other, path_eq_refl p)),
        later p,
      )

  module _ (rank : FilePath → ℕ)
      (falls : (before after : FilePath)
        → Among (before, after) dependencies
        → rank before < rank after) where
    order_loop-IsOrdered :
        (fuel : ℕ) (remaining : List FilePath)
        → IsOrdered dependencies (order_loop fuel dependencies remaining)
    unfolding order_loop
    order_loop-IsOrdered zero remaining = tt
    order_loop-IsOrdered (suc fuel) remaining =
        go (next_ready dependencies remaining) refl
          (λ p. order_loop-IsOrdered fuel (path_erase p remaining))
      where
        go :
            (next : Option FilePath)
            → next_ready dependencies remaining ≡ next
            → ((p : FilePath)
                → IsOrdered dependencies (order_loop fuel dependencies (path_erase p remaining)))
            → IsOrdered dependencies (order_loop (suc fuel) dependencies remaining)
        go none h later = subst (IsOrdered dependencies) (sym (order_loop_stop fuel remaining h)) tt
        go (some p) h later =
            subst (IsOrdered dependencies) (sym (order_loop_step fuel remaining h)) (
              λ before m k.
                  next_ready-free dependencies rank falls remaining h m
                    (path_erase_sound p remaining {x = before}
                      (order_loop-Among fuel (path_erase p remaining) {x = before} k)).0,
              later p,
            )

-- The order has the paths to order and no others, each of them once, also where the dependencies
-- form a cycle.
pub topological_path_order_all :
    (remaining : List FilePath) (dependencies : List Dependency)
    → IsDistinct (topological_path_order remaining dependencies)
      × ((x : FilePath)
          → Among x (topological_path_order remaining dependencies) ↔ Among x remaining)
unfolding topological_path_order
topological_path_order_all remaining dependencies = (
  order_loop-IsDistinct dependencies (length remaining) remaining,
  λ x. (
    λ m. order_loop-Among dependencies (length remaining) remaining {x = x} m,
    λ m. Among-order_loop dependencies (length remaining) remaining (omega arith) {x = x} m,
  ),
)

-- Where some rank falls along the dependencies, so that they form no cycle, the order puts no path
-- after one that it must go before.
pub topological_path_order-IsOrdered :
    (remaining : List FilePath) (dependencies : List Dependency) (rank : FilePath → ℕ)
    → ((before after : FilePath) → Among (before, after) dependencies → rank before < rank after)
    → IsOrdered dependencies (topological_path_order remaining dependencies)
unfolding topological_path_order
topological_path_order-IsOrdered remaining dependencies rank falls =
    order_loop-IsOrdered dependencies rank falls (length remaining) remaining
