-- ===== src/StaleRecovery/Used.antt =====
-- The roots that records and processes use.
use mathlib.Core.Path.{subst}
use freebsd_flatpak.Prelude.{
  ◌≡◌, refl, sym, ap, ◌∙◌, ◌↔◌, ◌⊎◌, inl, inr, Bool, true, false, List, [], ◌∷◌, Option, none, some,
  arith, Result, ok, err, Among, here, there, Bool-cases,
}
use freebsd_flatpak.Paths.{
  FilePath, path_insert, path_insert_sound, path_insert_here, path_insert_there,
}
use freebsd_flatpak.StaleRecovery.Views.{
  RunRecord, RecoverError, View, root_of, references_root, run_record_launcher_active,
}
use freebsd_flatpak.StaleRecovery.Active.{edge, used_roots, extend_referenced}

pub edge_inv :
    (s t : Option FilePath) {a b : FilePath} → edge s t ≡ some (a, b) → (s ≡ some a) × (t ≡ some b)
edge_inv (some p) (some q) h = (ground (arith, h), ground (arith, h))
edge_inv (some p) none h = cc
edge_inv none (some q) h = cc
edge_inv none none h = cc

pub edge_of :
    {s t : Option FilePath} {a b : FilePath} → s ≡ some a → t ≡ some b → edge s t ≡ some (a, b)
edge_of h k = rw (h, k) refl

module _ (v : View) where
  -- What puts a root of a record in use.
  abbrev pub IsUsed : List RunRecord → FilePath → Type 0
  IsUsed records x =
      (r : RunRecord) × Among r records
      × (root_of r ≡ some x)
      × ((references_root v x ≡ true) ⊎ (run_record_launcher_active v r ≡ ok true))

  module _ (r : RunRecord) (records : List RunRecord) (active : List FilePath) where
    used_none : root_of r ≡ none → used_roots v (r ∷ records) active ≡ used_roots v records active
    unfolding used_roots
    used_none h = ground (arith, h)

    module _ {root : FilePath} (h : root_of r ≡ some root) where
      used_references :
          references_root v root ≡ true
          → used_roots v (r ∷ records) active ≡ used_roots v records (path_insert root active)
      unfolding used_roots
      used_references k = ground (arith, h, k)

      used_launched :
          references_root v root ≡ false
          → run_record_launcher_active v r ≡ ok true
          → used_roots v (r ∷ records) active ≡ used_roots v records (path_insert root active)
      unfolding used_roots
      used_launched k l = ground (arith, h, k, l)

      used_idle :
          references_root v root ≡ false
          → run_record_launcher_active v r ≡ ok false
          → used_roots v (r ∷ records) active ≡ used_roots v records active
      unfolding used_roots
      used_idle k l = ground (arith, h, k, l)

      used_fails :
          references_root v root ≡ false
          → {e : RecoverError} → run_record_launcher_active v r ≡ err e
          → used_roots v (r ∷ records) active ≡ err e
      unfolding used_roots
      used_fails k l = ground (arith, h, k, l)

  IsUsed-there :
      (r : RunRecord) (records : List RunRecord) {x : FilePath}
      → IsUsed records x
      → IsUsed (r ∷ records) x
  IsUsed-there r records (q, m, root, why) = (q, there m, root, why)

  -- One round, given what the later rounds do.
  module _ (r : RunRecord) (records : List RunRecord) (active : List FilePath) {out : List FilePath}
      (x : FilePath)
      (again : (before : List FilePath)
        → used_roots v records before ≡ ok out
        → Among x out ↔ (Among x before ⊎ IsUsed records x))
      (h : used_roots v (r ∷ records) active ≡ ok out) where
    abbrev Goal : Type 0
    Goal = Among x out ↔ (Among x active ⊎ IsUsed (r ∷ records) x)

    -- the root is not added
    passed :
        (used_roots v records active ≡ ok out)
        → ((root : FilePath)
            → root_of r ≡ some root
            → ((references_root v root ≡ true) ⊎ (run_record_launcher_active v r ≡ ok true))
            → ⊥)
        → Goal
    passed step idle =
        let (sound, whole) = again active step in
        (
          λ m. elim (sound m) [ inl n ↦ inl n | inr u ↦ inr (IsUsed-there r records u) ],
          λ m. elim m [
            | inl n ↦ whole (inl n)
            | inr (q, there n, root, why) ↦ whole (inr (q, n, root, why))
            | inr (q, here same, root, why) ↦ absurd (
                idle x (subst (λ s. root_of s ≡ some x) same root) (
                  subst
                    (λ s. (references_root v x ≡ true) ⊎ (run_record_launcher_active v s ≡ ok true))
                    same why))
          ],
        )

    added :
        (root : FilePath)
        → root_of r ≡ some root
        → ((references_root v root ≡ true) ⊎ (run_record_launcher_active v r ≡ ok true))
        → used_roots v records (path_insert root active) ≡ ok out
        → Goal
    added root k why step =
        let (sound, whole) = again (path_insert root active) step in
        (
          λ m. elim (sound m) [
            | inr u ↦ inr (IsUsed-there r records u)
            | inl n ↦ elim (path_insert_sound root active {x = x} n) [
              | inr n' ↦ inl n'
              | inl same ↦ inr (subst (IsUsed (r ∷ records)) (sym same) (r, here refl, k, why))
            ]
          ],
          λ m. elim m [
            | inl n ↦ whole (inl (path_insert_there root active n))
            | inr (q, there n, q_root, q_why) ↦ whole (inr (q, n, q_root, q_why))
            | inr (q, here same, q_root, q_why) ↦
                let e : x ≡ root = ground (arith, same, q_root, k) in
                whole (
                  inl (
                    subst (λ y. Among y (path_insert root active)) (sym e)
                      (path_insert_here root active)))
          ],
        )

    launch :
        (root : FilePath)
        → root_of r ≡ some root
        → references_root v root ≡ false
        → (answer : Result RecoverError Bool) → run_record_launcher_active v r ≡ answer
        → Goal
    launch root k free (ok true) l =
        added root k (inr l) (sym (used_launched r records active k free l) ∙ h)
    launch root k free (ok false) l =
        passed (sym (used_idle r records active k free l) ∙ h) (λ other o why. elim why [
          | inl ref ↦
              let e : other ≡ root = ground (arith, o, k) in
              cc (subst (λ y. references_root v y ≡ true) e ref, free)
          | inr up ↦ cc (up, l)
        ])
    launch root k free (err e) l = absurd (cc (sym (used_fails r records active k free l) ∙ h))

    used_roots_round : (root : Option FilePath) → root_of r ≡ root → Goal
    used_roots_round none k =
        passed (sym (used_none r records active k) ∙ h) (λ other o why. cc (o, k))
    used_roots_round (some root) k = elim (Bool-cases (references_root v root)) [
      | inl ref ↦ added root k (inl ref) (sym (used_references r records active k ref) ∙ h)
      | inr free ↦ launch root k free (run_record_launcher_active v r) refl
    ]

  -- What the loop adds is used, and what was there or is used is in its result.
  pub used_roots_iff :
      (records : List RunRecord) (active : List FilePath) {out : List FilePath}
      → used_roots v records active ≡ ok out
      → (x : FilePath) → Among x out ↔ (Among x active ⊎ IsUsed records x)
  unfolding used_roots
  used_roots_iff [] active h x =
      let same : active ≡ _ = ground (arith, h) in
      (
        λ m. inl (subst (Among x) (sym same) m),
        λ m. elim m [ inl n ↦ subst (Among x) same n | inr (r, n, k, u) ↦ elim n [ ] ],
      )
  used_roots_iff (r ∷ records) active h x =
      used_roots_round r records active x (λ before k. used_roots_iff records before k x) h
        (root_of r) refl

  module _ (root : FilePath) (roots active : List FilePath) where
    extend_yes :
        references_root v root ≡ true
        → extend_referenced v (root ∷ roots) active
          ≡ extend_referenced v roots (path_insert root active)
    unfolding extend_referenced
    extend_yes h = ap (extend_referenced v roots) (ground (arith, h))

    extend_no :
        references_root v root ≡ false
        → extend_referenced v (root ∷ roots) active ≡ extend_referenced v roots active
    unfolding extend_referenced
    extend_no h = ap (extend_referenced v roots) (ground (arith, h))

  -- The extension adds the roots that a process uses, and no other.
  pub extend_referenced_iff :
      (roots active : List FilePath) (x : FilePath)
      → Among x (extend_referenced v roots active)
        ↔ (Among x active ⊎ (Among x roots × (references_root v x ≡ true)))
  unfolding extend_referenced
  extend_referenced_iff [] active x =
      (λ m. inl m, λ m. elim m [ inl n ↦ n | inr (n, ref) ↦ elim n [ ] ])
  extend_referenced_iff (root ∷ roots) active x = elim (Bool-cases (references_root v root)) [
    | inl ref ↦
        let step = extend_yes root roots active ref in
        let (sound, whole) = extend_referenced_iff roots (path_insert root active) x in
        (
          λ m. elim (sound (subst (Among x) step m)) [
            | inr (n, k) ↦ inr (there n, k)
            | inl n ↦ elim (path_insert_sound root active {x = x} n) [
              | inr n' ↦ inl n'
              | inl same ↦ inr (here same, rw same ref)
            ]
          ],
          λ m. subst (Among x) (sym step) (
              whole (elim m [
                | inl n ↦ inl (path_insert_there root active n)
                | inr (there n, k) ↦ inr (n, k)
                | inr (here same, k) ↦ inl (
                    subst (λ y. Among y (path_insert root active)) (sym same)
                      (path_insert_here root active))
              ])),
        )
    | inr free ↦
        let step = extend_no root roots active free in
        let (sound, whole) = extend_referenced_iff roots active x in
        (
          λ m. elim (sound (subst (Among x) step m)) [
            | inr (n, k) ↦ inr (there n, k)
            | inl n ↦ inl n
          ],
          λ m. subst (Among x) (sym step) (
              whole (elim m [
                | inl n ↦ inl n
                | inr (there n, k) ↦ inr (n, k)
                | inr (here same, k) ↦
                    absurd (cc (subst (λ y. references_root v y ≡ true) same k, free))
              ])),
        )
  ]
