-- ===== src/Paths/Sets.antt =====
-- The elements of a set of paths.
use Prim.Native.Nat.{Ordering}
use mathlib.Core.Path.{subst}
use freebsd_flatpak.Prelude.{
  ◌||◌, ◌≡◌, refl, sym, ◌∙◌, ◌⊎◌, inl, inr, true, false, List, [], ◌∷◌, arith, Among, here, there,
  Bool-cases,
}
use freebsd_flatpak.Paths.Defs.{FilePath, path_eq, path_cmp, path_contains, path_insert, path_erase}
use freebsd_flatpak.Paths.Laws.{path_eq→eq, path_eq_refl, path_cmp_eq}

abbrev inserted : FilePath → FilePath → List FilePath → Ordering → List FilePath
inserted p q set Ordering.lt = p ∷ q ∷ set
inserted p q set Ordering.eq = q ∷ set
inserted p q set Ordering.gt = q ∷ path_insert p set

path_insert-cons :
    (p q : FilePath) (set : List FilePath)
    → path_insert p (q ∷ set) ≡ inserted p q set (path_cmp p q)
unfolding path_insert
path_insert-cons p q set = ground arith

pub path_insert_here : (p : FilePath) (set : List FilePath) → Among p (path_insert p set)
unfolding path_insert
path_insert_here p [] = here refl
path_insert_here p (q ∷ set) =
    subst (Among p) (sym (path_insert-cons p q set))
      (go (path_cmp p q) refl (path_insert_here p set))
  where
    go :
        (o : Ordering)
        → path_cmp p q ≡ o
        → Among p (path_insert p set)
        → Among p (inserted p q set o)
    go Ordering.lt e ih = here refl
    go Ordering.eq e ih = here (path_cmp_eq p q e)
    go Ordering.gt e ih = there ih

pub path_insert_there :
    (p : FilePath) (set : List FilePath) {x : FilePath} → Among x set → Among x (path_insert p set)
unfolding path_insert
path_insert_there p [] m = elim m [ ]
path_insert_there p (q ∷ set) {x} m =
    subst (Among x) (sym (path_insert-cons p q set))
      (go (path_cmp p q) m (λ n. path_insert_there p set {x = x} n))
  where
    go :
        (o : Ordering)
        → Among x (q ∷ set)
        → (Among x set → Among x (path_insert p set))
        → Among x (inserted p q set o)
    go Ordering.lt n ih = there n
    go Ordering.eq n ih = n
    go Ordering.gt (here same) ih = here same
    go Ordering.gt (there n) ih = there (ih n)

pub path_insert_sound :
    (p : FilePath) (set : List FilePath) {x : FilePath}
    → Among x (path_insert p set)
    → (x ≡ p) ⊎ Among x set
unfolding path_insert
path_insert_sound p [] (here same) = inl same
path_insert_sound p [] (there m) = elim m [ ]
path_insert_sound p (q ∷ set) {x} m =
    go (path_cmp p q) (subst (Among x) (path_insert-cons p q set) m)
      (λ n. path_insert_sound p set {x = x} n)
  where
    go :
        (o : Ordering)
        → Among x (inserted p q set o)
        → (Among x (path_insert p set) → (x ≡ p) ⊎ Among x set)
        → (x ≡ p) ⊎ Among x (q ∷ set)
    go Ordering.lt (here same) ih = inl same
    go Ordering.lt (there n) ih = inr n
    go Ordering.eq n ih = inr n
    go Ordering.gt (here same) ih = inr (here same)
    go Ordering.gt (there n) ih = elim (ih n) [ inl same ↦ inl same | inr k ↦ inr (there k) ]

pub path_contains-Among :
    (set : List FilePath) (x : FilePath) → path_contains set x ≡ true → Among x set
unfolding path_contains
path_contains-Among [] x h = cc
path_contains-Among (q ∷ set) x h = elim (Bool-cases (path_eq q x)) [
  | inl same ↦ here (sym (path_eq→eq q x same))
  | inr other ↦ there (path_contains-Among set x (ground (arith, other, h)))
]

pub Among-path_contains :
    (set : List FilePath) {x : FilePath} → Among x set → path_contains set x ≡ true
unfolding path_contains
Among-path_contains [] m = elim m [ ]
Among-path_contains (q ∷ set) {x} (here same) =
    let found : path_eq q x ≡ true = rw same (path_eq_refl q) in ground (arith, found)
Among-path_contains (q ∷ set) {x} (there m) = ground (arith, Among-path_contains set {x = x} m)

pub path_contains-insert :
    (p : FilePath) (set : List FilePath) (x : FilePath)
    → path_contains (path_insert p set) x ≡ (path_eq p x || path_contains set x)
unfolding path_contains path_insert
path_contains-insert p [] x = refl
path_contains-insert p (q ∷ set) x = ground (arith, path_cmp_eq p q, path_contains-insert p set x)

-- What is left after an erasure.
pub path_erase_sound :
    (p : FilePath) (set : List FilePath) {x : FilePath}
    → Among x (path_erase p set)
    → Among x set × (path_eq x p ≡ false)
unfolding path_erase
path_erase_sound p [] m = elim m [ ]
path_erase_sound p (q ∷ set) {x} m = elim (Bool-cases (path_eq q p)) [
  | inl same ↦ let (n, other) = path_erase_sound p set {x = x} (rw same at m) in (there n, other)
  | inr differs ↦ elim (rw differs at m) [
    | here e ↦ (here e, rw e differs)
    | there n ↦ let (k, other) = path_erase_sound p set {x = x} n in (there k, other)
  ]
]

pub path_erase_complete :
    (p : FilePath) (set : List FilePath) {x : FilePath}
    → Among x set
    → (x ≡ p) ⊎ Among x (path_erase p set)
unfolding path_erase
path_erase_complete p [] m = elim m [ ]
path_erase_complete p (q ∷ set) {x} m = elim (Bool-cases (path_eq q p)) [
  | inl same ↦ elim m [
    | here e ↦ inl (e ∙ path_eq→eq q p same)
    | there n ↦ rw same (path_erase_complete p set {x = x} n)
  ]
  | inr differs ↦ elim m [
    | here e ↦ inr (rw differs (here e))
    | there n ↦ elim (path_erase_complete p set {x = x} n) [
      | inl e ↦ inl e
      | inr k ↦ inr (rw differs (there k))
    ]
  ]
]
