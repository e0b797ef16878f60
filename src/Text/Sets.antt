-- ===== src/Text/Sets.antt =====
-- The elements of a set after an insertion.
use freebsd_flatpak.Prelude.{
  ◌≡◌, refl, ap, ◌⊎◌, inl, inr, true, List, [], ◌∷◌, arith, Among, here, there, Bool-cases,
}
use Prim.Native.Nat.{Ordering}
use freebsd_flatpak.Text.Basic.{Text, text_eq, text_eq→eq, text_eq_refl}
use freebsd_flatpak.Text.Order.{text_cmp, text_cmp_eq, contains, set_insert}

set_insert-cons :
    (x y : Text) (ys : List Text) {z : Text}
    → Among z (set_insert x (y ∷ ys))
    → (z ≡ x) ⊎ (Among z (y ∷ ys) ⊎ Among z (set_insert x ys))
unfolding set_insert
set_insert-cons x y ys {z} m = go (text_cmp x y) refl m
  where
    go :
        (o : Ordering)
        → text_cmp x y ≡ o
        → Among z (elim o [
          | Ordering.lt ↦ x ∷ y ∷ ys
          | Ordering.eq ↦ y ∷ ys
          | Ordering.gt ↦ y ∷ set_insert x ys
        ])
        → (z ≡ x) ⊎ (Among z (y ∷ ys) ⊎ Among z (set_insert x ys))
    go Ordering.lt e (here same) = inl same
    go Ordering.lt e (there n) = inr (inl n)
    go Ordering.eq e n = inr (inl n)
    go Ordering.gt e (here same) = inr (inl (here same))
    go Ordering.gt e (there n) = inr (inr n)

pub set_insert_sound :
    (x : Text) (set : List Text) {z : Text} → Among z (set_insert x set) → (z ≡ x) ⊎ Among z set
unfolding set_insert
set_insert_sound x [] (here same) = inl same
set_insert_sound x [] (there m) = elim m [ ]
set_insert_sound x (y ∷ ys) {z} m = elim (set_insert-cons x y ys m) [
  | inl same ↦ inl same
  | inr (inl n) ↦ inr n
  | inr (inr n) ↦ elim (set_insert_sound x ys {z = z} n) [
    | inl same ↦ inl same
    | inr k ↦ inr (there k)
  ]
]

pub set_insert_here : (x : Text) (set : List Text) → Among x (set_insert x set)
unfolding set_insert
set_insert_here x [] = here refl
set_insert_here x (y ∷ ys) = go (text_cmp x y) refl (set_insert_here x ys)
  where
    go :
        (o : Ordering)
        → text_cmp x y ≡ o
        → Among x (set_insert x ys)
        → Among x (elim o [
          | Ordering.lt ↦ x ∷ y ∷ ys
          | Ordering.eq ↦ y ∷ ys
          | Ordering.gt ↦ y ∷ set_insert x ys
        ])
    go Ordering.lt e ih = here refl
    go Ordering.eq e ih = here (text_cmp_eq x y e)
    go Ordering.gt e ih = there ih

pub set_insert_there :
    (x : Text) (set : List Text) {z : Text} → Among z set → Among z (set_insert x set)
unfolding set_insert
set_insert_there x [] m = elim m [ ]
set_insert_there x (y ∷ ys) {z} m = go (text_cmp x y) m (λ n. set_insert_there x ys {z = z} n)
  where
    go :
        (o : Ordering)
        → Among z (y ∷ ys)
        → (Among z ys → Among z (set_insert x ys))
        → Among z (elim o [
          | Ordering.lt ↦ x ∷ y ∷ ys
          | Ordering.eq ↦ y ∷ ys
          | Ordering.gt ↦ y ∷ set_insert x ys
        ])
    go Ordering.lt n ih = there n
    go Ordering.eq n ih = n
    go Ordering.gt (here same) ih = here same
    go Ordering.gt (there n) ih = there (ih n)

-- What is contained is an element.
pub Among-contains : (set : List Text) (x : Text) → Among x set → contains set x ≡ true
unfolding contains
Among-contains [] x m = elim m [ ]
Among-contains (y ∷ ys) x (here same) = ground (arith, same, text_eq_refl y)
Among-contains (y ∷ ys) x (there m) = ground (arith, Among-contains ys x m)

pub contains-Among : (set : List Text) (x : Text) → contains set x ≡ true → Among x set
unfolding contains
contains-Among [] x h = cc
contains-Among (y ∷ ys) x h = elim (Bool-cases (text_eq y x)) [
  | inl same ↦
      here (ap (λ z. z) (text_eq→eq x y (ground (arith, text_eq→eq y x, same, text_eq_refl x))))
  | inr other ↦ there (contains-Among ys x (ground (arith, other, h)))
]
