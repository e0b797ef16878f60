-- ===== src/Prelude/Members.antt =====
-- Membership in the lists that the list operations give.
use mathlib.Core.Path.{◌≡◌, refl, sym, ap}
use mathlib.Core.List.{List, [], ◌∷◌, ◌++◌, map}
use mathlib.Core.Logic.{◌⊎◌, inl, inr}
use freebsd_flatpak.Prelude.Lists.{Among, here, there}

module _ {ℓ κ} {A : Type ℓ} {B : Type κ} (f : A → B) where
  pub Among-map : (xs : List A) {y : B} → Among y (map f xs) → (x : A) × Among x xs × (f x ≡ y)
  Among-map [] m = elim m [ ]
  Among-map (x ∷ xs) (here e) = (x, here refl, sym e)
  Among-map (x ∷ xs) (there m) = let (z, n, e) = Among-map xs m in (z, there n, e)

  pub map-Among : (xs : List A) {x : A} → Among x xs → Among (f x) (map f xs)
  map-Among [] m = elim m [ ]
  map-Among (x ∷ xs) (here e) = here (ap f e)
  map-Among (x ∷ xs) (there m) = there (map-Among xs m)

module _ {ℓ} {A : Type ℓ} where
  pub Among-append : (xs ys : List A) {x : A} → Among x (xs ++ ys) → Among x xs ⊎ Among x ys
  Among-append [] ys m = inr m
  Among-append (y ∷ xs) ys (here e) = inl (here e)
  Among-append (y ∷ xs) ys (there m) = elim (Among-append xs ys m) [
    | inl n ↦ inl (there n)
    | inr n ↦ inr n
  ]

  pub append_left : (xs ys : List A) {x : A} → Among x xs → Among x (xs ++ ys)
  append_left [] ys m = elim m [ ]
  append_left (y ∷ xs) ys (here e) = here e
  append_left (y ∷ xs) ys (there m) = there (append_left xs ys m)

  pub append_right : (xs ys : List A) {x : A} → Among x ys → Among x (xs ++ ys)
  append_right [] ys m = m
  append_right (y ∷ xs) ys m = there (append_right xs ys m)
