-- ===== src/Prelude/Lists.antt =====
-- Lists measured by native numbers, Boolean searches, and predicates by recursion.
use Prim.Native.Nat.{ℕ, zero, suc, ◌+◌}
use mathlib.Core.Path.{◌≡◌, refl, ap, fun_ext}
use mathlib.Core.Bool.{Bool, true, false, ◌&&◌, ◌||◌}
use mathlib.Core.List.{List, [], ◌∷◌, ◌++◌}
use mathlib.Core.Logic.{inl, inr}
use mathlib.Core.Option.{Option, none, some}
use native.Mathlib.Omega.{arith}
use freebsd_flatpak.Prelude.Results.{or_else}
use freebsd_flatpak.Prelude.Tests.{if◌then◌else◌, Bool-cases}

module _ {ℓ} {A : Type ℓ} where
  abbrev pub length : List A → ℕ
  length [] = 0
  length (x ∷ xs) = suc (length xs)

  abbrev pub get_elem? : List A → ℕ → Option A
  get_elem? [] i = none
  get_elem? (x ∷ xs) zero = some x
  get_elem? (x ∷ xs) (suc i) = get_elem? xs i

  abbrev pub is_empty : List A → Bool
  is_empty [] = true
  is_empty (x ∷ xs) = false

  -- `Iterator::filter`, `Vec::retain`
  abbrev pub keep : (A → Bool) → List A → List A
  keep p [] = []
  keep p (x ∷ xs) = let rest = keep p xs in if p x then x ∷ rest else rest

  abbrev pub any : (A → Bool) → List A → Bool
  any p [] = false
  any p (x ∷ xs) = p x || any p xs

  abbrev pub all : (A → Bool) → List A → Bool
  all p [] = true
  all p (x ∷ xs) = p x && all p xs

  -- `Iterator::find`
  abbrev pub find : (A → Bool) → List A → Option A
  find p [] = none
  find p (x ∷ xs) = let rest = find p xs in if p x then some x else rest

  pub length-append : (xs ys : List A) → length (xs ++ ys) ≡ length xs + length ys
  length-append [] ys = omega arith
  length-append (x ∷ xs) ys = omega (arith, length-append xs ys)

module _ {ℓ κ} {A : Type ℓ} (P : A → Type κ) where
  abbrev pub All : List A → Type κ
  All [] = Unit
  All (x ∷ xs) = P x × All xs

  pub All-append : (xs ys : List A) → All xs → All ys → All (xs ++ ys)
  All-append [] ys h k = k
  All-append (x ∷ xs) ys h k = (h.0, All-append xs ys h.1 k)

module _ {ℓ} {A : Type ℓ} where
  pub find-append :
      (p : A → Bool) (xs ys : List A) → find p (xs ++ ys) ≡ or_else (find p xs) (find p ys)
  find-append p [] ys = refl
  find-append p (x ∷ xs) ys = ground (arith, find-append p xs ys)

  pub keep-append : (p : A → Bool) (xs ys : List A) → keep p (xs ++ ys) ≡ keep p xs ++ keep p ys
  keep-append p [] ys = refl
  keep-append p (x ∷ xs) ys = ground (arith, keep-append p xs ys)

  pub any-append : (p : A → Bool) (xs ys : List A) → any p (xs ++ ys) ≡ (any p xs || any p ys)
  any-append p [] ys = refl
  any-append p (x ∷ xs) ys = ground (arith, any-append p xs ys)

  pub keep-keep : (p q : A → Bool) (xs : List A) → keep p (keep q xs) ≡ keep (λ x. p x && q x) xs
  keep-keep p q [] = refl
  keep-keep p q (x ∷ xs) = ground (arith, keep-keep p q xs)

  pub keep_every : (p : A → Bool) (xs : List A) → All (λ x. p x ≡ true) xs → keep p xs ≡ xs
  keep_every p [] h = refl
  keep_every p (x ∷ xs) h = ground (arith, keep_every p xs h.1)

  pub keep_nothing : (p : A → Bool) (xs : List A) → All (λ x. p x ≡ false) xs → keep p xs ≡ []
  keep_nothing p [] h = refl
  keep_nothing p (x ∷ xs) h = ground (arith, keep_nothing p xs h.1)

  pub All-keep {κ} : (P : A → Type κ) (p : A → Bool) (xs : List A) → All P xs → All P (keep p xs)
  All-keep P p [] h = h
  All-keep P p (x ∷ xs) h = elim (Bool-cases (p x)) [
    | inl kept ↦ rw kept (h.0, All-keep P p xs h.1)
    | inr dropped ↦ rw dropped (All-keep P p xs h.1)
  ]

  pub All-weaken {κ μ} :
      (P : A → Type κ) (Q : A → Type μ) (xs : List A) → ((x : A) → P x → Q x) → All P xs → All Q xs
  All-weaken P Q [] f h = tt
  All-weaken P Q (x ∷ xs) f h = (f x h.0, All-weaken P Q xs f h.1)

  pub keep_congr : {p q : A → Bool} (xs : List A) → ((x : A) → p x ≡ q x) → keep p xs ≡ keep q xs
  keep_congr xs h = ap (λ r. keep r xs) (fun_ext h)

-- `x` is an element of the list.
pub data Among {ℓ} {A : Type ℓ} (x : A) : List A → Type ℓ where
  here : {y : A} {ys : List A} → x ≡ y → Among x (y ∷ ys)
  there : {y : A} {ys : List A} → Among x ys → Among x (y ∷ ys)

module _ {ℓ} {A : Type ℓ} where
  pub find-Among :
      (p : A → Bool) (xs : List A) {x : A} → find p xs ≡ some x → Among x xs × (p x ≡ true)
  find-Among p [] h = cc
  find-Among p (y ∷ ys) {x} h = elim (Bool-cases (p y)) [
    | inl holds ↦ let e : x ≡ y = ground arith in (here e, rw e holds)
    | inr fails ↦ let (m, t) = find-Among p ys {x = x} (ground arith) in (there m, t)
  ]

  pub find_of_Among :
      (p : A → Bool) (xs : List A) {x : A}
      → Among x xs
      → p x ≡ true
      → (y : A) × (find p xs ≡ some y)
  find_of_Among p [] m t = elim m [ ]
  find_of_Among p (y ∷ ys) {x} (here e) t = (y, ground arith)
  find_of_Among p (y ∷ ys) {x} (there m) t = elim (Bool-cases (p y)) [
    | inl holds ↦ (y, rw holds)
    | inr fails ↦ let (z, found) = find_of_Among p ys {x = x} m t in (z, rw fails found)
  ]

module _ {ℓ} {A : Type ℓ} (p : A → Bool) where
  pub keep-Among : (xs : List A) {x : A} → Among x (keep p xs) → Among x xs × (p x ≡ true)
  keep-Among [] m = elim m [ ]
  keep-Among (y ∷ ys) {x} m = elim (Bool-cases (p y)) [
    | inr dropped ↦ let (n, t) = keep-Among ys {x = x} (rw dropped at m) in (there n, t)
    | inl kept ↦ elim (rw kept at m) [
      | here e ↦ (here e, rw e kept)
      | there n ↦ let (k, t) = keep-Among ys {x = x} n in (there k, t)
    ]
  ]

  pub Among-keep : (xs : List A) {x : A} → Among x xs → p x ≡ true → Among x (keep p xs)
  Among-keep [] m t = elim m [ ]
  Among-keep (y ∷ ys) {x} (here e) t = let kept : p y ≡ true = rw (← e) t in rw kept (here e)
  Among-keep (y ∷ ys) {x} (there m) t = elim (Bool-cases (p y)) [
    | inl kept ↦ rw kept (there (Among-keep ys {x = x} m t))
    | inr dropped ↦ rw dropped (Among-keep ys {x = x} m t)
  ]
