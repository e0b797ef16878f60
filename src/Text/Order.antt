-- ===== src/Text/Order.antt =====
-- The order of texts, by which `sort` and the B-tree maps and sets go: that of the UTF-8 bytes,
-- which is that of the code points.
use Prim.Native.Nat.{compare, Ordering}
use freebsd_flatpak.Text.Basic.{Text, text_eq, text_eq→eq, text_eq_refl}
use freebsd_flatpak.Prelude.{
  ◌≡◌, refl, Bool, true, false, List, [], ◌∷◌, Option, none, some, arith, if◌then◌else◌, any, ◌||◌,
}

unfoldable pub text_cmp : Text → Text → Ordering
text_cmp [] [] = Ordering.eq
text_cmp [] (d ∷ t) = Ordering.lt
text_cmp (c ∷ s) [] = Ordering.gt
text_cmp (c ∷ s) (d ∷ t) =
    let rest = text_cmp s t in
    elim (compare c d) [
      | Ordering.lt ↦ Ordering.lt
      | Ordering.eq ↦ rest
      | Ordering.gt ↦ Ordering.gt
    ]

unfoldable pub text_le : Text → Text → Bool
unfolding text_cmp
text_le s t = elim (text_cmp s t) [ Ordering.gt ↦ false | _ ↦ true ]

pub text_cmp_eq : (s t : Text) → text_cmp s t ≡ Ordering.eq → s ≡ t
unfolding text_cmp
text_cmp_eq [] [] h = refl
text_cmp_eq [] (d ∷ t) h = ground arith
text_cmp_eq (c ∷ s) [] h = ground arith
text_cmp_eq (c ∷ s) (d ∷ t) h = ground (arith, text_cmp_eq s t)

pub text_cmp_refl : (s : Text) → text_cmp s s ≡ Ordering.eq
unfolding text_cmp
text_cmp_refl [] = refl
text_cmp_refl (c ∷ s) = ground (arith, text_cmp_refl s)

-- `Vec::sort` by a Boolean `≤`; insertion is stable
module _ {ℓ} {A : Type ℓ} (le : A → A → Bool) where
  unfoldable pub insert_by : A → List A → List A
  insert_by x [] = x ∷ []
  insert_by x (y ∷ ys) = if le x y then x ∷ y ∷ ys else y ∷ insert_by x ys

  unfoldable pub sort_by : List A → List A
  unfolding insert_by
  sort_by [] = []
  sort_by (x ∷ xs) = insert_by x (sort_by xs)

-- `Vec::dedup`: of equal neighbours the first is kept
unfoldable pub dedup : List Text → List Text
unfolding text_eq
dedup [] = []
dedup (x ∷ []) = x ∷ []
dedup (x ∷ y ∷ xs) = let rest = dedup (y ∷ xs) in if text_eq x y then rest else x ∷ rest

-- `BTreeMap<String, V>` as its entries in order.
module _ {ℓ} {V : Type ℓ} where
  unfoldable pub get : Text → List (Text × V) → Option V
  get k [] = none
  get k ((j, v) ∷ m) = if text_eq j k then some v else get k m

  unfoldable pub insert : Text → V → List (Text × V) → List (Text × V)
  insert k v [] = (k, v) ∷ []
  insert k v ((j, w) ∷ m) =
      let later = insert k v m in
      elim (text_cmp k j) [
        | Ordering.lt ↦ (k, v) ∷ (j, w) ∷ m
        | Ordering.eq ↦ (k, v) ∷ m
        | Ordering.gt ↦ (j, w) ∷ later
      ]

  pub get-insert_self : (k : Text) (v : V) (m : List (Text × V)) → get k (insert k v m) ≡ some v
  unfolding get insert
  get-insert_self k v [] = ground (arith, text_eq_refl k)
  get-insert_self k v ((j, w) ∷ m) =
      ground (arith, text_eq_refl k, text_cmp_refl k, text_eq→eq j k, get-insert_self k v m)

  pub get-insert :
      (j k : Text) (v : V) (m : List (Text × V))
      → get j (insert k v m) ≡ (if text_eq k j then some v else get j m)
  unfolding get insert
  get-insert j k v [] = refl
  get-insert j k v ((i, w) ∷ m) =
      ground (
        arith,
        text_cmp_eq k i,
        text_cmp_refl k,
        text_eq→eq k j,
        text_eq→eq i j,
        get-insert j k v m,
      )

-- `BTreeSet<String>`
unfoldable pub contains : List Text → Text → Bool
unfolding text_eq
contains set x = any (λ y. text_eq y x) set

unfoldable pub set_insert : Text → List Text → List Text
unfolding text_cmp
set_insert x [] = x ∷ []
set_insert x (y ∷ ys) =
    let later = set_insert x ys in
    elim (text_cmp x y) [
      | Ordering.lt ↦ x ∷ y ∷ ys
      | Ordering.eq ↦ y ∷ ys
      | Ordering.gt ↦ y ∷ later
    ]

module _ {ℓ} {V : Type ℓ} where
  -- `BTreeMap::remove`
  unfoldable pub erase : Text → List (Text × V) → List (Text × V)
  erase k [] = []
  erase k ((j, v) ∷ m) = let rest = erase k m in if text_eq j k then rest else (j, v) ∷ rest

  pub get-erase :
      (j k : Text) (m : List (Text × V))
      → get j (erase k m) ≡ (if text_eq k j then none else get j m)
  unfolding get erase
  get-erase j k [] = ground arith
  get-erase j k ((i, v) ∷ m) =
      ground
        (arith, text_eq→eq i k, text_eq→eq i j, text_eq→eq k j, text_eq_refl j, get-erase j k m)

pub contains-set_insert :
    (x : Text) (set : List Text) (y : Text)
    → contains (set_insert x set) y ≡ (text_eq x y || contains set y)
unfolding contains set_insert
contains-set_insert x [] y = refl
contains-set_insert x (z ∷ set) y = ground (arith, text_cmp_eq x z, contains-set_insert x set y)
