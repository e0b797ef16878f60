-- ===== src/Text/Numbers.antt =====
-- Decimal texts: `str::parse` for the integer types, and `Display`.
use freebsd_flatpak.Prelude.{
  ℕ, zero, suc, ◌+◌, ◌-◌, ◌*◌, ◌/◌, ◌%◌, ◌≤◌, ◌<◌, ◌≡◌, ◌≢◌, refl, sym, ap, ◌∙◌, true, false, [],
  ◌∷◌, ◌++◌, Option, none, some, arith, if◌then◌else◌, ltb, leb, ◌==◌, ℤ, pos, negsuc, Bool-cases,
  inl, inr,
}
use freebsd_flatpak.Text.Basic.{Text}
use freebsd_flatpak.Text.Split.{Lacks, Lacks-append}
use freebsd_flatpak.Text.Chars.{is_ascii_digit}

-- the digits of a number, after those that gave `acc`
unfoldable pub parse_digits : Text → ℕ → Option ℕ
unfolding is_ascii_digit
parse_digits [] acc = some acc
parse_digits (c ∷ s) acc =
    let rest = parse_digits s (acc * 10 + (c - b'0')) in if is_ascii_digit c then rest else none

-- at least one digit, and at most `max`
unfoldable pub parse_up_to : ℕ → Text → Option ℕ
unfolding parse_digits
parse_up_to max [] = none
parse_up_to max (c ∷ s) = elim (parse_digits (c ∷ s) 0) [
  | none ↦ none
  | some n ↦ if leb n max then some n else none
]

-- `parse` for an unsigned type whose largest number is `max`
unfoldable pub parse_unsigned : ℕ → Text → Option ℕ
unfolding parse_up_to
parse_unsigned max [] = none
parse_unsigned max (c ∷ s) = if c == b'+' then parse_up_to max s else parse_up_to max (c ∷ s)

abbrev pub negated : Option ℕ → Option ℤ
negated none = none
negated (some zero) = some (pos zero)
negated (some (suc n)) = some (negsuc n)

abbrev pub positive : Option ℕ → Option ℤ
positive none = none
positive (some n) = some (pos n)

-- `parse` for a signed type whose largest number is `max`
unfoldable pub parse_signed : ℕ → Text → Option ℤ
unfolding parse_unsigned
parse_signed max [] = none
parse_signed max (c ∷ s) =
    if c == b'-' then negated (parse_up_to (max + 1) s) else positive (parse_unsigned max (c ∷ s))

-- the digits of `n`, with `fuel` above it
unfoldable pub digits : ℕ → ℕ → Text
digits zero n = []
digits (suc fuel) n =
    let front = digits fuel (n / 10) in
    let last = b'0' + n % 10 in if ltb n 10 then last ∷ [] else front ++ (last ∷ [])

unfoldable pub show_nat : ℕ → Text
unfolding digits
show_nat n = digits (suc n) n

unfoldable pub show_int : ℤ → Text
unfolding show_nat
show_int (pos n) = show_nat n
show_int (negsuc n) = b'-' ∷ show_nat (suc n)

-- The numbers of a signed type whose largest is `max`.
abbrev pub IsWithin : ℕ → ℤ → Type 0
IsWithin max (pos n) = n ≤ max
IsWithin max (negsuc n) = n ≤ max

abbrev then_digit : Option ℕ → ℕ → Option ℕ
then_digit none d = none
then_digit (some v) d = some (v * 10 + d)

parse_digits-append :
    (s : Text) (acc d : ℕ)
    → d < 10
    → parse_digits (s ++ ((b'0' + d) ∷ [])) acc ≡ then_digit (parse_digits s acc) d
unfolding parse_digits
parse_digits-append [] acc d h = ground arith
parse_digits-append (c ∷ s) acc d h =
    ground (arith, parse_digits-append s (acc * 10 + (c - b'0')) d)

parse_digits-digits : (fuel n : ℕ) → n < fuel → parse_digits (digits fuel n) 0 ≡ some n
unfolding digits parse_digits
parse_digits-digits zero n h = absurd (omega arith)
parse_digits-digits (suc fuel) n h = elim (Bool-cases (ltb n 10)) [
  | inl small ↦
      let below : n < 10 = ground (arith, small) in
      let whole : 0 * 10 + n % 10 ≡ n = omega arith in
      rw small (
        parse_digits-append [] 0 (n % 10) (omega arith)
        ∙ ap (then_digit (some 0)) refl
        ∙ ap some whole)
  | inr large ↦
      let above : 10 ≤ n = ground (arith, large) in
      let whole : n / 10 * 10 + n % 10 ≡ n = omega arith in
      let front = parse_digits-digits fuel (n / 10) (omega arith) in
      rw large (
        parse_digits-append (digits fuel (n / 10)) 0 (n % 10) (omega arith)
        ∙ ap (λ o. then_digit o (n % 10)) front
        ∙ ap some whole)
]

-- The first digit of a number is a digit.
digits_cons :
    (fuel n : ℕ)
    → n < fuel
    → (c : ℕ) × (s : Text) × (digits fuel n ≡ c ∷ s) × (is_ascii_digit c ≡ true)
unfolding digits is_ascii_digit
digits_cons zero n h = absurd (omega arith)
digits_cons (suc fuel) n h = elim (Bool-cases (ltb n 10)) [
  | inl small ↦ (b'0' + n % 10, [], rw small refl, ground arith)
  | inr large ↦
      let above : 10 ≤ n = ground (arith, large) in
      let (c, s, front, digit) = digits_cons fuel (n / 10) (omega arith) in
      (
        c,
        s ++ ((b'0' + n % 10) ∷ []),
        rw large (ap (λ t. t ++ ((b'0' + n % 10) ∷ [])) front),
        digit,
      )
]

show_nat-digits : (n : ℕ) → show_nat n ≡ digits (suc n) n
unfolding show_nat
show_nat-digits n = refl

-- A number that is printed and not above the largest is read back.
pub parse_up_to-show_nat : (max n : ℕ) → n ≤ max → parse_up_to max (show_nat n) ≡ some n
unfolding show_nat parse_up_to
parse_up_to-show_nat max n h =
    let (c, s, whole, digit) = digits_cons (suc n) n (omega arith) in
    let read = parse_digits-digits (suc n) n (omega arith) in
    let read' : parse_digits (c ∷ s) 0 ≡ some n = rw whole at read in
    rw whole (ground (arith, read'))

parse_signed_of_digit :
    (max c : ℕ) (s : Text)
    → is_ascii_digit c ≡ true
    → parse_signed max (c ∷ s) ≡ positive (parse_up_to max (c ∷ s))
unfolding parse_signed is_ascii_digit
parse_signed_of_digit max c s h = ground arith

parse_signed_negative :
    (max n : ℕ) (s : Text)
    → parse_up_to (max + 1) s ≡ some (suc n)
    → parse_signed max (b'-' ∷ s) ≡ some (negsuc n)
unfolding parse_signed
parse_signed_negative max n s e = ground (arith, e)

-- A number of a signed type is read back from its printed form.
pub parse_signed-show_int :
    (max : ℕ) (i : ℤ) → IsWithin max i → parse_signed max (show_int i) ≡ some i
unfolding show_int
parse_signed-show_int max (negsuc n) h =
    parse_signed_negative max n (show_nat (suc n))
      (parse_up_to-show_nat (max + 1) (suc n) (omega arith))
parse_signed-show_int max (pos n) h =
    let (c, s, whole, digit) = digits_cons (suc n) n (omega arith) in
    let start : show_nat n ≡ c ∷ s = show_nat-digits n ∙ whole in
    ap (parse_signed max) start
    ∙ parse_signed_of_digit max c s digit
    ∙ ap (λ t. positive (parse_up_to max t)) (sym start)
    ∙ ap positive (parse_up_to-show_nat max n h)

-- Printed numbers have digits and a sign only.
digits-Lacks : (sep fuel n : ℕ) → is_ascii_digit sep ≡ false → Lacks sep (digits fuel n)
unfolding digits is_ascii_digit
digits-Lacks sep zero n h = tt
digits-Lacks sep (suc fuel) n h =
    let last : b'0' + n % 10 ≢ sep = λ e. ground (arith, h, e) in
    elim (Bool-cases (ltb n 10)) [
      | inl small ↦ rw small (last, tt)
      | inr large ↦ rw large (
          Lacks-append sep (digits fuel (n / 10)) ((b'0' + n % 10) ∷ [])
            (digits-Lacks sep fuel (n / 10) h) (last, tt))
    ]

pub show_int-Lacks :
    (sep : ℕ) (i : ℤ) → is_ascii_digit sep ≡ false → b'-' ≢ sep → Lacks sep (show_int i)
unfolding show_int show_nat
show_int-Lacks sep (pos n) h dash = digits-Lacks sep (suc n) n h
show_int-Lacks sep (negsuc n) h dash = (dash, digits-Lacks sep (suc (suc n)) (suc n) h)

pub parse_up_to_bounds : (max : ℕ) (s : Text) {n : ℕ} → parse_up_to max s ≡ some n → n ≤ max
unfolding parse_up_to
parse_up_to_bounds max [] h = cc
parse_up_to_bounds max (c ∷ s) h = ground arith

parse_unsigned_bounds : (max : ℕ) (s : Text) {n : ℕ} → parse_unsigned max s ≡ some n → n ≤ max
unfolding parse_unsigned
parse_unsigned_bounds max [] h = cc
parse_unsigned_bounds max (c ∷ s) {n} h =
    ground (arith, parse_up_to_bounds max s {n = n}, parse_up_to_bounds max (c ∷ s) {n = n})

positive-IsWithin :
    (max : ℕ) (o : Option ℕ) {i : ℤ}
    → ((n : ℕ) → o ≡ some n → n ≤ max)
    → positive o ≡ some i
    → IsWithin max i
positive-IsWithin max none small h = cc
positive-IsWithin max (some n) {i = pos m} small h =
    let below = small n refl in let same : n ≡ m = ground arith in omega arith
positive-IsWithin max (some n) {i = negsuc m} small h = cc

negated-IsWithin :
    (max : ℕ) (o : Option ℕ) {i : ℤ}
    → ((n : ℕ) → o ≡ some n → n ≤ max + 1)
    → negated o ≡ some i
    → IsWithin max i
negated-IsWithin max none small h = cc
negated-IsWithin max (some zero) {i = pos m} small h =
    let same : 0 ≡ m = ground arith in omega arith
negated-IsWithin max (some zero) {i = negsuc m} small h = cc
negated-IsWithin max (some (suc n)) {i = pos m} small h = cc
negated-IsWithin max (some (suc n)) {i = negsuc m} small h =
    let below = small (suc n) refl in let same : n ≡ m = ground arith in omega arith

-- What is read is a number of the type.
pub parse_signed-IsWithin :
    (max : ℕ) (s : Text) {i : ℤ} → parse_signed max s ≡ some i → IsWithin max i
unfolding parse_signed
parse_signed-IsWithin max [] h = cc
parse_signed-IsWithin max (c ∷ s) {i} h = elim (Bool-cases (c == b'-')) [
  | inl minus ↦
      negated-IsWithin max (parse_up_to (max + 1) s) {i = i}
        (λ n e. parse_up_to_bounds (max + 1) s e) (rw minus at h)
  | inr other ↦
      positive-IsWithin max (parse_unsigned max (c ∷ s)) {i = i}
        (λ n e. parse_unsigned_bounds max (c ∷ s) e) (rw other at h)
]
