-- ===== src/Text/Basic.antt =====
-- Texts, their equality, prefixes and suffixes.
use Prim.Native.Char.{code}
use mathlib.Core.List.{reverse}
use freebsd_flatpak.Prelude.{
  ℕ, ◌+◌, String, ◌≡◌, refl, ◌↔◌, Bool, true, false, ◌&&◌, ◌||◌, Option, none, some, List, [], ◌∷◌,
  ◌++◌, arith, ◌==◌, ltb, if◌then◌else◌,
}

abbrev pub Text : Type 0
Text = List ℕ

-- a literal
abbrev pub text : String → Text
text String.[] = []
text (String.◌∷◌ c s) = code c ∷ text s

-- `==` on texts
unfoldable pub text_eq : Text → Text → Bool
text_eq [] [] = true
text_eq [] (d ∷ t) = false
text_eq (c ∷ s) [] = false
text_eq (c ∷ s) (d ∷ t) = c == d && text_eq s t

pub text_eq→eq : (s t : Text) → text_eq s t ≡ true → s ≡ t
unfolding text_eq
text_eq→eq [] [] h = refl
text_eq→eq [] (d ∷ t) h = cc
text_eq→eq (c ∷ s) [] h = cc
text_eq→eq (c ∷ s) (d ∷ t) h = ground (arith, text_eq→eq s t)

pub text_eq_refl : (s : Text) → text_eq s s ≡ true
unfolding text_eq
text_eq_refl [] = refl
text_eq_refl (c ∷ s) = ground (arith, text_eq_refl s)

pub text_eq_iff : (s t : Text) → (text_eq s t ≡ true) ↔ (s ≡ t)
text_eq_iff s t = (text_eq→eq s t, λ e. rw e (text_eq_refl t))

pub text_eq_comm : (s t : Text) → text_eq s t ≡ text_eq t s
text_eq_comm s t = ground (arith, text_eq→eq s t, text_eq→eq t s, text_eq_refl s, text_eq_refl t)

-- `value.strip_prefix(prefix)`
unfoldable pub strip_prefix : Text → Text → Option Text
strip_prefix value [] = some value
strip_prefix [] (p ∷ prefix) = none
strip_prefix (c ∷ value) (p ∷ prefix) =
    let rest = strip_prefix value prefix in if c == p then rest else none

pub strip_prefix_sound :
    (value prefix : Text) {rest : Text}
    → strip_prefix value prefix ≡ some rest
    → value ≡ prefix ++ rest
unfolding strip_prefix
strip_prefix_sound value [] h = cc
strip_prefix_sound [] (p ∷ prefix) h = cc
strip_prefix_sound (c ∷ value) (p ∷ prefix) {rest} h =
    ground (arith, strip_prefix_sound value prefix {rest = rest})

pub strip_prefix-append : (prefix rest : Text) → strip_prefix (prefix ++ rest) prefix ≡ some rest
unfolding strip_prefix
strip_prefix-append [] rest = refl
strip_prefix-append (p ∷ prefix) rest = ground (arith, strip_prefix-append prefix rest)

unfoldable pub starts_with : Text → Text → Bool
unfolding strip_prefix
starts_with value prefix = elim (strip_prefix value prefix) [ none ↦ false | some rest ↦ true ]

-- `value.strip_suffix(c)` for one character
unfoldable pub strip_last : Text → ℕ → Option Text
strip_last [] c = none
strip_last (d ∷ []) c = if d == c then some [] else none
strip_last (d ∷ e ∷ s) c = elim (strip_last (e ∷ s) c) [
  | none ↦ none
  | some front ↦ some (d ∷ front)
]

pub strip_last-append : (s : Text) (c : ℕ) → strip_last (s ++ (c ∷ [])) c ≡ some s
unfolding strip_last
strip_last-append [] c = ground arith
strip_last-append (d ∷ []) c = ground (arith, strip_last-append [] c)
strip_last-append (d ∷ e ∷ s) c = ground (arith, strip_last-append (e ∷ s) c)

unfoldable pub ends_with : Text → Text → Bool
unfolding strip_prefix starts_with
ends_with value suffix = starts_with (reverse value) (reverse suffix)

-- The length in bytes of one code point and of a text in UTF-8.
abbrev pub utf8_width : ℕ → ℕ
utf8_width c = if ltb c 0x80 then 1 else if ltb c 0x800 then 2 else if ltb c 0x10000 then 3 else 4

-- `str::len`
unfoldable pub byte_len : Text → ℕ
byte_len [] = 0
byte_len (c ∷ s) = utf8_width c + byte_len s

-- `value.contains(part)`
unfoldable pub has_infix : Text → Text → Bool
unfolding starts_with
has_infix [] part = starts_with [] part
has_infix (c ∷ s) part = starts_with (c ∷ s) part || has_infix s part
