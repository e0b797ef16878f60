-- ===== src/Text/Ends.antt =====
-- Affixes taken off the ends of a text, and replacement of a character.
use mathlib.Core.List.{reverse}
use freebsd_flatpak.Prelude.{
  [], ◌∷◌, ℕ, zero, suc, Bool, map, Option, none, some, if◌then◌else◌, ◌==◌, length,
}
use freebsd_flatpak.Text.Basic.{Text, text_eq, strip_prefix}
use freebsd_flatpak.Text.Chars.{to_ascii_lowercase}

unfoldable pub strip_suffix : Text → Text → Option Text
unfolding strip_prefix
strip_suffix s suffix = elim (strip_prefix (reverse s) (reverse suffix)) [
  | some rest ↦ some (reverse rest)
  | none ↦ none
]

-- rounds of taking a prefix off
unfoldable pub strip_rounds : ℕ → Text → Text → Text
strip_rounds zero s prefix = s
strip_rounds (suc n) s prefix = elim (strip_prefix s prefix) [
  | some rest ↦ strip_rounds n rest prefix
  | none ↦ s
]

-- a prefix that is not empty can be taken off at most as often as the text is long
unfoldable pub trim_start_matches : Text → Text → Text
unfolding strip_rounds
trim_start_matches s prefix = strip_rounds (length s) s prefix

unfoldable pub trim_end_matches : Text → Text → Text
unfolding strip_rounds
trim_end_matches s suffix = reverse (strip_rounds (length s) (reverse s) (reverse suffix))

-- `str::replace` of one character by another
unfoldable pub replace_char : Text → ℕ → ℕ → Text
replace_char s from into = map (λ c. if c == from then into else c) s

unfoldable pub eq_ignore_ascii_case : Text → Text → Bool
unfolding text_eq to_ascii_lowercase
eq_ignore_ascii_case s t = text_eq (to_ascii_lowercase s) (to_ascii_lowercase t)

-- `str::split_once` at a text
unfoldable pub split_once_at : Text → Text → Option (Text × Text)
unfolding strip_prefix
split_once_at [] pattern = elim (strip_prefix [] pattern) [
  | some rest ↦ some ([], rest)
  | none ↦ none
]
split_once_at (c ∷ s) pattern =
    let later = split_once_at s pattern in
    elim (strip_prefix (c ∷ s) pattern) [
      | some rest ↦ some ([], rest)
      | none ↦ elim later [ some (front, rest) ↦ some (c ∷ front, rest) | none ↦ none ]
    ]
