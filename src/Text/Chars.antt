-- ===== src/Text/Chars.antt =====
-- Classes of characters, white space at the ends, case, and hexadecimal digits.
use freebsd_flatpak.Text.Basic.{Text}
use freebsd_flatpak.Prelude.{
  is_empty, ℕ, ◌+◌, ◌-◌, Bool, ◌&&◌, ◌||◌, [], ◌∷◌, map, ◌==◌, ltb, leb, if◌then◌else◌, List, ◌++◌,
}

abbrev pub in_range : ℕ → ℕ → ℕ → Bool
in_range lo hi c = leb lo c && leb c hi

unfoldable pub is_ascii_digit : ℕ → Bool
is_ascii_digit c = in_range b'0' b'9' c

unfoldable pub is_ascii_alphabetic : ℕ → Bool
is_ascii_alphabetic c = in_range b'a' b'z' c || in_range b'A' b'Z' c

unfoldable pub is_ascii_alphanumeric : ℕ → Bool
unfolding is_ascii_digit is_ascii_alphabetic
is_ascii_alphanumeric c = is_ascii_alphabetic c || is_ascii_digit c

unfoldable pub is_ascii_hexdigit : ℕ → Bool
unfolding is_ascii_digit
is_ascii_hexdigit c = is_ascii_digit c || in_range b'a' b'f' c || in_range b'A' b'F' c

-- `char::is_control`: the general category Cc
unfoldable pub is_control : ℕ → Bool
is_control c = leb c 0x1f || in_range 0x7f 0x9f c

unfoldable pub to_ascii_lowercase_char : ℕ → ℕ
to_ascii_lowercase_char c = if in_range b'A' b'Z' c then c + 32 else c

unfoldable pub to_ascii_lowercase : Text → Text
unfolding to_ascii_lowercase_char
to_ascii_lowercase = map to_ascii_lowercase_char

-- `char::is_whitespace`: the property White_Space
unfoldable pub is_whitespace : ℕ → Bool
is_whitespace c =
    in_range 9 13 c
    || c == 0x20
    || c == 0x85
    || c == 0xa0
    || c == 0x1680
    || in_range 0x2000 0x200a c
    || c == 0x2028
    || c == 0x2029
    || c == 0x202f
    || c == 0x205f
    || c == 0x3000

unfoldable pub trim_start : Text → Text
trim_start [] = []
trim_start (c ∷ s) = let rest = trim_start s in if is_whitespace c then rest else c ∷ s

unfoldable pub trim_end : Text → Text
trim_end [] = []
trim_end (c ∷ s) =
    let rest = trim_end s in if is_empty rest && is_whitespace c then [] else c ∷ rest

-- `str::trim`
unfoldable pub trim : Text → Text
unfolding trim_start trim_end is_whitespace
trim s = trim_end (trim_start s)

-- one digit of `{:X}`
unfoldable pub upper_hex_digit : ℕ → ℕ
upper_hex_digit d = if ltb d 10 then b'0' + d else b'A' + (d - 10)

-- `str::split_whitespace`, with the word that is being read
unfoldable pub words_from : Text → Text → List Text
unfolding is_whitespace
words_from word [] = if is_empty word then [] else word ∷ []
words_from word (c ∷ s) =
    let ended = words_from [] s in
    let longer = words_from (word ++ (c ∷ [])) s in
    if is_whitespace c then (if is_empty word then ended else word ∷ ended) else longer

unfoldable pub split_whitespace : Text → List Text
unfolding words_from
split_whitespace = words_from []
