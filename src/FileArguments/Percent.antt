-- ===== src/FileArguments/Percent.antt =====
-- src/sandbox/file_argument_translation.rs: percent encoding, on the bytes of a text, and the path
-- of a URI.
use freebsd_flatpak.Prelude.{
  ℕ, ◌+◌, ◌-◌, ◌*◌, ◌/◌, ◌%◌, Bool, true, false, ◌&&◌, ◌||◌, ◌==◌, leb, List, [], ◌∷◌, ◌++◌, Option,
  none, some, if◌then◌else◌, Result, ok, err,
}
use freebsd_flatpak.Text.{
  Text, text, strip_prefix, starts_with, split_once, upper_hex_digit, is_ascii_alphanumeric,
}

pub data UriError : Type 0 where
  not_file not_local bad_escape : UriError

unfoldable pub hex_value : ℕ → Option ℕ
hex_value byte =
    if leb b'0' byte && leb byte b'9'
    then some (byte - b'0')
    else if leb b'a' byte && leb byte b'f'
    then some (byte - b'a' + 10)
    else if leb b'A' byte && leb byte b'F'
    then some (byte - b'A' + 10)
    else none

-- `(hi << 4) | lo`, of digits below 16
abbrev pub escaped_byte : ℕ → ℕ → Result UriError ℕ
escaped_byte a b = elim (hex_value a) [
  | none ↦ err bad_escape
  | some hi ↦ elim (hex_value b) [ none ↦ err bad_escape | some lo ↦ ok (hi * 16 + lo) ]
]

-- a byte that was read before the rest
abbrev pub before : Result UriError ℕ → Result UriError (List ℕ) → Result UriError (List ℕ)
before (err e) rest = err e
before (ok byte) (err e) = err e
before (ok byte) (ok rest) = ok (byte ∷ rest)

-- the loop of `percent_decode`
unfoldable pub percent_decode : List ℕ → Result UriError (List ℕ)
percent_decode [] = ok []
percent_decode (c ∷ []) = if c == b'%' then err bad_escape else ok (c ∷ [])
percent_decode (c ∷ a ∷ []) =
    let rest = percent_decode (a ∷ []) in if c == b'%' then err bad_escape else before (ok c) rest
percent_decode (c ∷ a ∷ b ∷ bytes) = elim (c == b'%') [
  | true ↦ before (escaped_byte a b) (percent_decode bytes)
  | false ↦ before (ok c) (percent_decode (a ∷ b ∷ bytes))
]

abbrev pub is_kept : ℕ → Bool
is_kept byte =
    is_ascii_alphanumeric byte
    || byte == b'/'
    || byte == b'-'
    || byte == b'_'
    || byte == b'.'
    || byte == b'~'

-- `format!("%{byte:02X}")`
abbrev pub escape : ℕ → List ℕ
escape byte = b'%' ∷ upper_hex_digit (byte / 16) ∷ upper_hex_digit (byte % 16) ∷ []

unfoldable pub percent_encode_path : List ℕ → List ℕ
percent_encode_path [] = []
percent_encode_path (byte ∷ bytes) =
    let rest = percent_encode_path bytes in
    if is_kept byte then byte ∷ rest else escape byte ++ rest

abbrev pub until : Text → ℕ → Text → Text
until s c otherwise = elim (split_once s c) [ some (front, _) ↦ front | none ↦ otherwise ]

-- what stands before the fragment and the query; where there is no query, the whole
unfoldable pub without_query : Text → Text
unfolding split_once
without_query path_part = until (until path_part b'#' path_part) b'?' path_part

-- the path of a URI, before it is decoded
unfoldable pub uri_path_part : Text → Result UriError Text
unfolding strip_prefix starts_with without_query
uri_path_part uri = elim (strip_prefix uri (text "file://")) [
  | none ↦ err not_file
  | some rest ↦ elim (strip_prefix rest (text "localhost/")) [
    | some path ↦ ok (without_query (b'/' ∷ path))
    | none ↦ if starts_with rest (text "/") then ok (without_query rest) else err not_local
  ]
]
