-- ===== src/FileArguments/Laws.antt =====
-- Percent encoding is undone by decoding, and what a URI's path keeps.
use freebsd_flatpak.Prelude.{
  ℕ, ◌+◌, ◌*◌, ◌/◌, ◌%◌, ◌<◌, ◌≡◌, refl, ap, ◌∙◌, inl, inr, true, false, ◌==◌, List, [], ◌∷◌, ◌++◌,
  some, arith, All, ok, Bool-cases,
}
use freebsd_flatpak.Text.{
  Text, text, Lacks, Lacks-append, split_once-append, split_once_of_Lacks, upper_hex_digit,
  is_ascii_alphanumeric,
}
use freebsd_flatpak.FileArguments.Percent.{
  hex_value, escaped_byte, before, percent_decode, is_kept, escape, percent_encode_path,
  without_query, uri_path_part,
}

hex_value-upper_hex_digit : (d : ℕ) → d < 16 → hex_value (upper_hex_digit d) ≡ some d
unfolding hex_value upper_hex_digit
hex_value-upper_hex_digit d h = ground arith

is_kept-ne : (c : ℕ) → is_kept c ≡ true → (c == b'%') ≡ false
unfolding is_ascii_alphanumeric
is_kept-ne c h = ground arith

percent_decode-cons :
    (c : ℕ) (s : List ℕ)
    → (c == b'%') ≡ false
    → percent_decode (c ∷ s) ≡ before (ok c) (percent_decode s)
unfolding percent_decode
percent_decode-cons c [] h = ground (arith, h)
percent_decode-cons c (a ∷ []) h = ground (arith, h)
percent_decode-cons c (a ∷ b ∷ s) h = rw (h, percent_decode) refl

escaped_byte_of :
    (a b : ℕ) {hi lo : ℕ}
    → hex_value a ≡ some hi
    → hex_value b ≡ some lo
    → escaped_byte a b ≡ ok (hi * 16 + lo)
escaped_byte_of a b high low = ground (arith, high, low)

escaped_byte-digits :
    (byte : ℕ)
    → byte < 256
    → escaped_byte (upper_hex_digit (byte / 16)) (upper_hex_digit (byte % 16)) ≡ ok byte
escaped_byte-digits byte small =
    let high = hex_value-upper_hex_digit (byte / 16) (omega arith) in
    let low = hex_value-upper_hex_digit (byte % 16) (omega arith) in
    let whole : byte / 16 * 16 + byte % 16 ≡ byte = omega arith in
    let digits =
      escaped_byte_of (upper_hex_digit (byte / 16)) (upper_hex_digit (byte % 16)) {hi = byte / 16}
        {lo = byte % 16} high low in
    digits ∙ ap ok whole

percent_decode-escape :
    (byte : ℕ) (s : List ℕ)
    → byte < 256
    → percent_decode (escape byte ++ s) ≡ before (ok byte) (percent_decode s)
unfolding percent_decode
percent_decode-escape byte s small =
    let high = hex_value-upper_hex_digit (byte / 16) (omega arith) in
    let low = hex_value-upper_hex_digit (byte % 16) (omega arith) in
    let whole : byte / 16 * 16 + byte % 16 ≡ byte = omega arith in
    ap (λ r. before r (percent_decode s)) (escaped_byte-digits byte small)

-- Decoding gives the bytes that were encoded.
pub percent_decode-encode_path :
    (bytes : List ℕ)
    → All (λ byte. byte < 256) bytes
    → percent_decode (percent_encode_path bytes) ≡ ok bytes
unfolding percent_decode percent_encode_path
percent_decode-encode_path [] small = refl
percent_decode-encode_path (byte ∷ bytes) small =
    let rest = percent_encode_path bytes in
    let ih = percent_decode-encode_path bytes small.1 in
    elim (Bool-cases (is_kept byte)) [
      | inl kept ↦
          let step = percent_decode-cons byte rest (is_kept-ne byte kept) in
          rw kept (step ∙ rw ih refl)
      | inr other ↦
          let step = percent_decode-escape byte rest small.0 in rw other (step ∙ rw ih refl)
    ]

without_query_both :
    (path query fragment : Text)
    → Lacks b'#' path
    → Lacks b'?' path
    → Lacks b'#' query
    → without_query (path ++ (b'?' ∷ query) ++ (b'#' ∷ fragment)) ≡ path
unfolding without_query
without_query_both path query fragment p q r =
    let front = Lacks-append b'#' path (b'?' ∷ query) p ((λ e. omega arith), r) in
    let cut = split_once-append (path ++ (b'?' ∷ query)) fragment b'#' front in
    ground (arith, cut, split_once-append path query b'?' q)

without_query_fragment :
    (path fragment : Text)
    → Lacks b'#' path
    → Lacks b'?' path
    → without_query (path ++ (b'#' ∷ fragment)) ≡ path ++ (b'#' ∷ fragment)
unfolding without_query
without_query_fragment path fragment p q =
    ground (arith, split_once-append path fragment b'#' p, split_once_of_Lacks path b'?' q)

-- A fragment is dropped from the path of a URI where a query stands before it, but where there is
-- no query the path keeps it.
pub uri_path_part_fragment :
    (path query fragment : Text)
    → Lacks b'#' path
    → Lacks b'?' path
    → Lacks b'#' query
    → (uri_path_part (text "file:///" ++ path ++ (b'?' ∷ query) ++ (b'#' ∷ fragment))
        ≡ ok (b'/' ∷ path))
      × (uri_path_part (text "file:///" ++ path ++ (b'#' ∷ fragment))
          ≡ ok (b'/' ∷ path ++ (b'#' ∷ fragment)))
unfolding uri_path_part
uri_path_part_fragment path query fragment p q r =
    let p' : Lacks b'#' (b'/' ∷ path) = ((λ e. omega arith), p) in
    let q' : Lacks b'?' (b'/' ∷ path) = ((λ e. omega arith), q) in
    (
      ap ok (without_query_both (b'/' ∷ path) query fragment p' q' r),
      ap ok (without_query_fragment (b'/' ∷ path) fragment p' q'),
    )
