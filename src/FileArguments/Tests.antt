-- ===== src/FileArguments/Tests.antt =====
-- Paths and URIs, and the theorems there.
use freebsd_flatpak.Prelude.{◌≡◌, refl, List, ◌∷◌, ◌++◌, some, arith, All, ok}
use freebsd_flatpak.Text.{
  ends_with, starts_with, upper_hex_digit, is_ascii_alphanumeric, Text, text,
}
use freebsd_flatpak.FileArguments.{
  percent_decode, percent_encode_path, uri_path_part, rooted, normalize_absolute_path,
}
use freebsd_flatpak.FileArguments.Laws.{percent_decode-encode_path, uri_path_part_fragment}
use freebsd_flatpak.FileArguments.Normal.{IsPlain, normalize_absolute_path-IsPlain}

encoded : percent_encode_path (text "/a b%") ≡ text "/a%20b%25"
unfolding percent_encode_path is_ascii_alphanumeric upper_hex_digit
encoded = refl

percent_decode-encode_path_example :
    percent_decode (percent_encode_path (text "/a b%")) ≡ ok (text "/a b%")
percent_decode-encode_path_example = percent_decode-encode_path (text "/a b%") (omega arith)

uri_path_part_fragment_example :
    (uri_path_part (text "file:///" ++ text "a" ++ (b'?' ∷ text "q") ++ (b'#' ∷ text "f"))
      ≡ ok (text "/a"))
    × (uri_path_part (text "file:///" ++ text "a" ++ (b'#' ∷ text "f")) ≡ ok (text "/a#f"))
uri_path_part_fragment_example =
    uri_path_part_fragment (text "a") (text "q") (text "f") (omega arith) (omega arith)
      (omega arith)

normalized :
    normalize_absolute_path (some (text "/home/u")) (text "../x//./y") ≡ some (text "/home/x/y")
unfolding normalize_absolute_path starts_with ends_with
normalized = refl

normalize_absolute_path-IsPlain_example :
    ((parts : List Text) × (text "/home/x/y" ≡ rooted parts) × All IsPlain parts)
    × (normalize_absolute_path (some (text "/home/u")) (text "/home/x/y") ≡ some (text "/home/x/y"))
normalize_absolute_path-IsPlain_example =
    normalize_absolute_path-IsPlain (some (text "/home/u")) (text "../x//./y") normalized
