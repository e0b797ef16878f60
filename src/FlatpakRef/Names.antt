-- ===== src/FlatpakRef/Names.antt =====
-- src/flatpak_ref.rs: the rules for IDs, architectures and branches. A message is a constructor
-- that carries what the text of the message names.
use freebsd_flatpak.Prelude.{
  ℕ, suc, ◌/◌, ◌%◌, Bool, ◌&&◌, ◌||◌, not, List, [], ◌∷◌, ◌++◌, none, some, ◌==◌, ltb,
  if◌then◌else◌, all, find, keep, is_empty, length, Result, ok, err, ◌>>◌,
}
use freebsd_flatpak.Text.{
  Text, text, split, ends_with, byte_len, is_ascii_alphabetic, is_ascii_digit,
  is_ascii_alphanumeric, is_control, upper_hex_digit,
}

pub data NameError : Type 0 where
  -- "Name can't be empty", "Name can't be longer than 255 characters"
  empty too_long : NameError
  -- "Name can't start with a period", "Name can't end with a period"
  period_at_start period_at_end : NameError
  -- "Name segment can't start with \".\""
  empty_segment : NameError
  -- "Only last name segment can contain -"
  dash_before_last : NameError
  -- "Name can't start with …", "Name segment can't start with …", "Name can't contain …"
  name_start segment_start contained : Text → NameError
  -- "Names must contain at least 2 periods"
  too_few_periods : NameError

pub data ArchError : Type 0 where
  invalid_characters : ArchError

pub data BranchError : Type 0 where
  empty : BranchError
  start contained : Text → BranchError

-- `{:04X}` of a control character, which lies below 0x100
unfoldable pub describe_char : ℕ → Text
unfolding upper_hex_digit is_control
describe_char c =
    if is_control c
    then text "U+00" ++ (upper_hex_digit (c / 16) ∷ upper_hex_digit (c % 16) ∷ [])
    else c ∷ []

unfoldable pub valid_initial_id_char : ℕ → Bool → Bool
unfolding is_ascii_alphabetic
valid_initial_id_char c allow_dash = is_ascii_alphabetic c || c == b'_' || (allow_dash && c == b'-')

unfoldable pub valid_id_char : ℕ → Bool → Bool
unfolding valid_initial_id_char is_ascii_digit
valid_id_char c allow_dash = valid_initial_id_char c allow_dash || is_ascii_digit c

-- the loop over the characters of a segment behind the first
unfoldable pub validate_rest : Text → Bool → Result NameError (Unit {0})
unfolding valid_id_char describe_char
validate_rest [] last = ok tt
validate_rest (c ∷ s) last =
    let rest = validate_rest s last in
    if valid_id_char c last
    then rest
    else if c == b'-'
    then err dash_before_last
    else err (contained (describe_char c))

-- the body of the loop over the segments; `id` is the whole name
unfoldable pub validate_segment : Text → ℕ → Bool → Text → Result NameError (Unit {0})
unfolding valid_initial_id_char validate_rest describe_char ends_with
validate_segment id index last [] = err (
    if index == 0
    then period_at_start
    else if ends_with id (text ".")
    then period_at_end
    else empty_segment)
validate_segment id index last (c ∷ s) =
    if valid_initial_id_char c last
    then validate_rest s last
    else if c == b'-'
    then err dash_before_last
    else err (if index == 0 then name_start (describe_char c) else segment_start (describe_char c))

unfoldable pub validate_segments : Text → ℕ → ℕ → List Text → Result NameError (Unit {0})
unfolding validate_segment
validate_segments id periods index [] = ok tt
validate_segments id periods index (segment ∷ segments) = do
  validate_segment id index (ltb 0 periods && index == periods) segment
  validate_segments id periods (suc index) segments

unfoldable pub validate_id : Text → Result NameError (Unit {0})
unfolding byte_len validate_segments split
validate_id id =
    let periods = length (keep (λ c. c == b'.') id) in
    if is_empty id then err empty else if ltb 255 (byte_len id) then err too_long else do
      validate_segments id periods 0 (split id b'.')
      if ltb periods 2 then err too_few_periods else ok tt

unfoldable pub valid_arch_char : ℕ → Bool
unfolding is_ascii_alphanumeric
valid_arch_char c = is_ascii_alphanumeric c || c == b'_' || c == b'-'

unfoldable pub validate_arch : Text → Result ArchError (Unit {0})
unfolding valid_arch_char
validate_arch arch = if all valid_arch_char arch then ok tt else err invalid_characters

unfoldable pub valid_initial_branch_char : ℕ → Bool
unfolding is_ascii_alphanumeric
valid_initial_branch_char c = is_ascii_alphanumeric c || c == b'_' || c == b'-'

unfoldable pub valid_branch_char : ℕ → Bool
unfolding valid_initial_branch_char
valid_branch_char c = valid_initial_branch_char c || c == b'.'

unfoldable pub validate_branch : Text → Result BranchError (Unit {0})
unfolding valid_branch_char describe_char
validate_branch [] = err empty
validate_branch (c ∷ s) =
    if valid_initial_branch_char c
    then elim (find (λ d. not (valid_branch_char d)) s) [
      | some invalid ↦ err (contained (describe_char invalid))
      | none ↦ ok tt
    ]
    else err (start (describe_char c))
