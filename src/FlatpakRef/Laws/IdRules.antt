-- ===== src/FlatpakRef/Laws/IdRules.antt =====
-- The IDs that are accepted, described by their segments.
use freebsd_flatpak.Prelude.{
  ◌≢◌, Bool-cases, ℕ, suc, ◌+◌, ◌≤◌, ◌<◌, ◌≡◌, refl, ◌↔◌, ◌⊎◌, inl, inr, Bool, true, false, ◌&&◌,
  List, [], ◌∷◌, arith, All, length, ltb, ◌==◌, ok,
}
use freebsd_flatpak.Text.{Text, split, byte_len, in_front, split-ne-nil}
use freebsd_flatpak.FlatpakRef.{
  valid_initial_id_char, valid_id_char, validate_rest, validate_segment, validate_segments,
  validate_id,
}
use freebsd_flatpak.FlatpakRef.Laws.Slashes.{periods, validate_id-parts}

-- Letters and the underscore; the last segment may have dashes.
abbrev pub IsInitial : Bool → ℕ → Type 0
IsInitial last c =
    ((b'a' ≤ c) × (c ≤ b'z'))
    ⊎ ((b'A' ≤ c) × (c ≤ b'Z'))
    ⊎ (c ≡ b'_')
    ⊎ ((last ≡ true) × (c ≡ b'-'))

abbrev pub IsInner : Bool → ℕ → Type 0
IsInner last c = IsInitial last c ⊎ ((b'0' ≤ c) × (c ≤ b'9'))

abbrev pub IsSegment : Bool → Text → Type 0
IsSegment last [] = ⊥
IsSegment last (c ∷ s) = IsInitial last c × All (IsInner last) s

-- The segments in their order, of which the last one may have dashes.
abbrev pub IsSegments : List Text → Type 0
IsSegments [] = ⊥
IsSegments (s ∷ []) = IsSegment true s
IsSegments (s ∷ t ∷ segments) = IsSegment false s × IsSegments (t ∷ segments)

-- At most 255 bytes, and three segments or more.
abbrev pub IsName : Text → Type 0
IsName id = (byte_len id ≤ 255) × (3 ≤ length (split id b'.')) × IsSegments (split id b'.')

valid_initial_id_char-IsInitial :
    (last : Bool) (c : ℕ) → (valid_initial_id_char c last ≡ true) ↔ IsInitial last c
unfolding valid_initial_id_char
valid_initial_id_char-IsInitial last c = (λ h. ground arith, λ h. ground arith)

valid_id_char-IsInner : (last : Bool) (c : ℕ) → (valid_id_char c last ≡ true) ↔ IsInner last c
unfolding valid_id_char
valid_id_char-IsInner last c = (λ h. ground arith, λ h. ground arith)

rest_iff : (last : Bool) (s : Text) → (validate_rest s last ≡ ok tt) ↔ All (IsInner last) s
unfolding validate_rest
rest_iff last [] = (λ h. tt, λ h. refl)
rest_iff last (c ∷ s) =
    let (sound, complete) = rest_iff last s in
    let (inner, valid) = valid_id_char-IsInner last c in
    elim (Bool-cases (valid_id_char c last)) [
      | inl yes_ ↦ (λ h. (inner yes_, sound (ground arith)), λ h. rw yes_ (complete h.1))
      | inr no_ ↦ (λ h. ground arith, λ h. ground (arith, valid h.0))
    ]

validate_segment-IsSegment :
    (id : Text) (index : ℕ) (last : Bool) (s : Text)
    → (validate_segment id index last s ≡ ok tt) ↔ IsSegment last s
unfolding validate_segment
validate_segment-IsSegment id index last [] = (λ h. cc, λ h. absurd h)
validate_segment-IsSegment id index last (c ∷ s) =
    let (sound, complete) = rest_iff last s in
    let (initial, valid) = valid_initial_id_char-IsInitial last c in
    elim (Bool-cases (valid_initial_id_char c last)) [
      | inl yes_ ↦ (λ h. (initial yes_, sound (ground arith)), λ h. rw yes_ (complete h.1))
      | inr no_ ↦ (λ h. ground arith, λ h. ground (arith, valid h.0))
    ]

length-in_front :
    (c : ℕ) (parts : List Text) → parts ≢ [] → length (in_front c parts) ≡ length parts
length-in_front c [] h = absurd (h refl)
length-in_front c (part ∷ parts) h = refl

-- There is one segment more than there are periods.
length-split : (id : Text) → length (split id b'.') ≡ suc (periods id)
unfolding split
length-split [] = refl
length-split (c ∷ id) =
    ground (arith, length-split id, split-ne-nil id b'.', length-in_front c (split id b'.'))

validate_segments-IsSegments :
    (id : Text) (p index : ℕ) (segments : List Text)
    → 0 < p
    → index + length segments ≡ suc p
    → 0 < length segments
    → (validate_segments id p index segments ≡ ok tt) ↔ IsSegments segments
unfolding validate_segments
validate_segments-IsSegments id p index [] pos count some_ = absurd (omega arith)
validate_segments-IsSegments id p index (s ∷ []) pos count some_ =
    let (sound, complete) = validate_segment-IsSegment id index true s in
    let last : (ltb 0 p && index == p) ≡ true = ground arith in
    rw last (λ h. sound (ground arith), λ h. rw (complete h))
validate_segments-IsSegments id p index (s ∷ t ∷ segments) pos count some_ =
    let (sound, complete) = validate_segment-IsSegment id index false s in
    let (later, back) =
      validate_segments-IsSegments id p (suc index) (t ∷ segments) pos (omega arith)
        (omega arith) in
    let last : (ltb 0 p && index == p) ≡ false = ground arith in
    rw last (λ h. (sound (ground arith), later (ground arith)), λ h. rw (complete h.0) (back h.1))

validate_id_complete :
    (id : Text)
    → byte_len id ≤ 255
    → 2 ≤ periods id
    → validate_segments id (periods id) 0 (split id b'.') ≡ ok tt
    → validate_id id ≡ ok tt
unfolding validate_id
validate_id_complete [] short many valid = absurd (omega arith)
validate_id_complete (c ∷ id) short many valid = rw valid (ground arith)

-- Exactly the names of at most 255 bytes with at least three segments that follow the rules are
-- accepted as IDs.
pub validate_id-IsName : (id : Text) → (validate_id id ≡ ok tt) ↔ IsName id
validate_id-IsName id =
    let whole : length (split id b'.') ≡ suc (periods id) = length-split id in
    (
      λ h.
          let (_, short, valid, many) = validate_id-parts id h in
          (
            short,
            omega arith,
            (validate_segments-IsSegments id (periods id) 0 (split id b'.') (omega arith)
                  (omega arith) (omega arith)).0
                valid,
          ),
      λ h. validate_id_complete id h.0 (omega arith) (
          (validate_segments-IsSegments id (periods id) 0 (split id b'.') (omega arith)
              (omega arith) (omega arith)).1
            h.2),
    )
