-- ===== src/FlatpakRef/Laws/Slashes.antt =====
-- No accepted ID, architecture or branch has a slash.
use freebsd_flatpak.Prelude.{
  ℕ, suc, ◌≡◌, Bool, true, ◌&&◌, not, List, [], ◌∷◌, arith, All, all, find, none, ltb, ◌==◌, ok,
  >>=-eq-ok, Result-cases, inl, inr, false, ◌≤◌, is_empty, length, keep,
}
use mathlib.Core.Path.{subst}
use freebsd_flatpak.Text.{byte_len, Text, Lacks, split, join-split, join-Lacks}
use freebsd_flatpak.FlatpakRef.{
  validate_rest, validate_segment, validate_segments, validate_id, valid_arch_char, validate_arch,
  valid_branch_char, validate_branch,
}

validate_rest-Lacks : (s : Text) (last : Bool) → validate_rest s last ≡ ok tt → Lacks b'/' s
unfolding validate_rest
validate_rest-Lacks [] last h = tt
validate_rest-Lacks (c ∷ s) last h = ground (arith, validate_rest-Lacks s last)

validate_segment-Lacks :
    (id : Text) (index : ℕ) (last : Bool) (s : Text)
    → validate_segment id index last s ≡ ok tt
    → Lacks b'/' s
unfolding validate_segment
validate_segment-Lacks id index last [] h = tt
validate_segment-Lacks id index last (c ∷ s) h = ground (arith, validate_rest-Lacks s last)

validate_segments-Lacks :
    (id : Text) (periods index : ℕ) (segments : List Text)
    → validate_segments id periods index segments ≡ ok tt
    → All (Lacks b'/') segments
unfolding validate_segments
validate_segments-Lacks id periods index [] h = tt
validate_segments-Lacks id periods index (s ∷ segments) h =
    let (_, here, later) =
      >>=-eq-ok (validate_segment id index (ltb 0 periods && index == periods) s) _ h in
    (
      validate_segment-Lacks id index _ s here,
      validate_segments-Lacks id periods (suc index) segments later,
    )

abbrev pub periods : Text → ℕ
periods id = length (keep (λ c. c == b'.') id)

-- The four conditions behind which an ID is accepted.
pub validate_id-parts :
    (id : Text)
    → validate_id id ≡ ok tt
    → (is_empty id ≡ false)
      × (byte_len id ≤ 255)
      × (validate_segments id (periods id) 0 (split id b'.') ≡ ok tt)
      × (2 ≤ periods id)
unfolding validate_id
validate_id-parts id h = elim (Result-cases (validate_segments id (periods id) 0 (split id b'.'))) [
  | inl (tt, valid) ↦ ground arith
  | inr (e, invalid) ↦ ground arith
]

pub validate_id-Lacks : (id : Text) → validate_id id ≡ ok tt → Lacks b'/' id
validate_id-Lacks id h =
    let (_, _, valid, _) = validate_id-parts id h in
    let parts : All (Lacks b'/') (split id b'.') =
      validate_segments-Lacks id (periods id) 0 (split id b'.') valid in
    subst (Lacks b'/') (join-split id b'.')
      (join-Lacks b'/' b'.' (split id b'.') (omega arith) parts)

all-Lacks : (s : Text) → all valid_arch_char s ≡ true → Lacks b'/' s
unfolding valid_arch_char
all-Lacks [] h = tt
all-Lacks (c ∷ s) h = ground (arith, all-Lacks s)

pub validate_arch-Lacks : (arch : Text) → validate_arch arch ≡ ok tt → Lacks b'/' arch
unfolding validate_arch
validate_arch-Lacks arch h = all-Lacks arch (ground arith)

find-Lacks : (s : Text) → find (λ d. not (valid_branch_char d)) s ≡ none → Lacks b'/' s
unfolding valid_branch_char
find-Lacks [] h = tt
find-Lacks (c ∷ s) h = ground (arith, find-Lacks s)

pub validate_branch-Lacks : (branch : Text) → validate_branch branch ≡ ok tt → Lacks b'/' branch
unfolding validate_branch
validate_branch-Lacks [] h = tt
validate_branch-Lacks (c ∷ s) h = ground (arith, find-Lacks s)
