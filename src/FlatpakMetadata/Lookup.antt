-- ===== src/FlatpakMetadata/Lookup.antt =====
-- The two readers of a section agree.
use freebsd_flatpak.Prelude.{
  ◌≡◌, refl, true, false, List, [], ◌∷◌, none, some, arith, inl, inr, Option-cases,
}
use freebsd_flatpak.Text.{
  Text, text_eq→eq, trim, trim_start, trim_end, is_whitespace, split_once, get,
}
use freebsd_flatpak.FlatpakMetadata.Defs.{
  header, value_here, value_loop, value, is_skipped, entry_here, entries_loop, section_entries,
  trimmed_lines,
}

-- No entry has an empty key or one that starts with a hash sign.
abbrev pub IsKey : Text → Type 0
IsKey key = is_skipped key ≡ false

-- what is put before the candidate of a line that starts with a hash sign
hash_key : (s : Text) → is_skipped (trim (b'#' ∷ s)) ≡ true
unfolding trim trim_start trim_end is_whitespace
hash_key s = ground arith

value_here_of_skipped :
    (key line : Text) → IsKey key → is_skipped line ≡ true → value_here key line ≡ none
unfolding value_here split_once
value_here_of_skipped key [] k h = refl
value_here_of_skipped key (c ∷ s) k h =
    let hash : c ≡ b'#' = ground arith in
    rw hash (elim (Option-cases (split_once s b'=')) [
      | inl absent ↦ rw absent
      | inr (parts, found) ↦
          rw found (ground (arith, hash_key parts.0, text_eq→eq (trim (b'#' ∷ parts.0)) key))
    ])

value_here-entry_here :
    (key line : Text) (rest : List (Text × Text))
    → IsKey key
    → elim (value_here key line) [ some found ↦ some found | none ↦ get key rest ]
      ≡ get key (elim (entry_here line) [ some entry ↦ entry ∷ rest | none ↦ rest ])
unfolding value_here entry_here get
value_here-entry_here key line rest k = elim (Option-cases (split_once line b'=')) [
  | inl absent ↦ rw absent
  | inr (parts, found) ↦ rw found (ground (arith, text_eq→eq (trim parts.0) key))
]

header_of_skipped : (line : Text) → is_skipped line ≡ true → header line ≡ none
unfolding header
header_of_skipped [] h = refl
header_of_skipped (c ∷ s) h = ground arith

value_loop-entries_loop :
    (section key current : Text) (rest : List Text)
    → IsKey key
    → value_loop section key current rest ≡ get key (entries_loop section current rest)
unfolding value_loop entries_loop get
value_loop-entries_loop section key current [] k = refl
value_loop-entries_loop section key current (line ∷ rest) k =
    let ih = λ (c : Text). value_loop-entries_loop section key c rest k in
    elim (Option-cases (header line)) [
      | inr (next, found) ↦ ground (arith, ih next, header_of_skipped line)
      | inl absent ↦ rw absent (
          ground (
            arith,
            ih current,
            value_here_of_skipped key line k,
            value_here-entry_here key line (entries_loop section current rest) k,
          ))
    ]

-- Reading one key of a section gives the first of the section's entries with that key, for a key
-- that is not empty and does not start with a hash sign.
pub value-section_entries :
    (metadata section key : Text)
    → IsKey key
    → value metadata section key ≡ get key (section_entries metadata section)
unfolding value section_entries
value-section_entries metadata section key k =
    value_loop-entries_loop section key [] (trimmed_lines metadata) k
