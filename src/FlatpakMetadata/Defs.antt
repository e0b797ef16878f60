-- ===== src/FlatpakMetadata/Defs.antt =====
-- src/flatpak_metadata.rs. Each loop over `metadata.lines()` is a recursion on the trimmed lines.
use freebsd_flatpak.Prelude.{
  Bool, true, List, [], ◌∷◌, map, Option, none, some, ◌==◌, if◌then◌else◌, is_empty, any,
}
use freebsd_flatpak.Text.{
  Text, text_eq, lines, trim, strip_last, starts_with, split_once, sort_by, text_le, dedup,
}

abbrev pub trimmed_lines : Text → List Text
trimmed_lines metadata = map trim (lines metadata)

-- `&line[1..line.len() - 1]` of a line that starts with `[` and ends with `]`
unfoldable pub header : Text → Option Text
unfolding strip_last
header [] = none
header (c ∷ s) = let inner = strip_last s b']' in if c == b'[' then inner else none

-- the test of one line of the current section
unfoldable pub value_here : Text → Text → Option Text
unfolding text_eq
value_here key line = elim (split_once line b'=') [
  | none ↦ none
  | some (candidate, found) ↦ if text_eq (trim candidate) key then some (trim found) else none
]

-- the loop of `value`; `current` is the section of the lines that follow
unfoldable pub value_loop : Text → Text → Text → List Text → Option Text
unfolding value_here
value_loop section key current [] = none
value_loop section key current (line ∷ rest) = elim (header line) [
  | some next ↦ value_loop section key next rest
  | none ↦ elim (if text_eq current section then value_here key line else none) [
    | some found ↦ some found
    | none ↦ value_loop section key current rest
  ]
]

unfoldable pub value : Text → Text → Text → Option Text
unfolding value_loop
value metadata section key = value_loop section key [] (trimmed_lines metadata)

-- `line.is_empty() || line.starts_with('#')`
abbrev pub is_skipped : Text → Bool
is_skipped [] = true
is_skipped (c ∷ s) = c == b'#'

-- the entry of one line of the current section, if it has one
unfoldable pub entry_here : Text → Option (Text × Text)
entry_here line = elim (split_once line b'=') [
  | none ↦ none
  | some (candidate, found) ↦
      if is_empty (trim candidate) then none else some (trim candidate, trim found)
]

unfoldable pub entries_loop : Text → Text → List Text → List (Text × Text)
unfolding entry_here
entries_loop section current [] = []
entries_loop section current (line ∷ rest) =
    let same = entries_loop section current rest in
    if is_skipped line then same else elim (header line) [
      | some next ↦ entries_loop section next rest
      | none ↦ elim (if text_eq current section then entry_here line else none) [
        | some entry ↦ entry ∷ same
        | none ↦ same
      ]
    ]

unfoldable pub section_entries : Text → Text → List (Text × Text)
unfolding entries_loop
section_entries metadata section = entries_loop section [] (trimmed_lines metadata)

unfoldable pub headers : List Text → List Text
unfolding header
headers [] = []
headers (line ∷ rest) =
    let more = headers rest in elim (header line) [ some section ↦ section ∷ more | none ↦ more ]

unfoldable pub has_section : Text → Text → Bool
unfolding headers
has_section metadata section = any (λ name. text_eq name section) (headers (trimmed_lines metadata))

unfoldable pub keep_prefixed : Text → List Text → List Text
unfolding starts_with
keep_prefixed prefix [] = []
keep_prefixed prefix (name ∷ rest) =
    let more = keep_prefixed prefix rest in if starts_with name prefix then name ∷ more else more

unfoldable pub sections_with_prefix : Text → Text → List Text
unfolding headers keep_prefixed
sections_with_prefix metadata prefix = keep_prefixed prefix (headers (trimmed_lines metadata))

unfoldable pub section_names : Text → List Text
unfolding headers sort_by text_le dedup
section_names metadata = dedup (sort_by text_le (headers (trimmed_lines metadata)))
