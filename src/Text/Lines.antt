-- ===== src/Text/Lines.antt =====
-- `str::lines`
use freebsd_flatpak.Text.Basic.{Text, strip_last}
use freebsd_flatpak.Text.Split.{Lacks, split, split-append, split-ne-nil}
use freebsd_flatpak.Prelude.{ℕ, ◌≡◌, refl, ◌≢◌, ◌++◌, arith, List, [], ◌∷◌, none, some}

-- "\n" and "\r\n" end a line
unfoldable pub strip_return : Text → Text
strip_return line = elim (strip_last line b'\r') [ none ↦ line | some front ↦ front ]

-- an empty part behind the last line end is no line
unfoldable pub line_list : List Text → List Text
line_list [] = []
line_list ([] ∷ []) = []
line_list ((c ∷ s) ∷ []) = (c ∷ s) ∷ []
line_list (part ∷ next ∷ parts) = strip_return part ∷ line_list (next ∷ parts)

unfoldable pub lines : Text → List Text
unfolding line_list strip_return strip_last split
lines s = line_list (split s b'\n')

-- A line that holds no line end.
abbrev pub IsLine : Text → Type 0
IsLine line = Lacks b'\n' line × Lacks b'\r' line

strip_last_of_Lacks : (s : Text) (c : ℕ) → Lacks c s → strip_last s c ≡ none
unfolding strip_last
strip_last_of_Lacks [] c h = refl
strip_last_of_Lacks (d ∷ []) c h = ground (arith, h.0)
strip_last_of_Lacks (d ∷ e ∷ s) c h = rw (strip_last_of_Lacks (e ∷ s) c h.1)

strip_return_of_Lacks : (line : Text) → Lacks b'\r' line → strip_return line ≡ line
unfolding strip_return
strip_return_of_Lacks line l = rw (strip_last_of_Lacks line b'\r' l, strip_return)

line_list_cons :
    (line : Text) (parts : List Text)
    → parts ≢ []
    → Lacks b'\r' line
    → line_list (line ∷ parts) ≡ line ∷ line_list parts
unfolding line_list
line_list_cons line [] h l = absurd (h refl)
line_list_cons [] (part ∷ parts) h l = rw (strip_return_of_Lacks [] l)
line_list_cons (c ∷ line) (part ∷ parts) h l = rw (strip_return_of_Lacks (c ∷ line) l)

-- A line in front of a text is its first line.
pub lines_cons :
    (line rest : Text) → IsLine line → lines (line ++ (b'\n' ∷ rest)) ≡ line ∷ lines rest
unfolding lines
lines_cons line rest h = rw (
  split-append line rest b'\n' h.0,
  line_list_cons line (split rest b'\n') (split-ne-nil rest b'\n') h.1,
)

pub lines-nil : lines [] ≡ []
unfolding lines
lines-nil = refl
