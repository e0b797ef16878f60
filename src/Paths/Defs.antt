-- ===== src/Paths/Defs.antt =====
-- Rust's `Path` on Unix, compared, as `Path` compares, by its components.
use Prim.Native.Nat.{compare, Ordering}
use mathlib.Core.List.{reverse}
use freebsd_flatpak.Prelude.{
  ℕ, Bool, true, false, ◌||◌, List, [], ◌∷◌, ◌++◌, Option, none, some, if◌then◌else◌, is_empty, any,
}
use freebsd_flatpak.Text.{Text, text, text_eq, text_cmp, split, starts_with}

pub data Component : Type 0 where
  root_dir cur_dir parent_dir : Component
  normal : Text → Component

-- `Path::components` behind the root: empty parts and `.` are dropped
unfoldable pub components_of : List Text → List Component
unfolding text_eq
components_of [] = []
components_of (part ∷ parts) =
    let rest = components_of parts in
    if is_empty part || text_eq part (text ".")
    then rest
    else if text_eq part (text "..")
    then parent_dir ∷ rest
    else normal part ∷ rest

abbrev pub FilePath : Type 0
FilePath = List Component

-- `.` is a component only at the start of a relative path
abbrev pub relative_components : List Text → FilePath
relative_components [] = []
relative_components (part ∷ parts) =
    if text_eq part (text ".") then cur_dir ∷ components_of parts else components_of (part ∷ parts)

-- `PathBuf::from`
unfoldable pub to_path : Text → FilePath
unfolding components_of split starts_with
to_path path =
    if starts_with path (text "/")
    then root_dir ∷ components_of (split path b'/')
    else relative_components (split path b'/')

unfoldable pub component_eq : Component → Component → Bool
unfolding text_eq
component_eq root_dir root_dir = true
component_eq cur_dir cur_dir = true
component_eq parent_dir parent_dir = true
component_eq (normal a) (normal b) = text_eq a b
component_eq _ _ = false

unfoldable pub path_eq : FilePath → FilePath → Bool
unfolding component_eq
path_eq [] [] = true
path_eq [] (d ∷ q) = false
path_eq (c ∷ p) [] = false
path_eq (c ∷ p) (d ∷ q) = let rest = path_eq p q in if component_eq c d then rest else false

-- `Path::strip_prefix`
unfoldable pub strip_path : FilePath → FilePath → Option FilePath
unfolding component_eq
strip_path p [] = some p
strip_path [] (d ∷ q) = none
strip_path (c ∷ p) (d ∷ q) = let rest = strip_path p q in if component_eq c d then rest else none

-- `Path::starts_with`
unfoldable pub is_under : FilePath → FilePath → Bool
unfolding strip_path
is_under p q = elim (strip_path p q) [ some _ ↦ true | none ↦ false ]

abbrev pub is_rooted : FilePath → Bool
is_rooted (root_dir ∷ _) = true
is_rooted _ = false

-- `Path::join`: a path with a root takes the place of the first, and a `.` is no component behind
-- another
unfoldable pub join_onto : FilePath → FilePath → FilePath
join_onto base (root_dir ∷ p) = root_dir ∷ p
join_onto [] (cur_dir ∷ p) = cur_dir ∷ p
join_onto (c ∷ base) (cur_dir ∷ p) = (c ∷ base) ++ p
join_onto base p = base ++ p

-- `Path::ancestors`, of the components in reverse
unfoldable pub ancestors_back : List Component → List FilePath
ancestors_back [] = [] ∷ []
ancestors_back (root_dir ∷ back) = reverse (root_dir ∷ back) ∷ []
ancestors_back (c ∷ back) = reverse (c ∷ back) ∷ ancestors_back back

-- the path, and what `parent` gives again and again
unfoldable pub ancestors : FilePath → List FilePath
unfolding ancestors_back
ancestors p = ancestors_back (reverse p)

abbrev pub rank : Component → ℕ
rank root_dir = 0
rank cur_dir = 1
rank parent_dir = 2
rank (normal _) = 3

unfoldable pub component_cmp : Component → Component → Ordering
unfolding text_cmp
component_cmp (normal a) (normal b) = text_cmp a b
component_cmp c d = compare (rank c) (rank d)

-- `Path::cmp`
unfoldable pub path_cmp : FilePath → FilePath → Ordering
unfolding component_cmp
path_cmp [] [] = Ordering.eq
path_cmp [] (d ∷ q) = Ordering.lt
path_cmp (c ∷ p) [] = Ordering.gt
path_cmp (c ∷ p) (d ∷ q) =
    let rest = path_cmp p q in
    elim (component_cmp c d) [
      | Ordering.lt ↦ Ordering.lt
      | Ordering.eq ↦ rest
      | Ordering.gt ↦ Ordering.gt
    ]

unfoldable pub path_le : FilePath → FilePath → Bool
unfolding path_cmp
path_le p q = elim (path_cmp p q) [ Ordering.gt ↦ false | _ ↦ true ]

-- `Path::display` of a path in its normal spelling
unfoldable pub spell_component : Component → Text
spell_component root_dir = []
spell_component cur_dir = text "."
spell_component parent_dir = text ".."
spell_component (normal part) = part

unfoldable pub spell_parts : FilePath → Text
unfolding spell_component
spell_parts [] = []
spell_parts (c ∷ []) = spell_component c
spell_parts (c ∷ d ∷ p) = spell_component c ++ (b'/' ∷ spell_parts (d ∷ p))

unfoldable pub spell : FilePath → Text
unfolding spell_parts
spell (root_dir ∷ []) = text "/"
spell p = spell_parts p

-- `BTreeSet<PathBuf>` as its elements in order
unfoldable pub path_contains : List FilePath → FilePath → Bool
unfolding path_eq
path_contains set p = any (λ q. path_eq q p) set

unfoldable pub path_insert : FilePath → List FilePath → List FilePath
unfolding path_cmp
path_insert p [] = p ∷ []
path_insert p (q ∷ set) =
    let later = path_insert p set in
    elim (path_cmp p q) [
      | Ordering.lt ↦ p ∷ q ∷ set
      | Ordering.eq ↦ q ∷ set
      | Ordering.gt ↦ q ∷ later
    ]

unfoldable pub path_erase : FilePath → List FilePath → List FilePath
unfolding path_eq
path_erase p [] = []
path_erase p (q ∷ set) = let later = path_erase p set in if path_eq q p then later else q ∷ later
