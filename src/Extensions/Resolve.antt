-- ===== src/Extensions/Resolve.antt =====
-- src/extensions/extension_points.rs: which of the available refs the points of a parent take.
use freebsd_flatpak.Prelude.{
  ℕ, suc, Bool, true, false, not, ◌&&◌, ◌||◌, ◌==◌, ltb, List, [], ◌∷◌, ◌++◌, map, Option, none,
  some, if◌then◌else◌, is_empty, keep, any, find, Result, ok, ◌>>=◌,
}
use freebsd_flatpak.Text.{
  Text, text, text_eq, byte_len, strip_prefix, starts_with, split, splitn, contains, set_insert,
}
use freebsd_flatpak.Extensions.Facts.{ExtensionFacts, matches_any}
use freebsd_flatpak.Extensions.Points.{
  ExtensionPoint, ExtensionParent, ParentError, from_ref, branches, parse_extension_points,
}

pub record RuntimeRefParts : Type 0 where
  pub name : Text
  pub arch : Text
  pub branch : Text

abbrev pub three_parts : List Text → Option RuntimeRefParts
three_parts (name ∷ arch ∷ branch ∷ _) = some (record { name = name; arch = arch; branch = branch })
three_parts [] = none
three_parts (name ∷ []) = none
three_parts (name ∷ arch ∷ []) = none

unfoldable pub runtime_ref_parts : Text → Option RuntimeRefParts
runtime_ref_parts ref_name = elim (strip_prefix ref_name (text "runtime/")) [
  | none ↦ none
  | some rest ↦ three_parts (splitn 3 b'/' rest)
]

-- A point with its place in the list, by which `ptr::eq` tells it from the others.
abbrev pub Placed : Type 0
Placed = ℕ × ExtensionPoint

unfoldable pub placed_from : ℕ → List ExtensionPoint → List Placed
placed_from i [] = []
placed_from i (p ∷ ps) = (i, p) ∷ placed_from (suc i) ps

abbrev pub is_child : Text → Text → Bool
is_child name point_name = elim (strip_prefix name point_name) [
  | none ↦ false
  | some suffix ↦ starts_with suffix (text ".")
]

-- the filter of `point_for_ref`
unfoldable pub owns : ExtensionParent → RuntimeRefParts → ExtensionPoint → Bool
owns parent candidate point =
    (text_eq candidate.name point.name
      || (point.subdirectories && is_child candidate.name point.name))
    && any (λ branch. text_eq branch candidate.branch) (branches point parent)

-- `max_by_key`, which gives the last of equal maxima, by the length of the names
unfoldable pub longest : List Placed → Option Placed
longest [] = none
longest (p ∷ ps) = elim (longest ps) [
  | none ↦ some p
  | some q ↦ if ltb (byte_len q.1.name) (byte_len p.1.name) then some p else some q
]

unfoldable pub point_for_ref : List ExtensionPoint → ExtensionParent → Text → Option Placed
point_for_ref points parent ref_name = elim (runtime_ref_parts ref_name) [
  | none ↦ none
  | some candidate ↦
      if text_eq candidate.arch parent.arch
      then longest (keep (λ p. owns parent candidate p.1) (placed_from 0 points))
      else none
]

-- `format!("runtime/{name}/{}/{branch}", parent.arch)`
unfoldable pub candidate_ref : ExtensionParent → Text → Text → Text
candidate_ref parent name branch =
    text "runtime/" ++ name ++ text "/" ++ parent.arch ++ text "/" ++ branch

abbrev pub is_payload : ExtensionPoint → ExtensionParent → RuntimeRefParts → Bool
is_payload point parent parts =
    starts_with parts.name (point.name ++ text ".") && text_eq parts.arch parent.arch

unfoldable pub add_name :
    ExtensionPoint → ExtensionParent → Option RuntimeRefParts → List Text → List Text
add_name point parent none names = names
add_name point parent (some parts) names =
    if is_payload point parent parts then set_insert parts.name names else names

-- the names of the payloads of a point
unfoldable pub child_names : ExtensionPoint → ExtensionParent → List Text → List Text → List Text
child_names point parent names [] = names
child_names point parent names (candidate ∷ refs) =
    child_names point parent (add_name point parent (runtime_ref_parts candidate) names) refs

unfoldable pub payload_names : ExtensionPoint → ExtensionParent → List Text → List Text
payload_names point parent available =
    if point.subdirectories
    then child_names point parent (point.name ∷ []) available
    else point.name ∷ []

module _ (points : List ExtensionPoint) (parent : ExtensionParent) (available : List Text) where
  -- an available ref that the point owns
  unfoldable pub takes : ℕ → Text → Bool
  takes i candidate =
      contains available candidate
      && elim (point_for_ref points parent candidate) [ some (j, _) ↦ j == i | none ↦ false ]

  -- the first branch that the point takes of a payload
  unfoldable pub first_branch : ℕ → ExtensionPoint → Text → Option Text
  first_branch i point name =
      find (takes i) (map (candidate_ref parent name) (branches point parent))

  abbrev pub add_found : Option Text → List Text → List Text
  add_found (some candidate) resolved = set_insert candidate resolved
  add_found none resolved = resolved

  unfoldable pub resolve_names : ℕ → ExtensionPoint → List Text → List Text → List Text
  resolve_names i point resolved [] = resolved
  resolve_names i point resolved (name ∷ names) =
      resolve_names i point (add_found (first_branch i point name) resolved) names

  unfoldable pub resolve_points : List Text → List Placed → List Text
  resolve_points resolved [] = resolved
  resolve_points resolved ((i, point) ∷ rest) =
      resolve_points (resolve_names i point resolved (payload_names point parent available)) rest

  unfoldable pub resolve_extension_refs : List Text
  unfolding resolve_points placed_from
  resolve_extension_refs = resolve_points [] (placed_from 0 points)

unfoldable pub is_dynamic : Text → Bool
is_dynamic condition =
    text_eq condition (text "active-gl-driver") || text_eq condition (text "active-gtk-theme")

unfoldable pub keeps_installed_ref : ExtensionPoint → Text → ExtensionFacts → Bool
keeps_installed_ref point ref_name facts = elim (runtime_ref_parts ref_name) [
  | none ↦ false
  | some candidate ↦
      let dynamic = keep is_dynamic (point.download_if ++ point.enable_if) in
      if not (is_empty point.autoprune_unless)
      then matches_any facts point.autoprune_unless candidate.name
      else if not (is_empty dynamic)
      then matches_any facts dynamic candidate.name
      else true
]

-- `BTreeSet::extend`
abbrev pub extend : List Text → List Text → List Text
extend refs [] = refs
extend refs (r ∷ more) = extend (set_insert r refs) more

-- A metadata file that cannot be read is `none`.
module _ (installed : List Text) (facts : ExtensionFacts) where
  abbrev pub is_kept : List ExtensionPoint → ExtensionParent → Text → Bool
  is_kept points parent ref_name = elim (point_for_ref points parent ref_name) [
    | some (_, point) ↦ keeps_installed_ref point ref_name facts
    | none ↦ false
  ]

  unfoldable pub applicable_extension_refs : Option Text → Text → Result ParentError (List Text)
  applicable_extension_refs none parent_ref = ok []
  applicable_extension_refs (some metadata) parent_ref = do
    parent ← from_ref parent_ref
    let points = parse_extension_points metadata
    ok (keep (is_kept points parent) (resolve_extension_refs points parent installed))

  -- those of the application and those of its runtime
  unfoldable pub required_extension_refs :
      Option Text → Text → Option Text → Text → Result ParentError (List Text)
  required_extension_refs app_metadata app_ref runtime_metadata runtime_ref = do
    of_app ← applicable_extension_refs app_metadata app_ref
    of_runtime ← applicable_extension_refs runtime_metadata runtime_ref
    ok (extend (extend [] of_app) of_runtime)

unfoldable pub is_hidden_related_ref : Text → Bool
is_hidden_related_ref runtime_ref = elim (split runtime_ref b'/') [
  | [] ↦ false
  | id ∷ _ ↦
      any (λ component. text_eq component (text "Locale") || text_eq component (text "Debug"))
        (split id b'.')
]

module _ (installed : List Text) where
  abbrev pub is_autodeleted : List ExtensionPoint → ExtensionParent → Text → Bool
  is_autodeleted points parent ref_name = elim (point_for_ref points parent ref_name) [
    | some (_, point) ↦ point.autodelete
    | none ↦ false
  ]

  unfoldable pub autodeleted_of : Option Text → ExtensionParent → List Text
  autodeleted_of none parent = []
  autodeleted_of (some metadata) parent =
      let points = parse_extension_points metadata in
      keep (is_autodeleted points parent) (resolve_extension_refs points parent installed)

  -- both parents are read before any metadata is
  unfoldable pub autodelete_extension_refs :
      Option Text → Text → Option Text → Text → Result ParentError (List Text)
  autodelete_extension_refs app_metadata app_ref runtime_metadata runtime_ref = do
    app_parent ← from_ref app_ref
    runtime_parent ← from_ref runtime_ref
    let of_app = autodeleted_of app_metadata app_parent
    let of_runtime = autodeleted_of runtime_metadata runtime_parent
    ok (extend (extend [] of_app) of_runtime)
