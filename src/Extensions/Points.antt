-- ===== src/Extensions/Points.antt =====
-- src/extensions/extension_points.rs: the extension points that a metadata file declares.
use freebsd_flatpak.Prelude.{
  Bool, false, not, ◌||◌, List, [], ◌∷◌, map, Option, none, some, if◌then◌else◌, is_empty, keep,
  Result, ok, err,
}
use freebsd_flatpak.Text.{
  Text, text, trim, split, splitn, split_once, strip_prefix, ends_with, contains, set_insert,
  trim_start_matches, eq_ignore_ascii_case,
}
use freebsd_flatpak.FlatpakMetadata.{value, sections_with_prefix}

pub record ExtensionPoint : Type 0 where
  pub name : Text
  pub tag : Option Text
  pub directory : Option Text
  pub version : Option Text
  pub versions : List Text
  pub subdirectories : Bool
  pub subdirectory_suffix : Option Text
  pub add_ld_path : Option Text
  pub merge_dirs : List Text
  pub no_autodownload : Bool
  pub download_if : List Text
  pub enable_if : List Text
  pub autodelete : Bool
  pub autoprune_unless : List Text
  pub locale_subset : Bool

pub record ExtensionParent : Type 0 where
  pub arch : Text
  pub branch : Text

pub data ParentError : Type 0 where
  no_id no_arch no_branch : ParentError

abbrev pub partial_of : Text → Text
partial_of parent_ref = elim (strip_prefix parent_ref (text "app/")) [
  | some rest ↦ rest
  | none ↦ elim (strip_prefix parent_ref (text "runtime/")) [ some rest ↦ rest | none ↦ parent_ref ]
]

unfoldable pub parent_of_parts : List Text → Result ParentError ExtensionParent
parent_of_parts [] = err no_id
parent_of_parts (name ∷ []) = err no_arch
parent_of_parts (name ∷ arch ∷ []) = if is_empty arch then err no_arch else err no_branch
parent_of_parts (name ∷ arch ∷ branch ∷ _) =
    if is_empty arch
    then err no_arch
    else if is_empty branch
    then err no_branch
    else ok (record { arch = arch; branch = branch })

unfoldable pub from_ref : Text → Result ParentError ExtensionParent
from_ref parent_ref = parent_of_parts (splitn 3 b'/' (partial_of parent_ref))

-- `.filter(|item| !item.is_empty())`
abbrev pub filled_value : Option Text → Option Text
filled_value none = none
filled_value (some item) = if is_empty item then none else some item

unfoldable pub list_value : Text → Text → Text → List Text
unfolding trim split
list_value metadata section key = elim (value metadata section key) [
  | none ↦ []
  | some items ↦ keep (λ item. not (is_empty item)) (map trim (split items b';'))
]

unfoldable pub bool_value : Text → Text → Text → Bool
bool_value metadata section key = elim (value metadata section key) [
  | none ↦ false
  | some item ↦ eq_ignore_ascii_case item (text "true")
]

-- the name of a point and its tag
unfoldable pub name_and_tag : Text → Text × Option Text
name_and_tag qualified_name = elim (split_once qualified_name b'@') [
  | none ↦ (qualified_name, none)
  | some (name, tag) ↦ (name, if is_empty tag then none else some tag)
]

unfoldable pub parse_point : Text → Text → ExtensionPoint
parse_point metadata section =
    let (name, tag) = name_and_tag (trim_start_matches section (text "Extension ")) in
    let related_debug = ends_with name (text ".Debug") in
    let related_locale = ends_with name (text ".Locale") in
    record {
      name = name;
      tag = tag;
      directory = value metadata section (text "directory");
      version = filled_value (value metadata section (text "version"));
      versions = list_value metadata section (text "versions");
      subdirectories = bool_value metadata section (text "subdirectories");
      subdirectory_suffix = filled_value (value metadata section (text "subdirectory-suffix"));
      add_ld_path = filled_value (value metadata section (text "add-ld-path"));
      merge_dirs = list_value metadata section (text "merge-dirs");
      no_autodownload = related_debug || bool_value metadata section (text "no-autodownload");
      download_if = list_value metadata section (text "download-if");
      enable_if = list_value metadata section (text "enable-if");
      autodelete =
          related_debug || related_locale || bool_value metadata section (text "autodelete");
      autoprune_unless = list_value metadata section (text "autoprune-unless");
      locale_subset = bool_value metadata section (text "locale-subset");
    }

unfoldable pub parse_extension_points : Text → List ExtensionPoint
parse_extension_points metadata =
    map (parse_point metadata) (sections_with_prefix metadata (text "Extension "))

-- the items that were not seen before, in their order
unfoldable pub fresh_items : List Text → List Text → List Text
fresh_items seen [] = []
fresh_items seen (x ∷ xs) =
    if contains seen x then fresh_items seen xs else x ∷ fresh_items (set_insert x seen) xs

unfoldable pub deduplicate_preserving_order : List Text → List Text
deduplicate_preserving_order items = fresh_items [] items

unfoldable pub branches : ExtensionPoint → ExtensionParent → List Text
branches point parent = elim point.versions [
  | v ∷ vs ↦ deduplicate_preserving_order (v ∷ vs)
  | [] ↦ elim point.version [ some version ↦ version ∷ [] | none ↦ parent.branch ∷ [] ]
]
