-- ===== src/StaticOverrides/Defs.antt =====
-- src/sandbox/static_overrides.rs. `effective_metadata` only adds the reading of the three files.
use mathlib.Core.List.{reverse, foldl}
use freebsd_flatpak.Prelude.{
  Bool, true, false, ◌&&◌, ◌||◌, not, List, [], ◌∷◌, ◌++◌, map, Option, none, some, if◌then◌else◌,
  is_empty, keep, find,
}
use freebsd_flatpak.Text.{
  Text, text, text_eq, trim, split, join, split_once, rsplit_once, strip_prefix, starts_with, get,
  insert,
}
use freebsd_flatpak.FlatpakMetadata.{value, section_names, section_entries}

-- `BTreeMap<String, BTreeMap<String, String>>`
abbrev pub Entries : Type 0
Entries = List (Text × Text)

abbrev pub KeyFile : Type 0
KeyFile = List (Text × Entries)

-- `LIST_KEYS.contains(&(section, key))`: every list key stands in the section `Context`
unfoldable pub is_list_key : Text → Text → Bool
unfolding text_eq
is_list_key section key =
    text_eq section (text "Context")
    && (text_eq key (text "shared")
        || text_eq key (text "sockets")
        || text_eq key (text "devices")
        || text_eq key (text "features")
        || text_eq key (text "filesystems")
        || text_eq key (text "persistent")
        || text_eq key (text "unset-environment"))

abbrev pub non_empty : Text → Bool
non_empty item = not (is_empty item)

unfoldable pub split_list : Text → List Text
split_list value = keep non_empty (map trim (split value b';'))

abbrev pub without_bang : Text → Text
without_bang item = elim (strip_prefix item (text "!")) [ some rest ↦ rest | none ↦ item ]

abbrev pub is_mode : Text → Bool
is_mode suffix =
    text_eq suffix (text "ro") || text_eq suffix (text "rw") || text_eq suffix (text "create")

unfoldable pub list_identity : Text → Bool → Text
unfolding strip_prefix split_once rsplit_once text_eq
list_identity item false = elim (split_once (without_bang item) b'@') [
  | some (name, _) ↦ name
  | none ↦ without_bang item
]
list_identity item true = elim (rsplit_once (without_bang item) b':') [
  | some (path, suffix) ↦ if is_mode suffix then path else without_bang item
  | none ↦ without_bang item
]

-- `values.retain(...)` and `values.push(item)` for one item of the overlay
unfoldable pub merge_item : Bool → List Text → Text → List Text
merge_item filesystem values item =
    keep
      (λ existing.
        not (text_eq (list_identity existing filesystem) (list_identity item filesystem)))
      values
    ++ (item ∷ [])

unfoldable pub merge_items : Bool → List Text → List Text → List Text
merge_items filesystem = foldl (merge_item filesystem)

-- `format!("{};", values.join(";"))`
unfoldable pub render_list : List Text → Text
unfolding join
render_list [] = []
render_list (item ∷ items) = join (item ∷ items) b';' ++ (b';' ∷ [])

abbrev pub or_empty : Option Text → Text
or_empty none = []
or_empty (some base) = base

unfoldable pub merge_list : Option Text → Text → Bool → Text
merge_list base overlay filesystem =
    render_list (merge_items filesystem (split_list (or_empty base)) (split_list overlay))

abbrev pub section_or_default : KeyFile → Text → Entries
section_or_default file section = elim (get section file) [ some entries ↦ entries | none ↦ [] ]

abbrev pub base_value : KeyFile → Text → Text → Option Text
base_value file section key = elim (get section file) [
  | some entries ↦ get key entries
  | none ↦ none
]

-- one round of the inner loop of `apply_overlay`
unfoldable pub apply_entry : Text → KeyFile → Text × Text → KeyFile
unfolding get insert is_list_key
apply_entry section base (key, overlay_value) =
    let found =
      if is_list_key section key
      then merge_list (base_value base section key) overlay_value (text_eq key (text "filesystems"))
      else overlay_value in
    insert section (insert key found (section_or_default base section)) base

-- one round of the outer loop
unfoldable pub apply_section : Text → KeyFile → Text → KeyFile
apply_section overlay base section =
    foldl (apply_entry section) base (section_entries overlay section)

unfoldable pub apply_overlay : KeyFile → Text → KeyFile
apply_overlay base overlay = foldl (apply_section overlay) base (section_names overlay)

-- the entries of one section, inserted in their order
unfoldable pub parse_section : Text → KeyFile → Text → KeyFile
unfolding insert
parse_section data_ file section =
    insert section
      (foldl (λ entries (key, found). insert key found entries) (section_or_default file section)
        (section_entries data_ section))
      file

unfoldable pub parse_key_file : Text → KeyFile
parse_key_file data_ = foldl (parse_section data_) [] (section_names data_)

unfoldable pub render_entries : Entries → Text
render_entries [] = []
render_entries ((key, found) ∷ entries) =
    key ++ (b'=' ∷ (found ++ (b'\n' ∷ render_entries entries)))

unfoldable pub render_key_file : KeyFile → Text
render_key_file [] = []
render_key_file ((section, entries) ∷ file) =
    b'['
    ∷ (section ++ (b']' ∷ (b'\n' ∷ (render_entries entries ++ (b'\n' ∷ render_key_file file)))))

abbrev pub overlays : Option Text → Option Text → List Text
overlays none none = []
overlays (some global) none = global ∷ []
overlays none (some application) = application ∷ []
overlays (some global) (some application) = global ∷ application ∷ []

unfoldable pub effective_metadata_from_sources : Text → Option Text → Option Text → Text
effective_metadata_from_sources metadata global application =
    render_key_file (foldl apply_overlay (parse_key_file metadata) (overlays global application))

-- the item that decides, the last one of its identity
abbrev pub decides : Bool → Text → Text → Bool
decides filesystem target item = text_eq (list_identity item filesystem) target

unfoldable pub items_enabled : Bool → List Text → Text → Bool
unfolding starts_with
items_enabled filesystem items target = elim (find (decides filesystem target) (reverse items)) [
  | some item ↦ not (starts_with item (text "!"))
  | none ↦ false
]

unfoldable pub permission_enabled : Text → Text → Text → Text → Bool
permission_enabled metadata section key target = elim (value metadata section key) [
  | some items ↦ items_enabled (text_eq key (text "filesystems")) (split_list items) target
  | none ↦ false
]
