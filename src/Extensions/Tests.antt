-- ===== src/Extensions/Tests.antt =====
-- A platform with two points, one within the other, and the theorems there.
use freebsd_flatpak.Prelude.{
  ◌≡◌, refl, ◌≤◌, ◌↔◌, true, false, List, [], ◌∷◌, none, some, ok, Among, here,
}
use freebsd_flatpak.Text.{
  split_once, text_cmp, byte_len, set_insert, contains, starts_with, text_eq, strip_prefix, splitn,
  Text, text,
}
use freebsd_flatpak.Extensions.{
  resolve_points, candidate_ref, takes, first_branch, add_name, child_names, payload_names,
  resolve_names, fresh_items, deduplicate_preserving_order, branches, longest, parent_of_parts,
  ExtensionPoint, ExtensionParent, RuntimeRefParts, runtime_ref_parts, Placed, placed_from, owns,
  point_for_ref, resolve_extension_refs, from_ref,
}
use freebsd_flatpak.Extensions.Owners.{name_length, point_for_ref_sound}
use freebsd_flatpak.Extensions.Payloads.{IsPayload, IsFirst}
use freebsd_flatpak.Extensions.Resolved.{
  candidates_of, resolve_extension_refs_iff, resolve_extension_refs_sound,
}

abbrev point : Text → List Text → ExtensionPoint
point name versions = record {
  name = name;
  tag = none;
  directory = none;
  version = none;
  versions = versions;
  subdirectories = true;
  subdirectory_suffix = none;
  add_ld_path = none;
  merge_dirs = [];
  no_autodownload = false;
  download_if = [];
  enable_if = [];
  autodelete = false;
  autoprune_unless = [];
  locale_subset = false;
}

abbrev points : List ExtensionPoint
points = point (text "GL") (text "2" ∷ text "1" ∷ []) ∷ point (text "GL.Debug") (text "1" ∷ []) ∷ []

abbrev parent : ExtensionParent
parent = record { arch = text "x86"; branch = text "9" }

abbrev offered : List Text
offered = text "runtime/GL.Debug/x86/1" ∷ text "runtime/GL.d/x86/1" ∷ text "runtime/GL/x86/1" ∷ []

parent_read : from_ref (text "runtime/P/x86/9") ≡ ok parent
unfolding from_ref parent_of_parts splitn strip_prefix
parent_read = refl

owner_found :
    point_for_ref points parent (text "runtime/GL.Debug/x86/1")
    ≡ some (1, point (text "GL.Debug") (text "1" ∷ []))
unfolding point_for_ref runtime_ref_parts strip_prefix splitn text_eq longest placed_from owns
    starts_with branches deduplicate_preserving_order fresh_items contains set_insert byte_len
owner_found = refl

resolved : resolve_extension_refs points parent offered ≡ offered
unfolding resolve_extension_refs resolve_names payload_names child_names add_name runtime_ref_parts
    strip_prefix splitn starts_with first_branch branches deduplicate_preserving_order fresh_items
    contains takes candidate_ref point_for_ref longest owns placed_from resolve_points byte_len
    text_eq set_insert text_cmp split_once
resolved = refl

point_for_ref_sound_example :
    (parts : RuntimeRefParts) × (runtime_ref_parts (text "runtime/GL.Debug/x86/1") ≡ some parts)
    × (parts.arch ≡ parent.arch)
    × Among (1, point (text "GL.Debug") (text "1" ∷ [])) (placed_from 0 points)
    × (owns parent parts (point (text "GL.Debug") (text "1" ∷ [])) ≡ true)
    × ((q : Placed)
        → Among q (placed_from 0 points)
        → owns parent parts q.1 ≡ true
        → name_length q ≤ name_length (1, point (text "GL.Debug") (text "1" ∷ [])))
point_for_ref_sound_example =
    point_for_ref_sound points parent (text "runtime/GL.Debug/x86/1") owner_found

debug_resolved :
    Among (text "runtime/GL.Debug/x86/1") (resolve_extension_refs points parent offered)
unfolding resolve_extension_refs
debug_resolved = rw resolved (here refl)

resolve_extension_refs_iff_example :
    Among (text "runtime/GL.d/x86/1") (resolve_extension_refs points parent offered) ↔ (
      (p : Placed) × (name : Text) × Among p (placed_from 0 points)
      × IsPayload parent offered p.1 name
      × IsFirst points parent offered p.0
          (text "runtime/GL.d/x86/1")
          (candidates_of points parent offered p name))
resolve_extension_refs_iff_example =
    resolve_extension_refs_iff points parent offered (text "runtime/GL.d/x86/1")

resolve_extension_refs_sound_example :
    Among (text "runtime/GL.Debug/x86/1") offered
    × ((p : Placed) × (parts : RuntimeRefParts) × (point_for_ref points parent
            (text "runtime/GL.Debug/x86/1")
          ≡ some p)
        × (runtime_ref_parts (text "runtime/GL.Debug/x86/1") ≡ some parts)
        × (parts.arch ≡ parent.arch))
resolve_extension_refs_sound_example =
    resolve_extension_refs_sound points parent offered debug_resolved
