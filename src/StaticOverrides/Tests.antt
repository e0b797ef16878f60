-- ===== src/StaticOverrides/Tests.antt =====
-- An override laid over metadata, and the theorems at concrete lists.
use freebsd_flatpak.Prelude.{◌≡◌, refl, some, none, true, false, if◌then◌else◌}
use freebsd_flatpak.Text.{Text, text, lines, split, split_once, trim, text_cmp}
use freebsd_flatpak.FlatpakMetadata.{header, value, section_entries, section_names}
use freebsd_flatpak.StaticOverrides.{
  effective_metadata_from_sources, parse_key_file, parse_section, apply_overlay, apply_section,
  apply_entry, render_key_file, render_entries, split_list, merge_list, merge_items, merge_item,
  render_list, list_identity, items_enabled, permission_enabled,
}
use freebsd_flatpak.StaticOverrides.Merge.{mentions}
use freebsd_flatpak.StaticOverrides.Merge.Render.{items_enabled-merge_list, merge_list_twice}

abbrev base : Text
base = text "host:ro;~/Music;"

abbrev overlay : Text
overlay = text "!host;xdg-download:create;"

merged : merge_list (some base) overlay true ≡ text "~/Music;!host;xdg-download:create;"
unfolding merge_list merge_items merge_item render_list split_list split trim list_identity
merged = refl

effective :
    effective_metadata_from_sources
      (text "[Context]\nfilesystems=host:ro;\nshared=ipc;\n")
      none
      (some (text "[Context]\nfilesystems=!host;\n[Environment]\nA=1\n"))
    ≡ text "[Context]\nfilesystems=!host;\nshared=ipc;\n\n[Environment]\nA=1\n\n"
unfolding effective_metadata_from_sources parse_key_file parse_section apply_overlay apply_section
    apply_entry render_key_file render_entries merge_list merge_items merge_item render_list
    split_list split trim list_identity lines section_entries section_names split_once text_cmp
effective = refl

host_denied :
    permission_enabled
      (text "[Context]\nfilesystems=host:ro;!host;\n")
      (text "Context")
      (text "filesystems")
      (text "host")
    ≡ false
unfolding permission_enabled value lines split_once trim split_list split items_enabled
    list_identity header
host_denied = refl

items_enabled-merge_list_example :
    items_enabled true (split_list (merge_list (some base) overlay true)) (text "host") ≡ (
      if mentions true (split_list overlay) (text "host")
      then items_enabled true (split_list overlay) (text "host")
      else items_enabled true (split_list base) (text "host"))
items_enabled-merge_list_example = items_enabled-merge_list (some base) overlay true (text "host")

merge_list_twice_example :
    merge_list (some (merge_list (some base) overlay true)) overlay true
    ≡ merge_list (some base) overlay true
merge_list_twice_example = merge_list_twice (some base) overlay true
