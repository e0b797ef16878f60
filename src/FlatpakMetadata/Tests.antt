-- ===== src/FlatpakMetadata/Tests.antt =====
-- Runs of the readers on a small key file, and the theorem there.
use freebsd_flatpak.Prelude.{◌≡◌, refl, [], ◌∷◌, some, true}
use freebsd_flatpak.Text.{Text, text, text_eq, lines, split_once, trim, get}
use freebsd_flatpak.FlatpakMetadata.{
  value, section_entries, has_section, sections_with_prefix, section_names, header,
}
use freebsd_flatpak.FlatpakMetadata.Lookup.{value-section_entries}

abbrev sample : Text
sample =
    text "[Application]\nname=org.x.Y\n# a=b\n\n[Context]\r\nshared = network; \n[Extension a]\n"

read_shared : value sample (text "Context") (text "shared") ≡ some (text "network;")
unfolding value lines split_once trim text_eq header
read_shared = refl

application_entries :
    section_entries sample (text "Application") ≡ (text "name", text "org.x.Y") ∷ []
unfolding section_entries lines split_once trim text_eq header
application_entries = refl

extension_sections : sections_with_prefix sample (text "Extension ") ≡ text "Extension a" ∷ []
unfolding sections_with_prefix lines trim
extension_sections = refl

all_sections : section_names sample ≡ text "Application" ∷ text "Context" ∷ text "Extension a" ∷ []
unfolding section_names lines trim
all_sections = refl

has_context : has_section sample (text "Context") ≡ true
unfolding has_section lines trim text_eq
has_context = refl

value-section_entries_example :
    value sample (text "Context") (text "shared")
    ≡ get (text "shared") (section_entries sample (text "Context"))
value-section_entries_example = value-section_entries sample (text "Context") (text "shared") refl
