-- ===== src/Extensions/Facts.antt =====
-- src/extensions/activation.rs: the facts of the host that conditions ask for.
use freebsd_flatpak.Prelude.{Bool, true, false, ◌||◌, List, Option, none, some, if◌then◌else◌, any}
use freebsd_flatpak.Text.{
  Text, text, text_eq, strip_prefix, strip_suffix, strip_last, rsplit_once, trim_end_matches,
  replace_char, to_ascii_lowercase, contains,
}

-- What `detect` finds; the sets as their elements in order.
pub record ExtensionFacts : Type 0 where
  pub active_gl_drivers : List Text
  pub active_gtk_theme : Option Text
  pub intel_gpu : Bool
  pub kernel_modules : List Text
  pub xdg_desktops : List Text

unfoldable pub normalize_kernel_module : Text → Text
unfolding trim_end_matches replace_char to_ascii_lowercase
normalize_kernel_module name =
    to_ascii_lowercase (replace_char (trim_end_matches name (text ".ko")) b'-' b'_')

abbrev pub is_some_dot : Option Text → Bool
is_some_dot (some prefix) = elim (strip_last prefix b'.') [ some _ ↦ true | none ↦ false ]
is_some_dot none = false

unfoldable pub extension_suffix_matches : Text → List Text → Bool
extension_suffix_matches name active =
    any (λ driver. text_eq name driver || is_some_dot (strip_suffix name driver)) active

-- the theme is what follows the last period
abbrev pub theme_matches : Text → Option Text → Bool
theme_matches name none = false
theme_matches name (some theme) = elim (rsplit_once name b'.') [
  | some (_, suffix) ↦ text_eq suffix theme
  | none ↦ false
]

abbrev pub module_loaded : ExtensionFacts → Option Text → Bool
module_loaded facts none = false
module_loaded facts (some name) = contains facts.kernel_modules (normalize_kernel_module name)

abbrev pub desktop_runs : ExtensionFacts → Option Text → Bool
desktop_runs facts none = false
desktop_runs facts (some desktop) = contains facts.xdg_desktops (to_ascii_lowercase desktop)

unfoldable pub matches_condition : ExtensionFacts → Text → Text → Bool
matches_condition facts condition extension_name =
    if text_eq condition (text "active-gl-driver")
    then extension_suffix_matches extension_name facts.active_gl_drivers
    else if text_eq condition (text "active-gtk-theme")
    then theme_matches extension_name facts.active_gtk_theme
    else if text_eq condition (text "have-intel-gpu")
    then facts.intel_gpu
    else module_loaded facts (strip_prefix condition (text "have-kernel-module-"))
      || desktop_runs facts (strip_prefix condition (text "on-xdg-desktop-"))

unfoldable pub matches_any : ExtensionFacts → List Text → Text → Bool
matches_any facts conditions extension_name =
    any (λ condition. matches_condition facts condition extension_name) conditions
