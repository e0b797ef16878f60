-- ===== src/FilesystemGrants/Dirs.antt =====
-- src/sandbox/filesystem_grants.rs: the user's directories of `user-dirs.dirs`.
use freebsd_flatpak.Prelude.{
  Bool, true, false, ◌||◌, ◌==◌, List, [], ◌∷◌, Option, none, some, if◌then◌else◌, is_empty,
  or_else,
}
use freebsd_flatpak.Text.{
  Text, text, text_eq, trim, lines, split_once, starts_with, strip_prefix, strip_suffix,
}
use freebsd_flatpak.Paths.{FilePath, to_path, path_eq, is_rooted, join_onto}
use freebsd_flatpak.FilesystemGrants.Grants.{Disk, canonical_or_same}

pub record XdgUserDirs : Type 0 where
  pub desktop : FilePath
  pub documents : FilePath
  pub download : FilePath
  pub music : FilePath
  pub pictures : FilePath
  pub public_share : FilePath
  pub templates : FilePath
  pub videos : FilePath
  pub config_file : Option FilePath

unfoldable pub defaults : FilePath → XdgUserDirs
defaults home = record {
  desktop = join_onto home (to_path (text "Desktop"));
  documents = join_onto home (to_path (text "Documents"));
  download = join_onto home (to_path (text "Downloads"));
  music = join_onto home (to_path (text "Music"));
  pictures = join_onto home (to_path (text "Pictures"));
  public_share = join_onto home (to_path (text "Public"));
  templates = join_onto home (to_path (text "Templates"));
  videos = join_onto home (to_path (text "Videos"));
  config_file = none;
}

-- the loop of `unescape_xdg_value`
unfoldable pub unescape_rest : Bool → Text → Text
unescape_rest true [] = b'\\' ∷ []
unescape_rest false [] = []
unescape_rest true (c ∷ s) = c ∷ unescape_rest false s
unescape_rest false (c ∷ s) =
    let escaped = unescape_rest true s in
    let plain = unescape_rest false s in if c == b'\\' then escaped else c ∷ plain

unfoldable pub unescape_xdg_value : Text → Text
unescape_xdg_value value = unescape_rest false value

abbrev pub unquoted : Text → Option Text → Text
unquoted value none = value
unquoted value (some inner) = elim (strip_suffix inner (b'"' ∷ [])) [
  | none ↦ value
  | some middle ↦ middle
]

abbrev pub below_home : FilePath → Option Text → Option FilePath
below_home home none = none
below_home home (some rest) = some (join_onto home (to_path rest))

abbrev pub home_itself : FilePath → Bool → Option FilePath
home_itself home true = some home
home_itself home false = none

abbrev pub if_absolute : FilePath → Option FilePath
if_absolute path = if is_rooted path then some path else none

unfoldable pub parse_xdg_user_dir_value : Text → FilePath → Option FilePath
parse_xdg_user_dir_value value home =
    let unescaped = unescape_xdg_value (unquoted value (strip_prefix value (b'"' ∷ []))) in
    or_else (below_home home (strip_prefix unescaped (text "$HOME/"))) (
      or_else (home_itself home (text_eq unescaped (text "$HOME"))) (
        or_else (below_home home (strip_prefix unescaped (text "${HOME}/"))) (
          or_else (home_itself home (text_eq unescaped (text "${HOME}")))
            (if_absolute (to_path unescaped)))))

unfoldable pub set_dir : Text → FilePath → XdgUserDirs → XdgUserDirs
set_dir key path dirs =
    if text_eq key (text "XDG_DESKTOP_DIR")
    then record dirs { desktop = path }
    else if text_eq key (text "XDG_DOCUMENTS_DIR")
    then record dirs { documents = path }
    else if text_eq key (text "XDG_DOWNLOAD_DIR")
    then record dirs { download = path }
    else if text_eq key (text "XDG_MUSIC_DIR")
    then record dirs { music = path }
    else if text_eq key (text "XDG_PICTURES_DIR")
    then record dirs { pictures = path }
    else if text_eq key (text "XDG_PUBLICSHARE_DIR")
    then record dirs { public_share = path }
    else if text_eq key (text "XDG_TEMPLATES_DIR")
    then record dirs { templates = path }
    else if text_eq key (text "XDG_VIDEOS_DIR")
    then record dirs { videos = path }
    else dirs

abbrev pub set_option : Text → Option FilePath → XdgUserDirs → XdgUserDirs
set_option key none dirs = dirs
set_option key (some path) dirs = set_dir key path dirs

-- the body of the loop over the lines
unfoldable pub load_line : FilePath → Text → XdgUserDirs → XdgUserDirs
load_line home raw dirs =
    let line = trim raw in
    if is_empty line || starts_with line (text "#") then dirs else elim (split_once line b'=') [
      | none ↦ dirs
      | some (key, value) ↦ set_option (trim key) (parse_xdg_user_dir_value (trim value) home) dirs
    ]

abbrev pub load_lines : FilePath → List Text → XdgUserDirs → XdgUserDirs
load_lines home [] dirs = dirs
load_lines home (line ∷ rest) dirs = load_lines home rest (load_line home line dirs)

-- `data` is what `user-dirs.dirs` holds, if it can be read
unfoldable pub load_from_config_home : FilePath → FilePath → Option Text → XdgUserDirs
load_from_config_home home config_home none = defaults home
load_from_config_home home config_home (some data_text) =
    load_lines home (lines data_text) (record (defaults home) {
      config_file = some (join_onto config_home (to_path (text "user-dirs.dirs")));
    })

-- the directories by their names, in the order of `get` and of `label_for_host_path`
unfoldable pub labelled : XdgUserDirs → List (Text × FilePath)
labelled dirs =
    (text "xdg-desktop", dirs.desktop)
    ∷ (text "xdg-documents", dirs.documents)
    ∷ (text "xdg-download", dirs.download)
    ∷ (text "xdg-music", dirs.music)
    ∷ (text "xdg-pictures", dirs.pictures)
    ∷ (text "xdg-public-share", dirs.public_share)
    ∷ (text "xdg-templates", dirs.templates)
    ∷ (text "xdg-videos", dirs.videos)
    ∷ []

abbrev pub lookup_dir : Text → List (Text × FilePath) → Option FilePath
lookup_dir name [] = none
lookup_dir name ((label, path) ∷ rest) =
    let later = lookup_dir name rest in if text_eq name label then some path else later

-- `XdgUserDirs::get`
unfoldable pub get_dir : XdgUserDirs → Text → Option FilePath
get_dir dirs name = lookup_dir name (labelled dirs)

abbrev pub label_loop : Disk → List FilePath → FilePath → List (Text × FilePath) → Option Text
label_loop disk created path [] = none
label_loop disk created path ((label, candidate) ∷ rest) =
    let later = label_loop disk created path rest in
    if path_eq (canonical_or_same (disk.canonicalize created candidate) candidate) path
    then some label
    else later

unfoldable pub label_for_host_path : Disk → List FilePath → XdgUserDirs → FilePath → Option Text
label_for_host_path disk created dirs path = label_loop disk created path (labelled dirs)

-- `XdgUserDirs::entries`
abbrev pub dir_entries : List (Text × Text)
dir_entries =
    (text "xdg-desktop", text "XDG_DESKTOP_DIR")
    ∷ (text "xdg-download", text "XDG_DOWNLOAD_DIR")
    ∷ (text "xdg-templates", text "XDG_TEMPLATES_DIR")
    ∷ (text "xdg-public-share", text "XDG_PUBLICSHARE_DIR")
    ∷ (text "xdg-documents", text "XDG_DOCUMENTS_DIR")
    ∷ (text "xdg-music", text "XDG_MUSIC_DIR")
    ∷ (text "xdg-pictures", text "XDG_PICTURES_DIR")
    ∷ (text "xdg-videos", text "XDG_VIDEOS_DIR")
    ∷ []
