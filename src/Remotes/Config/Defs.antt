-- ===== src/Remotes/Config/Defs.antt =====
-- src/remotes/remote_config.rs: the `Remote` record, its file, and the checks of its fields.
use mathlib.Core.List.{foldl}
use freebsd_flatpak.Prelude.{
  ℕ, Bool, true, false, ◌&&◌, ◌||◌, not, List, [], ◌∷◌, ◌++◌, map, Option, none, some,
  if◌then◌else◌, ◌==◌, is_empty, any, all, Result, ok, err, ◌>>=◌, ◌>>◌, ok_or,
}
use freebsd_flatpak.Text.{
  Text, text, text_eq, lines, split_once, starts_with, is_whitespace, is_ascii_alphanumeric, get,
  insert, trim, ends_with,
}

pub record Remote : Type 0 where
  pub name : Text
  pub url : Text
  pub title : Option Text
  pub enabled : Bool
  pub gpg_verify : Bool
  pub gpg_key : Option Text

pub data ConfigError : Type 0 where
  invalid_name already_exists not_configured : Text → ConfigError
  title_lines : ConfigError
  url_whitespace url_scheme : Text → ConfigError
  missing : Text → ConfigError
  bad_setting : Text → ConfigError
  missing_group no_url : ConfigError
  -- an error of the OSTree repository
  storage : ℕ → ConfigError
  -- the metadata cache of a remote cannot be removed
  cache_not_removed : Text → ℕ → ConfigError

abbrev pub or_blank : Option Text → Text
or_blank none = []
or_blank (some s) = s

-- `{}` of a Boolean, and `str::parse::<bool>`
abbrev pub show_bool : Bool → Text
show_bool true = text "true"
show_bool false = text "false"

unfoldable pub parse_bool : Text → Text → Result ConfigError Bool
unfolding text_eq
parse_bool key s =
    if text_eq s (text "true")
    then ok true
    else if text_eq s (text "false")
    then ok false
    else err (bad_setting key)

-- `{key}={value}\n` before the lines that follow
abbrev pub config_line : Text → Text → Text → Text
config_line key found rest = key ++ (b'=' ∷ (found ++ (b'\n' ∷ rest)))

-- what `write` puts into the file
unfoldable pub config_data : Remote → Text
config_data remote = config_line (text "name") remote.name (
    config_line (text "url") remote.url (
      config_line (text "title") (or_blank remote.title) (
        config_line (text "enabled") (show_bool remote.enabled) (
          config_line (text "gpg_verify") (show_bool remote.gpg_verify)
            (config_line (text "gpg_key") (or_blank remote.gpg_key) [])))))

-- one round of the loop of `read_path`
abbrev pub read_line : List (Text × Text) → Text → List (Text × Text)
read_line values line = elim (split_once line b'=') [
  | some (key, found) ↦ insert key found values
  | none ↦ values
]

abbrev pub filled : Text → Option Text
filled [] = none
filled (c ∷ s) = some (c ∷ s)

unfoldable pub read_values : List (Text × Text) → Result ConfigError Remote
unfolding get parse_bool
read_values values = do
  let field = λ (key : Text). ok_or (get key values) (missing key)
  enabled_text ← field (text "enabled")
  enabled ← parse_bool (text "enabled") enabled_text
  verify_text ← field (text "gpg_verify")
  gpg_verify ← parse_bool (text "gpg_verify") verify_text
  title ← field (text "title")
  gpg_key ← field (text "gpg_key")
  name ← field (text "name")
  url ← field (text "url")
  ok (record {
    name = name;
    url = url;
    title = filled title;
    enabled = enabled;
    gpg_verify = gpg_verify;
    gpg_key = filled gpg_key;
  })

-- `read_path`, of the text of the file
unfoldable pub read_data : Text → Result ConfigError Remote
unfolding lines split_once insert
read_data found = read_values (foldl read_line [] (lines found))

abbrev pub is_name_char : ℕ → Bool
is_name_char c = is_ascii_alphanumeric c || c == b'.' || c == b'-' || c == b'_'

unfoldable pub validate_name : Text → Result ConfigError (Unit {0})
unfolding is_ascii_alphanumeric text_eq
validate_name name =
    if is_empty name
      || text_eq name (text ".")
      || text_eq name (text "..")
      || not (all is_name_char name)
    then err (invalid_name name)
    else ok tt

unfoldable pub validate_url : Text → Result ConfigError (Unit {0})
unfolding is_whitespace starts_with
validate_url url =
    if any is_whitespace url
    then err (url_whitespace url)
    else if starts_with url (text "https://")
        || starts_with url (text "http://")
        || starts_with url (text "file://")
    then ok tt
    else err (url_scheme url)

abbrev pub has_line_end : Text → Bool
has_line_end = any (λ c. c == b'\n' || c == b'\r')

unfoldable pub validate_remote : Remote → Result ConfigError (Unit {0})
validate_remote remote = do
  validate_name remote.name
  if has_line_end (or_blank remote.title) then err title_lines else ok tt
  validate_url remote.url

-- `url.trim_end_matches('/')`
unfoldable pub normalize_url : Text → Text
normalize_url [] = []
normalize_url (c ∷ s) =
    let rest = normalize_url s in if is_empty rest && c == b'/' then [] else c ∷ rest

-- one line of a `.flatpakrepo` file, for `in_group` and the values so far
unfoldable pub repo_line : Bool × List (Text × Text) → Text → Bool × List (Text × Text)
unfolding starts_with ends_with text_eq insert
repo_line (in_group, values) line =
    if is_empty line || starts_with line (text "#") || starts_with line (text ";")
    then (in_group, values)
    else if starts_with line (text "[") && ends_with line (text "]")
    then (text_eq line (text "[Flatpak Repo]"), values)
    else if in_group
    then (
      in_group,
      elim (split_once line b'=') [
        | some (key, found) ↦ insert (trim key) (trim found) values
        | none ↦ values
      ],
    )
    else (in_group, values)

unfoldable pub parse_flatpakrepo : Text → Result ConfigError (List (Text × Text))
unfolding repo_line
parse_flatpakrepo found =
    let (_, values) = foldl repo_line (false, []) (map trim (lines found)) in
    if is_empty values then err missing_group else ok values

abbrev pub non_blank : Option Text → Option Text
non_blank none = none
non_blank (some s) = filled s

-- `from_flatpakrepo`, of the text of the file
unfoldable pub from_flatpakrepo : Text → Text → Result ConfigError Remote
unfolding validate_url normalize_url
from_flatpakrepo name found = do
  values ← parse_flatpakrepo found
  url ← ok_or (get (text "Url") values) no_url
  validate_url url
  let gpg_key = non_blank (get (text "GPGKey") values)
  ok (record {
    name = name;
    url = normalize_url url;
    title = non_blank (get (text "Title") values);
    enabled = true;
    gpg_verify = elim gpg_key [ none ↦ false | some key ↦ true ];
    gpg_key = gpg_key;
  })

-- the part of `from_location` for a repository's own URL
unfoldable pub from_url : Text → Text → Result ConfigError Remote
unfolding validate_url normalize_url
from_url name location = do
  validate_url location
  ok (record {
    name = name;
    url = normalize_url location;
    title = none;
    enabled = true;
    gpg_verify = true;
    gpg_key = none;
  })

-- `from_location`; `fetched` is the text of the repository file that `read_location` gives
unfoldable pub from_location : Text → Text → Result ConfigError Text → Result ConfigError Remote
unfolding validate_name from_url from_flatpakrepo ends_with
from_location name location fetched =
    validate_name name
    >> (if ends_with location (text ".flatpakrepo")
        then fetched >>= from_flatpakrepo name
        else from_url name location)
