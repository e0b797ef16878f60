-- ===== src/Remotes/Config/Files.antt =====
-- The configuration file of a remote is read back as the remote.
use mathlib.Core.List.{append_assoc}
use freebsd_flatpak.Prelude.{
  sym, ◌≡◌, refl, ◌≢◌, Bool, true, false, List, [], ◌∷◌, ◌++◌, Option, none, some, arith, any, all,
  ok,
}
use freebsd_flatpak.Text.{
  Lacks-append, Text, text, lines, lines_cons, lines-nil, IsLine, is_whitespace,
  is_ascii_alphanumeric, text_cmp,
}
use freebsd_flatpak.Remotes.Config.Defs.{
  Remote, config_data, config_line, read_data, read_values, validate_remote, validate_name,
  validate_url, has_line_end, is_name_char, or_blank, show_bool, filled, parse_bool,
}

-- What the checks of `validate_remote` leave open: a key of one line, and no blank title or key,
-- which the file does not tell from a missing one.
pub record IsStorable (remote : Remote) : Type 0 where
  pub name : IsLine remote.name
  pub url : IsLine remote.url
  pub title : IsLine (or_blank remote.title)
  pub key : IsLine (or_blank remote.gpg_key)
  pub title_filled : remote.title ≢ some []
  pub key_filled : remote.gpg_key ≢ some []

lines-config_line :
    (key found rest : Text)
    → IsLine key
    → IsLine found
    → lines (config_line key found rest) ≡ (key ++ (b'=' ∷ found)) ∷ lines rest
lines-config_line key found rest k f =
    let whole : IsLine (key ++ (b'=' ∷ found)) = (
      Lacks-append b'\n' key (b'=' ∷ found) k.0 (omega arith, f.0),
      Lacks-append b'\r' key (b'=' ∷ found) k.1 (omega arith, f.1),
    ) in
    rw (sym (append_assoc key (b'=' ∷ found) (b'\n' ∷ rest)))
      (lines_cons (key ++ (b'=' ∷ found)) rest whole)

show_bool-IsLine : (b : Bool) → IsLine (show_bool b)
show_bool-IsLine true = omega arith
show_bool-IsLine false = omega arith

parse_bool-show_bool : (key : Text) (b : Bool) → parse_bool key (show_bool b) ≡ ok b
unfolding parse_bool
parse_bool-show_bool key true = refl
parse_bool-show_bool key false = refl

filled-or_blank : (o : Option Text) → o ≢ some [] → filled (or_blank o) ≡ o
filled-or_blank none h = refl
filled-or_blank (some []) h = absurd (h refl)
filled-or_blank (some (c ∷ s)) h = refl

lines-config_data :
    (r : Remote)
    → IsStorable r
    → lines (config_data r)
      ≡ (text "name" ++ (b'=' ∷ r.name))
        ∷ (text "url" ++ (b'=' ∷ r.url))
        ∷ (text "title" ++ (b'=' ∷ or_blank r.title))
        ∷ (text "enabled" ++ (b'=' ∷ show_bool r.enabled))
        ∷ (text "gpg_verify" ++ (b'=' ∷ show_bool r.gpg_verify))
        ∷ (text "gpg_key" ++ (b'=' ∷ or_blank r.gpg_key))
        ∷ []
unfolding lines config_data
lines-config_data r s = rw (
  lines-config_line (text "name") r.name _ (omega arith) s.name,
  lines-config_line (text "url") r.url _ (omega arith) s.url,
  lines-config_line (text "title") (or_blank r.title) _ (omega arith) s.title,
  lines-config_line (text "enabled") (show_bool r.enabled) _ (omega arith)
      (show_bool-IsLine r.enabled),
  lines-config_line (text "gpg_verify") (show_bool r.gpg_verify) _ (omega arith)
      (show_bool-IsLine r.gpg_verify),
  lines-config_line (text "gpg_key") (or_blank r.gpg_key) _ (omega arith) s.key,
  lines-nil,
)

-- The values that the loop of `read_path` collects.
abbrev stored : Remote → List (Text × Text)
stored r =
    (text "enabled", show_bool r.enabled)
    ∷ (text "gpg_key", or_blank r.gpg_key)
    ∷ (text "gpg_verify", show_bool r.gpg_verify)
    ∷ (text "name", r.name)
    ∷ (text "title", or_blank r.title)
    ∷ (text "url", r.url)
    ∷ []

read_values-stored : (r : Remote) → IsStorable r → read_values (stored r) ≡ ok r
unfolding read_values
read_values-stored r s = rw (
  parse_bool-show_bool,
  parse_bool-show_bool,
  filled-or_blank r.title s.title_filled,
  filled-or_blank r.gpg_key s.key_filled,
)

-- A remote that can be stored is read back from the file that was written for it.
pub read_data-config_data :
    (remote : Remote) → IsStorable remote → read_data (config_data remote) ≡ ok remote
unfolding read_data text_cmp
read_data-config_data r s = rw (lines-config_data r s) (read_values-stored r s)

no_white-IsLine : (s : Text) → any is_whitespace s ≡ false → IsLine s
unfolding is_whitespace
no_white-IsLine [] h = (tt, tt)
no_white-IsLine (c ∷ s) h =
    let later : IsLine s = no_white-IsLine s (ground arith) in
    ((ground arith, later.0), (ground arith, later.1))

has_line_end-IsLine : (s : Text) → has_line_end s ≡ false → IsLine s
has_line_end-IsLine [] h = (tt, tt)
has_line_end-IsLine (c ∷ s) h =
    let later : IsLine s = has_line_end-IsLine s (ground arith) in
    ((ground arith, later.0), (ground arith, later.1))

name-IsLine : (s : Text) → all is_name_char s ≡ true → IsLine s
unfolding is_ascii_alphanumeric
name-IsLine [] h = (tt, tt)
name-IsLine (c ∷ s) h =
    let later : IsLine s = name-IsLine s (ground arith) in
    ((ground arith, later.0), (ground arith, later.1))

accepted :
    (r : Remote)
    → validate_remote r ≡ ok tt
    → (all is_name_char r.name ≡ true)
      × (has_line_end (or_blank r.title) ≡ false)
      × (any is_whitespace r.url ≡ false)
unfolding validate_remote validate_name validate_url
accepted r h = (ground arith, ground arith, ground arith)

-- A remote that passes the checks can be stored, if its key is one line and neither its title nor
-- its key is blank.
pub validate_remote-IsStorable :
    (remote : Remote)
    → validate_remote remote ≡ ok tt
    → IsLine (or_blank remote.gpg_key)
    → remote.title ≢ some []
    → remote.gpg_key ≢ some []
    → IsStorable remote
validate_remote-IsStorable r h k t g =
    let (name, title, url) = accepted r h in
    record {
      name = name-IsLine r.name name;
      url = no_white-IsLine r.url url;
      title = has_line_end-IsLine (or_blank r.title) title;
      key = k;
      title_filled = t;
      key_filled = g;
    }
