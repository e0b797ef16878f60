-- ===== src/Remotes/Config/Tests.antt =====
-- Remotes in a small installation, and the theorems there. The repository of `ready` can be opened
-- or not and refuses one remote.
use freebsd_flatpak.Prelude.{
  ◌≡◌, refl, ◌≢◌, Bool, true, false, [], ◌∷◌, some, none, ok, err, if◌then◌else◌, any,
}
use native.Mathlib.Omega.{arith}
use freebsd_flatpak.Text.{trim, Text, text, text_eq, lines, split_once, get, text_cmp}
use freebsd_flatpak.Remotes.Config.{
  Remote, storage, cache_not_removed, is_stale, not_configured, config_data, read_data, read_values,
  validate_remote, validate_name, validate_url, from_flatpakrepo, parse_flatpakrepo, Storage, Disk,
  get_remote, add, modify, delete,
}
use freebsd_flatpak.Remotes.Config.Files.{IsStorable, read_data-config_data}
use freebsd_flatpak.Remotes.Config.Updates.{
  add_ok, add_rollback, add_open_failure, modify_ok, delete_ok,
}

abbrev ready : Storage
ready = record {
  Repo = Bool;
  open_error = λ open_. if open_ then none else some 2;
  configure_remote = λ repo r. (repo, if text_eq r.name (text "bad") then some 5 else none);
  delete_remote = λ repo name. (repo, if text_eq name (text "held") then some 6 else none);
}

abbrev flathub : Remote
flathub = record {
  name = text "flathub";
  url = text "https://dl.flathub.org/repo";
  title = some (text "Flathub");
  enabled = true;
  gpg_verify = true;
  gpg_key = none;
}

abbrev other : Remote
other = record flathub { name = text "bad"; url = text "file:///srv/repo" }

abbrev held : Remote
held = record flathub { name = text "held" }

abbrev disk : Disk ready
disk = record {
  configs = (text "bad", config_data other) ∷ (text "held", config_data held) ∷ [];
  caches = text "bad" ∷ text "held" ∷ [];
  cache_error = λ name. none;
  repo = true;
}

flathub-IsStorable : IsStorable flathub
flathub-IsStorable = record {
  name = omega arith;
  url = omega arith;
  title = omega arith;
  key = omega arith;
  title_filled = cc;
  key_filled = cc;
}

repo_file :
    from_flatpakrepo
      (text "beta")
      (text "; x\n[Flatpak Repo]\nTitle=\nUrl=https://a.b/repo//\n[Other]\nUrl=c\n")
    ≡ ok (record {
      name = text "beta";
      url = text "https://a.b/repo";
      title = none;
      enabled = true;
      gpg_verify = false;
      gpg_key = none;
    })
unfolding trim from_flatpakrepo parse_flatpakrepo lines split_once text_cmp get
repo_file = refl

read_data-config_data_example : read_data (config_data flathub) ≡ ok flathub
read_data-config_data_example = read_data-config_data flathub flathub-IsStorable

added : (add ready disk flathub false).1 ≡ ok true
unfolding add validate_remote validate_name validate_url get text_eq
added = refl

add_ok_example :
    (get_remote ready (add ready disk flathub false).0 (text "flathub") ≡ ok flathub)
    × (get (text "flathub") disk.configs ≡ none)
    × ((name : Text)
        → name ≢ text "flathub"
        → get name (add ready disk flathub false).0.configs ≡ get name disk.configs)
add_ok_example = add_ok ready disk flathub false flathub-IsStorable added

refused : (add ready disk (record flathub { name = text "bad" }) true).1 ≡ ok false
unfolding add validate_remote validate_name validate_url get text_eq
refused = refl

abbrev fresh : Disk ready
fresh = record disk { configs = [] }

refused_new : (add ready fresh other false).1 ≡ err (storage 5)
unfolding add validate_remote validate_name validate_url get text_eq
refused_new = refl

add_rollback_example :
    get (text "bad") (add ready fresh other false).0.configs ≡ get (text "bad") fresh.configs
add_rollback_example = add_rollback ready fresh other false refl refused_new (text "bad")

abbrev closed : Disk ready
closed = record disk { configs = []; repo = false }

flathub-valid : validate_remote flathub ≡ ok tt
unfolding validate_remote validate_name validate_url text_eq
flathub-valid = refl

add_open_failure_example :
    ((add ready closed flathub false).1 ≡ err (storage 2))
    × (get_remote ready (add ready closed flathub false).0 (text "flathub") ≡ ok flathub)
unfolding get
add_open_failure_example =
    add_open_failure ready closed flathub false flathub-IsStorable flathub-valid refl refl

abbrev disabled : Remote
disabled = record held { enabled = false }

disabled-IsStorable : IsStorable disabled
disabled-IsStorable = record {
  name = omega arith;
  url = omega arith;
  title = omega arith;
  key = omega arith;
  title_filled = cc;
  key_filled = cc;
}

modified : (modify ready disk disabled).1 ≡ ok tt
unfolding modify get_remote read_data read_values config_data validate_remote validate_name
    validate_url get text_eq text_cmp is_stale
modified = refl

modify_ok_example :
    (get_remote ready (modify ready disk disabled).0 (text "held") ≡ ok disabled)
    × ((name : Text)
        → name ≢ text "held"
        → get name (modify ready disk disabled).0.configs ≡ get name disk.configs)
modify_ok_example = modify_ok ready disk disabled disabled-IsStorable modified

-- a remote whose cache stays
abbrev stuck : Disk ready
stuck = record disk { cache_error = λ name. some 13 }

abbrev moved : Remote
moved = record held { url = text "https://a.b/repo" }

half_modified :
    ((modify ready stuck moved).1 ≡ err (cache_not_removed (text "held") 13))
    × (get_remote ready (modify ready stuck moved).0 (text "held") ≡ ok moved)
unfolding modify get_remote read_data read_values config_data validate_remote validate_name
    validate_url get text_eq text_cmp is_stale
half_modified = (refl, refl)

deleted : (delete ready disk (text "bad")).1 ≡ ok tt
unfolding delete get_remote read_data read_values config_data validate_name get text_eq text_cmp
deleted = refl

delete_ok_example :
    (get_remote ready (delete ready disk (text "bad")).0 (text "bad")
      ≡ err (not_configured (text "bad")))
    × (any (λ c. text_eq c (text "bad")) (delete ready disk (text "bad")).0.caches ≡ false)
    × ((other_name : Text)
        → other_name ≢ text "bad"
        → get other_name (delete ready disk (text "bad")).0.configs ≡ get other_name disk.configs)
delete_ok_example = delete_ok ready disk (text "bad") deleted

not_deleted : (delete ready disk (text "held")).1 ≡ err (storage 6)
unfolding delete get_remote read_data read_values config_data validate_name get text_eq text_cmp
not_deleted = refl
