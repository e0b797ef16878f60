-- ===== src/Remotes/Config/Updates.antt =====
-- What adding, changing and deleting a remote leave in the configuration directory.
use freebsd_flatpak.Prelude.{
  ℕ, ◌≡◌, refl, ◌≢◌, Bool, true, false, not, List, [], ◌∷◌, none, some, arith, ok, err, keep,
  Result-cases, inl, inr, any,
}
use freebsd_flatpak.Text.{
  Text, text_eq, text_eq→eq, text_eq_refl, get, insert, get-insert, get-erase, get-insert_self,
}
use freebsd_flatpak.Remotes.Config.Defs.{
  Remote, ConfigError, storage, not_configured, config_data, validate_name, validate_remote,
}
use freebsd_flatpak.Remotes.Config.Store.{
  Storage, Disk, get_remote, write, configure, add_new, add, modify, delete,
}
use freebsd_flatpak.Remotes.Config.Files.{IsStorable, read_data-config_data}

pub accepted_name : (r : Remote) → validate_remote r ≡ ok tt → validate_name r.name ≡ ok tt
unfolding validate_remote
accepted_name r h = ground arith

module _ (S : Storage) where
  -- The files of two disks hold the same.
  abbrev pub SameConfigs : Disk S → Disk S → Type 0
  SameConfigs d e = (name : Text) → get name d.configs ≡ get name e.configs

  pub get_remote-written :
      (d : Disk S) (r : Remote)
      → IsStorable r
      → validate_name r.name ≡ ok tt
      → get r.name d.configs ≡ some (config_data r)
      → get_remote S d r.name ≡ ok r
  unfolding get_remote
  get_remote-written d r s v h = rw (v, h, read_data-config_data r s)

  pub get_remote-same :
      (d e : Disk S) (name : Text)
      → get name d.configs ≡ get name e.configs
      → get_remote S d name ≡ get_remote S e name
  unfolding get_remote
  get_remote-same d e name h = rw h

  pub get_remote-name :
      (d : Disk S) (name : Text) {r : Remote}
      → get_remote S d name ≡ ok r
      → validate_name name ≡ ok tt
  unfolding get_remote
  get_remote-name d name h = ground arith

  pub get_remote-named :
      (d : Disk S) (name : Text) (r : Remote)
      → IsStorable r
      → validate_name name ≡ ok tt
      → r.name ≡ name
      → get r.name d.configs ≡ some (config_data r)
      → get_remote S d name ≡ ok r
  get_remote-named d name r s v same h = rw (← same) (get_remote-written d r s (rw same v) h)

  pub get_remote-absent :
      (d : Disk S) (name : Text)
      → validate_name name ≡ ok tt
      → get name d.configs ≡ none
      → get_remote S d name ≡ err (not_configured name)
  unfolding get_remote
  get_remote-absent d name v h = rw (v, h)

  named : (d : Disk S) (name : Text) → (delete S d name).1 ≡ ok tt → validate_name name ≡ ok tt
  unfolding delete
  named d name h = elim (Result-cases (get_remote S d name)) [
    | inl (r, found) ↦ get_remote-name d name found
    | inr (e, lost) ↦ ground arith
  ]

  dropped :
      (name : Text) (names : List Text)
      → any (λ c. text_eq c name) (keep (λ c. not (text_eq c name)) names) ≡ false
  dropped name [] = refl
  dropped name (c ∷ names) = ground (arith, dropped name names)

  -- An addition that adds a remote that can be stored makes it readable, where no file was before,
  -- and leaves every other file.
  pub add_ok :
      (d : Disk S) (r : Remote) (if_not_exists : Bool)
      → IsStorable r
      → (add S d r if_not_exists).1 ≡ ok true
      → (get_remote S (add S d r if_not_exists).0 r.name ≡ ok r)
        × (get r.name d.configs ≡ none)
        × ((name : Text)
            → name ≢ r.name
            → get name (add S d r if_not_exists).0.configs ≡ get name d.configs)
  unfolding add add_new configure write
  add_ok d r b s h =
      let kept : (name : Text)
          → name ≢ r.name
          → get name (add S d r b).0.configs ≡ get name d.configs =
        λ name ne.
          ground
            (arith, get-insert name r.name (config_data r) d.configs, text_eq→eq r.name name) in
      let valid : validate_name r.name ≡ ok tt = accepted_name r (ground arith) in
      let stored : get r.name (add S d r b).0.configs ≡ some (config_data r) =
        ground (arith, get-insert_self r.name (config_data r) d.configs) in
      (get_remote-written _ r s valid stored, ground arith, kept)

  -- An addition that fails leaves every file as it was, if the repository can be opened.
  pub add_rollback :
      (d : Disk S) (r : Remote) (if_not_exists : Bool) {e : ConfigError}
      → S.open_error d.repo ≡ none
      → (add S d r if_not_exists).1 ≡ err e
      → SameConfigs (add S d r if_not_exists).0 d
  unfolding add
  add_rollback d r b {e} opens h name = ground (
    arith,
    get-erase name r.name (insert r.name (config_data r) d.configs),
    get-insert name r.name (config_data r) d.configs,
    text_eq→eq r.name name,
  )

  -- Where the repository cannot be opened, the addition of a new remote that passes the checks and
  -- can be stored fails, and the remote is configured all the same.
  pub add_open_failure :
      (d : Disk S) (r : Remote) (if_not_exists : Bool) {e : ℕ}
      → IsStorable r
      → validate_remote r ≡ ok tt
      → get r.name d.configs ≡ none
      → S.open_error d.repo ≡ some e
      → ((add S d r if_not_exists).1 ≡ err (storage e))
        × (get_remote S (add S d r if_not_exists).0 r.name ≡ ok r)
  unfolding add
  add_open_failure d r b {e} s v absent fails = (
    ground arith,
    get_remote-written _ r s (accepted_name r v)
        (ground (arith, get-insert_self r.name (config_data r) d.configs)),
  )

  -- A change that succeeds is read back if the remote can be stored, and every other file is as it
  -- was.
  pub modify_ok :
      (d : Disk S) (r : Remote)
      → IsStorable r
      → (modify S d r).1 ≡ ok tt
      → (get_remote S (modify S d r).0 r.name ≡ ok r)
        × ((name : Text) → name ≢ r.name → get name (modify S d r).0.configs ≡ get name d.configs)
  unfolding modify
  modify_ok d r s h =
      let kept : (name : Text)
          → name ≢ r.name
          → get name (modify S d r).0.configs ≡ get name d.configs =
        λ name ne.
          ground
            (arith, get-insert name r.name (config_data r) d.configs, text_eq→eq r.name name) in
      let valid : validate_name r.name ≡ ok tt = accepted_name r (ground arith) in
      let stored : get r.name (modify S d r).0.configs ≡ some (config_data r) =
        ground (arith, get-insert_self r.name (config_data r) d.configs) in
      (get_remote-written _ r s valid stored, kept)

  -- A deletion that succeeds leaves the remote unconfigured and without a cache, and every other
  -- file as it was.
  pub delete_ok :
      (d : Disk S) (name : Text)
      → (delete S d name).1 ≡ ok tt
      → (get_remote S (delete S d name).0 name ≡ err (not_configured name))
        × (any (λ c. text_eq c name) (delete S d name).0.caches ≡ false)
        × ((other : Text)
            → other ≢ name
            → get other (delete S d name).0.configs ≡ get other d.configs)
  unfolding delete
  delete_ok d name h =
      let cleared : get name (delete S d name).0.configs ≡ none =
        ground (arith, get-erase name name d.configs, text_eq_refl name) in
      (
        get_remote-absent _ name (named d name h) cleared,
        ground (arith, dropped name d.caches),
        λ other ne. ground (arith, get-erase other name d.configs, text_eq→eq name other),
      )
