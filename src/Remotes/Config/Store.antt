-- ===== src/Remotes/Config/Store.antt =====
-- src/remotes/remote_config.rs: the operations on the installation. The configuration directory is
-- a map from a remote's name to the text of its file, in which reads, writes and removals succeed;
-- the removal of a cache may fail. The OSTree repository (src/ostree over libostree) is the
-- parameter `S`.
use freebsd_flatpak.Prelude.{
  ℕ, Bool, true, false, ◌||◌, not, List, Option, none, some, if◌then◌else◌, keep, any, Result, ok,
  err, ◌>>◌, map_err,
}
use freebsd_flatpak.Text.{Text, text_eq, get, insert, erase}
use freebsd_flatpak.Remotes.Config.Defs.{
  Remote, ConfigError, already_exists, not_configured, storage, cache_not_removed, config_data,
  read_data, validate_name, validate_remote,
}

-- An operation gives the repository that it leaves, and the error that it returned, if any.
pub record Storage : Type 1 where
  pub Repo : Type 0
  pub open_error : Repo → Option ℕ
  pub configure_remote : Repo → Remote → Repo × Option ℕ
  pub delete_remote : Repo → Text → Repo × Option ℕ

abbrev pub bool_eq : Bool → Bool → Bool
bool_eq true b = b
bool_eq false b = not b

abbrev pub same_key : Option Text → Option Text → Bool
same_key none none = true
same_key (some a) (some b) = text_eq a b
same_key _ _ = false

-- whether `modify` must drop what was fetched for the remote
unfoldable pub is_stale : Remote → Remote → Bool
unfolding text_eq
is_stale previous remote =
    not (text_eq previous.url remote.url)
    || not (bool_eq previous.gpg_verify remote.gpg_verify)
    || not (same_key previous.gpg_key remote.gpg_key)

module _ (S : Storage) where
  pub record Disk : Type 0 where
    pub configs : List (Text × Text)
    -- the names of the remotes that have a metadata cache
    pub caches : List Text
    -- the error of `remove_dir_all` on a remote's cache, if it has one
    pub cache_error : Text → Option ℕ
    pub repo : S.Repo

  -- `get`
  unfoldable pub get_remote : Disk → Text → Result ConfigError Remote
  get_remote disk name = do
    validate_name name
    elim (get name disk.configs) [
      | none ↦ err (not_configured name)
      | some found ↦ map_err (λ e. not_configured name) (read_data found)
    ]

  -- `write`
  unfoldable pub write : Disk → Remote → Disk
  write disk remote = record disk { configs = insert remote.name (config_data remote) disk.configs }

  -- the rollback of `add`
  unfoldable pub undo_add : Disk → Remote → Disk
  undo_add disk remote =
      let removed : Disk = record disk { configs = erase remote.name disk.configs } in
      elim (S.open_error disk.repo) [
        | some e ↦ removed
        | none ↦ record removed { repo = (S.delete_remote disk.repo remote.name).0 }
      ]

  -- `Storage::open(paths)?.configure_remote(remote)` on a disk that was written; `undo` is what
  -- follows an error of `configure_remote`, and an error of `open` returns at once
  unfoldable pub configure : Disk → Remote → (Disk → Disk) → Disk × Result ConfigError (Unit {0})
  configure disk remote undo = elim (S.open_error disk.repo) [
    | some e ↦ (disk, err (storage e))
    | none ↦
        let (repo, failed) = S.configure_remote disk.repo remote in
        elim failed [
          | some e ↦ (undo (record disk { repo = repo }), err (storage e))
          | none ↦ (record disk { repo = repo }, ok tt)
        ]
  ]

  -- the part of `add` behind the test for the file
  unfoldable pub add_new : Disk → Remote → Disk × Result ConfigError Bool
  unfolding configure write undo_add
  add_new disk remote =
      let (after, result) = configure (write disk remote) remote (λ d. undo_add d remote) in
      (after, do result; ok true)

  unfoldable pub add : Disk → Remote → Bool → Disk × Result ConfigError Bool
  unfolding add_new
  add disk remote if_not_exists = elim (validate_remote remote) [
    | err e ↦ (disk, err e)
    | ok _ ↦ elim (get remote.name disk.configs) [
      | some found ↦ (disk, if if_not_exists then ok false else err (already_exists remote.name))
      | none ↦ add_new disk remote
    ]
  ]

  abbrev pub has_cache : Disk → Text → Bool
  has_cache disk name = any (λ c. text_eq c name) disk.caches

  -- `if cache.exists() { fs::remove_dir_all(&cache)? }`
  unfoldable pub drop_cache : Disk → Text → Disk × Result ConfigError (Unit {0})
  drop_cache disk name =
      if has_cache disk name
      then elim (disk.cache_error name) [
        | some e ↦ (disk, err (cache_not_removed name e))
        | none ↦ (record disk { caches = keep (λ c. not (text_eq c name)) disk.caches }, ok tt)
      ]
      else (disk, ok tt)

  unfoldable pub modify : Disk → Remote → Disk × Result ConfigError (Unit {0})
  unfolding configure write drop_cache
  modify disk remote = elim (get_remote disk remote.name) [
    | err e ↦ (disk, err e)
    | ok previous ↦ elim (validate_remote remote) [
      | err e ↦ (disk, err e)
      | ok _ ↦
          let (after, result) = configure (write disk remote) remote (λ d. write d previous) in
          elim result [
            | err e ↦ (after, err e)
            | ok _ ↦
                if is_stale previous remote then drop_cache after remote.name else (after, ok tt)
          ]
    ]
  ]

  unfoldable pub delete : Disk → Text → Disk × Result ConfigError (Unit {0})
  unfolding drop_cache
  delete disk name = elim (get_remote disk name) [
    | err e ↦ (disk, err e)
    | ok _ ↦ elim (S.open_error disk.repo) [
      | some e ↦ (disk, err (storage e))
      | none ↦
          let (repo, failed) = S.delete_remote disk.repo name in
          elim failed [
            | some e ↦ (record disk { repo = repo }, err (storage e))
            | none ↦
                drop_cache (record disk { repo = repo; configs = erase name disk.configs }) name
          ]
    ]
  ]
