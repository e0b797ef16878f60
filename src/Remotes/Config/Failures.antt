-- ===== src/Remotes/Config/Failures.antt =====
-- What a change or a deletion that fails leaves in the configuration directory.
use freebsd_flatpak.Prelude.{ℕ, ◌≡◌, true, none, some, ok}
use freebsd_flatpak.Text.{Text}
use freebsd_flatpak.Remotes.Config.Defs.{Remote, ConfigError, cache_not_removed, validate_remote}
use freebsd_flatpak.Remotes.Config.Store.{Storage, Disk, get_remote, write, has_cache}

module _ (S : Storage) where
  -- What a cache that cannot be removed stops.
  abbrev pub IsCacheError : Disk S → Text → ConfigError → Type 0
  IsCacheError d name e =
      (n : ℕ) × (e ≡ cache_not_removed name n)
      × (d.cache_error name ≡ some n)
      × (has_cache S d name ≡ true)

  -- A change that the repository takes ends with the cache.
  module _ (d : Disk S) (r previous : Remote) (found : get_remote S d r.name ≡ ok previous)
      (good : validate_remote r ≡ ok tt) (opens : S.open_error d.repo ≡ none)
      (taken : (S.configure_remote d.repo r).1 ≡ none) where
    abbrev taken_disk : Disk S
    taken_disk = record (write S d r) { repo = (S.configure_remote d.repo r).0 }
