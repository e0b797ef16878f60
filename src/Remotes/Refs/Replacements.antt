-- ===== src/Remotes/Refs/Replacements.antt =====
-- src/remotes/ref_resolution.rs: following the replacements of an application's ID.
use freebsd_flatpak.Prelude.{
  ℕ, zero, suc, ◌+◌, List, [], ◌∷◌, Option, none, some, if◌then◌else◌, keep, length, Result, ok,
  err,
}
use freebsd_flatpak.Text.{Text, get, contains, set_insert, sort_by, text_le, dedup}
use freebsd_flatpak.Remotes.Refs.Types.{
  RemoteRef, ResolveError, multiple_replacements, replacement_cycle,
}
use freebsd_flatpak.Remotes.Refs.Select.{app_ref_exists}

-- `BTreeMap<String, Vec<String>>`
abbrev pub Replacements : Type 0
Replacements = List (Text × List Text)

module _ (refs : List RemoteRef) (replacements : Replacements) (arch : Text) where
  -- the replacements of an ID that the remote offers; an ID with no entry has none
  unfoldable pub available : Text → List Text
  available current = elim (get current replacements) [
    | none ↦ []
    | some candidates ↦ dedup (sort_by text_le (keep (λ c. app_ref_exists refs c arch) candidates))
  ]

  -- the loop: each round adds the current ID to those seen; `none` is fuel that ran out
  unfoldable pub replace_loop : ℕ → Text → Text → List Text → Option (Result ResolveError Text)
  replace_loop zero requested current seen = none
  replace_loop (suc fuel) requested current seen =
      if contains seen current
      then some (err (replacement_cycle requested))
      else elim (available current) [
        | [] ↦ some (ok current)
        | next ∷ more ↦ elim more [
          | [] ↦ replace_loop fuel requested next (set_insert current seen)
          | other ∷ rest ↦ some (err (multiple_replacements current (next ∷ other ∷ rest)))
        ]
      ]

  -- enough for a round for each entry, one for the end and one for a cycle
  abbrev pub replace_fuel : ℕ
  replace_fuel = length replacements + 2

  unfoldable pub resolve_current_app_id_from_replacements : Text → Option (Result ResolveError Text)
  unfolding replace_loop available
  resolve_current_app_id_from_replacements requested =
      replace_loop replace_fuel requested requested []
