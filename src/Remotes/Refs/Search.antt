-- ===== src/Remotes/Refs/Search.antt =====
-- src/remotes/ref_resolution.rs: the loops over the remotes.
use Prim.Native.Nat.{Ordering}
use freebsd_flatpak.Prelude.{
  ◌+◌, ℕ, Bool, true, false, ◌&&◌, ◌==◌, not, List, [], ◌∷◌, ◌++◌, Option, none, some,
  if◌then◌else◌, Result, ok, err, ◌>>=◌, map_err,
}
use freebsd_flatpak.Text.{
  Text, has_infix, text, text_eq, text_le, text_cmp, sort_by, to_ascii_lowercase,
}
use freebsd_flatpak.FlatpakRef
use freebsd_flatpak.FlatpakRef.{RefKind, PartialRef}
use freebsd_flatpak.Remotes.Refs.Types.{
  RemoteRef, RemoteMetadata, RemoteApp, RemoteRuntime, ResolvedRemoteRef, SearchResult,
  ResolveError, bad_ref, both_kinds, neither_kind, not_found, all_failed,
}
use freebsd_flatpak.Remotes.Refs.Select.{split_flatpak_ref, resolve_runtime}
use freebsd_flatpak.Remotes.Refs.Locate.{
  Source, Environment, some_candidates, candidate_remotes, resolve_app_with_runtime_fallback,
}

-- What one remote gives: an answer, a failure behind which the next remote is tried, or an error
-- that ends the whole function (`bail!` inside the loop).
pub data Attempt : Type 0 where
  found : ResolvedRemoteRef → Attempt
  failed abort : ResolveError → Attempt

abbrev pub answer {ℓ} : {A : Type ℓ} → (A → ResolvedRemoteRef) → Result ResolveError A → Attempt
answer f (ok a) = found (f a)
answer f (err e) = failed e

-- the request names no kind
unfoldable pub either_kind :
    Text → Result ResolveError RemoteApp → Result ResolveError RemoteRuntime → Attempt
either_kind requested (ok a) (err e) = found (ResolvedRemoteRef.app a)
either_kind requested (err e) (ok r) = found (ResolvedRemoteRef.runtime r)
either_kind requested (ok a) (ok r) = abort (both_kinds requested)
either_kind requested (err e) (err f) = abort (neither_kind e f)

-- the order by application, branch and remote
unfoldable pub result_le : SearchResult → SearchResult → Bool
unfolding text_cmp
result_le a b = elim (text_cmp a.app_id b.app_id) [
  | Ordering.lt ↦ true
  | Ordering.gt ↦ false
  | Ordering.eq ↦ elim (text_cmp a.branch b.branch) [
    | Ordering.lt ↦ true
    | Ordering.gt ↦ false
    | Ordering.eq ↦ text_le a.remote b.remote
  ]
]

module _ (E : Environment) where
  unfoldable pub resolve_in : Text → Option RefKind → RemoteMetadata → Attempt
  unfolding either_kind
  resolve_in requested (some RefKind.app) metadata =
      answer ResolvedRemoteRef.app (resolve_app_with_runtime_fallback E metadata requested)
  resolve_in requested (some RefKind.runtime) metadata =
      answer ResolvedRemoteRef.runtime (resolve_runtime metadata requested)
  resolve_in requested none metadata =
      either_kind requested (resolve_app_with_runtime_fallback E metadata requested)
        (resolve_runtime metadata requested)

  -- the loop of `resolve_remote_ref`
  unfoldable pub try_remotes :
      Text → Option RefKind → List Source → Result ResolveError ResolvedRemoteRef
  try_remotes requested kind [] = err (not_found requested)
  try_remotes requested kind (source ∷ sources) =
      let later = try_remotes requested kind sources in
      elim (E.load source) [
        | err e ↦ later
        | ok metadata ↦ elim (resolve_in requested kind metadata) [
          | found r ↦ ok r
          | failed e ↦ later
          | abort e ↦ err e
        ]
      ]

  unfoldable pub resolve_remote_ref :
      Option Text → Text → Option RefKind → Result ResolveError ResolvedRemoteRef
  resolve_remote_ref remote_name requested kind = do
    partial ← map_err bad_ref (FlatpakRef.parse_partial requested)
    requested_kind ← map_err bad_ref (FlatpakRef.effective_kind partial kind)
    sources ← candidate_remotes E remote_name
    try_remotes requested requested_kind sources

  -- the loop of `resolve_remote_app`
  unfoldable pub try_apps : Text → List Source → Result ResolveError RemoteApp
  try_apps app_id [] = err (not_found app_id)
  try_apps app_id (source ∷ sources) =
      let later = try_apps app_id sources in
      elim (E.load source) [
        | err e ↦ later
        | ok metadata ↦ elim (resolve_app_with_runtime_fallback E metadata app_id) [
          | ok a ↦ ok a
          | err e ↦ later
        ]
      ]

  unfoldable pub resolve_remote_app : Option Text → Text → Result ResolveError RemoteApp
  resolve_remote_app remote_name app_id = do
    sources ← candidate_remotes E remote_name
    try_apps app_id sources

  -- the matches in the refs of one remote
  unfoldable pub search_refs : Text → Source → RemoteMetadata → List RemoteRef → List SearchResult
  search_refs query source metadata [] = []
  search_refs query source metadata (r ∷ refs) =
      let later = search_refs query source metadata refs in
      elim (split_flatpak_ref r.name) [
        | err e ↦ later
        | ok parts ↦
            if text_eq parts.kind (text "app")
              && text_eq parts.arch metadata.arch
              && has_infix (to_ascii_lowercase parts.name) query
            then (record {
              remote = source.name;
              app_id = parts.name;
              app_ref = r.name;
              arch = parts.arch;
              branch = parts.branch;
            })
              ∷ later
            else later
      ]

  -- the loop of `search_apps`: what was found, and the numbers of remotes read and not read
  unfoldable pub search_remotes : Text → List Source → List SearchResult × ℕ × ℕ
  search_remotes query [] = ([], 0, 0)
  search_remotes query (source ∷ sources) =
      let (results, loaded, failures) = search_remotes query sources in
      elim (E.load source) [
        | err e ↦ (results, loaded, failures + 1)
        | ok metadata ↦
            (search_refs query source metadata metadata.refs ++ results, loaded + 1, failures)
      ]

  unfoldable pub search_found : List SearchResult × ℕ × ℕ → Result ResolveError (List SearchResult)
  search_found (results, loaded, failures) =
      if loaded == 0 && not (failures == 0) then err all_failed else ok (sort_by result_le results)

  unfoldable pub search_apps : Text → Result ResolveError (List SearchResult)
  search_apps query = do
    sources ← E.enabled_remotes
    configured ← some_candidates E sources
    search_found (search_remotes (to_ascii_lowercase query) configured)
