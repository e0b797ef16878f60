-- ===== src/Remotes/Refs/Locate.antt =====
-- src/remotes/ref_resolution.rs: where a runtime and the refs of a request are looked for. What it
-- calls outside this file is the parameter `E`: the installed runtimes, the configured remotes,
-- the summaries, the AppStream replacements and the commit history of the repository.
use freebsd_flatpak.Prelude.{
  Bool, true, false, ◌&&◌, not, List, [], ◌∷◌, Option, none, some, if◌then◌else◌, Result, ok, err,
  ◌>>=◌, ok_or, map_err,
}
use freebsd_flatpak.Text.{Text, text, text_eq, text_le, sort_by}
use freebsd_flatpak.FlatpakRef
use freebsd_flatpak.FlatpakRef.{RefKind, PartialRef}
use freebsd_flatpak.Remotes.Refs.Types.{
  RemoteRef, RemoteMetadata, RemoteApp, RemoteRuntime, CommitInfo, RuntimeRecord, ResolveError,
  bad_ref, not_present, no_metadata, no_runtime, runtime_not_found, remote_disabled, no_remotes,
  replacement_cycle,
}
use freebsd_flatpak.Remotes.Refs.Select.{
  app_ref_exists, remote_runtime_from_ref, resolve_exact_runtime, select_ref, find_ref, or_default,
  select_history_commit,
}
use freebsd_flatpak.Remotes.Refs.Replacements.{
  Replacements, resolve_current_app_id_from_replacements,
}
use freebsd_flatpak.Remotes.Refs.Apps.{
  metadata_value, remote_app_from_metadata, runtime_name, resolve_exact_ref,
}

-- Of a configured remote, what resolution reads.
pub record Source : Type 0 where
  pub name : Text
  pub enabled : Bool

pub record Environment : Type 0 where
  pub get_runtime : Text → Result ResolveError (Option RuntimeRecord)
  pub get_remote : Text → Result ResolveError Source
  -- `remotes::enabled`
  pub enabled_remotes : Result ResolveError (List Source)
  -- `load_remote_metadata_for`
  pub load : Source → Result ResolveError RemoteMetadata
  -- `fetch_appstream_replacements`, of a remote for an architecture
  pub fetch_replacements : RemoteMetadata → Text → Result ResolveError Replacements
  -- `history_for_ref`
  pub history : RemoteMetadata → Text → Text → Result ResolveError (List CommitInfo)

abbrev pub is_default : Source → Bool
is_default source = text_eq source.name (text "flathub")

-- the order of the keys `(name != DEFAULT_REMOTE, name)`
abbrev pub tried_before : Source → Source → Bool
tried_before a b =
    if is_default a
    then (if is_default b then text_le a.name b.name else true)
    else (if is_default b then false else text_le a.name b.name)

module _ (E : Environment) where
  unfoldable pub enabled_remote : Text → Result ResolveError Source
  enabled_remote name = do
    source ← E.get_remote name
    if source.enabled then ok source else err (remote_disabled name)

  unfoldable pub load_remote_metadata : Text → Result ResolveError RemoteMetadata
  load_remote_metadata name = do source ← enabled_remote name; E.load source

  unfoldable pub some_candidates : List Source → Result ResolveError (List Source)
  some_candidates [] = err no_remotes
  some_candidates (s ∷ sources) = ok (s ∷ sources)

  unfoldable pub candidate_remotes : Option Text → Result ResolveError (List Source)
  candidate_remotes (some name) = do source ← enabled_remote name; ok (source ∷ [])
  candidate_remotes none = do
    sources ← E.enabled_remotes
    some_candidates (sort_by tried_before sources)

  -- the fuel of the loop does not run out
  abbrev pub within_fuel : Text → Option (Result ResolveError Text) → Result ResolveError Text
  within_fuel requested (some current) = current
  within_fuel requested none = err (replacement_cycle requested)

  unfoldable pub resolve_current_app_id : RemoteMetadata → Text → Text → Result ResolveError Text
  resolve_current_app_id metadata requested arch = do
    replacements ← E.fetch_replacements metadata arch
    within_fuel requested
        (resolve_current_app_id_from_replacements metadata.refs replacements arch requested)

  unfoldable pub resolve_app_ref : RemoteMetadata → Text → Bool → Result ResolveError RemoteRef
  resolve_app_ref metadata requested replacements = do
    partial ← map_err bad_ref (FlatpakRef.parse_partial requested)
    kind ← map_err bad_ref (FlatpakRef.effective_kind partial (some RefKind.app))
    let arch = or_default partial.arch metadata.arch
    id ←
        (if replacements && not (app_ref_exists metadata.refs partial.id arch)
          then resolve_current_app_id metadata partial.id arch
          else ok partial.id)
    select_ref metadata.refs (record partial { id = id }) RefKind.app metadata.arch

  -- the loop over the other enabled remotes; a remote that cannot be read is passed over
  unfoldable pub runtime_elsewhere : Text → Text → List Source → Option (RemoteRef × Text)
  runtime_elsewhere own full_ref [] = none
  runtime_elsewhere own full_ref (source ∷ sources) =
      let later = runtime_elsewhere own full_ref sources in
      if text_eq source.name own then later else elim (E.load source) [
        | err e ↦ later
        | ok candidate ↦ elim (find_ref candidate.refs full_ref) [
          | some r ↦ some (r, source.name)
          | none ↦ later
        ]
      ]

  -- the ref of a runtime that is installed, from its origin or from its record
  unfoldable pub installed_runtime : RemoteMetadata → Text → RuntimeRecord → RemoteRef
  installed_runtime metadata full_ref installed =
      let recorded : RemoteRef = record {
        name = full_ref;
        checksum = installed.runtime_commit;
        metadata = none;
        download_size = none;
        installed_size = some installed.installed_size;
      } in
      let offered =
        if text_eq installed.origin metadata.remote_name
        then find_ref metadata.refs full_ref
        else elim (load_remote_metadata installed.origin) [
          | ok other ↦ find_ref other.refs full_ref
          | err e ↦ none
        ] in
      elim offered [ some r ↦ r | none ↦ recorded ]

  -- where the runtime comes from, with the name of its origin
  unfoldable pub locate_runtime : RemoteMetadata → Text → Result ResolveError (RemoteRef × Text)
  locate_runtime metadata runtime_ref = do
    installed ← E.get_runtime runtime_ref
    let full_ref = runtime_name runtime_ref
    elim installed [
      | some r ↦ ok (installed_runtime metadata full_ref r, r.origin)
      | none ↦ elim (find_ref metadata.refs full_ref) [
        | some r ↦ ok (r, metadata.remote_name)
        | none ↦ E.enabled_remotes >>= λ sources.
            ok_or (runtime_elsewhere metadata.remote_name full_ref sources)
              (runtime_not_found full_ref)
      ]
    ]

  unfoldable pub resolve_ref_with_runtime_fallback :
      RemoteMetadata → RemoteRef → Result ResolveError RemoteApp
  resolve_ref_with_runtime_fallback metadata r = do
    app_metadata ← ok_or r.metadata (no_metadata r.name)
    runtime_ref ← ok_or (metadata_value app_metadata (text "runtime")) no_runtime
    place ← locate_runtime metadata runtime_ref
    remote_app_from_metadata r app_metadata place.0 metadata.arch metadata.remote_name place.1

  unfoldable pub resolve_app_with_runtime_fallback :
      RemoteMetadata → Text → Result ResolveError RemoteApp
  resolve_app_with_runtime_fallback metadata app_id = do
    r ← resolve_app_ref metadata app_id true
    resolve_ref_with_runtime_fallback metadata r

  unfoldable pub resolve_exact_ref_with_runtime :
      RemoteMetadata → Text → Result ResolveError RemoteApp
  resolve_exact_ref_with_runtime metadata app_ref = do
    r ← ok_or (find_ref metadata.refs app_ref) (not_present app_ref)
    resolve_ref_with_runtime_fallback metadata r

  -- an application at a commit of its history
  unfoldable pub app_commit :
      RemoteMetadata → Text → Text → Result ResolveError (RemoteApp × CommitInfo)
  app_commit metadata app_ref requested = do
    tip ← resolve_exact_ref metadata app_ref
    history ← E.history metadata app_ref tip.app_commit
    commit ← select_history_commit history requested
    text_found ← ok_or commit.flatpak_metadata (no_metadata commit.checksum)
    app ← resolve_ref_with_runtime_fallback metadata (record {
      name = app_ref;
      checksum = commit.checksum;
      metadata = some text_found;
      download_size = none;
      installed_size = none;
    })
    ok (app, commit)

  -- a runtime at a commit of its history
  unfoldable pub resolve_runtime_commit :
      RemoteMetadata → Text → Text → Result ResolveError RemoteRuntime
  resolve_runtime_commit metadata runtime_ref requested = do
    tip ← resolve_exact_runtime metadata runtime_ref
    history ← E.history metadata runtime_ref tip.runtime_commit
    commit ← select_history_commit history requested
    remote_runtime_from_ref
        (record {
          name = runtime_ref;
          checksum = commit.checksum;
          metadata = commit.flatpak_metadata;
          download_size = none;
          installed_size = none;
        })
        metadata.remote_name

  unfoldable pub app_history :
      RemoteMetadata → Text → Result ResolveError (RemoteApp × List CommitInfo)
  app_history metadata app_id = do
    remote ← resolve_app_with_runtime_fallback metadata app_id
    history ← E.history metadata remote.app_ref remote.app_commit
    ok (remote, history)
