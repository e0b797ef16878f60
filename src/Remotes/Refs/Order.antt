-- ===== src/Remotes/Refs/Order.antt =====
-- The order in which remotes are tried, and the choice of a commit of the history.
use mathlib.Core.Path.{subst}
use freebsd_flatpak.Prelude.{
  ok-inj, ◌≡◌, refl, ap, ◌∙◌, ◌≢◌, ◌↔◌, ◌>>=◌, inl, inr, true, List, [], ◌∷◌, none, arith, keep,
  all, Result, ok, err, Bool-cases, Result-cases,
}
use freebsd_flatpak.Text.{Text, starts_with, is_ascii_hexdigit, to_ascii_lowercase}
use freebsd_flatpak.Remotes.Refs.Types.{
  RemoteMetadata, RemoteApp, CommitInfo, ResolveError, RemoteRuntime, ResolvedRemoteRef,
}
use freebsd_flatpak.Remotes.Refs.Select.{
  matching_commits, only_commit, select_history_commit, resolve_runtime,
}
use freebsd_flatpak.Remotes.Refs.Locate.{Source, Environment, resolve_app_with_runtime_fallback}
use freebsd_flatpak.Remotes.Refs.Search.{Attempt, either_kind, resolve_in, try_remotes, try_apps}

-- What the loop makes of an attempt that does not go on.
answer_in :
    (attempt : Attempt) (later : Result ResolveError ResolvedRemoteRef) {x : ResolvedRemoteRef}
    → ((e : ResolveError) → attempt ≢ Attempt.failed e)
    → elim attempt [ Attempt.found r ↦ ok r | Attempt.failed e ↦ later | Attempt.abort e ↦ err e ]
      ≡ ok x
    → attempt ≡ Attempt.found x
answer_in (Attempt.found r) later ends h = ap Attempt.found (ok-inj h)
answer_in (Attempt.failed e) later ends h = absurd (ends e refl)
answer_in (Attempt.abort e) later ends h = cc

module _ (E : Environment) where
  -- What one remote gives for an application.
  pub app_in : Text → Source → Result ResolveError RemoteApp
  app_in app_id source =
      E.load source >>= λ metadata. resolve_app_with_runtime_fallback E metadata app_id

  -- `a` is what the first remote gives that gives an application: those before it give none.
  pub data Taken (app_id : Text) (a : RemoteApp) : List Source → Type 0 where
    here :
        {source : Source} {sources : List Source}
        → app_in app_id source ≡ ok a
        → Taken app_id a (source ∷ sources)
    there :
        {source : Source} {sources : List Source} {e : ResolveError}
        → app_in app_id source ≡ err e
        → Taken app_id a sources
        → Taken app_id a (source ∷ sources)

  try_apps-step :
      (app_id : Text) (source : Source) (sources : List Source)
      → try_apps E app_id (source ∷ sources)
        ≡ elim (app_in app_id source) [ ok a ↦ ok a | err e ↦ try_apps E app_id sources ]
  unfolding try_apps app_in
  try_apps-step app_id source sources = elim (Result-cases (E.load source)) [
    | inr (e, unread) ↦ rw (unread, try_apps) refl
    | inl (metadata, loaded) ↦ rw (loaded, try_apps) refl
  ]

  try_apps-Taken :
      (app_id : Text) (sources : List Source) {a : RemoteApp}
      → try_apps E app_id sources ≡ ok a
      → Taken app_id a sources
  unfolding try_apps
  try_apps-Taken app_id [] h = cc
  try_apps-Taken app_id (source ∷ sources) {a} h =
      let step = try_apps-step app_id source sources in
      elim (Result-cases (app_in app_id source)) [
        | inl (b, given) ↦
            let same : b ≡ a = ground (arith, step, given, h) in here (given ∙ ap ok same)
        | inr (e, refused) ↦
            there refused (try_apps-Taken app_id sources (ground (arith, step, refused, h)))
      ]

  Taken-try_apps :
      (app_id : Text) (sources : List Source) {a : RemoteApp}
      → Taken app_id a sources
      → try_apps E app_id sources ≡ ok a
  Taken-try_apps app_id [] t = elim t [ ]
  Taken-try_apps app_id (source ∷ sources) (here given) =
      ground (arith, try_apps-step app_id source sources, given)
  Taken-try_apps app_id (source ∷ sources) {a} (there refused t) =
      ground (
        arith,
        try_apps-step app_id source sources,
        refused,
        Taken-try_apps app_id sources {a = a} t,
      )

  -- An application is what the first of the remotes gives that can be read and in which it
  -- resolves, and it is an error only if there is none.
  pub try_apps_iff :
      (app_id : Text) (sources : List Source) (a : RemoteApp)
      → (try_apps E app_id sources ≡ ok a) ↔ Taken app_id a sources
  try_apps_iff app_id sources a = (try_apps-Taken app_id sources, Taken-try_apps app_id sources)

  -- The first of the remotes that can be read is the one with these refs.
  pub data FirstReadable (metadata : RemoteMetadata) : List Source → Type 0 where
    here :
        {source : Source} {sources : List Source}
        → E.load source ≡ ok metadata
        → FirstReadable metadata (source ∷ sources)
    there :
        {source : Source} {sources : List Source} {e : ResolveError}
        → E.load source ≡ err e
        → FirstReadable metadata sources
        → FirstReadable metadata (source ∷ sources)

  -- A remote has an application or a runtime for the request, and not the other.
  pub data Offers (requested : Text) (metadata : RemoteMetadata) : ResolvedRemoteRef → Type 0 where
    only_app :
        {a : RemoteApp} {e : ResolveError}
        → resolve_app_with_runtime_fallback E metadata requested ≡ ok a
        → resolve_runtime metadata requested ≡ err e
        → Offers requested metadata (ResolvedRemoteRef.app a)
    only_runtime :
        {r : RemoteRuntime} {e : ResolveError}
        → resolve_app_with_runtime_fallback E metadata requested ≡ err e
        → resolve_runtime metadata requested ≡ ok r
        → Offers requested metadata (ResolvedRemoteRef.runtime r)

  either_kind-Offers :
      (requested : Text) (metadata : RemoteMetadata) {x : ResolvedRemoteRef}
      → resolve_in E requested none metadata ≡ Attempt.found x
      → Offers requested metadata x
  unfolding resolve_in either_kind
  either_kind-Offers requested metadata {x} h =
      elim (Result-cases (resolve_app_with_runtime_fallback E metadata requested)) [
        | inl (a, app_found) ↦ elim (Result-cases (resolve_runtime metadata requested)) [
          | inl (r, runtime_found) ↦ absurd (ground (arith, h, app_found, runtime_found))
          | inr (e, no_runtime) ↦
              let same : ResolvedRemoteRef.app a ≡ x = ground (arith, h, app_found, no_runtime) in
              subst (Offers requested metadata) same (only_app app_found no_runtime)
        ]
        | inr (e, no_app) ↦ elim (Result-cases (resolve_runtime metadata requested)) [
          | inl (r, runtime_found) ↦
              let same : ResolvedRemoteRef.runtime r ≡ x =
                ground (arith, h, no_app, runtime_found) in
              subst (Offers requested metadata) same (only_runtime no_app runtime_found)
          | inr (f, no_runtime) ↦ absurd (ground (arith, h, no_app, no_runtime))
        ]
      ]

  ends :
      (requested : Text) (metadata : RemoteMetadata) (e : ResolveError)
      → resolve_in E requested none metadata ≢ Attempt.failed e
  unfolding resolve_in either_kind
  ends requested metadata e h =
      elim (Result-cases (resolve_app_with_runtime_fallback E metadata requested)) [
        | inl (a, app_found) ↦ elim (Result-cases (resolve_runtime metadata requested)) [
          | inl (r, runtime_found) ↦ ground (arith, h, app_found, runtime_found)
          | inr (f, no_runtime) ↦ ground (arith, h, app_found, no_runtime)
        ]
        | inr (d, no_app) ↦ elim (Result-cases (resolve_runtime metadata requested)) [
          | inl (r, runtime_found) ↦ ground (arith, h, no_app, runtime_found)
          | inr (f, no_runtime) ↦ ground (arith, h, no_app, no_runtime)
        ]
      ]

  Offers-either_kind :
      (requested : Text) (metadata : RemoteMetadata) {x : ResolvedRemoteRef}
      → Offers requested metadata x
      → resolve_in E requested none metadata ≡ Attempt.found x
  unfolding resolve_in either_kind
  Offers-either_kind requested metadata (only_app app_found no_runtime) =
      rw (app_found, no_runtime) refl
  Offers-either_kind requested metadata (only_runtime no_app runtime_found) =
      rw (no_app, runtime_found) refl

  try_remotes-FirstReadable :
      (requested : Text) (sources : List Source) {x : ResolvedRemoteRef}
      → try_remotes E requested none sources ≡ ok x
      → (metadata : RemoteMetadata) × FirstReadable metadata sources × Offers requested metadata x
  unfolding try_remotes
  try_remotes-FirstReadable requested [] h = cc
  try_remotes-FirstReadable requested (source ∷ sources) {x} h =
      elim (Result-cases (E.load source)) [
        | inr (e, unread) ↦
            let (metadata, first, offered) =
              try_remotes-FirstReadable requested sources {x = x} (ground (arith, h, unread)) in
            (metadata, there unread first, offered)
        | inl (metadata, loaded) ↦ (
          metadata,
          here loaded,
          either_kind-Offers requested metadata (
              answer_in (resolve_in E requested none metadata)
                (try_remotes E requested none sources) (ends requested metadata)
                (ground (arith, h, loaded))),
        )
      ]

  FirstReadable-try_remotes :
      (requested : Text) (sources : List Source) {metadata : RemoteMetadata} {x : ResolvedRemoteRef}
      → FirstReadable metadata sources
      → Offers requested metadata x
      → try_remotes E requested none sources ≡ ok x
  unfolding try_remotes
  FirstReadable-try_remotes requested [] first offered = elim first [ ]
  FirstReadable-try_remotes requested (source ∷ sources) {metadata} (here loaded) offered =
      rw (loaded, Offers-either_kind requested metadata offered, try_remotes) refl
  FirstReadable-try_remotes requested (source ∷ sources) (there unread first) offered =
      rw (unread, FirstReadable-try_remotes requested sources first offered, try_remotes) refl

  -- Where no kind is asked for, a ref is what the first of the remotes gives that can be read, if it
  -- has an application or a runtime for the request and not the other. In every other case the
  -- search is an error, whatever the later remotes have.
  pub try_remotes_either_iff :
      (requested : Text) (sources : List Source) (x : ResolvedRemoteRef)
      → (try_remotes E requested none sources ≡ ok x) ↔ (
          (metadata : RemoteMetadata) × FirstReadable metadata sources
          × Offers requested metadata x)
  try_remotes_either_iff requested sources x = (
    try_remotes-FirstReadable requested sources,
    λ (metadata, first, offered). FirstReadable-try_remotes requested sources first offered,
  )

only_commit_iff :
    (requested : Text) (matching : List CommitInfo) (c : CommitInfo)
    → (only_commit requested matching ≡ ok c) ↔ (matching ≡ c ∷ [])
unfolding only_commit
only_commit_iff requested [] c = (λ h. cc, λ h. cc)
only_commit_iff requested (d ∷ []) c = (λ h. cc, λ h. cc)
only_commit_iff requested (d ∷ d' ∷ rest) c = (λ h. cc, λ h. cc)

-- A commit is given exactly if the request is a text of hexadecimal digits, not empty, and the
-- commit is the only one of the history whose checksum starts with the request in lower case.
pub select_history_commit_iff :
    (history : List CommitInfo) (requested : Text) (c : CommitInfo)
    → (select_history_commit history requested ≡ ok c) ↔ (
        (requested ≢ [])
        × (all is_ascii_hexdigit requested ≡ true)
        × (keep (λ d. starts_with d.checksum (to_ascii_lowercase requested)) history ≡ c ∷ []))
unfolding select_history_commit matching_commits
select_history_commit_iff history [] c = (λ h. cc, λ h. absurd (h.0 refl))
select_history_commit_iff history (x ∷ xs) c =
    let lower = to_ascii_lowercase (x ∷ xs) in
    let (forth, back) =
      only_commit_iff lower (keep (λ d. starts_with d.checksum lower) history) c in
    elim (Bool-cases (all is_ascii_hexdigit (x ∷ xs))) [
      | inr other ↦ (λ h. ground (arith, other, h), λ h. ground (arith, other, h))
      | inl hex ↦ (λ h. ((λ e. cc), hex, forth (rw hex at h)), λ h. rw hex (back h.2))
    ]
