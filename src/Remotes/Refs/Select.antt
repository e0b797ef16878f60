-- ===== src/Remotes/Refs/Select.antt =====
-- src/remotes/ref_resolution.rs: the choice among the refs of one remote, and of a commit.
use freebsd_flatpak.Prelude.{
  Bool, false, ◌&&◌, ◌||◌, not, List, [], ◌∷◌, map, Option, none, some, if◌then◌else◌, is_empty,
  keep, any, all, find, Result, ok, err, ◌>>=◌, map_err,
}
use freebsd_flatpak.Text.{
  Text, text, text_eq, splitn, sort_by, text_le, starts_with, is_ascii_hexdigit, to_ascii_lowercase,
}
use freebsd_flatpak.FlatpakRef
use freebsd_flatpak.FlatpakRef.{
  RefKind, RefError, FlatpakRef, PartialRef, kind_eq, full_ref, partial_ref, none_or_eq,
}
use freebsd_flatpak.Remotes.Refs.Types.{
  RemoteRef, RemoteMetadata, RemoteRuntime, RemoteRefInfo, CommitInfo, ResolveError, bad_ref,
  missing_part, not_present, not_runtime, no_match, multiple_refs, invalid_commit, unknown_commit,
  ambiguous_commit,
}

pub record FlatpakRefParts : Type 0 where
  pub kind : Text
  pub name : Text
  pub arch : Text
  pub branch : Text

abbrev pub four_parts : List Text → Result ResolveError FlatpakRefParts
four_parts (kind ∷ name ∷ arch ∷ branch ∷ _) =
    ok (record { kind = kind; name = name; arch = arch; branch = branch })
four_parts [] = err (missing_part 0)
four_parts (kind ∷ []) = err (missing_part 1)
four_parts (kind ∷ name ∷ []) = err (missing_part 2)
four_parts (kind ∷ name ∷ arch ∷ []) = err (missing_part 3)

unfoldable pub split_flatpak_ref : Text → Result ResolveError FlatpakRefParts
split_flatpak_ref name = four_parts (splitn 4 b'/' name)

abbrev pub is_app_ref : Text → Text → Result ResolveError FlatpakRefParts → Bool
is_app_ref app_id arch (ok parts) =
    text_eq parts.kind (text "app") && text_eq parts.name app_id && text_eq parts.arch arch
is_app_ref app_id arch (err e) = false

unfoldable pub app_ref_exists : List RemoteRef → Text → Text → Bool
unfolding split_flatpak_ref
app_ref_exists refs app_id arch = any (λ r. is_app_ref app_id arch (split_flatpak_ref r.name)) refs

-- the refs that a partial ref means, with their parts
abbrev pub Candidate : Type 0
Candidate = FlatpakRef × RemoteRef

abbrev pub is_wanted : PartialRef → RefKind → Text → FlatpakRef → Bool
is_wanted partial kind arch parsed =
    kind_eq parsed.kind kind
    && text_eq parsed.id partial.id
    && text_eq parsed.arch arch
    && none_or_eq partial.branch parsed.branch

-- one ref of the remote; a name that is not a full ref is passed over
unfoldable pub add_candidate :
    PartialRef
    → RefKind
    → Text
    → Result RefError FlatpakRef
    → RemoteRef
    → List Candidate
    → List Candidate
add_candidate partial kind arch (err e) r later = later
add_candidate partial kind arch (ok parsed) r later =
    if is_wanted partial kind arch parsed then (parsed, r) ∷ later else later

unfoldable pub candidates : PartialRef → RefKind → Text → List RemoteRef → List Candidate
candidates partial kind arch [] = []
candidates partial kind arch (r ∷ refs) =
    add_candidate partial kind arch (FlatpakRef.parse r.name) r (candidates partial kind arch refs)

abbrev pub by_full_ref : Candidate → Candidate → Bool
by_full_ref (a, _) (b, _) = text_le (full_ref a) (full_ref b)

abbrev pub is_stable : Candidate → Bool
is_stable (parsed, _) = text_eq parsed.branch (text "stable")

unfoldable pub only_candidate :
    PartialRef → RefKind → Text → List Candidate → Result ResolveError RemoteRef
only_candidate partial kind arch [] = err (no_match kind partial.id arch partial.branch)
only_candidate partial kind arch ((_, r) ∷ []) = ok r
only_candidate partial kind arch (a ∷ b ∷ rest) =
    err (multiple_refs partial.id (map (λ (parsed, _). full_ref parsed) (a ∷ b ∷ rest)))

abbrev pub stable_if_open : Option Text → List Candidate → Option Candidate
stable_if_open none sorted = find is_stable sorted
stable_if_open (some branch) sorted = none

unfoldable pub choose : PartialRef → RefKind → Text → List Candidate → Result ResolveError RemoteRef
choose partial kind arch sorted = elim (stable_if_open partial.branch sorted) [
  | some (_, r) ↦ ok r
  | none ↦ only_candidate partial kind arch sorted
]

abbrev pub or_default : Option Text → Text → Text
or_default (some arch) default = arch
or_default none default = default

unfoldable pub select_ref :
    List RemoteRef → PartialRef → RefKind → Text → Result ResolveError RemoteRef
select_ref refs partial kind default_arch =
    let arch = or_default partial.arch default_arch in
    choose partial kind arch (sort_by by_full_ref (candidates partial kind arch refs))

-- `refs.iter().find(|item| item.name == name)`
unfoldable pub find_ref : List RemoteRef → Text → Option RemoteRef
unfolding text_eq
find_ref refs name = find (λ r. text_eq r.name name) refs

unfoldable pub remote_runtime_from_ref : RemoteRef → Text → Result ResolveError RemoteRuntime
remote_runtime_from_ref r origin = do
  parsed ← map_err bad_ref (FlatpakRef.parse r.name)
  if kind_eq parsed.kind RefKind.runtime
      then ok (record {
        origin = origin;
        runtime_id = parsed.id;
        runtime_ref = partial_ref parsed;
        runtime_commit = r.checksum;
        arch = parsed.arch;
        branch = parsed.branch;
      })
      else err (not_runtime r.name)

unfoldable pub resolve_runtime : RemoteMetadata → Text → Result ResolveError RemoteRuntime
resolve_runtime metadata requested = do
  partial ← map_err bad_ref (FlatpakRef.parse_partial requested)
  kind ← map_err bad_ref (FlatpakRef.effective_kind partial (some RefKind.runtime))
  r ← select_ref metadata.refs partial RefKind.runtime metadata.arch
  remote_runtime_from_ref r metadata.remote_name

unfoldable pub resolve_exact_runtime : RemoteMetadata → Text → Result ResolveError RemoteRuntime
resolve_exact_runtime metadata runtime_ref = elim (find_ref metadata.refs runtime_ref) [
  | some r ↦ remote_runtime_from_ref r metadata.remote_name
  | none ↦ err (not_present runtime_ref)
]

unfoldable pub ref_checksum : RemoteMetadata → Text → Option Text
ref_checksum metadata name = elim (find_ref metadata.refs name) [
  | some r ↦ some r.checksum
  | none ↦ none
]

unfoldable pub refs_of_arch : RemoteMetadata → List RemoteRef → List RemoteRefInfo
refs_of_arch metadata [] = []
refs_of_arch metadata (r ∷ refs) =
    let later = refs_of_arch metadata refs in
    elim (split_flatpak_ref r.name) [
      | ok parts ↦
          if text_eq parts.arch metadata.arch
          then (record {
            remote = metadata.remote_name;
            ref_name = r.name;
            arch = parts.arch;
            branch = parts.branch;
          })
            ∷ later
          else later
      | err e ↦ later
    ]

unfoldable pub list_refs : RemoteMetadata → List RemoteRefInfo
list_refs metadata =
    sort_by (λ a b. text_le a.ref_name b.ref_name) (refs_of_arch metadata metadata.refs)

-- the commits whose checksum starts with the request
unfoldable pub matching_commits : List CommitInfo → Text → List CommitInfo
matching_commits history requested = keep (λ c. starts_with c.checksum requested) history

unfoldable pub only_commit : Text → List CommitInfo → Result ResolveError CommitInfo
only_commit requested [] = err (unknown_commit requested)
only_commit requested (c ∷ []) = ok c
only_commit requested (c ∷ d ∷ rest) = err (ambiguous_commit requested)

unfoldable pub select_history_commit : List CommitInfo → Text → Result ResolveError CommitInfo
select_history_commit history requested =
    if is_empty requested || not (all is_ascii_hexdigit requested)
    then err (invalid_commit requested)
    else let lower = to_ascii_lowercase requested in
      only_commit lower (matching_commits history lower)
