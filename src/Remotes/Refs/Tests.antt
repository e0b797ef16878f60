-- ===== src/Remotes/Refs/Tests.antt =====
-- A remote with two applications and a runtime, and the theorems there.
use freebsd_flatpak.Prelude.{
  ℕ, ◌≡◌, refl, ◌↔◌, ◌⊎◌, ◌≢◌, true, List, [], ◌∷◌, none, some, all, keep, ok, err,
}
use freebsd_flatpak.Text.{
  set_insert, splitn, dedup, get, contains, text_cmp, insert_by, upper_hex_digit, is_control,
  is_ascii_digit, is_ascii_alphanumeric, is_ascii_alphabetic, strip_prefix, ends_with, byte_len,
  text_le, text_eq, split, sort_by, Text, text, starts_with, is_ascii_hexdigit, to_ascii_lowercase,
}
use freebsd_flatpak.FlatpakRef.{
  effective_kind, validate_segments, validate_segment, validate_rest, valid_initial_id_char,
  valid_initial_branch_char, valid_id_char, valid_branch_char, valid_arch_char, describe_char,
  as_str, full_ref, kind_eq, validate_branch, validate_arch, validate_id, check_parts, strip_kind,
  parse_parts, parse_partial, parse, RefKind, FlatpakRef, PartialRef,
}
use freebsd_flatpak.Remotes.Refs.{
  resolve_current_app_id, resolve_app_ref, app_ref_exists, only_candidate, add_candidate,
  candidates, choose, RemoteRef, RemoteMetadata, RemoteApp, CommitInfo, no_match, neither_kind,
  ResolvedRemoteRef, resolve_in, either_kind, select_ref, resolve_current_app_id_from_replacements,
  Source, Environment, try_apps, try_remotes, resolve_runtime, select_history_commit,
  resolve_app_with_runtime_fallback,
}
use freebsd_flatpak.Remotes.Refs.Chosen.{IsMeant, select_ref_sound}
use freebsd_flatpak.Remotes.Refs.Chains.{
  Chain, resolve_current_app_id_sound, resolve_current_app_id_total,
}
use freebsd_flatpak.Remotes.Refs.Order.{
  Taken, try_apps_iff, try_remotes_either_iff, FirstReadable, Offers, select_history_commit_iff,
}

abbrev listed : Text → RemoteRef
listed name = record {
  name = name;
  checksum = text "c0";
  metadata = none;
  download_size = none;
  installed_size = none;
}

abbrev refs : List RemoteRef
refs =
    listed (text "app/org.a.Old/x86_64/stable")
    ∷ listed (text "app/org.a.New/x86_64/beta")
    ∷ listed (text "app/org.a.New/x86_64/stable")
    ∷ listed (text "appstream/x86_64")
    ∷ []

abbrev new_app : PartialRef
new_app = record { kind = none; id = text "org.a.New"; arch = none; branch = none }

new_app_chosen :
    select_ref refs new_app RefKind.app (text "x86_64")
    ≡ ok (listed (text "app/org.a.New/x86_64/stable"))
unfolding select_ref choose sort_by candidates add_candidate parse parse_partial parse_parts split
    strip_kind check_parts validate_id validate_arch validate_branch kind_eq text_eq text_le
    full_ref as_str describe_char valid_arch_char valid_branch_char valid_id_char
    valid_initial_branch_char valid_initial_id_char validate_rest validate_segment validate_segments
    only_candidate byte_len ends_with starts_with strip_prefix is_ascii_alphabetic
    is_ascii_alphanumeric is_ascii_digit is_control upper_hex_digit insert_by text_cmp
new_app_chosen = refl

select_ref_sound_example :
    (f : FlatpakRef) × IsMeant new_app RefKind.app
      (text "x86_64")
      refs
      (listed (text "app/org.a.New/x86_64/stable"))
      f
    × ((f.branch ≡ text "stable")
        ⊎ ((q : RemoteRef) (g : FlatpakRef)
            → IsMeant new_app RefKind.app (text "x86_64") refs q g
            → q ≡ listed (text "app/org.a.New/x86_64/stable")))
select_ref_sound_example = select_ref_sound refs new_app RefKind.app (text "x86_64") new_app_chosen

abbrev replacements : List (Text × List Text)
replacements =
    (text "org.a.Older", text "org.a.Old" ∷ text "org.a.Gone" ∷ [])
    ∷ (text "org.a.Old", text "org.a.New" ∷ [])
    ∷ []

older_replaced :
    resolve_current_app_id_from_replacements refs replacements (text "x86_64") (text "org.a.Older")
    ≡ some (ok (text "org.a.New"))
unfolding resolve_current_app_id_from_replacements contains get dedup sort_by app_ref_exists splitn
    set_insert
older_replaced = refl

resolve_current_app_id_sound_example :
    (n : ℕ) × Chain refs replacements (text "x86_64") n (text "org.a.Older") (text "org.a.New")
resolve_current_app_id_sound_example =
    resolve_current_app_id_sound refs replacements (text "x86_64") (text "org.a.Older")
      older_replaced

resolve_current_app_id_total_example :
    resolve_current_app_id_from_replacements refs replacements (text "x86_64") (text "org.a.Older")
    ≢ none
resolve_current_app_id_total_example =
    resolve_current_app_id_total refs replacements (text "x86_64") (text "org.a.Older")

abbrev near : Source
near = record { name = text "near"; enabled = true }

abbrev far : Source
far = record { name = text "far"; enabled = true }

abbrev empty : RemoteMetadata
empty = record { remote_name = text "near"; arch = text "x86_64"; refs = [] }

-- Two remotes that can be read and offer nothing.
abbrev world : Environment
world = record {
  get_runtime = λ name. ok none;
  get_remote = λ name. ok near;
  enabled_remotes = ok (near ∷ far ∷ []);
  load = λ source. ok empty;
  fetch_replacements = λ metadata arch. ok [];
  history = λ metadata name commit. ok [];
}

abbrev some_app : RemoteApp
some_app = record {
  origin = text "near";
  runtime_origin = text "near";
  app_id = text "org.a.New";
  app_ref = text "app/org.a.New/x86_64/stable";
  app_commit = text "c0";
  arch = text "x86_64";
  branch = text "stable";
  runtime_ref = text "org.a.Platform/x86_64/1";
  runtime_commit = text "c0";
  sdk_ref = none;
  download_size = none;
  installed_size = none;
  command = text "new";
}

try_apps_iff_example :
    (try_apps world (text "org.a.New") (near ∷ far ∷ []) ≡ ok some_app)
    ↔ Taken world (text "org.a.New") some_app (near ∷ far ∷ [])
try_apps_iff_example = try_apps_iff world (text "org.a.New") (near ∷ far ∷ []) some_app

nothing_app :
    resolve_app_with_runtime_fallback world empty (text "org.a.New")
    ≡ err (no_match RefKind.app (text "org.a.New") (text "x86_64") none)
unfolding resolve_app_with_runtime_fallback resolve_app_ref parse_partial parse_parts split
    strip_kind check_parts validate_id effective_kind app_ref_exists select_ref choose sort_by
    candidates only_candidate resolve_current_app_id resolve_current_app_id_from_replacements
    contains get
nothing_app = refl

nothing_runtime :
    resolve_runtime empty (text "org.a.New")
    ≡ err (no_match RefKind.runtime (text "org.a.New") (text "x86_64") none)
unfolding resolve_runtime parse_partial parse_parts split strip_kind check_parts validate_id
    effective_kind select_ref choose sort_by candidates only_candidate
nothing_runtime = refl

abbrev only : CommitInfo
only = record {
  checksum = text "ab12";
  parent = none;
  timestamp = 1;
  subject = [];
  body = [];
  flatpak_metadata = none;
  version = none;
  collection_id = none;
}

abbrev history : List CommitInfo
history = record only { checksum = text "cd" } ∷ only ∷ []

-- Where the first remote that can be read offers nothing, the later ones do not matter.
neither :
    try_remotes world (text "org.a.New") none (near ∷ far ∷ [])
    ≡ err (
        neither_kind
          (no_match RefKind.app (text "org.a.New") (text "x86_64") none)
          (no_match RefKind.runtime (text "org.a.New") (text "x86_64") none))
unfolding try_remotes resolve_in either_kind
neither = rw (nothing_app, nothing_runtime, try_remotes, resolve_in) refl

try_remotes_either_iff_example :
    (try_remotes world (text "org.a.New") none (near ∷ far ∷ [])
      ≡ ok (ResolvedRemoteRef.app some_app))
    ↔ ((metadata : RemoteMetadata) × FirstReadable world metadata (near ∷ far ∷ [])
        × Offers world (text "org.a.New") metadata (ResolvedRemoteRef.app some_app))
try_remotes_either_iff_example =
    try_remotes_either_iff world (text "org.a.New") (near ∷ far ∷ [])
      (ResolvedRemoteRef.app some_app)

select_history_commit_iff_example : (select_history_commit history (text "AB") ≡ ok only) ↔ (
    (text "AB" ≢ [])
    × (all is_ascii_hexdigit (text "AB") ≡ true)
    × (keep (λ d. starts_with d.checksum (to_ascii_lowercase (text "AB"))) history ≡ only ∷ []))
select_history_commit_iff_example = select_history_commit_iff history (text "AB") only
