-- ===== src/Remotes/Refs/Installs.antt =====
-- A remote in which an application resolves, and the theorem there.
use freebsd_flatpak.FlatpakMetadata.{value_loop, value_here, value, header}
use freebsd_flatpak.Prelude.{◌≡◌, refl, [], ◌∷◌, some, none, Among, ok, err}
use freebsd_flatpak.Text.{
  split_once, text_le, text_cmp, insert_by, strip_return, lines, line_list, words_from,
  upper_hex_digit, trim_start, trim_end, trim, split_whitespace, is_whitespace, is_control,
  is_ascii_digit, is_ascii_alphanumeric, is_ascii_alphabetic, strip_prefix, strip_last, starts_with,
  ends_with, byte_len, sort_by, text_eq, splitn, split, Text, text,
}
use freebsd_flatpak.FlatpakRef
use freebsd_flatpak.FlatpakRef.{
  validate_segments, validate_segment, validate_rest, validate_branch, validate_arch,
  valid_initial_id_char, valid_initial_branch_char, valid_id_char, valid_branch_char,
  valid_arch_char, describe_char, kind_eq, full_ref, as_str, parse, effective_kind, validate_id,
  check_parts, strip_kind, parse_parts, parse_partial, RefKind, FlatpakRef,
}
use freebsd_flatpak.Remotes.Refs.{
  split_flatpak_ref, only_candidate, find_ref, runtime_elsewhere, resolve_ref_with_runtime_fallback,
  locate_runtime, load_remote_metadata, installed_runtime, enabled_remote, remote_app_from_metadata,
  add_candidate, candidates, choose, select_ref, app_ref_exists, resolve_app_ref, RemoteRef,
  RemoteMetadata, RemoteApp, Environment, no_remotes, resolve_app_with_runtime_fallback,
}
use freebsd_flatpak.Remotes.Refs.Described.{IsDescribed, resolve_app_with_runtime_fallback_sound}

abbrev described : Text
described = text "[Application]\nname=o.a.N\nruntime=P/x/1\ncommand=n"

abbrev app_ref : RemoteRef
app_ref = record {
  name = text "app/o.a.N/x/stable";
  checksum = text "c0";
  metadata = some described;
  download_size = none;
  installed_size = none;
}

abbrev runtime_ref : RemoteRef
runtime_ref = record {
  name = text "runtime/P/x/1";
  checksum = text "d0";
  metadata = none;
  download_size = none;
  installed_size = none;
}

abbrev offered : RemoteMetadata
offered = record { remote_name = text "near"; arch = text "x"; refs = app_ref ∷ runtime_ref ∷ [] }

abbrev world : Environment
world = record {
  get_runtime = λ name. ok none;
  get_remote = λ name. err no_remotes;
  enabled_remotes = err no_remotes;
  load = λ source. ok offered;
  fetch_replacements = λ metadata arch. ok [];
  history = λ metadata name commit. ok [];
}

abbrev resolved : RemoteApp
resolved = record {
  origin = text "near";
  runtime_origin = text "near";
  app_id = text "o.a.N";
  app_ref = text "app/o.a.N/x/stable";
  app_commit = text "c0";
  arch = text "x";
  branch = text "stable";
  runtime_ref = text "P/x/1";
  runtime_commit = text "d0";
  sdk_ref = none;
  download_size = none;
  installed_size = none;
  command = text "n";
}

resolves : resolve_app_with_runtime_fallback world offered (text "o.a.N") ≡ ok resolved
unfolding resolve_app_with_runtime_fallback resolve_app_ref parse_partial parse_parts split
    strip_kind check_parts validate_id effective_kind app_ref_exists splitn text_eq select_ref
    choose sort_by candidates add_candidate parse header value value_here value_loop as_str full_ref
    kind_eq describe_char valid_arch_char valid_branch_char valid_id_char valid_initial_branch_char
    valid_initial_id_char validate_arch validate_branch validate_rest validate_segment
    validate_segments remote_app_from_metadata enabled_remote installed_runtime load_remote_metadata
    locate_runtime resolve_ref_with_runtime_fallback runtime_elsewhere find_ref only_candidate
    split_flatpak_ref byte_len ends_with starts_with strip_last strip_prefix is_ascii_alphabetic
    is_ascii_alphanumeric is_ascii_digit is_control is_whitespace split_whitespace trim trim_end
    trim_start upper_hex_digit words_from line_list lines strip_return insert_by text_cmp text_le
    split_once
resolves = refl

resolve_app_with_runtime_fallback_sound_example :
    (r : RemoteRef) × (f : FlatpakRef) × (metadata : Text) × (runtime : RemoteRef) × Among r
      offered.refs
    × (FlatpakRef.parse r.name ≡ ok f)
    × (f.kind ≡ RefKind.app)
    × (r.metadata ≡ some metadata)
    × IsDescribed r metadata runtime resolved
resolve_app_with_runtime_fallback_sound_example =
    resolve_app_with_runtime_fallback_sound world offered (text "o.a.N") resolves
