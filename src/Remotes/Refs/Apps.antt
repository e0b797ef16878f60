-- ===== src/Remotes/Refs/Apps.antt =====
-- src/remotes/ref_resolution.rs: an application from its ref, its metadata and its runtime.
use freebsd_flatpak.Prelude.{
  Bool, ◌==◌, List, ◌++◌, Option, if◌then◌else◌, length, Result, ok, err, ◌>>=◌, ◌>>◌, ok_or,
}
use freebsd_flatpak.Text.{Text, text, text_eq, split_whitespace}
use freebsd_flatpak.FlatpakMetadata
use freebsd_flatpak.Remotes.Refs.Types.{
  RemoteRef, RemoteMetadata, RemoteApp, ResolveError, not_present, no_metadata, no_runtime, no_name,
  no_command, id_mismatch, bad_command, runtime_not_found,
}
use freebsd_flatpak.Remotes.Refs.Select.{split_flatpak_ref, find_ref}

abbrev pub metadata_value : Text → Text → Option Text
metadata_value metadata key = FlatpakMetadata.value metadata (text "Application") key

abbrev pub one_word : Text → Bool
one_word command = length (split_whitespace command) == 1

unfoldable pub remote_app_from_metadata :
    RemoteRef → Text → RemoteRef → Text → Text → Text → Result ResolveError RemoteApp
remote_app_from_metadata r metadata runtime arch origin runtime_origin = do
  parts ← split_flatpak_ref r.name
  name ← ok_or (metadata_value metadata (text "name")) no_name
  if text_eq name parts.name then ok tt else err (id_mismatch parts.name name)
  runtime_ref ← ok_or (metadata_value metadata (text "runtime")) no_runtime
  command ← ok_or (metadata_value metadata (text "command")) no_command
  if one_word command then ok tt else err (bad_command command)
  ok (record {
    origin = origin;
    runtime_origin = runtime_origin;
    app_id = parts.name;
    app_ref = r.name;
    app_commit = r.checksum;
    arch = arch;
    branch = parts.branch;
    runtime_ref = runtime_ref;
    runtime_commit = runtime.checksum;
    sdk_ref = metadata_value metadata (text "sdk");
    download_size = r.download_size;
    installed_size = r.installed_size;
    command = command;
  })

abbrev pub runtime_name : Text → Text
runtime_name runtime_ref = text "runtime/" ++ runtime_ref

-- an application whose runtime stands in the same summary
unfoldable pub remote_app_from_ref :
    List RemoteRef → RemoteRef → Text → Text → Result ResolveError RemoteApp
remote_app_from_ref refs r arch origin = do
  metadata ← ok_or r.metadata (no_metadata r.name)
  runtime_ref ← ok_or (metadata_value metadata (text "runtime")) no_runtime
  runtime ← ok_or (find_ref refs (runtime_name runtime_ref)) (runtime_not_found runtime_ref)
  remote_app_from_metadata r metadata runtime arch origin origin

unfoldable pub resolve_exact_ref : RemoteMetadata → Text → Result ResolveError RemoteApp
resolve_exact_ref metadata app_ref = do
  r ← ok_or (find_ref metadata.refs app_ref) (not_present app_ref)
  remote_app_from_ref metadata.refs r metadata.arch metadata.remote_name
