-- ===== src/Remotes/Refs/Types.antt =====
-- src/remotes/mod.rs, src/ostree/mod.rs: the records that resolution reads and gives.
use freebsd_flatpak.Prelude.{ℕ, List, Option}
use freebsd_flatpak.Text.{Text}
use freebsd_flatpak.FlatpakRef.{RefKind, RefError}

pub record RemoteRef : Type 0 where
  pub name : Text
  pub checksum : Text
  pub metadata : Option Text
  pub download_size : Option ℕ
  pub installed_size : Option ℕ

-- Of `RemoteMetadata`, what resolution reads.
pub record RemoteMetadata : Type 0 where
  pub remote_name : Text
  pub arch : Text
  pub refs : List RemoteRef

pub record RemoteApp : Type 0 where
  pub origin : Text
  pub runtime_origin : Text
  pub app_id : Text
  pub app_ref : Text
  pub app_commit : Text
  pub arch : Text
  pub branch : Text
  pub runtime_ref : Text
  pub runtime_commit : Text
  pub sdk_ref : Option Text
  pub download_size : Option ℕ
  pub installed_size : Option ℕ
  pub command : Text

pub record RemoteRuntime : Type 0 where
  pub origin : Text
  pub runtime_id : Text
  pub runtime_ref : Text
  pub runtime_commit : Text
  pub arch : Text
  pub branch : Text

pub data ResolvedRemoteRef : Type 0 where
  app : RemoteApp → ResolvedRemoteRef
  runtime : RemoteRuntime → ResolvedRemoteRef

pub record CommitInfo : Type 0 where
  pub checksum : Text
  pub parent : Option Text
  pub timestamp : ℕ
  pub subject : Text
  pub body : Text
  pub flatpak_metadata : Option Text
  pub version : Option Text
  pub collection_id : Option Text

-- Of `RuntimeRecord`, what resolution reads.
pub record RuntimeRecord : Type 0 where
  pub origin : Text
  pub runtime_commit : Text
  pub installed_size : ℕ

pub record SearchResult : Type 0 where
  pub remote : Text
  pub app_id : Text
  pub app_ref : Text
  pub arch : Text
  pub branch : Text

pub record RemoteRefInfo : Type 0 where
  pub remote : Text
  pub ref_name : Text
  pub arch : Text
  pub branch : Text

pub data ResolveError : Type 0 where
  bad_ref : RefError → ResolveError
  missing_part : ℕ → ResolveError
  not_present not_runtime : Text → ResolveError
  no_match : RefKind → Text → Text → Option Text → ResolveError
  multiple_refs : Text → List Text → ResolveError
  multiple_replacements : Text → List Text → ResolveError
  replacement_cycle : Text → ResolveError
  invalid_commit unknown_commit ambiguous_commit : Text → ResolveError
  no_metadata : Text → ResolveError
  no_runtime no_name no_command : ResolveError
  id_mismatch : Text → Text → ResolveError
  bad_command : Text → ResolveError
  runtime_not_found : Text → ResolveError
  remote_disabled : Text → ResolveError
  no_remotes : ResolveError
  both_kinds : Text → ResolveError
  neither_kind : ResolveError → ResolveError → ResolveError
  -- the failures of every remote that was tried
  not_found : Text → ResolveError
  all_failed : ResolveError
  -- an error of what resolution calls: the configuration, the network, the repository
  outside : ℕ → ResolveError
