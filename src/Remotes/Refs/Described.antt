-- ===== src/Remotes/Refs/Described.antt =====
-- What a resolved application says of its ref and its metadata.
use freebsd_flatpak.Prelude.{
  ◌&&◌, not, map_err, Among, ◌≡◌, refl, sym, ap, ◌∙◌, Bool, true, false, Option, none, some, arith,
  Result, ok, err, ok_or, >>=-eq-ok, if◌then◌else◌,
}
use freebsd_flatpak.Text.{Text, text, text_eq, text_eq→eq}
use freebsd_flatpak.Remotes.Refs.Types.{bad_ref, RemoteRef, RemoteMetadata, RemoteApp, ResolveError}
use freebsd_flatpak.Remotes.Refs.Select.{split_flatpak_ref, or_default, app_ref_exists}
use freebsd_flatpak.FlatpakRef
use freebsd_flatpak.FlatpakRef.{RefKind, FlatpakRef}
use freebsd_flatpak.Remotes.Refs.Chosen.{select_ref_sound}
use freebsd_flatpak.Remotes.Refs.Locate.{
  Environment, resolve_app_ref, resolve_current_app_id, locate_runtime,
  resolve_ref_with_runtime_fallback, resolve_app_with_runtime_fallback,
}
use freebsd_flatpak.Remotes.Refs.Apps.{metadata_value, one_word, remote_app_from_metadata}

-- The application that a ref, its metadata and a runtime describe.
pub record IsDescribed (r : RemoteRef) (metadata : Text) (runtime : RemoteRef) (a : RemoteApp)
    : Type 0 where
  pub of_ref : a.app_ref ≡ r.name
  pub of_commit : a.app_commit ≡ r.checksum
  pub of_runtime : a.runtime_commit ≡ runtime.checksum
  pub name : metadata_value metadata (text "name") ≡ some a.app_id
  pub runtime_named : metadata_value metadata (text "runtime") ≡ some a.runtime_ref
  pub command : metadata_value metadata (text "command") ≡ some a.command
  pub one_command : one_word a.command ≡ true

ok_or-eq-ok {ℓ κ} :
    {E : Type ℓ} {A : Type κ} (o : Option A) (e : E) {a : A} → ok_or o e ≡ ok a → o ≡ some a
ok_or-eq-ok (some b) e h = cc
ok_or-eq-ok none e h = cc

guard-eq-ok :
    (b : Bool) (e : ResolveError) {u : Unit {0}}
    → ◌≡◌ {A = Result ResolveError (Unit {0})} (if b then ok tt else err e) (ok u)
    → b ≡ true
guard-eq-ok true e h = refl
guard-eq-ok false e h = cc

-- An application that is resolved has the name, the commit and the runtime's commit of the refs,
-- and the ID, the runtime and the command of its metadata; the command is a single word.
remote_app_from_metadata-IsDescribed :
    (r : RemoteRef) (metadata : Text) (runtime : RemoteRef) (arch origin runtime_origin : Text)
    {a : RemoteApp}
    → remote_app_from_metadata r metadata runtime arch origin runtime_origin ≡ ok a
    → IsDescribed r metadata runtime a
unfolding remote_app_from_metadata
remote_app_from_metadata-IsDescribed r metadata runtime arch origin runtime_origin {a} h =
    let (parts, split, h1) = >>=-eq-ok (split_flatpak_ref r.name) _ h in
    let (name, named, h2) = >>=-eq-ok (ok_or (metadata_value metadata (text "name")) _) _ h1 in
    let (_, same, h3) = >>=-eq-ok (if text_eq name parts.name then ok tt else err _) _ h2 in
    let (runtime_ref, at, h4) =
      >>=-eq-ok (ok_or (metadata_value metadata (text "runtime")) _) _ h3 in
    let (command, run, h5) = >>=-eq-ok (ok_or (metadata_value metadata (text "command")) _) _ h4 in
    let (_, single, done) = >>=-eq-ok (if one_word command then ok tt else err _) _ h5 in
    let id : name ≡ parts.name = text_eq→eq name parts.name (guard-eq-ok _ _ same) in
    let is_id : parts.name ≡ a.app_id = ground arith in
    let is_runtime : runtime_ref ≡ a.runtime_ref = ground arith in
    let is_command : command ≡ a.command = ground arith in
    record {
      of_ref = ground arith;
      of_commit = ground arith;
      of_runtime = ground arith;
      name = ok_or-eq-ok _ _ named ∙ ap some (id ∙ is_id);
      runtime_named = ok_or-eq-ok _ _ at ∙ ap some is_runtime;
      command = ok_or-eq-ok _ _ run ∙ ap some is_command;
      one_command = rw (sym is_command) (guard-eq-ok _ _ single);
    }

module _ (E : Environment) (metadata : RemoteMetadata) where
  resolve_app_ref-listed :
      (requested : Text) (replacements : Bool) {r : RemoteRef}
      → resolve_app_ref E metadata requested replacements ≡ ok r
      → (f : FlatpakRef) × Among r metadata.refs
        × (FlatpakRef.parse r.name ≡ ok f)
        × (f.kind ≡ RefKind.app)
  unfolding resolve_app_ref
  resolve_app_ref-listed requested replacements {r} h =
      let (partial, _, h1) = >>=-eq-ok (map_err bad_ref (FlatpakRef.parse_partial requested)) _ h in
      let (_, _, h2) =
        >>=-eq-ok (map_err bad_ref (FlatpakRef.effective_kind partial (some RefKind.app))) _ h1 in
      let arch = or_default partial.arch metadata.arch in
      let (id, _, h3) =
        >>=-eq-ok
          (if replacements && not (app_ref_exists metadata.refs partial.id arch)
            then resolve_current_app_id E metadata partial.id arch
            else ok partial.id)
          _ h2 in
      let (f, meant, _) =
        select_ref_sound metadata.refs (record partial { id = id }) RefKind.app metadata.arch
          {r = r} h3 in
      (f, meant.listed, meant.read, meant.same_kind)

  -- An application that resolves in a remote is described by one of the remote's refs, which is
  -- an application's full ref, and by that ref's metadata.
  pub resolve_app_with_runtime_fallback_sound :
      (app_id : Text) {a : RemoteApp}
      → resolve_app_with_runtime_fallback E metadata app_id ≡ ok a
      → (r : RemoteRef) × (f : FlatpakRef) × (described : Text) × (runtime : RemoteRef) × Among r
          metadata.refs
        × (FlatpakRef.parse r.name ≡ ok f)
        × (f.kind ≡ RefKind.app)
        × (r.metadata ≡ some described)
        × IsDescribed r described runtime a
  unfolding resolve_app_with_runtime_fallback resolve_ref_with_runtime_fallback
  resolve_app_with_runtime_fallback_sound app_id {a} h =
      let (r, chosen, h1) = >>=-eq-ok (resolve_app_ref E metadata app_id true) _ h in
      let (described, kept, h2) = >>=-eq-ok (ok_or r.metadata _) _ h1 in
      let (runtime_ref, _, h3) =
        >>=-eq-ok (ok_or (metadata_value described (text "runtime")) _) _ h2 in
      let (place, _, h4) = >>=-eq-ok (locate_runtime E metadata runtime_ref) _ h3 in
      let (f, listed, read, is_app) = resolve_app_ref-listed app_id true {r = r} chosen in
      (
        r,
        f,
        described,
        place.0,
        listed,
        read,
        is_app,
        ok_or-eq-ok _ _ kept,
        remote_app_from_metadata-IsDescribed r described place.0 metadata.arch metadata.remote_name
            place.1 h4,
      )
