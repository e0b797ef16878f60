-- ===== src/SecureMount/Validated.antt =====
-- What the checks of the helper establish.
use mathlib.Core.Path.{subst}
use freebsd_flatpak.Prelude.{
  err, here, there, map, ℕ, ◌≡◌, ◌≢◌, refl, ap, ◌∙◌, Bool, true, false, ◌&&◌, ◌==◌, not, [], ◌∷◌,
  Option, none, some, arith, all, is_empty, Result, ok, ok_or, >>=-eq-ok, ok-inj,
}
use freebsd_flatpak.Text.{Text, text, text_eq, text_eq→eq, parse_unsigned}
use freebsd_flatpak.Paths.{root_dir, cur_dir, parent_dir, normal, FilePath, to_path, is_rooted}
use freebsd_flatpak.SecureMount.{
  not_caller_info, HelperError, FileType, regular, directory, Kernel, parent_of, file_name, guard,
  is_normal, validate_relative, open_absolute_dir, open_absolute_entry, is_named, is_some,
  validate_sandbox_root, is_uid, absent, validate_document_parts, o_directory, o_nofollow,
  o_resolve_beneath, open_child_dir, open_child_entry, open_components, open_relative_dir,
  is_regular, other, system, enoent, not_relative, not_instance, not_private, u32_max,
  not_caller_document,
}
use freebsd_flatpak.SecureMount.Rules.{
  IsBelow, Walks, arrived, at_root, child, IsReached, IsEntry, IsInstance, IsDocumentOf,
}

pub guard-ok : (b : Bool) (e : HelperError) {u : Unit {0}} → guard b e ≡ ok u → b ≡ true
guard-ok true e h = refl
guard-ok false e h = cc

pub ok_or-ok : {A : Type 0} (o : Option A) (e : HelperError) {a : A} → ok_or o e ≡ ok a → o ≡ some a
ok_or-ok (some a) e h = ap some (ok-inj h)
ok_or-ok none e h = cc

pub ok-pair :
    (owner : ℕ) (private : Bool) {uid : ℕ}
    → owner ≡ uid
    → private ≡ true
    → ◌≡◌ {A = Result HelperError (ℕ × Bool)} (ok (owner, private)) (ok (uid, true))
ok-pair owner private h k = rw (h, k) refl

same_parts :
    (app instance_id uid grant file : Text) {run run' user user' doc doc' : Text}
    → run ≡ run'
    → user ≡ user'
    → doc ≡ doc'
    → map normal (app ∷ instance_id ∷ run ∷ user ∷ uid ∷ doc ∷ grant ∷ file ∷ [])
      ≡ map normal (app ∷ instance_id ∷ run' ∷ user' ∷ uid ∷ doc' ∷ grant ∷ file ∷ [])
same_parts app instance_id uid grant file h1 h2 h3 = rw (h1, h2, h3) refl

is_empty-ne : (p : FilePath) → is_empty p ≡ false → p ≢ []
is_empty-ne [] h = cc
is_empty-ne (c ∷ p) h = λ e. cc

pub validate_relative-IsBelow :
    (path : FilePath) {u : Unit {0}} → validate_relative path ≡ ok u → IsBelow path
unfolding validate_relative
validate_relative-IsBelow path h =
    let both = guard-ok (not (is_empty path) && all is_normal path) not_relative h in
    (is_empty-ne path (ground (arith, both)), ground (arith, both))

module _ (k : Kernel) where
  pub is_named-eq :
      (found : Option Text) (name : Text) → is_named k found name ≡ true → found ≡ some name
  is_named-eq none name h = cc
  is_named-eq (some n) name h = ap some (text_eq→eq n name h)

  open_child_dir-Walks :
      {fd next last : ℕ} {path : FilePath} (name : Text)
      → open_child_dir k fd name ≡ ok next
      → Walks k next path last
      → Walks k fd (normal name ∷ path) last
  unfolding open_child_dir
  open_child_dir-Walks name opened rest =
      child name (o_directory ∷ o_nofollow ∷ o_resolve_beneath ∷ []) opened (there (here refl))
        (there (there (here refl))) rest

  open_components-Walks :
      (fd : ℕ) (path : FilePath) {last : ℕ}
      → open_components k fd path ≡ ok last
      → Walks k fd path last
  unfolding open_components
  open_components-Walks fd [] h = subst (Walks k fd []) (ok-inj h) arrived
  open_components-Walks fd (root_dir ∷ path) h = at_root (open_components-Walks fd path h)
  open_components-Walks fd (normal name ∷ path) h =
      let (next, opened, rest) = >>=-eq-ok (open_child_dir k fd name) _ h in
      open_child_dir-Walks name opened (open_components-Walks next path rest)
  open_components-Walks fd (cur_dir ∷ path) h = cc
  open_components-Walks fd (parent_dir ∷ path) h = cc

  pub open_absolute_dir-IsReached :
      (path : FilePath) {fd : ℕ} → open_absolute_dir k path ≡ ok fd → IsReached k path fd
  unfolding open_absolute_dir
  open_absolute_dir-IsReached path {fd} h =
      let (u, rooted, rest) = >>=-eq-ok (guard (is_rooted path) _) _ h in
      let (root, is_root, walked) = >>=-eq-ok k.open_root (λ r. open_components k r path) rest in
      (root, guard-ok (is_rooted path) _ rooted, is_root, open_components-Walks root path walked)

  pub open_absolute_entry-IsEntry :
      (path : FilePath) {fd : ℕ}
      → open_absolute_entry k path ≡ ok fd
      → (is_rooted path ≡ true) × IsEntry k path fd
  unfolding open_absolute_entry open_child_entry
  open_absolute_entry-IsEntry path h =
      let (u, rooted, rest) = >>=-eq-ok (guard (is_rooted path) _) _ h in
      let (parent, is_parent, rest2) = >>=-eq-ok (ok_or (parent_of path) _) _ rest in
      let (name, is_name, rest3) = >>=-eq-ok (ok_or (file_name path) _) _ rest2 in
      let (dir, opened, entry) =
        >>=-eq-ok (open_absolute_dir k parent) (λ d. open_child_entry k d name) rest3 in
      let parent_reached = open_absolute_dir-IsReached parent opened in
      let last : Walks k dir (normal name ∷ []) _ =
        child name (o_nofollow ∷ o_resolve_beneath ∷ []) entry (here refl) (there (here refl))
          arrived in
      (
        guard-ok (is_rooted path) _ rooted,
        (
          parent,
          name,
          dir,
          ok_or-ok (parent_of path) _ is_parent,
          ok_or-ok (file_name path) _ is_name,
          parent_reached,
          last,
        ),
      )

  is_uid-eq : (found : Option ℕ) → is_uid k found ≡ true → found ≡ some k.real_uid
  is_uid-eq none h = cc
  is_uid-eq (some n) h = let same : n ≡ k.real_uid = ground (arith, h) in ap some same

  is_regular-eq : (type : FileType) → is_regular k type ≡ true → type ≡ regular
  is_regular-eq regular h = refl
  is_regular-eq directory h = cc
  is_regular-eq other h = cc

  pub validate_sandbox_root-IsInstance :
      (root : Text) (fd : ℕ) {u : Unit {0}}
      → open_absolute_dir k (to_path root) ≡ ok fd
      → validate_sandbox_root k (to_path root) fd ≡ ok u
      → IsInstance k root
  unfolding validate_sandbox_root
  validate_sandbox_root-IsInstance root fd opened h =
      let (canonical, e1, h1) = >>=-eq-ok (k.canonicalize (to_path root)) _ h in
      let (app, e2, h2) = >>=-eq-ok (ok_or (parent_of canonical) _) _ h1 in
      let (chroots, e3, h3) = >>=-eq-ok (ok_or (parent_of app) _) _ h2 in
      let (runtime, e4, h4) = >>=-eq-ok (ok_or (parent_of chroots) _) _ h3 in
      let (u1, named, h5) =
        >>=-eq-ok
          (guard
            (is_named k (file_name chroots) (text "chroots")
              && is_some k (file_name canonical)
              && is_some k (file_name app))
            not_instance)
          _ h4 in
      let ((owner, private), e5, h6) = >>=-eq-ok (k.metadata runtime) _ h5 in
      let (identity, e6, h7) = >>=-eq-ok (k.fstat_identity fd) _ h6 in
      let (u2, owned, h8) =
        >>=-eq-ok (guard (owner == k.real_uid && private && identity.uid == k.real_uid) not_private)
          _ h7 in
      let (info_fd, e7, h9) =
        >>=-eq-ok (k.openat fd (text ".flatpak-info") (o_nofollow ∷ [])) _ h8 in
      let (info, e8, h10) = >>=-eq-ok (k.fstat_identity info_fd) _ h9 in
      let (type, e9, h11) =
        >>=-eq-ok (k.fstat_type info_fd)
          (λ t. guard (is_regular k t && info.uid == k.real_uid) not_caller_info) h10 in
      let names =
        guard-ok
          (is_named k (file_name chroots) (text "chroots")
            && is_some k (file_name canonical)
            && is_some k (file_name app))
          not_instance named in
      let owners =
        guard-ok (owner == k.real_uid && private && identity.uid == k.real_uid) not_private owned in
      let his = guard-ok (is_regular k type && info.uid == k.real_uid) not_caller_info h11 in
      let is_chroots : is_named k (file_name chroots) (text "chroots") ≡ true =
        ground (arith, names) in
      let same_owner : owner ≡ k.real_uid = ground (arith, owners) in
      let is_private : private ≡ true = ground (arith, owners) in
      let is_file : is_regular k type ≡ true = ground (arith, his) in
      (
        fd,
        identity,
        canonical,
        app,
        chroots,
        runtime,
        open_absolute_dir-IsReached (to_path root) opened,
        e6,
        ground (arith, owners),
        e1,
        ok_or-ok (parent_of canonical) _ e2,
        ok_or-ok (parent_of app) _ e3,
        is_named-eq (file_name chroots) (text "chroots") is_chroots,
        ok_or-ok (parent_of chroots) _ e4,
        e5 ∙ ok-pair owner private same_owner is_private,
        info_fd,
        info,
        e7,
        e8,
        ground (arith, his),
        e9 ∙ ap (λ (t : FileType). ok t) (is_regular-eq type is_file),
      )

  absent-enoent :
      (found : Result HelperError ℕ) {u : Unit {0}}
      → absent k found ≡ ok u
      → found ≡ err (system enoent)
  absent-enoent (ok fd) h = cc
  absent-enoent (err (system code)) h =
      let same : code ≡ enoent =
        (let b = guard-ok (code == enoent) (system code) h in ground (arith, b)) in
      ap (λ (n : ℕ). err (system n)) same
  absent-enoent (err e) h = cc

  pub validate_document_parts-IsDocumentOf :
      (chroots_fd : ℕ) (relative : FilePath) {u : Unit {0}}
      → validate_document_parts k chroots_fd relative ≡ ok u
      → IsDocumentOf k chroots_fd relative
  unfolding validate_document_parts
  validate_document_parts-IsDocumentOf chroots_fd
        (normal app
          ∷ normal instance_id
          ∷ normal run
          ∷ normal user
          ∷ normal uid
          ∷ normal doc
          ∷ normal grant
          ∷ normal file
          ∷ [])
        h =
      let tests =
        text_eq run (text "run")
        && text_eq user (text "user")
        && text_eq doc (text "doc")
        && is_uid k (parse_unsigned u32_max uid) in
      let (u, named, gone) =
        >>=-eq-ok (guard tests not_caller_document)
          (λ _. absent k (open_relative_dir k chroots_fd (normal app ∷ normal instance_id ∷ [])))
          h in
      let all_true = guard-ok tests not_caller_document named in
      let is_run : text_eq run (text "run") ≡ true = ground (arith, all_true) in
      let is_user : text_eq user (text "user") ≡ true = ground (arith, all_true) in
      let is_doc : text_eq doc (text "doc") ≡ true = ground (arith, all_true) in
      let is_own : is_uid k (parse_unsigned u32_max uid) ≡ true = ground (arith, all_true) in
      (
        app,
        instance_id,
        uid,
        grant,
        file,
        same_parts app instance_id uid grant file (text_eq→eq run (text "run") is_run)
            (text_eq→eq user (text "user") is_user) (text_eq→eq doc (text "doc") is_doc),
        is_uid-eq (parse_unsigned u32_max uid) is_own,
        absent-enoent (open_relative_dir k chroots_fd (normal app ∷ normal instance_id ∷ [])) gone,
      )
  validate_document_parts-IsDocumentOf chroots_fd _ h = cc
