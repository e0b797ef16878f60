-- ===== src/FlatpakRef/Laws/RoundTrip.antt =====
-- The parser of full refs undoes the printer, and the printer undoes the parser.
use freebsd_flatpak.Prelude.{
  ◌≡◌, refl, ◌≢◌, ap, sym, ◌∙◌, true, List, [], ◌∷◌, ◌++◌, Option, some, arith, ok, >>=-eq-ok, ◌↔◌,
}
use freebsd_flatpak.Text.{
  Text, text, text_eq→eq, text_eq_refl, split, split-append, split_of_Lacks, join, join-split,
  strip_prefix_sound,
}
use freebsd_flatpak.FlatpakRef.{
  RefKind, app, runtime, FlatpakRef, PartialRef, validate_id, validate_arch, validate_branch,
  strip_kind, check_parts, parse_parts, parse_partial, parse, full_ref, as_str, filled, matches,
  kind_eq,
}
use freebsd_flatpak.FlatpakRef.Laws.Slashes.{
  validate_id-Lacks, validate_arch-Lacks, validate_branch-Lacks,
}

-- The checks that every field of a full ref has passed.
pub record IsValid (r : FlatpakRef) : Type 0 where
  pub id_valid : validate_id r.id ≡ ok tt
  pub arch_filled : r.arch ≢ []
  pub arch_valid : validate_arch r.arch ≡ ok tt
  pub branch_filled : r.branch ≢ []
  pub branch_valid : validate_branch r.branch ≡ ok tt

strip_kind-append :
    (k : RefKind) (rest : Text) → strip_kind (as_str k ++ (b'/' ∷ rest)) ≡ (some k, rest)
unfolding strip_kind as_str
strip_kind-append app rest = refl
strip_kind-append runtime rest = refl

filled_of_ne : (s : Text) → s ≢ [] → filled s ≡ some s
filled_of_ne [] h = absurd (h refl)
filled_of_ne (c ∷ s) h = refl

split_ref :
    (r : FlatpakRef)
    → IsValid r
    → split (r.id ++ (b'/' ∷ (r.arch ++ (b'/' ∷ r.branch)))) b'/' ≡ r.id ∷ r.arch ∷ r.branch ∷ []
split_ref r v = rw (
  split-append r.id _ b'/' (validate_id-Lacks r.id v.id_valid),
  split-append r.arch _ b'/' (validate_arch-Lacks r.arch v.arch_valid),
  split_of_Lacks r.branch b'/' (validate_branch-Lacks r.branch v.branch_valid),
)

check_parts_valid :
    (r : FlatpakRef)
    → IsValid r
    → check_parts (some r.kind) r.id r.arch r.branch
      ≡ ok (record { kind = some r.kind; id = r.id; arch = some r.arch; branch = some r.branch })
unfolding check_parts
check_parts_valid r v = rw (
  filled_of_ne r.arch v.arch_filled,
  filled_of_ne r.branch v.branch_filled,
  v.id_valid,
  v.arch_valid,
  v.branch_valid,
)

-- A full ref whose fields are valid is read back from its printed form.
pub parse-full_ref : (r : FlatpakRef) → IsValid r → parse (full_ref r) ≡ ok r
unfolding parse parse_partial parse_parts full_ref
parse-full_ref r v = rw (strip_kind-append, split_ref r v, check_parts_valid r v)

-- What the parser of partial refs has checked of one of them.
pub record IsPartial (p : PartialRef) : Type 0 where
  pub id_valid : validate_id p.id ≡ ok tt
  pub arch_valid : (a : Text) → p.arch ≡ some a → (a ≢ []) × (validate_arch a ≡ ok tt)
  pub branch_valid : (b : Text) → p.branch ≡ some b → (b ≢ []) × (validate_branch b ≡ ok tt)

check_parts_sound :
    (kind : Option RefKind) (id arch branch : Text) {p : PartialRef}
    → check_parts kind id arch branch ≡ ok p
    → (p ≡ record { kind = kind; id = id; arch = filled arch; branch = filled branch })
      × IsPartial p
unfolding check_parts
check_parts_sound kind id [] [] h = (
  ground arith,
  record {
    id_valid = ground arith;
    arch_valid = λ a e. ground arith;
    branch_valid = λ a e. ground arith;
  },
)
check_parts_sound kind id (c ∷ a) [] h = (
  ground arith,
  record {
    id_valid = ground arith;
    arch_valid = λ a e. ground arith;
    branch_valid = λ a e. ground arith;
  },
)
check_parts_sound kind id [] (d ∷ b) h = (
  ground arith,
  record {
    id_valid = ground arith;
    arch_valid = λ a e. ground arith;
    branch_valid = λ a e. ground arith;
  },
)
check_parts_sound kind id (c ∷ a) (d ∷ b) h = (
  ground arith,
  record {
    id_valid = ground arith;
    arch_valid = λ a e. ground arith;
    branch_valid = λ a e. ground arith;
  },
)

-- the text that a kind prefix leaves
strip_kind_sound :
    (value : Text) {k : RefKind} {rest : Text}
    → strip_kind value ≡ (some k, rest)
    → value ≡ as_str k ++ (b'/' ∷ rest)
unfolding strip_kind as_str
strip_kind_sound value {k} {rest} h = ground (
  arith,
  strip_prefix_sound value (text "app/") {rest = rest},
  strip_prefix_sound value (text "runtime/") {rest = rest},
)

filled_eq_some : (s : Text) {s' : Text} → filled s ≡ some s' → s ≡ s'
filled_eq_some [] h = cc
filled_eq_some (c ∷ s) h = ground arith

complete_parts :
    (value : Text) (kind : Option RefKind) (parts : List Text) {p : PartialRef} {a b : Text}
    → parse_parts value kind parts ≡ ok p
    → p.arch ≡ some a
    → p.branch ≡ some b
    → (parts ≡ p.id ∷ a ∷ b ∷ []) × (p.kind ≡ kind) × IsPartial p
unfolding parse_parts
complete_parts value kind [] h e f = cc
complete_parts value kind (id ∷ []) h e f =
    let (q, v) = check_parts_sound kind id [] [] h in absurd (ground arith)
complete_parts value kind (id ∷ arch ∷ []) h e f =
    let (q, v) = check_parts_sound kind id arch [] h in absurd (ground arith)
complete_parts value kind (id ∷ arch ∷ branch ∷ []) {p} {a} {b} h e f =
    let (q, v) = check_parts_sound kind id arch branch h in
    (ground (arith, filled_eq_some arch {s' = a}, filled_eq_some branch {s' = b}), ground arith, v)
complete_parts value kind (id ∷ arch ∷ branch ∷ more ∷ parts) h e f = cc

-- A complete partial ref that was read has its fields checked, and is spelled by them.
parse_partial-IsPartial :
    (value : Text) {p : PartialRef} {k : RefKind} {a b : Text}
    → parse_partial value ≡ ok p
    → p.kind ≡ some k
    → p.arch ≡ some a
    → p.branch ≡ some b
    → (as_str k ++ (b'/' ∷ (p.id ++ (b'/' ∷ (a ++ (b'/' ∷ b))))) ≡ value) × IsPartial p
unfolding parse_partial
parse_partial-IsPartial value {p} {k} {a} {b} h ek ea eb =
    let (kind, rest) = strip_kind value in
    let (parts, kinds, v) = complete_parts value kind (split rest b'/') h ea eb in
    let spelled : rest ≡ p.id ++ (b'/' ∷ (a ++ (b'/' ∷ b))) =
      unfold join in (sym (join-split rest b'/') ∙ ap (λ ps. join ps b'/') parts) in
    (
      cc (
        strip_kind_sound value {k = k} {rest = rest} (ap (λ x. (x, rest)) (sym kinds ∙ ek)),
        spelled,
      ),
      v,
    )

-- What was read as a full ref prints as the text that was read, and its ID, architecture and
-- branch are filled and pass their checks.
pub full_ref-parse :
    (value : Text) {r : FlatpakRef} → parse value ≡ ok r → (full_ref r ≡ value) × IsValid r
unfolding parse full_ref
full_ref-parse value {r} h =
    let (p, read, found) = >>=-eq-ok (parse_partial value) _ h in
    let ek : p.kind ≡ some r.kind = ground arith in
    let ea : p.arch ≡ some r.arch = ground arith in
    let eb : p.branch ≡ some r.branch = ground arith in
    let ei : p.id ≡ r.id = ground arith in
    let (spelled, v) = parse_partial-IsPartial value read ek ea eb in
    (
      rw ei at spelled,
      record {
        id_valid = rw ei at v.id_valid;
        arch_filled = (v.arch_valid r.arch ea).0;
        arch_valid = (v.arch_valid r.arch ea).1;
        branch_filled = (v.branch_valid r.branch eb).0;
        branch_valid = (v.branch_valid r.branch eb).1;
      },
    )

kind_eq→eq : (j k : RefKind) → kind_eq j k ≡ true → j ≡ k
unfolding kind_eq
kind_eq→eq app app h = refl
kind_eq→eq runtime runtime h = refl
kind_eq→eq app runtime h = cc
kind_eq→eq runtime app h = cc

kind_eq_refl : (k : RefKind) → kind_eq k k ≡ true
unfolding kind_eq
kind_eq_refl app = refl
kind_eq_refl runtime = refl

matches-eq :
    (p : PartialRef) (k : RefKind) (a b : Text) (c : FlatpakRef)
    → p.kind ≡ some k
    → p.arch ≡ some a
    → p.branch ≡ some b
    → matches p c ≡ true
    → c ≡ record { kind = k; id = p.id; arch = a; branch = b }
unfolding matches
matches-eq p k a b c ek ea eb h =
    ground
      (arith, kind_eq→eq k c.kind, text_eq→eq p.id c.id, text_eq→eq a c.arch, text_eq→eq b c.branch)

matches_self :
    (p : PartialRef) (k : RefKind) (a b : Text)
    → p.kind ≡ some k
    → p.arch ≡ some a
    → p.branch ≡ some b
    → matches p (record { kind = k; id = p.id; arch = a; branch = b }) ≡ true
unfolding matches
matches_self p k a b ek ea eb =
    rw (ek, ea, eb, kind_eq_refl, text_eq_refl p.id, text_eq_refl a, text_eq_refl b)

-- A partial ref that was read with all its parts matches one valid full ref: that which prints as
-- the text that was read.
pub matches_complete :
    (value : Text) {p : PartialRef} {k : RefKind} {a b : Text} (candidate : FlatpakRef)
    → parse_partial value ≡ ok p
    → p.kind ≡ some k
    → p.arch ≡ some a
    → p.branch ≡ some b
    → IsValid candidate
    → (matches p candidate ≡ true) ↔ (full_ref candidate ≡ value)
unfolding parse
matches_complete value {p} {k} {a} {b} c read ek ea eb valid =
    let q : FlatpakRef = record { kind = k; id = p.id; arch = a; branch = b } in
    let whole : parse value ≡ ok q = rw (read, ek, ea, eb) in
    (
      λ m. rw (matches-eq p k a b c ek ea eb m) (full_ref-parse value whole).0,
      λ e.
          let same : ok c ≡ ok q = sym (parse-full_ref c valid) ∙ ap parse e ∙ whole in
          let eq : c ≡ q = ground arith in rw eq (matches_self p k a b ek ea eb),
    )
