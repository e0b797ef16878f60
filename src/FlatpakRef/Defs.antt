-- ===== src/FlatpakRef/Defs.antt =====
-- src/flatpak_ref.rs: the two kinds of refs and the operations on them.
use freebsd_flatpak.Prelude.{
  Bool, true, false, ◌&&◌, not, List, [], ◌∷◌, ◌++◌, Option, none, some, if◌then◌else◌, Result, ok,
  err, ◌>>=◌, ◌>>◌, ok_or, map_err,
}
use freebsd_flatpak.Text.{Text, text, text_eq, split, strip_prefix}
use freebsd_flatpak.FlatpakRef.Names.{
  NameError, ArchError, BranchError, validate_id, validate_arch, validate_branch,
}

pub data RefKind : Type 0 where
  app runtime : RefKind

unfoldable pub kind_eq : RefKind → RefKind → Bool
kind_eq app app = true
kind_eq runtime runtime = true
kind_eq _ _ = false

-- `RefKind::as_str`
unfoldable pub as_str : RefKind → Text
as_str app = text "app"
as_str runtime = text "runtime"

pub data RefError : Type 0 where
  both_kinds : RefError
  no_kind no_arch no_branch invalid_partial_ref : Text → RefError
  invalid_id : Text → NameError → RefError
  invalid_arch : Text → ArchError → RefError
  invalid_branch : Text → BranchError → RefError
  kind_conflict : RefKind → RefKind → RefError

-- `target` is the option that `--app` and `--runtime` set; the result is its new value
unfoldable pub set_kind_filter : Option RefKind → RefKind → Result RefError (Option RefKind)
unfolding kind_eq
set_kind_filter target kind =
    if elim target [ none ↦ false | some current ↦ not (kind_eq current kind) ]
    then err both_kinds
    else ok (some kind)

pub record PartialRef : Type 0 where
  pub kind : Option RefKind
  pub id : Text
  pub arch : Option Text
  pub branch : Option Text

pub record FlatpakRef : Type 0 where
  pub kind : RefKind
  pub id : Text
  pub arch : Text
  pub branch : Text

-- the part that `parts.get(i)` finds, if it is not empty
abbrev pub filled : Text → Option Text
filled [] = none
filled (c ∷ s) = some (c ∷ s)

unfoldable pub strip_kind : Text → Option RefKind × Text
unfolding strip_prefix
strip_kind value = elim (strip_prefix value (text "app/")) [
  | some rest ↦ (some app, rest)
  | none ↦ elim (strip_prefix value (text "runtime/")) [
    | some rest ↦ (some runtime, rest)
    | none ↦ (none, value)
  ]
]

-- the checks behind the split, with an empty part for a missing one
unfoldable pub check_parts : Option RefKind → Text → Text → Text → Result RefError PartialRef
check_parts kind id arch branch = do
  map_err (invalid_id id) (validate_id id)
  elim (filled arch) [ none ↦ ok tt | some a ↦ map_err (invalid_arch a) (validate_arch a) ]
  elim (filled branch) [ none ↦ ok tt | some b ↦ map_err (invalid_branch b) (validate_branch b) ]
  ok (record { kind = kind; id = id; arch = filled arch; branch = filled branch })

-- a list of parts is never empty, and more than three are too many
unfoldable pub parse_parts : Text → Option RefKind → List Text → Result RefError PartialRef
parse_parts value kind (id ∷ []) = check_parts kind id [] []
parse_parts value kind (id ∷ arch ∷ []) = check_parts kind id arch []
parse_parts value kind (id ∷ arch ∷ branch ∷ []) = check_parts kind id arch branch
parse_parts value kind _ = err (invalid_partial_ref value)

-- `PartialRef::parse`
unfoldable pub parse_partial : Text → Result RefError PartialRef
parse_partial value =
    let (kind, partial) = strip_kind value in parse_parts value kind (split partial b'/')

-- `FlatpakRef::parse`
unfoldable pub parse : Text → Result RefError FlatpakRef
parse value = do
  partial ← parse_partial value
  kind ← ok_or partial.kind (no_kind value)
  arch ← ok_or partial.arch (no_arch value)
  branch ← ok_or partial.branch (no_branch value)
  ok (record { kind = kind; id = partial.id; arch = arch; branch = branch })

-- `FlatpakRef::partial_ref`
unfoldable pub partial_ref : FlatpakRef → Text
partial_ref r = r.id ++ (b'/' ∷ (r.arch ++ (b'/' ∷ r.branch)))

-- `FlatpakRef::full_ref`
unfoldable pub full_ref : FlatpakRef → Text
unfolding as_str
full_ref r = as_str r.kind ++ (b'/' ∷ (r.id ++ (b'/' ∷ (r.arch ++ (b'/' ∷ r.branch)))))

-- `PartialRef::effective_kind`
unfoldable pub effective_kind : PartialRef → Option RefKind → Result RefError (Option RefKind)
unfolding kind_eq
effective_kind partial filter = elim partial.kind [
  | none ↦ ok filter
  | some prefix ↦ elim filter [
    | none ↦ ok (some prefix)
    | some wanted ↦
        if kind_eq prefix wanted then ok (some prefix) else err (kind_conflict prefix wanted)
  ]
]

-- `Option::is_none_or(|x| x == value)`
abbrev pub none_or_eq : Option Text → Text → Bool
none_or_eq none value = true
none_or_eq (some x) value = text_eq x value

abbrev pub none_or_kind : Option RefKind → RefKind → Bool
none_or_kind none kind = true
none_or_kind (some k) kind = kind_eq k kind

-- `PartialRef::matches`
unfoldable pub matches : PartialRef → FlatpakRef → Bool
unfolding text_eq kind_eq
matches partial candidate =
    none_or_kind partial.kind candidate.kind
    && text_eq partial.id candidate.id
    && none_or_eq partial.arch candidate.arch
    && none_or_eq partial.branch candidate.branch

-- `PartialRef::with_default_branch`
unfoldable pub with_default_branch : PartialRef → Option Text → Result RefError PartialRef
with_default_branch partial default = elim partial.branch [
  | some b ↦ ok partial
  | none ↦ elim default [
    | none ↦ ok partial
    | some branch ↦ do
      map_err (invalid_branch branch) (validate_branch branch)
      ok (record partial { branch = some branch })
  ]
]

unfoldable pub validate_partial_ref : Text → Option Text → Result RefError (Unit {0})
validate_partial_ref value default_branch = do
  partial ← parse_partial value
  checked ← with_default_branch partial default_branch
  ok tt
