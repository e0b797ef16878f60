-- ===== src/FilesystemPermissions/Suffixes.antt =====
-- What a suffix of a permission grants, and that no permission is lost.
use freebsd_flatpak.Prelude.{
  ◌≡◌, refl, true, false, List, [], ◌∷◌, ◌++◌, map, some, arith, ok, >>=-eq-ok, Bool-cases, inl,
  inr,
}
use freebsd_flatpak.Text.{Text, text, text_eq, rsplit_once, rsplit_once-append, starts_with}
use freebsd_flatpak.FilesystemPermissions.Defs.{
  read_only, read_write, FilesystemPermission, Suffixed, suffix_access, parse_access_suffix,
  parse_permission, parse_permissions,
}

suffixed :
    (path suffix : Text) {s : Suffixed}
    → rsplit_once (path ++ (b':' ∷ suffix)) b':' ≡ some (path, suffix)
    → suffix_access (path ++ (b':' ∷ suffix)) path suffix ≡ ok s
    → parse_access_suffix (path ++ (b':' ∷ suffix)) ≡ ok s
unfolding parse_access_suffix
suffixed path suffix {s} found given = ground (arith, found, given)

-- A path with the suffix ro is granted for reading, one with rw or create for writing, and only
-- one with create is created.
pub parse_access_suffix_modes :
    (path : Text)
    → (parse_access_suffix (path ++ text ":ro") ≡ ok (path, read_only, false))
      × (parse_access_suffix (path ++ text ":rw") ≡ ok (path, read_write, false))
      × (parse_access_suffix (path ++ text ":create") ≡ ok (path, read_write, true))
unfolding suffix_access text_eq
parse_access_suffix_modes path = (
  suffixed path (text "ro") (rsplit_once-append path (text "ro") b':' (omega arith)) refl,
  suffixed path (text "rw") (rsplit_once-append path (text "rw") b':' (omega arith)) refl,
  suffixed path (text "create") (rsplit_once-append path (text "create") b':' (omega arith)) refl,
)

parse_permission-original :
    (raw : Text) {p : FilesystemPermission} → parse_permission raw ≡ ok p → p.original ≡ raw
unfolding parse_permission
parse_permission-original raw {p} h = elim (Bool-cases (starts_with raw (text "!"))) [
  | inl negated ↦ ground (arith, negated, h)
  | inr plain ↦
      let (s, _, given) =
        >>=-eq-ok (parse_access_suffix raw)
          (λ (path, access, create).
            ok (record { original = raw; path = path; access = access; create = create }))
          (rw plain at h) in
      ground (arith, given)
]

-- Where all items are read, each gives one permission, in the order of the items and with the
-- item's text.
pub parse_permissions-originals :
    (items : List Text) {permissions : List FilesystemPermission}
    → parse_permissions items ≡ ok permissions
    → map (λ p. p.original) permissions ≡ items
unfolding parse_permissions
parse_permissions-originals [] h = ground (arith, h)
parse_permissions-originals (raw ∷ items) h =
    let (p, read, rest) = >>=-eq-ok (parse_permission raw) _ h in
    let (later, followed, whole) = >>=-eq-ok (parse_permissions items) _ rest in
    let first = parse_permission-original raw {p = p} read in
    let ih = parse_permissions-originals items {permissions = later} followed in
    ground (arith, whole, first, ih)
