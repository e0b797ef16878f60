-- ===== src/Extensions/Resolved.antt =====
-- Which refs are resolved.
use mathlib.Core.Path.{subst}
use freebsd_flatpak.Prelude.{
  ℕ, ◌≡◌, refl, sym, ap, ◌↔◌, ◌⊎◌, inl, inr, true, List, [], ◌∷◌, map, Option, none, some, arith,
  Among, here, there, find-Among, Option-cases,
}
use freebsd_flatpak.Text.{
  Text, contains, contains-Among, set_insert_sound, set_insert_here, set_insert_there,
}
use freebsd_flatpak.Extensions.Points.{ExtensionPoint, ExtensionParent, branches}
use freebsd_flatpak.Extensions.Resolve.{
  Placed, RuntimeRefParts, runtime_ref_parts, placed_from, point_for_ref, candidate_ref,
  payload_names, takes, add_found, first_branch, resolve_names, resolve_points,
  resolve_extension_refs,
}
use freebsd_flatpak.Extensions.Payloads.{
  IsPayload, IsFirst, payload_names_sound, payload_names_complete, find-IsFirst, IsFirst-find,
}
use freebsd_flatpak.Extensions.Owners.{point_for_ref_sound}

module _ (points : List ExtensionPoint) (parent : ExtensionParent) (available : List Text) where
  -- The loop takes the ref for the name.
  record IsTakenBy (p : Placed) (name r : Text) : Type 0 where
    pub payload : Among name (payload_names p.1 parent available)
    pub first : first_branch points parent available p.0 p.1 name ≡ some r

  add_found_sound :
      (o : Option Text) (resolved : List Text) {r : Text}
      → Among r (add_found points parent available o resolved)
      → (o ≡ some r) ⊎ Among r resolved
  add_found_sound none resolved m = inr m
  add_found_sound (some c) resolved {r} m = elim (set_insert_sound c resolved {z = r} m) [
    | inl same ↦ inl (ap some (sym same))
    | inr n ↦ inr n
  ]

  add_found_here :
      {o : Option Text} (resolved : List Text) {r : Text}
      → o ≡ some r
      → Among r (add_found points parent available o resolved)
  add_found_here {o} resolved {r} e =
      subst (λ x. Among r (add_found points parent available x resolved)) (sym e)
        (set_insert_here r resolved)

  add_found_there :
      (o : Option Text) (resolved : List Text) {r : Text}
      → Among r resolved
      → Among r (add_found points parent available o resolved)
  add_found_there none resolved m = m
  add_found_there (some c) resolved {r} m = set_insert_there c resolved {z = r} m

  -- The names of one point.
  module _ (i : ℕ) (point : ExtensionPoint) where
    resolve_names_sound :
        (names resolved : List Text) {r : Text}
        → Among r (resolve_names points parent available i point resolved names)
        → Among r resolved
          ⊎ ((name : Text) × Among name names
              × (first_branch points parent available i point name ≡ some r))
    unfolding resolve_names
    resolve_names_sound [] resolved m = inl m
    resolve_names_sound (name ∷ names) resolved {r} m =
        let found = first_branch points parent available i point name in
        elim (resolve_names_sound names (add_found points parent available found resolved) {r = r}
          m) [
            | inr (other, n, e) ↦ inr (other, there n, e)
            | inl n ↦ elim (add_found_sound found resolved {r = r} n) [
              | inl e ↦ inr (name, here refl, e)
              | inr k ↦ inl k
            ]
          ]

    resolve_names_there :
        (names resolved : List Text) {r : Text}
        → Among r resolved
        → Among r (resolve_names points parent available i point resolved names)
    unfolding resolve_names
    resolve_names_there [] resolved m = m
    resolve_names_there (name ∷ names) resolved {r} m =
        let found = first_branch points parent available i point name in
        resolve_names_there names (add_found points parent available found resolved)
          (add_found_there found resolved m)

    resolve_names_here :
        (names resolved : List Text) {name r : Text}
        → Among name names
        → first_branch points parent available i point name ≡ some r
        → Among r (resolve_names points parent available i point resolved names)
    unfolding resolve_names
    resolve_names_here [] resolved m e = elim m [ ]
    resolve_names_here (other ∷ names) resolved {name} {r} (there m) e =
        resolve_names_here names
          (add_found points parent available (first_branch points parent available i point other)
            resolved)
          m e
    resolve_names_here (other ∷ names) resolved {name} {r} (here same) e =
        let found = first_branch points parent available i point other in
        resolve_names_there names (add_found points parent available found resolved) (
          add_found_here resolved
            (subst (λ x. first_branch points parent available i point x ≡ some r) same e))

  -- The points one after the other.
  resolve_points_sound :
      (ps : List Placed) (resolved : List Text) {r : Text}
      → Among r (resolve_points points parent available resolved ps)
      → Among r resolved ⊎ ((p : Placed) × (name : Text) × Among p ps × IsTakenBy p name r)
  unfolding resolve_points
  resolve_points_sound [] resolved m = inl m
  resolve_points_sound ((i, point) ∷ ps) resolved {r} m =
      let names = payload_names point parent available in
      let after = resolve_names points parent available i point resolved names in
      elim (resolve_points_sound ps after {r = r} m) [
        | inr (p, name, n, t) ↦ inr (p, name, there n, t)
        | inl n ↦ elim (resolve_names_sound i point names resolved {r = r} n) [
          | inl k ↦ inl k
          | inr (name, k, e) ↦ inr ((i, point), name, here refl, record { payload = k; first = e })
        ]
      ]

  resolve_points_there :
      (ps : List Placed) (resolved : List Text) {r : Text}
      → Among r resolved
      → Among r (resolve_points points parent available resolved ps)
  unfolding resolve_points
  resolve_points_there [] resolved m = m
  resolve_points_there ((i, point) ∷ ps) resolved {r} m =
      let names = payload_names point parent available in
      resolve_points_there ps (resolve_names points parent available i point resolved names)
        (resolve_names_there i point names resolved m)

  resolve_points_here :
      (ps : List Placed) (resolved : List Text) {p : Placed} {name r : Text}
      → Among p ps
      → IsTakenBy p name r
      → Among r (resolve_points points parent available resolved ps)
  unfolding resolve_points
  resolve_points_here [] resolved m t = elim m [ ]
  resolve_points_here ((i, point) ∷ ps) resolved (there m) t =
      resolve_points_here ps
        (resolve_names points parent available i point resolved
          (payload_names point parent available))
        m t
  resolve_points_here ((i, point) ∷ ps) resolved {p} {name} {r} (here same) t =
      let mine = subst (λ q. IsTakenBy q name r) same t in
      let names = payload_names point parent available in
      resolve_points_there ps (resolve_names points parent available i point resolved names)
        (resolve_names_here i point names resolved mine.payload mine.first)

  resolve_extension_refs_taken :
      (r : Text)
      → Among r (resolve_extension_refs points parent available)
        ↔ ((p : Placed) × (name : Text) × Among p (placed_from 0 points) × IsTakenBy p name r)
  unfolding resolve_extension_refs
  resolve_extension_refs_taken r = (
    λ m. elim (resolve_points_sound (placed_from 0 points) [] {r = r} m) [
      | inl n ↦ elim n [ ]
      | inr t ↦ t
    ],
    λ (p, name, m, t). resolve_points_here (placed_from 0 points) [] m t,
  )

  -- The refs that a point may have for a name, in the order of its branches.
  abbrev pub candidates_of : Placed → Text → List Text
  candidates_of p name = map (candidate_ref parent name) (branches p.1 parent)

  IsTakenBy-IsFirst :
      (p : Placed) (name r : Text)
      → IsTakenBy p name r
      → IsPayload parent available p.1 name
        × IsFirst points parent available p.0 r (candidates_of p name)
  unfolding first_branch
  IsTakenBy-IsFirst p name r t = (
    payload_names_sound parent available p.1 t.payload,
    find-IsFirst points parent available p.0 (candidates_of p name) t.first,
  )

  IsFirst-IsTakenBy :
      (p : Placed) (name r : Text)
      → IsPayload parent available p.1 name
      → IsFirst points parent available p.0 r (candidates_of p name)
      → IsTakenBy p name r
  unfolding first_branch
  IsFirst-IsTakenBy p name r payload first = record {
    payload = payload_names_complete parent available p.1 payload;
    first = IsFirst-find points parent available p.0 (candidates_of p name) first;
  }

  -- A ref is resolved exactly if it is, for a declared point and a name, the ref of the first of the
  -- point's branches that is available and belongs to that point. The name is the point's own or,
  -- where the point has subdirectories, that of an available ref of the parent's architecture below
  -- the point's name.
  pub resolve_extension_refs_iff :
      (r : Text)
      → Among r (resolve_extension_refs points parent available) ↔ (
          (p : Placed) × (name : Text) × Among p (placed_from 0 points)
          × IsPayload parent available p.1 name
          × IsFirst points parent available p.0 r (candidates_of p name))
  resolve_extension_refs_iff r = (
    λ m.
        let (p, name, listed, taken) = (resolve_extension_refs_taken r).0 m in
        let (payload, first) = IsTakenBy-IsFirst p name r taken in
        (p, name, listed, payload, first),
    λ (p, name, listed, payload, first).
        (resolve_extension_refs_taken r).1
          (p, name, listed, IsFirst-IsTakenBy p name r payload first),
  )

  -- A resolved ref is an available runtime of the parent's architecture that one of the points
  -- owns.
  pub resolve_extension_refs_sound :
      {r : Text}
      → Among r (resolve_extension_refs points parent available)
      → Among r available
        × ((p : Placed) × (parts : RuntimeRefParts) × (point_for_ref points parent r ≡ some p)
            × (runtime_ref_parts r ≡ some parts)
            × (parts.arch ≡ parent.arch))
  unfolding first_branch takes
  resolve_extension_refs_sound {r} m =
      let (p, name, listed, taken) = (resolve_extension_refs_taken r).0 m in
      let (_, t) =
        find-Among (takes points parent available p.0)
          (map (candidate_ref parent name) (branches p.1 parent)) {x = r} taken.first in
      let there_is : contains available r ≡ true = ground arith in
      elim (Option-cases (point_for_ref points parent r)) [
        | inl nobody ↦ ground (arith, nobody, t)
        | inr (q, owner) ↦
            let (parts, read, same, _, _, _) = point_for_ref_sound points parent r owner in
            (contains-Among available r there_is, (q, parts, owner, read, same))
      ]
