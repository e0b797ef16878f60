-- ===== src/Extensions/Payloads.antt =====
-- src/extensions/extension_points.rs: the payloads of a point, and the first of its branches.
use mathlib.Core.Path.{subst}
use freebsd_flatpak.Prelude.{
  ℕ, ◌≡◌, refl, sym, ap, ◌⊎◌, inl, inr, true, false, Bool, if◌then◌else◌, List, [], ◌∷◌, ◌++◌,
  Option, none, some, arith, find, Among, here, there, Bool-cases, Option-cases,
}
use freebsd_flatpak.Text.{
  Text, text, text_eq, text_eq→eq, text_eq_refl, starts_with, contains, contains-Among,
  Among-contains, set_insert_sound, set_insert_here, set_insert_there,
}
use freebsd_flatpak.Extensions.Points.{ExtensionPoint, ExtensionParent}
use freebsd_flatpak.Extensions.Resolve.{
  Placed, RuntimeRefParts, runtime_ref_parts, point_for_ref, is_payload, add_name, child_names,
  payload_names, takes,
}

module _ (parent : ExtensionParent) (available : List Text) where
  -- An available ref of the parent's architecture with the name, which is below the point's.
  pub record IsBelow (point : ExtensionPoint) (name ref_name : Text) : Type 0 where
    pub parts : RuntimeRefParts
    pub read : runtime_ref_parts ref_name ≡ some parts
    pub named : parts.name ≡ name
    pub below : starts_with name (point.name ++ text ".") ≡ true
    pub arch : parts.arch ≡ parent.arch

  -- The point's own name or, where it has subdirectories, that of an available ref below it.
  abbrev pub IsPayload : ExtensionPoint → Text → Type 0
  IsPayload point name =
      (name ≡ point.name)
      ⊎ ((point.subdirectories ≡ true) × ((c : Text) × Among c available × IsBelow point name c))

  module _ (point : ExtensionPoint) where
    add_name_sound :
        (c : Text) (names : List Text) {name : Text}
        → Among name (add_name point parent (runtime_ref_parts c) names)
        → IsBelow point name c ⊎ Among name names
    unfolding add_name
    add_name_sound c names {name} m = elim (Option-cases (runtime_ref_parts c)) [
      | inl unread ↦ inr (rw unread at m)
      | inr (parts, read) ↦
          let n : Among name (add_name point parent (some parts) names) = rw read at m in
          elim (Bool-cases (is_payload point parent parts)) [
            | inr other ↦ inr (rw other at n)
            | inl payload ↦ elim (set_insert_sound parts.name names {z = name} (rw payload at n)) [
              | inr k ↦ inr k
              | inl same ↦
                  let below : starts_with parts.name (point.name ++ text ".") ≡ true =
                    ground (arith, payload) in
                  let arch : text_eq parts.arch parent.arch ≡ true = ground (arith, payload) in
                  inl (record {
                    parts = parts;
                    read = read;
                    named = sym same;
                    below =
                        subst (λ (t : Text). starts_with t (point.name ++ text ".") ≡ true)
                          (sym same) below;
                    arch = text_eq→eq parts.arch parent.arch arch;
                  })
            ]
          ]
    ]

    add_name_there :
        (o : Option RuntimeRefParts) (names : List Text) {name : Text}
        → Among name names
        → Among name (add_name point parent o names)
    unfolding add_name
    add_name_there none names m = m
    add_name_there (some parts) names {name} m = elim (Bool-cases (is_payload point parent parts)) [
      | inl payload ↦ rw payload (set_insert_there parts.name names {z = name} m)
      | inr other ↦ rw other m
    ]

    add_name_here :
        (c : Text) (names : List Text) {name : Text}
        → IsBelow point name c
        → Among name (add_name point parent (runtime_ref_parts c) names)
    unfolding add_name
    add_name_here c names {name} b =
        let below : starts_with b.parts.name (point.name ++ text ".") ≡ true =
          subst (λ (t : Text). starts_with t (point.name ++ text ".") ≡ true) (sym b.named)
            b.below in
        let arch : text_eq b.parts.arch parent.arch ≡ true =
          subst (λ (t : Text). text_eq b.parts.arch t ≡ true) b.arch (text_eq_refl b.parts.arch) in
        let payload : is_payload point parent b.parts ≡ true = ground (arith, below, arch) in
        subst (λ (t : Text). Among t (add_name point parent (runtime_ref_parts c) names)) b.named
          (rw (b.read, payload) (set_insert_here b.parts.name names))

    child_names_sound :
        (names refs : List Text) {name : Text}
        → Among name (child_names point parent names refs)
        → Among name names ⊎ ((c : Text) × Among c refs × IsBelow point name c)
    unfolding child_names
    child_names_sound names [] m = inl m
    child_names_sound names (c ∷ refs) {name} m =
        elim (child_names_sound (add_name point parent (runtime_ref_parts c) names) refs
          {name = name} m) [
            | inr (d, n, b) ↦ inr (d, there n, b)
            | inl n ↦ elim (add_name_sound c names {name = name} n) [
              | inl b ↦ inr (c, here refl, b)
              | inr k ↦ inl k
            ]
          ]

    child_names_there :
        (names refs : List Text) {name : Text}
        → Among name names
        → Among name (child_names point parent names refs)
    unfolding child_names
    child_names_there names [] m = m
    child_names_there names (c ∷ refs) {name} m =
        child_names_there (add_name point parent (runtime_ref_parts c) names) refs
          (add_name_there (runtime_ref_parts c) names {name = name} m)

    child_names_here :
        (names refs : List Text) {name c : Text}
        → Among c refs
        → IsBelow point name c
        → Among name (child_names point parent names refs)
    unfolding child_names
    child_names_here names [] m b = elim m [ ]
    child_names_here names (d ∷ refs) {name} {c} (there m) b =
        child_names_here (add_name point parent (runtime_ref_parts d) names) refs m b
    child_names_here names (d ∷ refs) {name} {c} (here same) b =
        child_names_there (add_name point parent (runtime_ref_parts d) names) refs
          (add_name_here d names (subst (IsBelow point name) same b))

    nested_payloads :
        point.subdirectories ≡ true
        → payload_names point parent available
          ≡ child_names point parent (point.name ∷ []) available
    unfolding payload_names
    nested_payloads h =
        ap
          (λ (b : Bool).
            if b then child_names point parent (point.name ∷ []) available else point.name ∷ [])
          h

    flat_payloads :
        point.subdirectories ≡ false → payload_names point parent available ≡ point.name ∷ []
    unfolding payload_names
    flat_payloads h =
        ap
          (λ (b : Bool).
            if b then child_names point parent (point.name ∷ []) available else point.name ∷ [])
          h

    only_name : {name : Text} → Among name (point.name ∷ []) → IsPayload point name
    only_name (here same) = inl same
    only_name (there m) = elim m [ ]

    pub payload_names_sound :
        {name : Text} → Among name (payload_names point parent available) → IsPayload point name
    payload_names_sound {name} m = elim (Bool-cases point.subdirectories) [
      | inr flat ↦ only_name (subst (λ (l : List Text). Among name l) (flat_payloads flat) m)
      | inl nested ↦
          elim (child_names_sound (point.name ∷ []) available {name = name}
            (subst (λ (l : List Text). Among name l) (nested_payloads nested) m)) [
              | inl k ↦ only_name k
              | inr b ↦ inr (nested, b)
            ]
    ]

    pub payload_names_complete :
        {name : Text} → IsPayload point name → Among name (payload_names point parent available)
    payload_names_complete {name} (inl same) = elim (Bool-cases point.subdirectories) [
      | inr flat ↦ subst (λ (l : List Text). Among name l) (sym (flat_payloads flat)) (here same)
      | inl nested ↦
          subst (λ (l : List Text). Among name l) (sym (nested_payloads nested))
            (child_names_there (point.name ∷ []) available (here same))
    ]
    payload_names_complete {name} (inr (nested, (c, m, b))) =
        subst (λ (l : List Text). Among name l) (sym (nested_payloads nested))
          (child_names_here (point.name ∷ []) available m b)

module _ (points : List ExtensionPoint) (parent : ExtensionParent) (available : List Text) where
  -- An available ref that belongs to the point at the place.
  abbrev pub IsOwned : ℕ → Text → Type 0
  IsOwned i c =
      Among c available × ((q : Placed) × (point_for_ref points parent c ≡ some q) × (q.0 ≡ i))

  -- The ref is one that the point owns, and those before it in the list are not.
  pub data IsFirst (i : ℕ) (r : Text) : List Text → Type 0 where
    at_head : {c : Text} {cs : List Text} → r ≡ c → IsOwned i c → IsFirst i r (c ∷ cs)
    in_tail : {c : Text} {cs : List Text} → ¬ (IsOwned i c) → IsFirst i r cs → IsFirst i r (c ∷ cs)

  takes-IsOwned : (i : ℕ) (c : Text) → takes points parent available i c ≡ true → IsOwned i c
  unfolding takes
  takes-IsOwned i c h =
      let there_is : contains available c ≡ true = ground (arith, h) in
      elim (Option-cases (point_for_ref points parent c)) [
        | inl nobody ↦ absurd (ground (arith, h, nobody))
        | inr (q, owner) ↦
            (contains-Among available c there_is, (q, owner, ground (arith, h, owner)))
      ]

  IsOwned-takes : (i : ℕ) (c : Text) → IsOwned i c → takes points parent available i c ≡ true
  unfolding takes
  IsOwned-takes i c (m, (q, owner, same)) =
      let there_is = Among-contains available c m in ground (arith, there_is, owner, same)

  pub find-IsFirst :
      (i : ℕ) (cs : List Text) {r : Text}
      → find (takes points parent available i) cs ≡ some r
      → IsFirst i r cs
  find-IsFirst i [] h = cc
  find-IsFirst i (c ∷ cs) {r} h = elim (Bool-cases (takes points parent available i c)) [
    | inl taken ↦
        let same : r ≡ c = ground (arith, h, taken) in at_head same (takes-IsOwned i c taken)
    | inr left ↦
        in_tail (λ owned. cc (IsOwned-takes i c owned, left))
          (find-IsFirst i cs (ground (arith, h, left)))
  ]

  pub IsFirst-find :
      (i : ℕ) (cs : List Text) {r : Text}
      → IsFirst i r cs
      → find (takes points parent available i) cs ≡ some r
  IsFirst-find i [] f = elim f [ ]
  IsFirst-find i (c ∷ cs) {r} (at_head same owned) =
      let taken = IsOwned-takes i c owned in ground (arith, taken, same)
  IsFirst-find i (c ∷ cs) {r} (in_tail other f) =
      elim (Bool-cases (takes points parent available i c)) [
        | inl taken ↦ absurd (other (takes-IsOwned i c taken))
        | inr left ↦ let found = IsFirst-find i cs {r = r} f in ground (arith, left, found)
      ]
