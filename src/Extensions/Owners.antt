-- ===== src/Extensions/Owners.antt =====
-- The point that owns a ref.
use freebsd_flatpak.Prelude.{
  ℕ, ◌≤◌, ◌≡◌, refl, sym, ap, ◌∙◌, ◌<◌, inl, inr, true, List, [], ◌∷◌, Option, none, some, arith,
  keep, ltb, Among, here, there, if◌then◌else◌, Bool-cases, keep-Among, Among-keep,
}
use freebsd_flatpak.Text.{Text, text_eq, text_eq→eq, byte_len}
use freebsd_flatpak.Extensions.Points.{ExtensionPoint, ExtensionParent}
use freebsd_flatpak.Extensions.Resolve.{
  RuntimeRefParts, runtime_ref_parts, Placed, placed_from, owns, longest, point_for_ref,
}

abbrev pub name_length : Placed → ℕ
name_length p = byte_len p.1.name

ap_le : {p q : Placed} → p ≡ q → name_length p ≤ name_length q
ap_le e = let same = ap name_length e in omega arith

longest_of_none : (ps : List Placed) → longest ps ≡ none → ps ≡ []
unfolding longest
longest_of_none [] h = refl
longest_of_none (q ∷ qs) h = ground (arith, h)

-- The point given is of the list, and no name of the list is longer.
longest_sound :
    (ps : List Placed) {p : Placed}
    → longest ps ≡ some p
    → Among p ps × ((q : Placed) → Among q ps → name_length q ≤ name_length p)
unfolding longest
longest_sound [] h = cc
longest_sound (q ∷ qs) {p} h = go (longest qs) refl (λ r e. longest_sound qs {p = r} e) h
  where
    go :
        (o : Option Placed)
        → longest qs ≡ o
        → ((r : Placed)
            → longest qs ≡ some r
            → Among r qs × ((s : Placed) → Among s qs → name_length s ≤ name_length r))
        → (elim o [
          | none ↦ some q
          | some r ↦ if ltb (name_length r) (name_length q) then some q else some r
        ])
          ≡ some p
        → Among p (q ∷ qs) × ((s : Placed) → Among s (q ∷ qs) → name_length s ≤ name_length p)
    go none e ih k =
        let same : p ≡ q = ground arith in
        let empty = longest_of_none qs e in
        (
          here same,
          λ s n. elim n [ here e' ↦ ap_le (e' ∙ sym same) | there n' ↦ elim (rw empty at n') [ ] ],
        )
    go (some r) e ih k =
        let (listed, most) = ih r e in
        elim (Bool-cases (ltb (name_length r) (name_length q))) [
          | inl longer ↦
              let same : p ≡ q = ground (arith, longer, k) in
              let less : name_length r < name_length q = ground (arith, longer) in
              (
                here same,
                λ s n. elim n [
                  | here e' ↦ ap_le (e' ∙ sym same)
                  | there n' ↦
                      let below = most s n' in
                      let length : name_length p ≡ name_length q = ap name_length same in
                      omega arith
                ],
              )
          | inr shorter ↦
              let same : p ≡ r = ground (arith, shorter, k) in
              let less : name_length q ≤ name_length r = ground (arith, shorter) in
              let length : name_length p ≡ name_length r = ap name_length same in
              (
                there (rw same listed),
                λ s n. elim n [
                  | here e' ↦ let at_most = ap_le e' in omega arith
                  | there n' ↦ let below = most s n' in omega arith
                ],
              )
        ]

-- The point that owns a ref matches it, and no other that matches has a longer name; so a nested
-- point takes its payloads from the point around it.
pub point_for_ref_sound :
    (points : List ExtensionPoint) (parent : ExtensionParent) (r : Text) {p : Placed}
    → point_for_ref points parent r ≡ some p
    → (parts : RuntimeRefParts) × (runtime_ref_parts r ≡ some parts)
      × (parts.arch ≡ parent.arch)
      × Among p (placed_from 0 points)
      × (owns parent parts p.1 ≡ true)
      × ((q : Placed)
          → Among q (placed_from 0 points)
          → owns parent parts q.1 ≡ true
          → name_length q ≤ name_length p)
unfolding point_for_ref
point_for_ref_sound points parent r {p} h = go (runtime_ref_parts r) refl h
  where
    go :
        (o : Option RuntimeRefParts)
        → runtime_ref_parts r ≡ o
        → (elim o [
          | none ↦ none
          | some candidate ↦
              if text_eq candidate.arch parent.arch
              then longest (keep (λ p. owns parent candidate p.1) (placed_from 0 points))
              else none
        ])
          ≡ some p
        → (parts : RuntimeRefParts) × (runtime_ref_parts r ≡ some parts)
          × (parts.arch ≡ parent.arch)
          × Among p (placed_from 0 points)
          × (owns parent parts p.1 ≡ true)
          × ((q : Placed)
              → Among q (placed_from 0 points)
              → owns parent parts q.1 ≡ true
              → name_length q ≤ name_length p)
    go none e k = cc
    go (some parts) e k = elim (Bool-cases (text_eq parts.arch parent.arch)) [
      | inr other ↦ let no : ◌≡◌ {A = Option Placed} none (some p) = rw other at k in cc
      | inl same ↦
          let mine = λ (q : Placed). owns parent parts q.1 in
          let placed = placed_from 0 points in
          let (m, most) = longest_sound (keep mine placed) {p = p} (rw same at k) in
          let (listed, owned) = keep-Among mine placed m in
          (
            parts,
            e,
            text_eq→eq _ _ same,
            listed,
            owned,
            λ q n t. most q (Among-keep mine placed n t),
          )
    ]
