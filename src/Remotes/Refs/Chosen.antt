-- ===== src/Remotes/Refs/Chosen.antt =====
-- Which ref, and which commit, is chosen.
use mathlib.Core.Path.{subst}
use freebsd_flatpak.Prelude.{
  ap, arith, ◌≡◌, refl, sym, ap, ◌⊎◌, inl, inr, true, List, [], ◌∷◌, Option, none, some, arith,
  Among, here, there, find-Among, Result, ok, err, Bool-cases,
}
use freebsd_flatpak.Text.{
  text_eq, text_eq_refl, Text, text, text_eq→eq, sort_by, sort_by_sound, sort_by_complete,
}
use freebsd_flatpak.FlatpakRef
use freebsd_flatpak.FlatpakRef.{
  kind_eq, none_or_eq, RefKind, RefError, FlatpakRef, PartialRef, kind_eq, none_or_eq,
}
use freebsd_flatpak.Remotes.Refs.Types.{RemoteRef}
use freebsd_flatpak.Remotes.Refs.Select.{
  Candidate, add_candidate, candidates, is_wanted, by_full_ref, is_stable, only_candidate, choose,
  select_ref, or_default, stable_if_open,
}

kind_eq→eq : (a b : RefKind) → kind_eq a b ≡ true → a ≡ b
unfolding kind_eq
kind_eq→eq RefKind.app RefKind.app h = refl
kind_eq→eq RefKind.runtime RefKind.runtime h = refl
kind_eq→eq RefKind.app RefKind.runtime h = cc
kind_eq→eq RefKind.runtime RefKind.app h = cc

kind_eq_refl : (a : RefKind) → kind_eq a a ≡ true
unfolding kind_eq
kind_eq_refl RefKind.app = refl
kind_eq_refl RefKind.runtime = refl

none_or_eq→eq : (o : Option Text) (t : Text) → none_or_eq o t ≡ true → (o ≡ none) ⊎ (o ≡ some t)
none_or_eq→eq none t h = inl refl
none_or_eq→eq (some x) t h = inr (ap some (text_eq→eq x t h))

module _ (partial : PartialRef) (kind : RefKind) (arch : Text) where
  -- A ref of the remote that the request can mean, read as `f`.
  pub record IsMeant (refs : List RemoteRef) (r : RemoteRef) (f : FlatpakRef) : Type 0 where
    pub listed : Among r refs
    pub read : FlatpakRef.parse r.name ≡ ok f
    pub same_kind : f.kind ≡ kind
    pub same_id : f.id ≡ partial.id
    pub same_arch : f.arch ≡ arch
    pub same_branch : (partial.branch ≡ none) ⊎ (partial.branch ≡ some f.branch)

  IsMeant-there :
      {q r : RemoteRef} {f : FlatpakRef} {refs : List RemoteRef}
      → IsMeant refs r f
      → IsMeant (q ∷ refs) r f
  IsMeant-there m = record {
    listed = there m.listed;
    read = m.read;
    same_kind = m.same_kind;
    same_id = m.same_id;
    same_arch = m.same_arch;
    same_branch = m.same_branch;
  }

  IsMeant-of_wanted :
      {r : RemoteRef} {f : FlatpakRef} {refs : List RemoteRef}
      → Among r refs
      → FlatpakRef.parse r.name ≡ ok f
      → is_wanted partial kind arch f ≡ true
      → IsMeant refs r f
  IsMeant-of_wanted {f} listed read wanted =
      let ids = text_eq→eq f.id partial.id in
      let arches = text_eq→eq f.arch arch in
      let kinds = kind_eq→eq f.kind kind in
      record {
        listed = listed;
        read = read;
        same_kind = ground arith;
        same_id = ground arith;
        same_arch = ground arith;
        same_branch = none_or_eq→eq partial.branch f.branch (ground arith);
      }

  wanted-of_IsMeant :
      {r : RemoteRef} {f : FlatpakRef} {refs : List RemoteRef}
      → IsMeant refs r f
      → is_wanted partial kind arch f ≡ true
  wanted-of_IsMeant {f} m =
      let kinds : kind_eq f.kind kind ≡ true = rw m.same_kind (kind_eq_refl kind) in
      let ids : text_eq f.id partial.id ≡ true = rw m.same_id (text_eq_refl partial.id) in
      let arches : text_eq f.arch arch ≡ true = rw m.same_arch (text_eq_refl arch) in
      let branches : none_or_eq partial.branch f.branch ≡ true = elim m.same_branch [
        | inl open_ ↦ rw open_ refl
        | inr same ↦ rw same (text_eq_refl f.branch)
      ] in
      ground arith

  -- What a step adds is the ref that it reads, if wanted.
  add_candidate_sound :
      (p : Result RefError FlatpakRef) (q : RemoteRef) (later : List Candidate) {r : RemoteRef}
      {f : FlatpakRef}
      → Among (f, r) (add_candidate partial kind arch p q later)
      → Among (f, r) later ⊎ ((r ≡ q) × (p ≡ ok f) × (is_wanted partial kind arch f ≡ true))
  unfolding add_candidate
  add_candidate_sound (err e) q later m = inl m
  add_candidate_sound (ok g) q later {r} {f} m = elim (Bool-cases (is_wanted partial kind arch g)) [
    | inr other ↦ inl (rw other at m)
    | inl meant ↦ elim (rw meant at m) [
      | there n ↦ inl n
      | here e ↦
          let same : r ≡ q = ap (λ c. c.1) e in
          let read_as : f ≡ g = ap (λ c. c.0) e in inr (same, ap ok (sym read_as), rw read_as meant)
    ]
  ]

  add_candidate_here :
      (q : RemoteRef) (later : List Candidate) (f : FlatpakRef)
      → is_wanted partial kind arch f ≡ true
      → Among (f, q) (add_candidate partial kind arch (ok f) q later)
  unfolding add_candidate
  add_candidate_here q later f meant = rw meant (here refl)

  add_candidate_there :
      (p : Result RefError FlatpakRef) (q : RemoteRef) (later : List Candidate) {c : Candidate}
      → Among c later
      → Among c (add_candidate partial kind arch p q later)
  unfolding add_candidate
  add_candidate_there (err e) q later m = m
  add_candidate_there (ok g) q later m = elim (Bool-cases (is_wanted partial kind arch g)) [
    | inr other ↦ rw other m
    | inl meant ↦ rw meant (there m)
  ]

  pub candidates-IsMeant :
      (refs : List RemoteRef) {r : RemoteRef} {f : FlatpakRef}
      → Among (f, r) (candidates partial kind arch refs)
      → IsMeant refs r f
  unfolding candidates
  candidates-IsMeant [] m = elim m [ ]
  candidates-IsMeant (q ∷ refs) {r} {f} m =
      let later = candidates partial kind arch refs in
      elim (add_candidate_sound (FlatpakRef.parse q.name) q later {r = r} {f = f} m) [
        | inl n ↦ IsMeant-there (candidates-IsMeant refs n)
        | inr (same, read, meant) ↦
            IsMeant-of_wanted (here same)
              (subst (λ x. FlatpakRef.parse x.name ≡ ok f) (sym same) read) meant
      ]

  pub IsMeant-candidates :
      (refs : List RemoteRef) {r : RemoteRef} {f : FlatpakRef}
      → Among r refs
      → FlatpakRef.parse r.name ≡ ok f
      → is_wanted partial kind arch f ≡ true
      → Among (f, r) (candidates partial kind arch refs)
  unfolding candidates
  IsMeant-candidates [] m read wanted = elim m [ ]
  IsMeant-candidates (q ∷ refs) {r} {f} (there m) read wanted =
      add_candidate_there (FlatpakRef.parse q.name) q (candidates partial kind arch refs)
        (IsMeant-candidates refs m read wanted)
  IsMeant-candidates (q ∷ refs) {r} {f} (here e) read wanted =
      let later = candidates partial kind arch refs in
      subst (λ x. Among (f, x) (add_candidate partial kind arch (FlatpakRef.parse q.name) q later))
        (sym e)
        (subst (λ p. Among (f, q) (add_candidate partial kind arch p q later))
          (sym (subst (λ x. FlatpakRef.parse x.name ≡ ok f) e read))
          (add_candidate_here q later f wanted))

  -- What is chosen stands in the list, and is the stable branch or the only ref of the list.
  choose_sound :
      (sorted : List Candidate) {r : RemoteRef}
      → choose partial kind arch sorted ≡ ok r
      → (f : FlatpakRef) × Among (f, r) sorted
        × ((f.branch ≡ text "stable") ⊎ (sorted ≡ (f, r) ∷ []))
  unfolding choose only_candidate
  choose_sound sorted {r} h = go (stable_if_open partial.branch sorted) refl h
    where
      only :
          (cs : List Candidate)
          → only_candidate partial kind arch cs ≡ ok r
          → (f : FlatpakRef) × Among (f, r) cs × ((f.branch ≡ text "stable") ⊎ (cs ≡ (f, r) ∷ []))
      only [] k = cc
      only ((f, q) ∷ []) k =
          let same : q ≡ r = ground arith in
          (f, here (ap (λ x. (f, x)) (sym same)), inr (ap (λ x. (f, x) ∷ []) same))
      only (a ∷ b ∷ rest) k = cc

      stable_of :
          (branch : Option Text) {c : Candidate}
          → stable_if_open branch sorted ≡ some c
          → Among c sorted × (is_stable c ≡ true)
      stable_of none k = find-Among is_stable sorted k
      stable_of (some b) k = cc

      go :
          (o : Option Candidate)
          → stable_if_open partial.branch sorted ≡ o
          → (elim o [ some (_, q) ↦ ok q | none ↦ only_candidate partial kind arch sorted ]) ≡ ok r
          → (f : FlatpakRef) × Among (f, r) sorted
            × ((f.branch ≡ text "stable") ⊎ (sorted ≡ (f, r) ∷ []))
      go none found k = only sorted k
      go (some (f, q)) found k =
          let same : q ≡ r = ground arith in
          let (m, stable) = stable_of partial.branch found in
          (f, subst (λ x. Among (f, x) sorted) same m, inl (text_eq→eq _ _ stable))

  -- The choice is one of the refs that were meant; where it is not of the stable branch, every
  -- ref that was meant is the chosen one.
  choose-IsMeant :
      (refs : List RemoteRef) {r : RemoteRef}
      → choose partial kind arch (sort_by by_full_ref (candidates partial kind arch refs)) ≡ ok r
      → (f : FlatpakRef) × IsMeant refs r f
        × ((f.branch ≡ text "stable")
            ⊎ ((q : RemoteRef) (g : FlatpakRef) → IsMeant refs q g → q ≡ r))
  choose-IsMeant refs {r} h =
      let cs = candidates partial kind arch refs in
      let (f, m, why) = choose_sound (sort_by by_full_ref cs) h in
      (
        f,
        candidates-IsMeant refs (sort_by_sound by_full_ref (f, r) cs m),
        elim why [
          | inl stable ↦ inl stable
          | inr alone ↦ inr (λ q g k. only f alone (
              sort_by_complete by_full_ref (g, q) cs
                (IsMeant-candidates refs k.listed k.read (wanted-of_IsMeant k))))
        ],
      )
    where
      only :
          (f : FlatpakRef) {q : RemoteRef} {g : FlatpakRef} {cs : List Candidate}
          → cs ≡ (f, r) ∷ []
          → Among (g, q) cs
          → q ≡ r
      only f {q} {g} alone m = elim (rw alone at m) [
        | here e ↦ ap (λ c. c.1) e
        | there n ↦ elim n [ ]
      ]

-- A ref that is selected for a request is listed, is a full ref, and has the kind, the ID, the
-- architecture and the branch that were asked for. Where its branch is not stable, no other
-- listed ref was meant.
pub select_ref_sound :
    (refs : List RemoteRef) (partial : PartialRef) (kind : RefKind) (arch : Text) {r : RemoteRef}
    → select_ref refs partial kind arch ≡ ok r
    → (f : FlatpakRef) × IsMeant partial kind (or_default partial.arch arch) refs r f
      × ((f.branch ≡ text "stable")
          ⊎ ((q : RemoteRef) (g : FlatpakRef)
              → IsMeant partial kind (or_default partial.arch arch) refs q g
              → q ≡ r))
unfolding select_ref
select_ref_sound refs partial kind arch h =
    choose-IsMeant partial kind (or_default partial.arch arch) refs h
