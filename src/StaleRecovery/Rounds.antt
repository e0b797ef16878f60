-- ===== src/StaleRecovery/Rounds.antt =====
-- One round over the edges.
use mathlib.Core.Path.{subst}
use freebsd_flatpak.Prelude.{
  ℕ, suc, ◌≤◌, ◌<◌, ◌≡◌, refl, sym, ap, ◌∙◌, inl, inr, Bool, true, false, not, List, [], ◌∷◌, none,
  some, arith, if◌then◌else◌, length, Among, here, there, Bool-cases,
}
use freebsd_flatpak.Paths.{
  FilePath, path_eq, path_insert, path_contains, path_contains-insert, path_eq→eq,
}
use freebsd_flatpak.StaleRecovery.Active.{Edge, follow, follow_edges}

-- What the edges lead to from a set.
pub data Leads (start : List FilePath) (edges : List Edge) : FilePath → Type 0 where
  from : {x : FilePath} → Among x start → Leads start edges x
  along : {a b : FilePath} → Among (some (a, b)) edges → Leads start edges a → Leads start edges b

-- A set that no edge leads out of.
abbrev pub IsClosed : List Edge → List FilePath → Type 0
IsClosed edges set =
    (a b : FilePath)
    → Among (some (a, b)) edges
    → path_contains set a ≡ true
    → path_contains set b ≡ true

-- The ends of edges that are not in the set.
abbrev is_missing : Edge → List FilePath → Bool
is_missing none set = false
is_missing (some (a, b)) set = not (path_contains set b)

pub missing : List Edge → List FilePath → ℕ
missing [] set = 0
missing (e ∷ edges) set =
    let rest = missing edges set in if is_missing e set then suc rest else rest

follow_grows :
    (e : Edge) (set : List FilePath) (c : Bool) (x : FilePath)
    → path_contains set x ≡ true
    → path_contains (follow e (set, c)).0 x ≡ true
unfolding follow
follow_grows none set c x h = h
follow_grows (some (a, b)) set c x h = ground (arith, path_contains-insert b set x)

pub insert_grows :
    (b : FilePath) (set : List FilePath) (x : FilePath)
    → path_contains set x ≡ true
    → path_contains (path_insert b set) x ≡ true
insert_grows b set x h = ground (arith, path_contains-insert b set x, h)

some-ne-none : {a b : FilePath} → ◌≡◌ {A = Edge} (some (a, b)) none → ⊥
some-ne-none e = cc

true-ne-false : ◌≡◌ {A = Bool} true false → ⊥
true-ne-false e = cc

pub follow-none : (set : List FilePath) (c : Bool) → follow none (set, c) ≡ (set, c)
unfolding follow
follow-none set c = refl

module _ (a b : FilePath) (set : List FilePath) where
  pub follow_free :
      (c : Bool) → path_contains set a ≡ false → follow (some (a, b)) (set, c) ≡ (set, c)
  unfolding follow
  follow_free c free = ground (arith, free)

  pub follow_known :
      (c : Bool)
      → path_contains set a ≡ true
      → path_contains set b ≡ true
      → follow (some (a, b)) (set, c) ≡ (path_insert b set, c)
  unfolding follow
  follow_known true held known = ground (arith, held, known)
  follow_known false held known = ground (arith, held, known)

  pub follow_new :
      (c : Bool)
      → path_contains set a ≡ true
      → path_contains set b ≡ false
      → follow (some (a, b)) (set, c) ≡ (path_insert b set, true)
  unfolding follow
  follow_new true held new = ground (arith, held, new)
  follow_new false held new = ground (arith, held, new)

  -- An insertion of a member.
  pub insert_known :
      path_contains set b ≡ true
      → (x : FilePath) → path_contains (path_insert b set) x ≡ path_contains set x
  insert_known known x =
      let split = path_contains-insert b set x in
      elim (Bool-cases (path_eq b x)) [
        | inl same ↦
            let e : b ≡ x = path_eq→eq b x same in
            let held : path_contains set x ≡ true =
              subst (λ y. path_contains set y ≡ true) e known in
            ground (arith, split, same, held)
        | inr other ↦ ground (arith, split, other)
      ]

pub follow_edges_grows :
    (edges : List Edge) (s : List FilePath × Bool) (x : FilePath)
    → path_contains s.0 x ≡ true
    → path_contains (follow_edges edges s).0 x ≡ true
unfolding follow_edges
follow_edges_grows [] s x h = h
follow_edges_grows (e ∷ edges) s x h =
    follow_edges_grows edges (follow e s) x (follow_grows e s.0 s.1 x h)

follow_flag : (e : Edge) (set : List FilePath) → (follow e (set, true)).1 ≡ true
unfolding follow
follow_flag none set = refl
follow_flag (some (a, b)) set = ground arith

follow_edges_flag :
    (edges : List Edge) (s : List FilePath × Bool) → s.1 ≡ true → (follow_edges edges s).1 ≡ true
unfolding follow_edges
follow_edges_flag [] s h = h
follow_edges_flag (e ∷ edges) s h =
    follow_edges_flag edges (follow e s)
      (subst (λ c. (follow e (s.0, c)).1 ≡ true) (sym h) (follow_flag e s.0))

IsClosed-cons :
    {a b : FilePath} {edges : List Edge} (set : List FilePath)
    → (path_contains set a ≡ true → path_contains set b ≡ true)
    → IsClosed edges set
    → IsClosed (some (a, b) ∷ edges) set
IsClosed-cons set first rest a' b' (there m) held = rest a' b' m held
IsClosed-cons {a} {b} set first rest a' b' (here e) held =
    let same_a : a' ≡ a = ground (arith, e) in
    let same_b : b' ≡ b = ground (arith, e) in
    rw same_b (first (subst (λ y. path_contains set y ≡ true) same_a held))

-- A round that sets no flag leaves the members as they were, and leaves no edge to follow.
pub follow_edges_still :
    (edges : List Edge) (set : List FilePath)
    → (follow_edges edges (set, false)).1 ≡ false
    → ((x : FilePath) → path_contains (follow_edges edges (set, false)).0 x ≡ path_contains set x)
      × IsClosed edges set
unfolding follow_edges
follow_edges_still [] set h = (λ x. refl, λ a b m. elim m [ ])
follow_edges_still (none ∷ edges) set h =
    let step : follow none (set, false) ≡ (set, false) = follow-none set false in
    let (same, closed) = follow_edges_still edges set (rw (step, follow_edges) at h) in
    (
      rw (step, follow_edges) same,
      λ a b m k. elim m [ here e ↦ absurd (some-ne-none e) | there n ↦ closed a b n k ],
    )
follow_edges_still (some (a, b) ∷ edges) set h = elim (Bool-cases (path_contains set a)) [
  | inr free ↦
      let step = follow_free a b set false free in
      let (same, closed) = follow_edges_still edges set (rw (step, follow_edges) at h) in
      (
        λ x. ap (λ s. path_contains (follow_edges edges s).0 x) step ∙ same x,
        IsClosed-cons set (λ held. ground (arith, free, held)) closed,
      )
  | inl held ↦ elim (Bool-cases (path_contains set b)) [
    | inl known ↦
        let step = follow_known a b set false held known in
        let (same, closed) =
          follow_edges_still edges (path_insert b set) (rw (step, follow_edges) at h) in
        let kept = insert_known a b set known in
        (
          λ x. ap (λ s. path_contains (follow_edges edges s).0 x) step ∙ same x ∙ kept x,
          IsClosed-cons set (λ _. known)
              (λ a' b' m k. sym (kept b') ∙ closed a' b' m (kept a' ∙ k)),
        )
    | inr new ↦
        let step = follow_new a b set false held new in
        let flag = follow_edges_flag edges (path_insert b set, true) refl in
        absurd (true-ne-false (sym flag ∙ (rw (step, follow_edges) at h)))
  ]
]

module _ (small large : List FilePath)
    (grows : (x : FilePath) → path_contains small x ≡ true → path_contains large x ≡ true) where
  is_missing_le : (e : Edge) → is_missing e small ≡ false → is_missing e large ≡ false
  is_missing_le none h = refl
  is_missing_le (some (a, b)) h = ground (arith, h, grows b)

  pub missing_le : (edges : List Edge) → missing edges large ≤ missing edges small
  unfolding missing
  missing_le [] = omega arith
  missing_le (e ∷ edges) = ground (arith, is_missing_le e, missing_le edges)

  pub missing_lt :
      (edges : List Edge) {a b : FilePath}
      → Among (some (a, b)) edges
      → path_contains small b ≡ false
      → path_contains large b ≡ true
      → missing edges large < missing edges small
  unfolding missing
  missing_lt [] m new held = elim m [ ]
  missing_lt (e ∷ edges) {a} {b} (there m) new held =
      ground (arith, is_missing_le e, missing_lt edges {a = a} {b = b} m new held)
  missing_lt (e ∷ edges) {a} {b} (here same) new held =
      let before : is_missing e small ≡ true =
        subst (λ d. is_missing d small ≡ true) same (ap not new) in
      let after : is_missing e large ≡ false =
        subst (λ d. is_missing d large ≡ false) same (ap not held) in
      ground (arith, before, after, missing_le edges)

pub missing-le-length : (edges : List Edge) (set : List FilePath) → missing edges set ≤ length edges
unfolding missing
missing-le-length [] set = omega arith
missing-le-length (e ∷ edges) set = ground (arith, missing-le-length edges set)
