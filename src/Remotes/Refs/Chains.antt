-- ===== src/Remotes/Refs/Chains.antt =====
-- Following replacements: what an answer means, and that the fuel is enough.
use mathlib.Core.Path.{subst}
use freebsd_flatpak.Prelude.{
  ℕ, zero, suc, ◌≤◌, ◌<◌, ◌≡◌, refl, ◌≢◌, inl, inr, Bool, true, false, List, [], ◌∷◌, none, some,
  arith, if◌then◌else◌, length, ok, err, Bool-cases, Option-cases,
}
use freebsd_flatpak.Text.{
  Text, text_eq, text_eq_refl, text_eq→eq, get, contains, set_insert, contains-set_insert,
}
use freebsd_flatpak.Remotes.Refs.Types.{RemoteRef, ResolveError}
use freebsd_flatpak.Remotes.Refs.Replacements.{
  Replacements, available, replace_loop, replace_fuel, resolve_current_app_id_from_replacements,
}

-- The entries whose key has not been seen.
unseen : List Text → Replacements → ℕ
unseen seen [] = 0
unseen seen ((k, v) ∷ m) = let rest = unseen seen m in if contains seen k then rest else suc rest

unseen_insert_le :
    (x : Text) (seen : List Text) (m : Replacements) → unseen (set_insert x seen) m ≤ unseen seen m
unfolding unseen
unseen_insert_le x seen [] = omega arith
unseen_insert_le x seen ((k, v) ∷ m) =
    ground (arith, contains-set_insert x seen k, unseen_insert_le x seen m)

unseen_insert_lt :
    (x : Text) (seen : List Text) (m : Replacements) {v : List Text}
    → contains seen x ≡ false
    → get x m ≡ some v
    → unseen (set_insert x seen) m < unseen seen m
unfolding unseen get
unseen_insert_lt x seen [] new h = cc
unseen_insert_lt x seen ((k, w) ∷ m) {v} new h = elim (Bool-cases (text_eq k x)) [
  | inl same ↦
      let e : k ≡ x = text_eq→eq k x same in
      ground (
        arith,
        e,
        text_eq_refl x,
        contains-set_insert x seen x,
        contains-set_insert x seen k,
        unseen_insert_le x seen m,
      )
  | inr other ↦
      let found : get x m ≡ some v = ground (arith, other, h) in
      ground (arith, contains-set_insert x seen k, unseen_insert_lt x seen m {v = v} new found)
]

module _ (refs : List RemoteRef) (replacements : Replacements) (arch : Text) where
  -- `n` replacements lead from one ID to another: at each the remote offers exactly one, at the
  -- end none.
  pub data Chain : ℕ → Text → Text → Type 0 where
    stop : {c : Text} → available refs replacements arch c ≡ [] → Chain 0 c c
    go_on :
        {n : ℕ} {c next d : Text}
        → available refs replacements arch c ≡ next ∷ []
        → Chain n next d
        → Chain (suc n) c d

  replace_loop-Chain :
      (fuel : ℕ) (requested current : Text) (seen : List Text) {d : Text}
      → replace_loop refs replacements arch fuel requested current seen ≡ some (ok d)
      → (n : ℕ) × Chain n current d
  unfolding replace_loop
  replace_loop-Chain zero requested current seen h = cc
  replace_loop-Chain (suc fuel) requested current seen {d} h =
      go (contains seen current) (available refs replacements arch current) refl
        (λ next k. replace_loop-Chain fuel requested next (set_insert current seen) k) h
    where
      go :
          (b : Bool) (found : List Text)
          → available refs replacements arch current ≡ found
          → ((next : Text)
              → replace_loop refs replacements arch fuel requested next (set_insert current seen)
                ≡ some (ok d)
              → (n : ℕ) × Chain n next d)
          → (if b then some (err (ResolveError.replacement_cycle requested)) else elim found [
            | [] ↦ some (ok current)
            | next ∷ more ↦ elim more [
              | [] ↦
                  replace_loop refs replacements arch fuel requested next (set_insert current seen)
              | other ∷ rest ↦
                  some (err (ResolveError.multiple_replacements current (next ∷ other ∷ rest)))
            ]
          ])
            ≡ some (ok d)
          → (n : ℕ) × Chain n current d
      go true found e ih k = cc
      go false [] e ih k =
          let same : current ≡ d = ground arith in (0, subst (λ x. Chain 0 current x) same (stop e))
      go false (next ∷ []) e ih k = let (n, c) = ih next k in (suc n, go_on e c)
      go false (next ∷ other ∷ rest) e ih k = cc

  -- An ID that has a replacement has an entry.
  available-get :
      (current next : Text) (more : List Text)
      → available refs replacements arch current ≡ next ∷ more
      → (v : List Text) × (get current replacements ≡ some v)
  unfolding available
  available-get current next more h = elim (Option-cases (get current replacements)) [
    | inl gone ↦ ground (arith, gone, h)
    | inr there ↦ there
  ]

  replace_loop_enough :
      (fuel : ℕ) (requested current : Text) (seen : List Text)
      → unseen seen replacements < fuel
      → replace_loop refs replacements arch fuel requested current seen ≢ none
  unfolding replace_loop
  replace_loop_enough zero requested current seen enough h = omega arith
  replace_loop_enough (suc fuel) requested current seen enough h =
      go (contains seen current) (available refs replacements arch current) refl refl
        (λ next less k. replace_loop_enough fuel requested next (set_insert current seen) less k) h
    where
      go :
          (b : Bool) (found : List Text)
          → contains seen current ≡ b
          → available refs replacements arch current ≡ found
          → ((next : Text)
              → unseen (set_insert current seen) replacements < fuel
              → replace_loop refs replacements arch fuel requested next (set_insert current seen)
                ≢ none)
          → (if b then some (err (ResolveError.replacement_cycle requested)) else elim found [
            | [] ↦ some (ok current)
            | next ∷ more ↦ elim more [
              | [] ↦
                  replace_loop refs replacements arch fuel requested next (set_insert current seen)
              | other ∷ rest ↦
                  some (err (ResolveError.multiple_replacements current (next ∷ other ∷ rest)))
            ]
          ])
            ≢ none
      go true found new e ih k = cc
      go false [] new e ih k = cc
      go false (next ∷ []) new e ih k =
          let (v, entry) = available-get current next [] e in
          let less = unseen_insert_lt current seen replacements {v = v} new entry in
          ih next (omega arith) k
      go false (next ∷ other ∷ rest) new e ih k = cc

unseen_all : (m : Replacements) → unseen [] m ≡ length m
unfolding unseen contains
unseen_all [] = refl
unseen_all ((k, v) ∷ m) = ground (arith, unseen_all m)

-- An ID that is given stands at the end of a chain of replacements, each the only one that the
-- remote offers, behind which it offers none.
pub resolve_current_app_id_sound :
    (refs : List RemoteRef) (replacements : Replacements) (arch requested : Text) {d : Text}
    → resolve_current_app_id_from_replacements refs replacements arch requested ≡ some (ok d)
    → (n : ℕ) × Chain refs replacements arch n requested d
unfolding resolve_current_app_id_from_replacements
resolve_current_app_id_sound refs replacements arch requested h =
    replace_loop-Chain refs replacements arch (replace_fuel refs replacements arch) requested
      requested [] h

-- Following the replacements ends within the fuel.
pub resolve_current_app_id_total :
    (refs : List RemoteRef) (replacements : Replacements) (arch requested : Text)
    → resolve_current_app_id_from_replacements refs replacements arch requested ≢ none
unfolding resolve_current_app_id_from_replacements
resolve_current_app_id_total refs replacements arch requested =
    let count = unseen_all replacements in
    replace_loop_enough refs replacements arch (replace_fuel refs replacements arch) requested
      requested [] (omega arith)
