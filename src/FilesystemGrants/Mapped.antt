-- ===== src/FilesystemGrants/Mapped.antt =====
-- Where a path of the host is in the sandbox.
use mathlib.Core.Path.{subst}
use freebsd_flatpak.Prelude.{
  true, ok, ok-inj, >>=-eq-ok, ◌≤◌, ◌≡◌, refl, sym, ◌∙◌, ◌⊎◌, inl, inr, List, [], ◌∷◌, ◌++◌, Option,
  none, some, arith, length, ltb, or_else, Among, here, there, Bool-cases,
}
use freebsd_flatpak.Paths.{is_rooted, FilePath, strip_path, strip_path_sound}
use freebsd_flatpak.FilesystemGrants.{
  HostPathGrant, onto, onto_option, grant_map_host_path, longer, best_match, map_host_path,
  HostFilesystem, absolute_path, normalize_path,
}
use freebsd_flatpak.FilesystemGrants.Normal.{Reduces, IsNormalForm, normalize_path-IsNormalForm}

-- A grant maps a path below its directory, or below that directory's canonical path, to the same
-- place below its path in the sandbox.
abbrev pub Maps : HostPathGrant → FilePath → FilePath → Type 0
Maps g host mapped =
    (suffix : FilePath) × ((host ≡ g.host_path ++ suffix)
      ⊎ (host ≡ g.canonical_host_path ++ suffix))
    × (mapped ≡ onto g.sandbox_path suffix)

-- A best place among those that the grants give.
abbrev pub IsBest : List HostPathGrant → FilePath → Option FilePath → Type 0
IsBest grants host none = (g : HostPathGrant) → Among g grants → grant_map_host_path g host ≡ none
IsBest grants host (some best) =
    ((g : HostPathGrant) × Among g grants × Maps g host best)
    × ((g : HostPathGrant) (mapped : FilePath)
        → Among g grants
        → grant_map_host_path g host ≡ some mapped
        → length mapped ≤ length best)

onto_option-some :
    (sandbox : FilePath) (suffix : Option FilePath) {mapped : FilePath}
    → onto_option sandbox suffix ≡ some mapped
    → (rest : FilePath) × (suffix ≡ some rest) × (mapped ≡ onto sandbox rest)
onto_option-some sandbox none h = cc
onto_option-some sandbox (some rest) h = (rest, refl, ground (arith, h))

grant_map-Maps :
    (g : HostPathGrant) (host mapped : FilePath)
    → grant_map_host_path g host ≡ some mapped
    → Maps g host mapped
unfolding grant_map_host_path
grant_map-Maps g host mapped h =
    go (onto_option g.sandbox_path (strip_path host g.host_path)) refl h
  where
    go :
        (first : Option FilePath)
        → onto_option g.sandbox_path (strip_path host g.host_path) ≡ first
        → or_else first (onto_option g.sandbox_path (strip_path host g.canonical_host_path))
          ≡ some mapped
        → Maps g host mapped
    go none k h =
        let (rest, found, same) =
          onto_option-some g.sandbox_path (strip_path host g.canonical_host_path) h in
        (rest, inr (strip_path_sound host g.canonical_host_path found), same)
    go (some p) k h =
        let (rest, found, same) =
          onto_option-some g.sandbox_path (strip_path host g.host_path) (k ∙ h) in
        (rest, inl (strip_path_sound host g.host_path found), same)

-- What the loop keeps, for the grants that it has seen.
IsBest-longer :
    (seen : List HostPathGrant) (g : HostPathGrant) (host : FilePath)
    (best mapped : Option FilePath)
    → grant_map_host_path g host ≡ mapped
    → IsBest seen host best
    → IsBest (g ∷ seen) host (longer best mapped)
IsBest-longer seen g host none none h best = λ k m. elim m [
  | here e ↦ subst (λ d. grant_map_host_path d host ≡ none) (sym e) h
  | there n ↦ best k n
]
IsBest-longer seen g host none (some p) h best = (
  (g, here refl, grant_map-Maps g host p h),
  λ k q m found. elim m [
    | here e ↦
        let same : q ≡ p =
          ground (arith, subst (λ d. grant_map_host_path d host ≡ some q) e found, h) in
        rw same (omega arith)
    | there n ↦ absurd (cc (best k n, found))
  ],
)
IsBest-longer seen g host (some b) none h ((d, m, maps), longest) = (
  (d, there m, maps),
  λ k q m found. elim m [
    | here e ↦ absurd (cc (subst (λ d. grant_map_host_path d host ≡ some q) e found, h))
    | there n ↦ longest k q n found
  ],
)
IsBest-longer seen g host (some b) (some p) h ((d, m, maps), longest) =
    elim (Bool-cases (ltb (length b) (length p))) [
      | inl less ↦ rw less (
        (g, here refl, grant_map-Maps g host p h),
        λ k q m found. elim m [
          | here e ↦
              let same : q ≡ p =
                ground (arith, subst (λ d. grant_map_host_path d host ≡ some q) e found, h) in
              rw same (omega arith)
          | there n ↦ let l = longest k q n found in ground (arith, less, l)
        ],
      )
      | inr more ↦ rw more (
        (d, there m, maps),
        λ k q m found. elim m [
          | here e ↦
              let same : q ≡ p =
                ground (arith, subst (λ d. grant_map_host_path d host ≡ some q) e found, h) in
              rw same (ground (arith, more))
          | there n ↦ longest k q n found
        ],
      )
    ]

IsBest-same :
    (xs ys : List HostPathGrant) (host : FilePath) (best : Option FilePath)
    → ((g : HostPathGrant) → Among g xs → Among g ys)
    → ((g : HostPathGrant) → Among g ys → Among g xs)
    → IsBest xs host best
    → IsBest ys host best
IsBest-same xs ys host none to back h = λ g m. h g (back g m)
IsBest-same xs ys host (some b) to back ((g, m, maps), longest) =
    ((g, to g m, maps), λ k q n found. longest k q (back k n) found)

IsBest-best_match :
    (seen grants : List HostPathGrant) (host : FilePath) (best : Option FilePath)
    → IsBest seen host best
    → (all : List HostPathGrant) × IsBest all host (best_match best host grants)
      × ((g : HostPathGrant) → Among g all → Among g seen ⊎ Among g grants)
      × ((g : HostPathGrant) → Among g seen ⊎ Among g grants → Among g all)
unfolding best_match
IsBest-best_match seen [] host best h =
    (seen, h, λ g m. inl m, λ g m. elim m [ inl n ↦ n | inr n ↦ elim n [ ] ])
IsBest-best_match seen (g ∷ grants) host best h =
    let (all, result, split, whole) =
      IsBest-best_match (g ∷ seen) grants host (longer best (grant_map_host_path g host))
        (IsBest-longer seen g host best (grant_map_host_path g host) refl h) in
    (
      all,
      result,
      λ k m. elim (split k m) [
        | inl (here e) ↦ inr (here e)
        | inl (there n) ↦ inl n
        | inr n ↦ inr (there n)
      ],
      λ k m.
          whole k (elim m [
            | inl n ↦ inl (there n)
            | inr (here e) ↦ inl (here e)
            | inr (there n) ↦ inr n
          ]),
    )

best_match-IsBest :
    (grants : List HostPathGrant) (host : FilePath)
    → IsBest grants host (best_match none host grants)
best_match-IsBest grants host =
    let (all, result, split, whole) = IsBest-best_match [] grants host none (λ g m. elim m [ ]) in
    IsBest-same all grants host (best_match none host grants)
      (λ g m. elim (split g m) [ inl n ↦ elim n [ ] | inr n ↦ n ]) (λ g m. whole g (inr m)) result

-- Where a path of the host is looked up without an error, and the working directory, if it can be
-- read, is an absolute path, what is looked up is the path made absolute and rid of each `.` and
-- `..`. It is mapped to a place that a grant gives it, such that no other grant gives it a place
-- with more components, and it is not mapped only if no grant maps it.
pub map_host_path-IsBest :
    (f : HostFilesystem) (cwd : Option FilePath) (host : FilePath) {answer : Option FilePath}
    → ((dir : FilePath) → cwd ≡ some dir → is_rooted dir ≡ true)
    → map_host_path f cwd host ≡ ok answer
    → (absolute : FilePath) × (normalized : FilePath) × (absolute_path cwd host ≡ some absolute)
      × Reduces normalized absolute
      × IsNormalForm normalized
      × IsBest f.grants normalized answer
unfolding map_host_path
map_host_path-IsBest f cwd host {answer} at_root h =
    let (normalized, made, k) =
      >>=-eq-ok (normalize_path cwd host) (λ normalized. ok (best_match none normalized f.grants))
        h in
    let (absolute, found, reduced, plain) = normalize_path-IsNormalForm cwd host at_root made in
    (
      absolute,
      normalized,
      found,
      reduced,
      plain,
      subst (IsBest f.grants normalized) (ok-inj k) (best_match-IsBest f.grants normalized),
    )
