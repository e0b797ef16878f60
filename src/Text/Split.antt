-- ===== src/Text/Split.antt =====
-- Splitting at one separator, and joining.
use freebsd_flatpak.Text.Basic.{Text}
use freebsd_flatpak.Prelude.{
  ℕ, zero, suc, ◌≡◌, refl, ◌≢◌, Option, none, some, List, [], ◌∷◌, ◌++◌, arith, ◌==◌, ap, inl, inr,
  Option-cases, All, All-append, if◌then◌else◌,
}

abbrev pub Lacks : ℕ → Text → Type 0
Lacks sep = All (λ c. c ≢ sep)

-- a character in front of the first part
abbrev pub in_front : ℕ → List Text → List Text
in_front c [] = (c ∷ []) ∷ []
in_front c (part ∷ parts) = (c ∷ part) ∷ parts

-- `value.split(sep)`: always one part at least
unfoldable pub split : Text → ℕ → List Text
split [] sep = [] ∷ []
split (c ∷ s) sep = let parts = split s sep in if c == sep then [] ∷ parts else in_front c parts

-- `parts.join(sep)` for a separator of one character
unfoldable pub join : List Text → ℕ → Text
join [] sep = []
join (part ∷ []) sep = part
join (part ∷ next ∷ parts) sep = part ++ (sep ∷ join (next ∷ parts) sep)

-- `value.split_once(sep)`
unfoldable pub split_once : Text → ℕ → Option (Text × Text)
split_once [] sep = none
split_once (c ∷ s) sep =
    let rest = split_once s sep in
    if c == sep
    then some ([], s)
    else elim rest [ none ↦ none | some (before, after) ↦ some (c ∷ before, after) ]

-- `value.rsplit_once(sep)`
unfoldable pub rsplit_once : Text → ℕ → Option (Text × Text)
rsplit_once [] sep = none
rsplit_once (c ∷ s) sep = elim (rsplit_once s sep) [
  | some (before, after) ↦ some (c ∷ before, after)
  | none ↦ if c == sep then some ([], s) else none
]

-- `value.splitn(n, sep)`
unfoldable pub splitn : ℕ → ℕ → Text → List Text
unfolding split_once
splitn zero sep s = []
splitn (suc zero) sep s = s ∷ []
splitn (suc (suc n)) sep s = elim (split_once s sep) [
  | none ↦ s ∷ []
  | some (before, after) ↦ before ∷ splitn (suc n) sep after
]

pub split-ne-nil : (s : Text) (sep : ℕ) → split s sep ≢ []
unfolding split
split-ne-nil [] sep = cc
split-ne-nil (c ∷ s) sep = ground (arith, split-ne-nil s sep)

join-in_front :
    (c sep : ℕ) (parts : List Text) → parts ≢ [] → join (in_front c parts) sep ≡ c ∷ join parts sep
unfolding join
join-in_front c sep [] h = absurd (h refl)
join-in_front c sep (part ∷ []) h = refl
join-in_front c sep (part ∷ next ∷ parts) h = refl

join-nil_in_front :
    (sep : ℕ) (parts : List Text) → parts ≢ [] → join ([] ∷ parts) sep ≡ sep ∷ join parts sep
unfolding join
join-nil_in_front sep [] h = absurd (h refl)
join-nil_in_front sep (part ∷ parts) h = refl

-- Joining what a split gives restores the text.
pub join-split : (s : Text) (sep : ℕ) → join (split s sep) sep ≡ s
unfolding split
join-split [] sep = unfold join in refl
join-split (c ∷ s) sep = ground (
  arith,
  join-split s sep,
  split-ne-nil s sep,
  join-in_front c sep (split s sep),
  join-nil_in_front sep (split s sep),
)

pub split_of_Lacks : (part : Text) (sep : ℕ) → Lacks sep part → split part sep ≡ part ∷ []
unfolding split
split_of_Lacks [] sep h = refl
split_of_Lacks (c ∷ part) sep h = ground (arith, split_of_Lacks part sep h.1)

pub split-append :
    (part rest : Text) (sep : ℕ)
    → Lacks sep part
    → split (part ++ (sep ∷ rest)) sep ≡ part ∷ split rest sep
unfolding split
split-append [] rest sep h = ground arith
split-append (c ∷ part) rest sep h = ground (arith, split-append part rest sep h.1)

-- Splitting a join restores the parts, if there is one and none has the separator.
pub split-join :
    (parts : List Text) (sep : ℕ)
    → parts ≢ []
    → All (Lacks sep) parts
    → split (join parts sep) sep ≡ parts
unfolding join
split-join [] sep h l = absurd (h refl)
split-join (part ∷ []) sep h l = split_of_Lacks part sep l.0
split-join (part ∷ next ∷ parts) sep h l =
    rw (split-append part _ sep l.0) (ap (λ ps. part ∷ ps) (split-join (next ∷ parts) sep (cc) l.1))

-- No part has the separator.
pub split-Lacks : (s : Text) (sep : ℕ) → All (Lacks sep) (split s sep)
unfolding split
split-Lacks [] sep = (tt, tt)
split-Lacks (c ∷ s) sep = ground (arith, split-Lacks s sep, split-ne-nil s sep)

pub split_once_sound :
    (s : Text) (sep : ℕ) {before after : Text}
    → split_once s sep ≡ some (before, after)
    → (s ≡ before ++ (sep ∷ after)) × Lacks sep before
unfolding split_once
split_once_sound [] sep h = cc
split_once_sound (c ∷ s) sep {before} {after} h = elim (Option-cases (split_once s sep)) [
  | inl absent ↦ ground arith
  | inr (q, found) ↦ ground (arith, split_once_sound s sep {before = q.0} {after = q.1})
]

pub split_once-append :
    (before after : Text) (sep : ℕ)
    → Lacks sep before
    → split_once (before ++ (sep ∷ after)) sep ≡ some (before, after)
unfolding split_once
split_once-append [] after sep h = ground arith
split_once-append (c ∷ before) after sep h = ground (arith, split_once-append before after sep h.1)

pub split_once_of_Lacks : (s : Text) (sep : ℕ) → Lacks sep s → split_once s sep ≡ none
unfolding split_once
split_once_of_Lacks [] sep h = refl
split_once_of_Lacks (c ∷ s) sep h = ground (arith, split_once_of_Lacks s sep h.1)

pub rsplit_once_of_Lacks : (s : Text) (sep : ℕ) → Lacks sep s → rsplit_once s sep ≡ none
unfolding rsplit_once
rsplit_once_of_Lacks [] sep h = refl
rsplit_once_of_Lacks (c ∷ s) sep h = ground (arith, rsplit_once_of_Lacks s sep h.1)

pub rsplit_once-append :
    (before after : Text) (sep : ℕ)
    → Lacks sep after
    → rsplit_once (before ++ (sep ∷ after)) sep ≡ some (before, after)
unfolding rsplit_once
rsplit_once-append [] after sep h = ground (arith, rsplit_once_of_Lacks after sep h)
rsplit_once-append (c ∷ before) after sep h = ground (arith, rsplit_once-append before after sep h)

pub Lacks-append : (c : ℕ) (s t : Text) → Lacks c s → Lacks c t → Lacks c (s ++ t)
Lacks-append c = All-append (λ d. d ≢ c)

-- A join lacks what its parts and the separator lack.
pub join-Lacks :
    (c sep : ℕ) (parts : List Text) → sep ≢ c → All (Lacks c) parts → Lacks c (join parts sep)
unfolding join
join-Lacks c sep [] h l = tt
join-Lacks c sep (part ∷ []) h l = l.0
join-Lacks c sep (part ∷ next ∷ parts) h l =
    Lacks-append c part (sep ∷ join (next ∷ parts) sep) l.0
      (h, join-Lacks c sep (next ∷ parts) h l.1)
