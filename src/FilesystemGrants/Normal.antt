-- ===== src/FilesystemGrants/Normal.antt =====
-- The normal form of a path of the host.
use mathlib.Core.Path.{subst}
use freebsd_flatpak.Prelude.{
  ◌≡◌, refl, sym, ap, ◌∙◌, inl, inr, true, List, [], ◌∷◌, ◌++◌, map, Option, none, some, arith, ok,
  Bool-cases, Option-cases,
}
use freebsd_flatpak.Text.{Text}
use freebsd_flatpak.Paths.{
  Component, root_dir, cur_dir, parent_dir, normal, FilePath, is_rooted, join_onto,
}
use freebsd_flatpak.FileArguments.{push_components}
use freebsd_flatpak.FilesystemGrants.{path_of_parts, absolute_path, normalize_path}

-- The second path is the first once each `.`, each name with the `..` behind it, and each `..` at
-- the root is taken away.
pub data Reduces (goal : FilePath) : FilePath → Type 0 where
  stay : Reduces goal goal
  dot :
      (front back : FilePath)
      → Reduces goal (front ++ back)
      → Reduces goal (front ++ (cur_dir ∷ back))
  up :
      (front : FilePath) (name : Text) (back : FilePath)
      → Reduces goal (front ++ back)
      → Reduces goal (front ++ (normal name ∷ parent_dir ∷ back))
  top :
      (back : FilePath)
      → Reduces goal (root_dir ∷ back)
      → Reduces goal (root_dir ∷ parent_dir ∷ back)
  again :
      (front back : FilePath)
      → Reduces goal (root_dir ∷ back)
      → Reduces goal (front ++ (root_dir ∷ back))

-- The root and names, with no `.` and no `..`.
abbrev pub IsNormalForm : FilePath → Type 0
IsNormalForm path = (names : List Text) × (path ≡ root_dir ∷ map normal names)

append_nil : (p : FilePath) → p ++ [] ≡ p
append_nil [] = refl
append_nil (c ∷ p) = ap (λ (q : FilePath). c ∷ q) (append_nil p)

append_one :
    (front : FilePath) (c : Component) (back : FilePath)
    → (front ++ (c ∷ [])) ++ back ≡ front ++ (c ∷ back)
append_one [] c back = refl
append_one (d ∷ front) c back = ap (λ (p : FilePath). d ∷ p) (append_one front c back)

map-append_one :
    (names : List Text) (name : Text)
    → map normal (names ++ (name ∷ [])) ≡ map normal names ++ (normal name ∷ [])
map-append_one [] name = refl
map-append_one (n ∷ names) name = ap (λ (p : FilePath). normal n ∷ p) (map-append_one names name)

path_of_parts-IsNormalForm : (parts : List Text) → IsNormalForm (path_of_parts parts)
path_of_parts-IsNormalForm [] = ([], refl)
path_of_parts-IsNormalForm (part ∷ parts) =
    let (names, same) = path_of_parts-IsNormalForm parts in
    (
      names ++ (part ∷ []),
      ap (λ (p : FilePath). p ++ (normal part ∷ [])) same
          ∙ ap (λ (p : FilePath). root_dir ∷ p) (sym (map-append_one names part)),
    )

push_components-Reduces :
    (parts : List Text) (cs : List Component)
    → Reduces (path_of_parts (push_components parts cs)) (path_of_parts parts ++ cs)
unfolding push_components
push_components-Reduces parts [] =
    subst (Reduces (path_of_parts parts)) (sym (append_nil (path_of_parts parts))) stay
push_components-Reduces parts (root_dir ∷ cs) =
    again (path_of_parts parts) cs (push_components-Reduces [] cs)
push_components-Reduces parts (cur_dir ∷ cs) =
    dot (path_of_parts parts) cs (push_components-Reduces parts cs)
push_components-Reduces [] (parent_dir ∷ cs) = top cs (push_components-Reduces [] cs)
push_components-Reduces (part ∷ parts) (parent_dir ∷ cs) =
    subst (Reduces (path_of_parts (push_components parts cs)))
      (sym (append_one (path_of_parts parts) (normal part) (parent_dir ∷ cs)))
      (up (path_of_parts parts) part cs (push_components-Reduces parts cs))
push_components-Reduces parts (normal part ∷ cs) =
    subst (Reduces (path_of_parts (push_components (part ∷ parts) cs)))
      (append_one (path_of_parts parts) (normal part) cs)
      (push_components-Reduces (part ∷ parts) cs)

rooted-Reduces :
    (path : FilePath)
    → is_rooted path ≡ true
    → Reduces (path_of_parts (push_components [] path)) path
unfolding push_components
rooted-Reduces [] h = cc
rooted-Reduces (root_dir ∷ path) h = push_components-Reduces [] path
rooted-Reduces (cur_dir ∷ path) h = cc
rooted-Reduces (parent_dir ∷ path) h = cc
rooted-Reduces (normal name ∷ path) h = cc

join_onto_rooted :
    (dir path : FilePath) → is_rooted dir ≡ true → is_rooted (join_onto dir path) ≡ true
unfolding join_onto
join_onto_rooted [] path h = cc
join_onto_rooted (cur_dir ∷ dir) path h = cc
join_onto_rooted (parent_dir ∷ dir) path h = cc
join_onto_rooted (normal name ∷ dir) path h = cc
join_onto_rooted (root_dir ∷ dir) [] h = refl
join_onto_rooted (root_dir ∷ dir) (root_dir ∷ path) h = refl
join_onto_rooted (root_dir ∷ dir) (cur_dir ∷ path) h = refl
join_onto_rooted (root_dir ∷ dir) (parent_dir ∷ path) h = refl
join_onto_rooted (root_dir ∷ dir) (normal name ∷ path) h = refl

absolute_path_rooted :
    (cwd : Option FilePath) (path : FilePath) {absolute : FilePath}
    → ((dir : FilePath) → cwd ≡ some dir → is_rooted dir ≡ true)
    → absolute_path cwd path ≡ some absolute
    → is_rooted absolute ≡ true
absolute_path_rooted none path at_root h = elim (Bool-cases (is_rooted path)) [
  | inl rooted ↦ ground (arith, h, rooted)
  | inr relative ↦ absurd (ground (arith, h, relative))
]
absolute_path_rooted (some dir) path {absolute} at_root h = elim (Bool-cases (is_rooted path)) [
  | inl rooted ↦
      let same : path ≡ absolute = ground (arith, h, rooted) in
      subst (λ (p : FilePath). is_rooted p ≡ true) same rooted
  | inr relative ↦
      let same : join_onto dir path ≡ absolute = ground (arith, h, relative) in
      subst (λ (p : FilePath). is_rooted p ≡ true) same
        (join_onto_rooted dir path (at_root dir refl))
]

-- What is normalized is the absolute path, without `.` and `..`.
pub normalize_path-IsNormalForm :
    (cwd : Option FilePath) (path : FilePath) {normalized : FilePath}
    → ((dir : FilePath) → cwd ≡ some dir → is_rooted dir ≡ true)
    → normalize_path cwd path ≡ ok normalized
    → (absolute : FilePath) × (absolute_path cwd path ≡ some absolute)
      × Reduces normalized absolute
      × IsNormalForm normalized
unfolding normalize_path
normalize_path-IsNormalForm cwd path {normalized} at_root h =
    elim (Option-cases (absolute_path cwd path)) [
      | inl none_there ↦ absurd (ground (arith, h, none_there))
      | inr (absolute, found) ↦
          let same : path_of_parts (push_components [] absolute) ≡ normalized =
            ground (arith, h, found) in
          (
            absolute,
            found,
            subst (λ (p : FilePath). Reduces p absolute) same
                (rooted-Reduces absolute (absolute_path_rooted cwd path at_root found)),
            subst IsNormalForm same (path_of_parts-IsNormalForm (push_components [] absolute)),
          )
    ]
