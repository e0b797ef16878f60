-- ===== src/FileArguments/Normal.antt =====
-- The normal form of a path.
use mathlib.Core.Path.{subst}
use freebsd_flatpak.Prelude.{
  ℕ, ◌≡◌, refl, sym, ap, ◌∙◌, inl, inr, true, false, ◌||◌, List, [], ◌∷◌, ◌++◌, Option, none, some,
  arith, All, is_empty, Bool-cases,
}
use freebsd_flatpak.Text.{
  Text, text, text_eq, Lacks, split, split_of_Lacks, split-Lacks, split-ne-nil, starts_with,
  strip_prefix,
}
use freebsd_flatpak.Paths.{Component, root_dir, cur_dir, parent_dir, normal, components_of}
use freebsd_flatpak.FileArguments.Paths.{
  components, push_components, rooted, join_path, is_absolute, normalize_absolute_path,
}

-- A part of a path in normal form.
pub record IsPlain (part : Text) : Type 0 where
  pub filled : is_empty part ≡ false
  pub not_dot : text_eq part (text ".") ≡ false
  pub not_dots : text_eq part (text "..") ≡ false
  pub no_slash : Lacks b'/' part

abbrev IsGood : Component → Type 0
IsGood (normal part) = IsPlain part
IsGood _ = Unit

components_of-IsGood :
    (parts : List Text) → All (Lacks b'/') parts → All IsGood (components_of parts)
unfolding components_of
components_of-IsGood [] l = tt
components_of-IsGood (p ∷ ps) l =
    let ih = components_of-IsGood ps l.1 in
    elim (Bool-cases (is_empty p || text_eq p (text "."))) [
      | inl skipped ↦ rw skipped ih
      | inr named ↦ elim (Bool-cases (text_eq p (text ".."))) [
        | inl up ↦ rw (named, up) (tt, ih)
        | inr down ↦
            let plain : IsPlain p = record {
              filled = ground (arith, named);
              not_dot = ground (arith, named);
              not_dots = down;
              no_slash = l.0;
            } in
            rw (named, down) (plain, ih)
      ]
    ]

push_components-IsPlain :
    (parts : List Text) (cs : List Component)
    → All IsPlain parts
    → All IsGood cs
    → All IsPlain (push_components parts cs)
unfolding push_components
push_components-IsPlain parts [] h g = h
push_components-IsPlain parts (root_dir ∷ cs) h g = push_components-IsPlain [] cs tt g.1
push_components-IsPlain parts (cur_dir ∷ cs) h g = push_components-IsPlain parts cs h g.1
push_components-IsPlain [] (parent_dir ∷ cs) h g = push_components-IsPlain [] cs tt g.1
push_components-IsPlain (p ∷ ps) (parent_dir ∷ cs) h g = push_components-IsPlain ps cs h.1 g.1
push_components-IsPlain parts (normal p ∷ cs) h g =
    push_components-IsPlain (p ∷ parts) cs (g.0, h) g.1

push_components-append :
    (parts : List Text) (cs : List Component) (p : Text)
    → push_components parts (cs ++ (normal p ∷ [])) ≡ p ∷ push_components parts cs
unfolding push_components
push_components-append parts [] p = refl
push_components-append parts (root_dir ∷ cs) p = push_components-append [] cs p
push_components-append parts (cur_dir ∷ cs) p = push_components-append parts cs p
push_components-append [] (parent_dir ∷ cs) p = push_components-append [] cs p
push_components-append (q ∷ parts) (parent_dir ∷ cs) p = push_components-append parts cs p
push_components-append parts (normal q ∷ cs) p = push_components-append (q ∷ parts) cs p

components_of-append :
    (xs : List Text) (p : Text)
    → IsPlain p
    → components_of (xs ++ (p ∷ [])) ≡ components_of xs ++ (normal p ∷ [])
unfolding components_of
components_of-append [] p plain = ground (arith, plain.filled, plain.not_dot, plain.not_dots)
components_of-append (x ∷ xs) p plain = ground (arith, components_of-append xs p plain)

split-snoc :
    (s p : Text) (sep : ℕ) → Lacks sep p → split (s ++ (sep ∷ p)) sep ≡ split s sep ++ (p ∷ [])
unfolding split
split-snoc [] p sep l = ground (arith, split_of_Lacks p sep l)
split-snoc (c ∷ s) p sep l = ground (arith, split-snoc s p sep l, split-ne-nil s sep)

-- A part behind a path is the part that is read last.
push_components-snoc :
    (s p : Text)
    → IsPlain p
    → push_components [] (components_of (split (s ++ (b'/' ∷ p)) b'/'))
      ≡ p ∷ push_components [] (components_of (split s b'/'))
push_components-snoc s p plain =
    ap (λ parts. push_components [] (components_of parts)) (split-snoc s p b'/' plain.no_slash)
    ∙ ap (push_components []) (components_of-append (split s b'/') p plain)
    ∙ push_components-append [] (components_of (split s b'/')) p

-- The parts of a path in normal form are read back.
push_components-rooted :
    (parts : List Text)
    → All IsPlain parts
    → push_components [] (components_of (split (rooted parts) b'/')) ≡ parts
unfolding push_components components_of split rooted
push_components-rooted [] h = refl
push_components-rooted (p ∷ []) h = push_components-snoc [] p h.0
push_components-rooted (p ∷ q ∷ ps) h =
    push_components-snoc (rooted (q ∷ ps)) p h.0
    ∙ ap (λ r. p ∷ r) (push_components-rooted (q ∷ ps) h.1)

starts_with-append :
    (s t : Text) → starts_with s (text "/") ≡ true → starts_with (s ++ t) (text "/") ≡ true
unfolding starts_with strip_prefix
starts_with-append [] t h = cc
starts_with-append (c ∷ s) t h = ground (arith, h)

rooted-is_absolute : (parts : List Text) → is_absolute (rooted parts) ≡ true
unfolding rooted starts_with strip_prefix
rooted-is_absolute [] = refl
rooted-is_absolute (p ∷ []) = refl
rooted-is_absolute (p ∷ q ∷ ps) =
    starts_with-append (rooted (q ∷ ps)) (b'/' ∷ p) (rooted-is_absolute (q ∷ ps))

-- A normal form is its own.
normalize-rooted :
    (current_dir : Option Text) (parts : List Text)
    → All IsPlain parts
    → normalize_absolute_path current_dir (rooted parts) ≡ some (rooted parts)
unfolding normalize_absolute_path
normalize-rooted current_dir parts h =
    rw (rooted-is_absolute parts) (ap (λ ps. some (rooted ps)) (push_components-rooted parts h))

normal_parts : (path : Text) → All IsPlain (push_components [] (components path))
unfolding components push_components
normal_parts path =
    push_components-IsPlain [] (components_of (split path b'/')) tt
      (components_of-IsGood (split path b'/') (split-Lacks path b'/'))

-- A normal form is a rooted path all of whose parts are plain, and is its own normal form.
pub normalize_absolute_path-IsPlain :
    (current_dir : Option Text) (path : Text) {r : Text}
    → normalize_absolute_path current_dir path ≡ some r
    → ((parts : List Text) × (r ≡ rooted parts) × All IsPlain parts)
      × (normalize_absolute_path current_dir r ≡ some r)
unfolding normalize_absolute_path
normalize_absolute_path-IsPlain current_dir path {r} h = elim (Bool-cases (is_absolute path)) [
  | inl absolute ↦ of_path path (rw absolute at h)
  | inr relative ↦ of_dir current_dir (rw relative at h)
]
  where
    of_path :
        (from : Text)
        → some (rooted (push_components [] (components from))) ≡ some r
        → ((parts : List Text) × (r ≡ rooted parts) × All IsPlain parts)
          × (normalize_absolute_path current_dir r ≡ some r)
    of_path from e =
        let parts = push_components [] (components from) in
        let plain = normal_parts from in
        let same : rooted parts ≡ r = ground arith in
        (
          (parts, sym same, plain),
          subst (λ q. normalize_absolute_path current_dir q ≡ some q) same
              (normalize-rooted current_dir parts plain),
        )

    of_dir :
        (dir : Option Text)
        → (elim dir [
          | none ↦ none
          | some base ↦ some (rooted (push_components [] (components (join_path base path))))
        ])
          ≡ some r
        → ((parts : List Text) × (r ≡ rooted parts) × All IsPlain parts)
          × (normalize_absolute_path current_dir r ≡ some r)
    of_dir none e = cc
    of_dir (some base) e = of_path (join_path base path) e
