-- ===== src/Paths/Laws.antt =====
-- Equality, prefixes and the order of paths.
use Prim.Native.Nat.{Ordering}
use freebsd_flatpak.Prelude.{◌≡◌, refl, ap, true, [], ◌∷◌, ◌++◌, some, arith}
use freebsd_flatpak.Text.{text_eq→eq, text_eq_refl, text_cmp_eq}
use freebsd_flatpak.Paths.Defs.{
  Component, root_dir, cur_dir, parent_dir, normal, FilePath, component_eq, path_eq, strip_path,
  component_cmp, path_cmp,
}

component_eq→eq : (c d : Component) → component_eq c d ≡ true → c ≡ d
unfolding component_eq
component_eq→eq root_dir root_dir h = refl
component_eq→eq cur_dir cur_dir h = refl
component_eq→eq parent_dir parent_dir h = refl
component_eq→eq (normal a) (normal b) h = ap normal (text_eq→eq a b h)
component_eq→eq _ _ h = cc

component_eq_refl : (c : Component) → component_eq c c ≡ true
unfolding component_eq
component_eq_refl root_dir = refl
component_eq_refl cur_dir = refl
component_eq_refl parent_dir = refl
component_eq_refl (normal a) = text_eq_refl a

pub path_eq→eq : (p q : FilePath) → path_eq p q ≡ true → p ≡ q
unfolding path_eq
path_eq→eq [] [] h = refl
path_eq→eq [] (d ∷ q) h = cc
path_eq→eq (c ∷ p) [] h = cc
path_eq→eq (c ∷ p) (d ∷ q) h = ground (arith, component_eq→eq c d, path_eq→eq p q)

pub path_eq_refl : (p : FilePath) → path_eq p p ≡ true
unfolding path_eq
path_eq_refl [] = refl
path_eq_refl (c ∷ p) = ground (arith, component_eq_refl c, path_eq_refl p)

-- What is stripped stands behind the prefix.
pub strip_path_sound : (p q : FilePath) {r : FilePath} → strip_path p q ≡ some r → p ≡ q ++ r
unfolding strip_path
strip_path_sound p [] h = ground arith
strip_path_sound [] (d ∷ q) h = cc
strip_path_sound (c ∷ p) (d ∷ q) {r} h =
    ground (arith, component_eq→eq c d, strip_path_sound p q {r = r})

pub strip_path-append : (q r : FilePath) → strip_path (q ++ r) q ≡ some r
unfolding strip_path
strip_path-append [] r = refl
strip_path-append (d ∷ q) r = ground (arith, component_eq_refl d, strip_path-append q r)

component_cmp_eq : (c d : Component) → component_cmp c d ≡ Ordering.eq → c ≡ d
unfolding component_cmp
component_cmp_eq root_dir root_dir h = refl
component_cmp_eq root_dir cur_dir h = cc
component_cmp_eq root_dir parent_dir h = cc
component_cmp_eq root_dir (normal b) h = cc
component_cmp_eq cur_dir root_dir h = cc
component_cmp_eq cur_dir cur_dir h = refl
component_cmp_eq cur_dir parent_dir h = cc
component_cmp_eq cur_dir (normal b) h = cc
component_cmp_eq parent_dir root_dir h = cc
component_cmp_eq parent_dir cur_dir h = cc
component_cmp_eq parent_dir parent_dir h = refl
component_cmp_eq parent_dir (normal b) h = cc
component_cmp_eq (normal a) root_dir h = cc
component_cmp_eq (normal a) cur_dir h = cc
component_cmp_eq (normal a) parent_dir h = cc
component_cmp_eq (normal a) (normal b) h = ap normal (text_cmp_eq a b h)

pub path_cmp_eq : (p q : FilePath) → path_cmp p q ≡ Ordering.eq → p ≡ q
unfolding path_cmp
path_cmp_eq [] [] h = refl
path_cmp_eq [] (d ∷ q) h = cc
path_cmp_eq (c ∷ p) [] h = cc
path_cmp_eq (c ∷ p) (d ∷ q) h = ground (arith, component_cmp_eq c d, path_cmp_eq p q)
