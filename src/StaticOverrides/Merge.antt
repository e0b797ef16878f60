-- ===== src/StaticOverrides/Merge.antt =====
-- What a merged list decides, and that merging twice is merging once.
pub mod Twice
pub mod Render
use mathlib.Core.List.{reverse, foldl, append_assoc, reverse-append, reverse-cons, foldl-append}
use freebsd_flatpak.Prelude.{
  or_else, find-append, ℕ, ◌≡◌, refl, ◌≢◌, sym, ap, ◌∙◌, Bool, true, false, ◌&&◌, ◌||◌, not, List,
  [], ◌∷◌, ◌++◌, map, Option, none, some, arith, if◌then◌else◌, is_empty, keep, find, any, All,
  Bool-cases, inl, inr, Option-cases, All-append,
}
use freebsd_flatpak.Text.{
  Text, text, text_eq, text_eq→eq, text_eq_refl, trim, split, join, Lacks, split-join, split-Lacks,
}
use freebsd_flatpak.StaticOverrides.Defs.{
  split_list, list_identity, merge_item, merge_items, render_list, merge_list, items_enabled,
  decides, non_empty, or_empty,
}

-- Whether a list has an item of the identity, and what its last one says.
abbrev pub mentions : Bool → List Text → Text → Bool
mentions filesystem items target = any (decides filesystem target) items

-- the last item of an identity
abbrev last_of : Bool → List Text → Text → Option Text
last_of filesystem items target = find (decides filesystem target) (reverse items)

module _ (filesystem : Bool) (target : Text) where
  last_of-cons :
      (x : Text) (items : List Text)
      → last_of filesystem (x ∷ items) target
        ≡ or_else
            (last_of filesystem items target)
            (if decides filesystem target x then some x else none)
  last_of-cons x items = rw reverse-cons (rw find-append)

  last_of-retain :
      (other : Text) (items : List Text)
      → text_eq other target ≡ false
      → last_of filesystem
          (keep (λ e. not (text_eq (list_identity e filesystem) other)) items)
          target
        ≡ last_of filesystem items target
  last_of-retain other [] h = refl
  last_of-retain other (x ∷ items) h = rw last_of-cons (
      ground (
        arith,
        last_of-retain other items h,
        last_of-cons x (keep (λ e. not (text_eq (list_identity e filesystem) other)) items),
        text_eq→eq (list_identity x filesystem) other,
      ))

  last_of-merge_item :
      (base : List Text) (x : Text)
      → last_of filesystem (merge_item filesystem base x) target
        ≡ (if decides filesystem target x then some x else last_of filesystem base target)
  unfolding merge_item
  last_of-merge_item base x =
      rw reverse-append (ground (arith, last_of-retain (list_identity x filesystem) base))

  last_of-merge_items :
      (base overlay : List Text)
      → last_of filesystem (merge_items filesystem base overlay) target
        ≡ or_else (last_of filesystem overlay target) (last_of filesystem base target)
  unfolding merge_items
  last_of-merge_items base [] = refl
  last_of-merge_items base (x ∷ overlay) = ground (
    arith,
    last_of-merge_items (merge_item filesystem base x) overlay,
    last_of-merge_item base x,
    last_of-cons x overlay,
  )

  mentions-last_of :
      (items : List Text)
      → mentions filesystem items target
        ≡ (elim (last_of filesystem items target) [ some x ↦ true | none ↦ false ])
  mentions-last_of [] = refl
  mentions-last_of (x ∷ items) = rw last_of-cons (ground (arith, mentions-last_of items))

  -- After a merge the overlay decides what it mentions, and the base decides the rest.
  pub items_enabled-merge_items :
      (base overlay : List Text)
      → items_enabled filesystem (merge_items filesystem base overlay) target ≡ (
          if mentions filesystem overlay target
          then items_enabled filesystem overlay target
          else items_enabled filesystem base target)
  unfolding items_enabled
  items_enabled-merge_items base overlay =
      ground (arith, last_of-merge_items base overlay, mentions-last_of overlay)
