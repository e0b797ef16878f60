-- ===== src/StaticOverrides/Merge/Render.antt =====
-- The text of a merged list is read back as its items.
use mathlib.Core.List.{append_assoc}
use freebsd_flatpak.Prelude.{
  ◌≡◌, refl, ◌≢◌, ap, ◌∙◌, Bool, true, List, [], ◌∷◌, ◌++◌, map, Option, some, is_empty, keep, All,
  All-append, Bool-cases, inl, inr, if◌then◌else◌,
}
use freebsd_flatpak.Text.{
  Text, trim, trim_start, trim_end, trim_idem, trim-All, split, join, Lacks, split-join,
  split-Lacks,
}
use freebsd_flatpak.StaticOverrides.Defs.{
  split_list, merge_items, render_list, merge_list, items_enabled, non_empty, or_empty,
}
use freebsd_flatpak.StaticOverrides.Merge.{mentions, items_enabled-merge_items}
use freebsd_flatpak.StaticOverrides.Merge.Twice.{merge_items-All, merge_items_twice}

-- An item that `split_list` can give.
abbrev pub IsItem : Text → Type 0
IsItem item = (non_empty item ≡ true) × (trim item ≡ item) × Lacks b';' item

trimmed-IsItem :
    (parts : List Text) → All (Lacks b';') parts → All IsItem (keep non_empty (map trim parts))
trimmed-IsItem [] h = tt
trimmed-IsItem (part ∷ parts) h = elim (Bool-cases (is_empty (trim part))) [
  | inl dropped ↦ rw dropped (trimmed-IsItem parts h.1)
  | inr kept ↦
      rw kept
        ((rw kept, trim_idem part, trim-All (λ c. c ≢ b';') part h.0), trimmed-IsItem parts h.1)
]

split_list-IsItem : (s : Text) → All IsItem (split_list s)
unfolding split_list
split_list-IsItem s = trimmed-IsItem (split s b';') (split-Lacks s b';')

join_end :
    (item : Text) (items : List Text)
    → join (item ∷ items) b';' ++ (b';' ∷ []) ≡ join (item ∷ (items ++ ([] ∷ []))) b';'
unfolding join
join_end item [] = refl
join_end item (next ∷ items) =
    rw append_assoc (ap (λ rest. item ++ (b';' ∷ rest)) (join_end next items))

items-Lacks : (items : List Text) → All IsItem items → All (Lacks b';') items
items-Lacks [] h = tt
items-Lacks (item ∷ items) h = (h.0.2, items-Lacks items h.1)

-- the empty part behind the last semicolon goes
items_end-clean :
    (items : List Text) → All IsItem items → keep non_empty (map trim (items ++ ([] ∷ []))) ≡ items
items_end-clean [] h = unfold trim trim_start trim_end in refl
items_end-clean (item ∷ items) h = rw (h.0.1, h.0.0, items_end-clean items h.1)

-- The text of a list of items is split into these items.
pub split_list-render_list :
    (items : List Text) → All IsItem items → split_list (render_list items) ≡ items
unfolding split_list render_list
split_list-render_list [] h = unfold split trim trim_start trim_end in refl
split_list-render_list (item ∷ items) h =
    let ended : All (Lacks b';') ((item ∷ items) ++ ([] ∷ [])) =
      All-append (Lacks b';') (item ∷ items) ([] ∷ []) (items-Lacks (item ∷ items) h) (tt, tt) in
    rw (join_end item items, split-join (item ∷ (items ++ ([] ∷ []))) b';' (cc) ended)
      (items_end-clean (item ∷ items) h)

-- The text of a merged list holds the merged items.
pub split_list-merge_list :
    (base : Option Text) (overlay : Text) (filesystem : Bool)
    → split_list (merge_list base overlay filesystem)
      ≡ merge_items filesystem (split_list (or_empty base)) (split_list overlay)
unfolding merge_list
split_list-merge_list base overlay filesystem = split_list-render_list _ (
    merge_items-All filesystem IsItem (split_list (or_empty base)) (split_list overlay)
      (split_list-IsItem (or_empty base)) (split_list-IsItem overlay))

-- In a merged list, read as text, the overlay decides each permission that it mentions, and the
-- base decides the others.
pub items_enabled-merge_list :
    (base : Option Text) (overlay : Text) (filesystem : Bool) (target : Text)
    → items_enabled filesystem (split_list (merge_list base overlay filesystem)) target ≡ (
        if mentions filesystem (split_list overlay) target
        then items_enabled filesystem (split_list overlay) target
        else items_enabled filesystem (split_list (or_empty base)) target)
items_enabled-merge_list base overlay filesystem target =
    rw (split_list-merge_list base overlay filesystem) (
      items_enabled-merge_items filesystem target (split_list (or_empty base)) (split_list overlay))

-- Merging an overlay into the text of a merged list gives the same text.
pub merge_list_twice :
    (base : Option Text) (overlay : Text) (filesystem : Bool)
    → merge_list (some (merge_list base overlay filesystem)) overlay filesystem
      ≡ merge_list base overlay filesystem
unfolding merge_list
merge_list_twice base overlay filesystem = ap render_list (
    ap (λ items. merge_items filesystem items (split_list overlay))
      (split_list-merge_list base overlay filesystem)
    ∙ merge_items_twice filesystem (split_list (or_empty base)) (split_list overlay))
