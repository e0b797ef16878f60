-- ===== src/StaticOverrides/Merge/Twice.antt =====
-- Merging the same overlay a second time changes nothing.
use mathlib.Core.List.{append_assoc, append-nil}
use freebsd_flatpak.Prelude.{
  ap, keep_every, keep_congr, ◌≡◌, refl, ◌∙◌, Bool, true, false, not, List, [], ◌∷◌, ◌++◌, arith,
  keep, All, keep-append, keep-keep, keep_nothing, All-append, All-keep, All-weaken,
}
use freebsd_flatpak.Text.{Text, text_eq, text_eq_refl, text_eq_comm}
use freebsd_flatpak.StaticOverrides.Defs.{list_identity, merge_item, merge_items}
use freebsd_flatpak.StaticOverrides.Merge.{mentions}

module _ (fs : Bool) where
  abbrev named : List Text → Text → Bool
  named overlay item = mentions fs overlay (list_identity item fs)

  unnamed-All : (base : List Text) → All (λ e. not (named [] e) ≡ true) base
  unnamed-All [] = tt
  unnamed-All (x ∷ base) = (refl, unnamed-All base)

  -- A merge keeps what the overlay does not mention, in its order, and then has what the overlay
  -- alone gives.
  pub merge_items-split :
      (base overlay : List Text)
      → merge_items fs base overlay
        ≡ keep (λ e. not (named overlay e)) base ++ merge_items fs [] overlay
  unfolding merge_items merge_item
  merge_items-split base [] = rw (append-nil, keep_every _ base (unnamed-All base))
  merge_items-split base (x ∷ overlay) =
      rw
        (
          merge_items-split
              (keep (λ e. not (text_eq (list_identity e fs) (list_identity x fs))) base ++ (x ∷ []))
              overlay,
          merge_items-split (x ∷ []) overlay,
          keep-append,
          keep-keep,
        )
        (rw append_assoc (
          ap
            (λ front.
              front ++ (keep (λ e. not (named overlay e)) (x ∷ []) ++ merge_items fs [] overlay))
            (keep_congr base
              (λ e. ground (arith, text_eq_comm (list_identity e fs) (list_identity x fs))))))

  pub merge_items-All :
      (P : Text → Type 0) (base overlay : List Text)
      → All P base
      → All P overlay
      → All P (merge_items fs base overlay)
  unfolding merge_items merge_item
  merge_items-All P base [] b o = b
  merge_items-All P base (x ∷ overlay) b o =
      merge_items-All P (merge_item fs base x) overlay
        (All-append P (keep _ base) (x ∷ []) (All-keep P _ base b) (o.0, tt)) o.1

  named_self : (overlay : List Text) → All (λ e. named overlay e ≡ true) overlay
  named_self [] = tt
  named_self (x ∷ overlay) = (
    ground (arith, text_eq_refl (list_identity x fs)),
    All-weaken _ (λ e. named (x ∷ overlay) e ≡ true) overlay (λ e h. ground arith)
        (named_self overlay),
  )

  -- Merging an overlay a second time changes nothing.
  pub merge_items_twice :
      (base overlay : List Text)
      → merge_items fs (merge_items fs base overlay) overlay ≡ merge_items fs base overlay
  merge_items_twice base overlay =
      let again : merge_items fs base overlay
          ≡ keep (λ e. not (named overlay e)) base ++ merge_items fs [] overlay =
        merge_items-split base overlay in
      let own : All (λ e. not (named overlay e) ≡ false) (merge_items fs [] overlay) =
        All-weaken _ _ _ (λ e h. ground arith)
          (merge_items-All (λ e. named overlay e ≡ true) [] overlay tt (named_self overlay)) in
      merge_items-split (merge_items fs base overlay) overlay
      ∙ rw
          (
            again,
            keep-append,
            keep-keep,
            keep_nothing _ (merge_items fs [] overlay) own,
            append-nil,
          )
          (ap (λ front. front ++ merge_items fs [] overlay) (keep_congr base (λ e. ground arith)))
