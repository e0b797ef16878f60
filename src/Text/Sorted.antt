-- ===== src/Text/Sorted.antt =====
-- Sorting keeps the elements.
use freebsd_flatpak.Text.Order.{insert_by, sort_by}
use freebsd_flatpak.Prelude.{Bool, List, [], ◌∷◌, inl, inr, Among, here, there, Bool-cases}

module _ {ℓ} {A : Type ℓ} (le : A → A → Bool) (x : A) where
  Among_swap : {y z : A} {zs : List A} → Among x (z ∷ y ∷ zs) → Among x (y ∷ z ∷ zs)
  Among_swap (here e) = there (here e)
  Among_swap (there (here e)) = here e
  Among_swap (there (there m)) = there (there m)

  Among_under :
      {y : A} {xs ys : List A} → (Among x xs → Among x ys) → Among x (y ∷ xs) → Among x (y ∷ ys)
  Among_under f (here e) = here e
  Among_under f (there m) = there (f m)

  insert_by_sound : (y : A) (ys : List A) → Among x (insert_by le y ys) → Among x (y ∷ ys)
  unfolding insert_by
  insert_by_sound y [] m = m
  insert_by_sound y (z ∷ zs) m = elim (Bool-cases (le y z)) [
    | inl before ↦ rw before at m
    | inr behind ↦ Among_swap (Among_under (insert_by_sound y zs) (rw behind at m))
  ]

  insert_by_complete : (y : A) (ys : List A) → Among x (y ∷ ys) → Among x (insert_by le y ys)
  unfolding insert_by
  insert_by_complete y [] m = m
  insert_by_complete y (z ∷ zs) m = elim (Bool-cases (le y z)) [
    | inl before ↦ rw before m
    | inr behind ↦ rw behind (Among_under (insert_by_complete y zs) (Among_swap m))
  ]

  -- An element of a sorted list is one of the list that was sorted.
  pub sort_by_sound : (xs : List A) → Among x (sort_by le xs) → Among x xs
  unfolding sort_by
  sort_by_sound [] m = m
  sort_by_sound (y ∷ ys) m = Among_under (sort_by_sound ys) (insert_by_sound y (sort_by le ys) m)

  -- Sorting loses no element.
  pub sort_by_complete : (xs : List A) → Among x xs → Among x (sort_by le xs)
  unfolding sort_by
  sort_by_complete [] m = m
  sort_by_complete (y ∷ ys) m =
      insert_by_complete y (sort_by le ys) (Among_under (sort_by_complete ys) m)
