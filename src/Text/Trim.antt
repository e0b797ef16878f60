-- ===== src/Text/Trim.antt =====
-- Trimming twice is trimming once, and adds no character.
use freebsd_flatpak.Text.Basic.{Text}
use freebsd_flatpak.Text.Chars.{trim, trim_start, trim_end, is_whitespace}
use freebsd_flatpak.Prelude.{
  ℕ, ◌≡◌, refl, false, ◌&&◌, [], ◌∷◌, arith, is_empty, All, Bool-cases, inl, inr,
}

trim_start-trim_end :
    (c : ℕ) (s : Text) → is_whitespace c ≡ false → trim_start (trim_end (c ∷ s)) ≡ trim_end (c ∷ s)
unfolding trim_start trim_end
trim_start-trim_end c s h = ground arith

trim_end_idem : (s : Text) → trim_end (trim_end s) ≡ trim_end s
unfolding trim_end
trim_end_idem [] = refl
trim_end_idem (c ∷ s) = ground (arith, trim_end_idem s)

-- what `trim_start` leaves does not start with white space
trim_start-trim : (s : Text) → trim_start (trim_end (trim_start s)) ≡ trim_end (trim_start s)
unfolding trim_start
trim_start-trim [] = unfold trim_end in refl
trim_start-trim (c ∷ s) = elim (Bool-cases (is_whitespace c)) [
  | inl white ↦ rw white (trim_start-trim s)
  | inr black ↦ rw black (trim_start-trim_end c s black)
]

pub trim_idem : (s : Text) → trim (trim s) ≡ trim s
unfolding trim
trim_idem s = rw (trim_start-trim s) (trim_end_idem (trim_start s))

trim_start-All : (P : ℕ → Type 0) (s : Text) → All P s → All P (trim_start s)
unfolding trim_start
trim_start-All P [] h = h
trim_start-All P (c ∷ s) h = elim (Bool-cases (is_whitespace c)) [
  | inl white ↦ rw white (trim_start-All P s h.1)
  | inr black ↦ rw black h
]

trim_end-All : (P : ℕ → Type 0) (s : Text) → All P s → All P (trim_end s)
unfolding trim_end
trim_end-All P [] h = h
trim_end-All P (c ∷ s) h = elim (Bool-cases (is_empty (trim_end s) && is_whitespace c)) [
  | inl dropped ↦ rw dropped tt
  | inr kept ↦ rw kept (h.0, trim_end-All P s h.1)
]

-- What holds of every character of a text holds of every character of the trimmed text.
pub trim-All : (P : ℕ → Type 0) (s : Text) → All P s → All P (trim s)
unfolding trim
trim-All P s h = trim_end-All P (trim_start s) (trim_start-All P s h)
