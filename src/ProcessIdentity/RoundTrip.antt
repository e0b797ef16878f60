-- ===== src/ProcessIdentity/RoundTrip.antt =====
-- An identity is read back from a run record.
use freebsd_flatpak.Prelude.{
  ◌≡◌, refl, ap, ◌∙◌, Option, none, some, arith, ◌∷◌, ◌++◌, ℤ, Option-cases, inl, inr,
}
use freebsd_flatpak.Text.{
  Text, split_once, split_once-append, parse_signed, show_int, IsWithin, parse_signed-show_int,
  parse_signed-IsWithin, show_int-Lacks, is_ascii_digit,
}
use freebsd_flatpak.ProcessIdentity.Defs.{
  ProcessIdentity, i64_max, both, parse_identity, show_identity,
}

-- Both numbers fit their 64 bits.
pub record IsKernelTime (i : ProcessIdentity) : Type 0 where
  pub seconds : IsWithin i64_max i.start_seconds
  pub microseconds : IsWithin i64_max i.start_microseconds

both_of :
    {a b : Option ℤ} {i : ProcessIdentity}
    → a ≡ some i.start_seconds
    → b ≡ some i.start_microseconds
    → both a b ≡ some i
both_of p q = ground (arith, p, q)

parse_identity_of :
    (value : Text) {i : ProcessIdentity} {a b : Text}
    → split_once value b':' ≡ some (a, b)
    → both (parse_signed i64_max a) (parse_signed i64_max b) ≡ some i
    → parse_identity value ≡ some i
unfolding parse_identity
parse_identity_of value e h = rw (e, parse_identity) h

-- An identity whose numbers fit 64 bits is read back from its text.
pub parse-show_identity :
    (i : ProcessIdentity) → IsKernelTime i → parse_identity (show_identity i) ≡ some i
unfolding show_identity is_ascii_digit
parse-show_identity i h =
    parse_identity_of (show_int i.start_seconds ++ (b':' ∷ show_int i.start_microseconds))
      (split_once-append (show_int i.start_seconds) (show_int i.start_microseconds) b':'
        (show_int-Lacks b':' i.start_seconds refl (λ e. omega arith)))
      (both_of (parse_signed-show_int i64_max i.start_seconds h.seconds)
        (parse_signed-show_int i64_max i.start_microseconds h.microseconds))

both-IsKernelTime :
    (a b : Text) {i : ProcessIdentity}
    → both (parse_signed i64_max a) (parse_signed i64_max b) ≡ some i
    → IsKernelTime i
both-IsKernelTime a b {i} h = elim (Option-cases (parse_signed i64_max a)) [
  | inl bad ↦ ground (arith, bad, h)
  | inr (s, good) ↦ elim (Option-cases (parse_signed i64_max b)) [
    | inl bad ↦ ground (arith, good, bad, h)
    | inr (m, fine) ↦
        let first : s ≡ i.start_seconds = ground (arith, good, fine, h) in
        let second : m ≡ i.start_microseconds = ground (arith, good, fine, h) in
        record {
          seconds = parse_signed-IsWithin i64_max a (good ∙ ap some first);
          microseconds = parse_signed-IsWithin i64_max b (fine ∙ ap some second);
        }
  ]
]

-- What is read from a text fits 64 bits.
pub parse_identity-IsKernelTime :
    (value : Text) {i : ProcessIdentity} → parse_identity value ≡ some i → IsKernelTime i
unfolding parse_identity
parse_identity-IsKernelTime value {i} h = go (split_once value b':') h
  where
    go :
        (o : Option (Text × Text))
        → (elim o [
          | none ↦ none
          | some (seconds, microseconds) ↦
              both (parse_signed i64_max seconds) (parse_signed i64_max microseconds)
        ])
          ≡ some i
        → IsKernelTime i
    go none k = cc
    go (some (a, b)) k = both-IsKernelTime a b k
