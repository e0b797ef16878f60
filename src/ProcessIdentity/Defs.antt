-- ===== src/ProcessIdentity/Defs.antt =====
-- src/process_identity.rs: `ProcessIdentity` with its text. `for_pid` asks the kernel and is a
-- parameter of what calls it.
use freebsd_flatpak.Prelude.{ℕ, Option, none, some, ◌∷◌, ◌++◌, ℤ}
use freebsd_flatpak.Text.{Text, split_once, parse_signed, show_int}

pub record ProcessIdentity : Type 0 where
  pub start_seconds : ℤ
  pub start_microseconds : ℤ

-- `i64::MAX`
abbrev pub i64_max : ℕ
i64_max = 9223372036854775807

abbrev pub both : Option ℤ → Option ℤ → Option ProcessIdentity
both (some s) (some m) = some (record { start_seconds = s; start_microseconds = m })
both (some s) none = none
both none _ = none

unfoldable pub parse_identity : Text → Option ProcessIdentity
unfolding split_once
parse_identity value = elim (split_once value b':') [
  | none ↦ none
  | some (seconds, microseconds) ↦
      both (parse_signed i64_max seconds) (parse_signed i64_max microseconds)
]

-- `Display`
unfoldable pub show_identity : ProcessIdentity → Text
unfolding show_int
show_identity i = show_int i.start_seconds ++ (b':' ∷ show_int i.start_microseconds)
