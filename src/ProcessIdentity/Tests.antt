-- ===== src/ProcessIdentity/Tests.antt =====
-- The identity of a process, and the theorems there.
use freebsd_flatpak.Prelude.{◌≡◌, some, pos, negsuc, arith}
use freebsd_flatpak.ProcessIdentity.{ProcessIdentity, parse_identity, show_identity}
use freebsd_flatpak.ProcessIdentity.RoundTrip.{parse-show_identity}

abbrev started : ProcessIdentity
started = record { start_seconds = pos 1719; start_microseconds = negsuc 41 }

parse-show_identity_example : parse_identity (show_identity started) ≡ some started
parse-show_identity_example =
    parse-show_identity started (record { seconds = omega arith; microseconds = omega arith })
