-- ===== src/StaleRecovery/Tests.antt =====
-- The recovery of a nested sandbox and of its parent.
use mathlib.Core.Path.{subst}
use freebsd_flatpak.Prelude.{
  ℕ, zero, suc, ◌<◌, ◌≡◌, refl, sym, ◌↔◌, ◌⊎◌, Bool, true, false, ◌||◌, List, [], ◌∷◌, Option, none,
  some, arith, if◌then◌else◌, Result, ok, err, Among, here, there,
}
use freebsd_flatpak.Text.{
  trim_start, trim_end, trim, is_whitespace, split_once, split, text_cmp, parse_up_to,
  parse_unsigned, parse_signed, parse_digits, strip_return, lines, line_list, trim_end_matches,
  strip_rounds, split_once_at, is_ascii_digit, strip_prefix, strip_last, starts_with, text_eq, get,
  text,
}
use freebsd_flatpak.Paths.{
  join_onto, path_le, path_erase, strip_path, path_contains, path_cmp, components_of, component_eq,
  component_cmp, ancestors_back, ancestors, path_insert, is_under, FilePath, to_path, path_eq,
}
use freebsd_flatpak.ProcessIdentity.{parse_identity}
use freebsd_flatpak.StaleRecovery.{
  is_read_only, mount_pair, mountpoint_is_read_only, is_orphaned_regular_document_mount, is_mounted,
  unmount_orphan, unmount_mountpoint, remove_records, remove_if_empty, order_mounts_for_recovery,
  unmount_each, unmount_mountpoints, unmount_under, pids_referencing_roots, chroot_processes,
  tear_down, recover_root, recover_roots, signal_rounds, terminate_processes_with, recover_stale,
  sort_mountpoints_deepest_first, mount_points_under, unmount_orphans,
  recover_orphaned_document_mounts, order_loop, mount_dependency, last_path, deeper_le,
  record_dependency, is_blocked, deepest, next_ready, sandbox_roots, mounts_of_lines, mount_of_line,
  int_eq, identity_alive, find_root, chroot_root_for_mount, mount_edge, extend_referenced,
  parent_root_of, record_edge, follow, follow_edges, spread, launcher_pid,
  run_record_launcher_active, references_root, root_of, used_roots, active_roots_from_records,
  MountInfo, mount_infos, RunRecord, RecoverError, outside, View, no_such_process,
  active_sandbox_roots, topological_path_order, order_sandbox_roots_for_recovery, Dependency,
  root_dependencies, Action, unmount, remove_root, remove_record, Round, Documents,
  recover_stale_mounts, terminate_chroot_processes, unmount_mountpoint_with, sandbox_mount_target,
}
use freebsd_flatpak.StaleRecovery.Held.{IsHeld, active_sandbox_roots_iff}
use freebsd_flatpak.StaleRecovery.Ordered.{
  IsOrdered, IsDistinct, topological_path_order_all, topological_path_order-IsOrdered,
}
use freebsd_flatpak.StaleRecovery.Torn.{IsSafe, IsOrphaned, recover_stale_mounts-IsSafe}
use freebsd_flatpak.StaleRecovery.Ended.{
  terminate_chroot_processes_ended, unmount_mountpoint_with_gone,
}

abbrev parent_root : FilePath
parent_root = to_path (text "/c/a/1")

abbrev nested_root : FilePath
nested_root = to_path (text "/c/a/2")

abbrev records : List RunRecord
records =
    ((text "root", text "/c/a/2") ∷ (text "parent_root", text "/c/a/1") ∷ [])
    ∷ ((text "root", text "/c/a/1") ∷ (text "_path", text "/r/1") ∷ [])
    ∷ []

abbrev mounts : List MountInfo
mounts = mount_infos (text "/c/a/1/app on /c/a/2/app (nullfs, read-only)")

abbrev view_of : List (ℕ × FilePath) → View
view_of references = record {
  chroots = to_path (text "/c");
  records = records;
  mounts = mounts;
  references = references;
  has_info = λ p. path_eq p parent_root || path_eq p nested_root;
  kill_zero = λ pid. no_such_process;
  identity_for_pid = λ pid. ok none;
}

-- a process of the nested sandbox
abbrev busy : View
busy = view_of ((7, to_path (text "/c/a/2/bin/sh")) ∷ [])

abbrev idle : View
idle = view_of []

busy_active : active_sandbox_roots busy ≡ ok (some (parent_root ∷ nested_root ∷ []))
unfolding active_sandbox_roots active_roots_from_records used_roots root_of get text_eq
    references_root is_under to_path run_record_launcher_active launcher_pid spread follow_edges
    follow record_edge parent_root_of path_insert mount_infos ancestors ancestors_back component_cmp
    component_eq components_of path_cmp path_contains path_eq strip_path parse_identity
    extend_referenced mount_edge chroot_root_for_mount find_root identity_alive int_eq mount_of_line
    mounts_of_lines sandbox_roots starts_with strip_last strip_prefix is_ascii_digit split_once_at
    strip_rounds trim_end_matches line_list lines strip_return parse_digits parse_signed
    parse_unsigned parse_up_to text_cmp split split_once
busy_active = refl

idle_active : active_sandbox_roots idle ≡ ok (some [])
unfolding active_sandbox_roots active_roots_from_records used_roots root_of get text_eq
    references_root run_record_launcher_active launcher_pid spread follow_edges follow record_edge
    parent_root_of mount_infos mounts_of_lines lines mount_of_line ancestors ancestors_back
    component_cmp component_eq components_of is_under path_cmp path_contains path_eq path_insert
    strip_path to_path parse_identity extend_referenced mount_edge chroot_root_for_mount find_root
    identity_alive int_eq sandbox_roots starts_with strip_last strip_prefix is_ascii_digit
    split_once_at strip_rounds trim_end_matches line_list strip_return parse_digits parse_signed
    parse_unsigned parse_up_to text_cmp split split_once
idle_active = refl

nested_first :
    order_sandbox_roots_for_recovery idle (parent_root ∷ nested_root ∷ [])
    ≡ nested_root ∷ parent_root ∷ []
unfolding order_sandbox_roots_for_recovery topological_path_order next_ready deepest is_blocked
    root_dependencies record_dependency root_of get text_eq parent_root_of path_contains to_path
    mount_infos mounts_of_lines lines mount_of_line split_once_at ancestors ancestors_back
    component_cmp component_eq components_of is_under path_cmp path_eq path_erase path_le strip_path
    deeper_le last_path mount_dependency order_loop chroot_root_for_mount find_root starts_with
    strip_last strip_prefix strip_rounds trim_end_matches line_list strip_return text_cmp split
nested_first = refl

active_sandbox_roots_iff_example :
    (active : List FilePath) × (◌≡◌ {A = Option (List FilePath)}
      (some (parent_root ∷ nested_root ∷ []))
      (some active))
    × ((x : FilePath) → Among x active ↔ IsHeld busy x)
active_sandbox_roots_iff_example =
    active_sandbox_roots_iff busy (some (parent_root ∷ nested_root ∷ [])) busy_active

topological_path_order_all_example :
    IsDistinct (
      topological_path_order
        (parent_root ∷ nested_root ∷ [])
        (root_dependencies idle (parent_root ∷ nested_root ∷ [])))
    × ((x : FilePath)
        → Among x (
            topological_path_order
              (parent_root ∷ nested_root ∷ [])
              (root_dependencies idle (parent_root ∷ nested_root ∷ [])))
          ↔ Among x (parent_root ∷ nested_root ∷ []))
topological_path_order_all_example =
    topological_path_order_all (parent_root ∷ nested_root ∷ [])
      (root_dependencies idle (parent_root ∷ nested_root ∷ []))

abbrev parent_last : List Dependency
parent_last = (nested_root, parent_root) ∷ []

-- the parent is above the nested sandbox
unfoldable generation : FilePath → ℕ
generation p = if path_eq p parent_root then 1 else 0

apart : generation nested_root < generation parent_root
unfolding generation path_eq to_path
apart = omega arith

generation_falls :
    (before after : FilePath)
    → Among (before, after) parent_last
    → generation before < generation after
generation_falls before after (here e) =
    subst (λ d. generation (d.0) < generation (d.1)) (sym e) apart
generation_falls before after (there m) = elim m [ ]

topological_path_order-IsOrdered_example :
    IsOrdered parent_last (topological_path_order (parent_root ∷ nested_root ∷ []) parent_last)
topological_path_order-IsOrdered_example =
    topological_path_order-IsOrdered (parent_root ∷ nested_root ∷ []) parent_last generation
      generation_falls

-- The nested sandbox has one mount, which goes away with the first try.
abbrev round_of : FilePath → Round
round_of root = record {
  view = ok idle;
  own = 1;
  snapshot = λ i. ok [];
  has_info = λ p. path_eq p parent_root || path_eq p nested_root;
  table = ok mounts;
  options_table = λ p. ok mounts;
  mounted_table = λ p i. ok mounts;
  table_left = ok [];
  metadata = λ p. ok tt;
  try_unmount = λ p force. ok tt;
  try_remove_root = ok tt;
  try_remove_record = λ file. ok tt;
}

abbrev no_documents : Documents
no_documents = record {
  metadata = ok tt;
  table = ok [];
  exists = λ p. true;
  try_unmount = λ p force. ok tt;
  mounted_table = λ p. ok [];
}

abbrev recovery : List Action
recovery =
    (recover_stale_mounts (to_path (text "/c")) (ok tt) no_documents (ok idle) round_of
      no_documents).0

recovered :
    recovery
    ≡ unmount (to_path (text "/c/a/2/app")) false
      ∷ remove_root nested_root
      ∷ remove_root parent_root
      ∷ remove_record (text "/r/1")
      ∷ []
unfolding recover_stale_mounts recover_orphaned_document_mounts unmount_orphans mount_points_under
    sort_mountpoints_deepest_first active_sandbox_roots active_roots_from_records used_roots root_of
    get text_eq references_root run_record_launcher_active launcher_pid recover_stale spread
    follow_edges follow record_edge parent_root_of mount_infos mounts_of_lines lines mount_of_line
    split_once_at mount_edge chroot_root_for_mount find_root ancestors to_path is_under
    extend_referenced sandbox_roots path_insert recover_roots order_sandbox_roots_for_recovery
    topological_path_order next_ready deepest is_blocked root_dependencies record_dependency
    mount_dependency recover_root tear_down terminate_chroot_processes chroot_processes
    pids_referencing_roots unmount_under unmount_mountpoints unmount_each order_mounts_for_recovery
    ancestors_back component_cmp component_eq components_of join_onto path_cmp path_contains path_eq
    path_erase path_le strip_path parse_identity remove_if_empty remove_records unmount_mountpoint
    unmount_orphan is_mounted is_orphaned_regular_document_mount mountpoint_is_read_only
    sandbox_mount_target signal_rounds terminate_processes_with unmount_mountpoint_with deeper_le
    last_path mount_pair order_loop identity_alive int_eq is_read_only starts_with strip_last
    strip_prefix is_ascii_digit is_whitespace trim trim_end trim_start strip_rounds trim_end_matches
    line_list strip_return parse_digits parse_signed parse_unsigned parse_up_to text_cmp split
    split_once
recovered = refl

second : Among (remove_root nested_root) recovery
second = subst (Among (remove_root nested_root)) (sym recovered) (there (here refl))

recover_stale_mounts-IsSafe_example :
    IsSafe round_of (remove_root nested_root)
    ⊎ (IsOrphaned (to_path (text "/c")) no_documents (remove_root nested_root)
        ⊎ IsOrphaned (to_path (text "/c")) no_documents (remove_root nested_root))
recover_stale_mounts-IsSafe_example =
    recover_stale_mounts-IsSafe (to_path (text "/c")) (ok tt) no_documents (ok idle) round_of
      no_documents second

-- a process that the second signal ends
abbrev stubborn : ℕ → Result RecoverError (List ℕ)
stubborn zero = ok (7 ∷ [])
stubborn (suc zero) = ok (7 ∷ [])
stubborn (suc (suc zero)) = ok (7 ∷ [])
stubborn (suc (suc (suc i))) = ok []

stubborn_ends : (terminate_chroot_processes stubborn).1 ≡ ok tt
unfolding terminate_chroot_processes terminate_processes_with signal_rounds
stubborn_ends = refl

terminate_chroot_processes_ended_example : (i : ℕ) × (i < 42) × (stubborn i ≡ ok [])
terminate_chroot_processes_ended_example = terminate_chroot_processes_ended stubborn stubborn_ends

-- a busy mount that only a forced unmount removes
abbrev busy_mount : Bool → Result RecoverError (Unit {0})
busy_mount true = ok tt
busy_mount false = err (outside 16)

forced : (unmount_mountpoint_with nested_root true (λ i. ok true) busy_mount).1 ≡ ok tt
unfolding unmount_mountpoint_with
forced = refl

unmount_mountpoint_with_gone_example :
    ((i : ℕ) × (i < 4) × (◌≡◌ {A = Result RecoverError Bool} (ok true) (ok false)))
    ⊎ ((force : Bool) × (busy_mount force ≡ ok tt) × (force ≡ true → ◌≡◌ {A = Bool} true true))
unmount_mountpoint_with_gone_example =
    unmount_mountpoint_with_gone nested_root true (λ i. ok true) busy_mount forced
