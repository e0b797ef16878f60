-- ===== src/StaleRecovery/Views.antt =====
-- src/sandbox/stale_sandbox_recovery.rs, src/sandbox/process_supervision.rs,
-- src/installation/run_records.rs: what recovery reads of the records, the mounts and the processes.
use freebsd_flatpak.Prelude.{
  ℕ, zero, suc, Bool, true, false, ◌&&◌, ◌==◌, List, [], ◌∷◌, map, Option, none, some,
  if◌then◌else◌, any, Result, ok, err, ◌>>=◌, ℤ, pos, negsuc,
}
use freebsd_flatpak.Text.{
  Text, text, get, lines, split, trim, text_eq, split_once_at, trim_end_matches, parse_signed,
}
use freebsd_flatpak.Paths.{FilePath, to_path, path_eq, is_under, ancestors, path_insert}
use freebsd_flatpak.ProcessIdentity.{ProcessIdentity, parse_identity}

pub record MountInfo : Type 0 where
  pub source : FilePath
  pub mountpoint : FilePath
  pub options : Text

-- a line of the table, `source on mountpoint (options)`
unfoldable pub mount_of_line : Text → Option MountInfo
mount_of_line line = elim (split_once_at line (text " on ")) [
  | none ↦ none
  | some (source, rest) ↦ elim (split_once_at rest (text " (")) [
    | none ↦ none
    | some (mountpoint, options) ↦ some (record {
      source = to_path source;
      mountpoint = to_path mountpoint;
      options = trim_end_matches options (text ")");
    })
  ]
]

unfoldable pub mounts_of_lines : List Text → List MountInfo
mounts_of_lines [] = []
mounts_of_lines (line ∷ rest) =
    let later = mounts_of_lines rest in
    elim (mount_of_line line) [ some m ↦ m ∷ later | none ↦ later ]

-- `mount_infos`, of the output of `mount`
unfoldable pub mount_infos : Text → List MountInfo
mount_infos table = mounts_of_lines (lines table)

unfoldable pub is_read_only : MountInfo → Bool
is_read_only m = any (λ option. text_eq option (text "read-only")) (map trim (split m.options b','))

-- `BTreeMap<String, String>`
abbrev pub RunRecord : Type 0
RunRecord = List (Text × Text)

abbrev pub path_value : Option Text → Option FilePath
path_value none = none
path_value (some value) = some (to_path value)

unfoldable pub root_of : RunRecord → Option FilePath
root_of r = path_value (get (text "root") r)

unfoldable pub parent_root_of : RunRecord → Option FilePath
parent_root_of r = path_value (get (text "parent_root") r)

-- What `kill(pid, 0)` answers.
pub data KillAnswer : Type 0 where
  delivered no_such_process not_permitted other_error : KillAnswer

pub data RecoverError : Type 0 where
  legacy_launcher invalid_identity : ℕ → RecoverError
  survived : List ℕ → RecoverError
  not_below_root outside_root is_root : FilePath → RecoverError
  -- the number of mounts that stay
  recovery_failed : ℕ → RecoverError
  -- a failure of the system
  outside : ℕ → RecoverError

-- What is seen at one moment: the records, the mounts, the process references, the files, and the
-- answers of the kernel.
pub record View : Type 0 where
  pub chroots : FilePath
  pub records : List RunRecord
  pub mounts : List MountInfo
  -- `SandboxProcessSnapshot`
  pub references : List (ℕ × FilePath)
  -- `path.join(".flatpak-info").is_file()`
  pub has_info : FilePath → Bool
  pub kill_zero : ℕ → KillAnswer
  pub identity_for_pid : ℕ → Result RecoverError (Option ProcessIdentity)

unfoldable pub references_root : View → FilePath → Bool
references_root v root = any (λ (_, path). is_under path root) v.references

-- `i32::MAX`
abbrev pub pid_max : ℕ
pid_max = 2147483647

abbrev pub positive_pid : Option ℤ → Option ℕ
positive_pid (some (pos (suc n))) = some (suc n)
positive_pid (some (pos zero)) = none
positive_pid (some (negsuc n)) = none
positive_pid none = none

unfoldable pub launcher_pid : RunRecord → Option ℕ
launcher_pid values = elim (get (text "launcher_pid") values) [
  | none ↦ none
  | some value ↦ positive_pid (parse_signed pid_max value)
]

unfoldable pub int_eq : ℤ → ℤ → Bool
int_eq (pos a) (pos b) = a == b
int_eq (negsuc a) (negsuc b) = a == b
int_eq _ _ = false

abbrev pub identity_eq : ProcessIdentity → ProcessIdentity → Bool
identity_eq a b =
    int_eq a.start_seconds b.start_seconds && int_eq a.start_microseconds b.start_microseconds

abbrev pub answers_alive : ℕ → KillAnswer → Result RecoverError Bool
answers_alive pid delivered = ok true
answers_alive pid no_such_process = ok false
answers_alive pid not_permitted = ok true
answers_alive pid other_error = err (legacy_launcher pid)

abbrev pub is_current : ProcessIdentity → Option ProcessIdentity → Bool
is_current recorded none = false
is_current recorded (some current) = identity_eq current recorded

unfoldable pub identity_alive : View → ℕ → Option ProcessIdentity → Result RecoverError Bool
identity_alive v pid none = err (invalid_identity pid)
identity_alive v pid (some recorded) =
    v.identity_for_pid pid >>= λ current. ok (is_current recorded current)

-- a record with no identity is of an older version
unfoldable pub run_record_launcher_active : View → RunRecord → Result RecoverError Bool
run_record_launcher_active v values = elim (launcher_pid values) [
  | none ↦ ok false
  | some pid ↦ elim (get (text "launcher_start") values) [
    | none ↦ answers_alive pid (v.kill_zero pid)
    | some recorded ↦ identity_alive v pid (parse_identity recorded)
  ]
]

-- the loop of `chroot_root_for_mount` over the directories above a mount point
unfoldable pub find_root : View → List FilePath → Option FilePath
find_root v [] = none
find_root v (path ∷ above) =
    let later = find_root v above in
    if path_eq path v.chroots
    then none
    else if is_under path v.chroots && v.has_info path
    then some path
    else later

abbrev pub behind_first : List FilePath → List FilePath
behind_first [] = []
behind_first (_ ∷ rest) = rest

unfoldable pub chroot_root_for_mount : View → FilePath → Option FilePath
chroot_root_for_mount v mountpoint = find_root v (behind_first (ancestors mountpoint))

abbrev pub add_path : Option FilePath → List FilePath → List FilePath
add_path none set = set
add_path (some p) set = path_insert p set

abbrev pub roots_of_records : List RunRecord → List FilePath → List FilePath
roots_of_records [] roots = roots
roots_of_records (r ∷ rest) roots = roots_of_records rest (add_path (root_of r) roots)

abbrev pub roots_of_mounts : View → List MountInfo → List FilePath → List FilePath
roots_of_mounts v [] roots = roots
roots_of_mounts v (m ∷ rest) roots =
    roots_of_mounts v rest (add_path (chroot_root_for_mount v m.mountpoint) roots)

unfoldable pub sandbox_roots : View → List FilePath
sandbox_roots v = roots_of_mounts v v.mounts (roots_of_records v.records [])
