-- ===== src/StaleRecovery/Reasons.antt =====
-- The reasons for the actions of a teardown.
use mathlib.Core.Path.{subst}
use freebsd_flatpak.Prelude.{
  ℕ, ◌≡◌, ◌≢◌, refl, ap, ◌⊎◌, inl, inr, true, false, ◌==◌, List, [], ◌∷◌, map, some, keep, ok,
  Among, here, there, keep-Among, Among-keep, map-Among, Bool-cases, ltb,
}
use freebsd_flatpak.Text.{text, get}
use freebsd_flatpak.Paths.{FilePath, is_under, path_insert_sound}
use freebsd_flatpak.StaleRecovery.{
  MountInfo, RunRecord, View, root_of, Action, send, unmount, remove_root, remove_record,
  unmount_document, insert_pid, pids_referencing_roots, mount_points_under, is_mounted, Round,
  read_only_of, order_mounts_for_recovery, mountpoints, pairs_of, insert_deep,
  sort_mountpoints_deepest_first, deeper_le,
}
use freebsd_flatpak.StaleRecovery.Ordered.{topological_path_order_all}

-- Why an action may be done for a root: the process has the root open, the mount is below the root
-- and mounted (and read-only, if it is forced), the root has no mount left, the record is the root's.
abbrev pub IsJustified : Round → FilePath → View → Action → Type 0
IsJustified round root v (send pid s) =
    (i : ℕ) × (references : List (ℕ × FilePath)) × (path : FilePath) × (round.snapshot i
      ≡ ok references)
    × Among (pid, path) references
    × (is_under path root ≡ true)
    × (pid ≢ round.own)
IsJustified round root v (unmount target force) =
    (is_under target root ≡ true)
    × ((i : ℕ) × (mounts : List MountInfo) × (round.mounted_table target i ≡ ok mounts)
        × (is_mounted target mounts ≡ true))
    × (force ≡ true → read_only_of round root (round.options_table target) target ≡ true)
IsJustified round root v (remove_root path) =
    (path ≡ root)
    × ((left : List MountInfo) × (round.table_left ≡ ok left)
        × ((m : MountInfo) → Among m left → is_under m.mountpoint root ≡ false))
IsJustified round root v (remove_record file) =
    (r : RunRecord) × Among r v.records
    × (root_of r ≡ some root)
    × (get (text "_path") r ≡ some file)
IsJustified round root v (unmount_document target force) = ⊥

insert_pid-Among :
    (pid : ℕ) (pids : List ℕ) {x : ℕ} → Among x (insert_pid pid pids) → (x ≡ pid) ⊎ Among x pids
insert_pid-Among pid [] (here e) = inl e
insert_pid-Among pid [] (there m) = elim m [ ]
insert_pid-Among pid (p ∷ ps) {x} m = elim (Bool-cases (pid == p)) [
  | inl same ↦ inr (rw same at m)
  | inr differs ↦ elim (Bool-cases (ltb pid p)) [
    | inl less ↦ elim (rw (differs, less) at m) [ here e ↦ inl e | there n ↦ inr n ]
    | inr more ↦ elim (rw (differs, more) at m) [
      | here e ↦ inr (here e)
      | there n ↦ elim (insert_pid-Among pid ps {x = x} n) [ inl e ↦ inl e | inr k ↦ inr (there k) ]
    ]
  ]
]

-- A process of a root has a file open below it.
pub pids-Among :
    (references : List (ℕ × FilePath)) (root : FilePath) {pid : ℕ}
    → Among pid (pids_referencing_roots references (root ∷ []))
    → (path : FilePath) × Among (pid, path) references × (is_under path root ≡ true)
unfolding pids_referencing_roots
pids-Among [] root m = elim m [ ]
pids-Among ((p, path) ∷ references) root {pid} m = elim (Bool-cases (is_under path root)) [
  | inr outside ↦
      let (other, n, t) = pids-Among references root {pid = pid} (rw outside at m) in
      (other, there n, t)
  | inl below ↦
      elim (insert_pid-Among p (pids_referencing_roots references (root ∷ [])) {x = pid}
        (rw below at m)) [
          | inl e ↦ (path, here (ap (λ q. (q, path)) e), below)
          | inr n ↦
              let (other, k, t) = pids-Among references root {pid = pid} n in (other, there k, t)
        ]
]

insert_deep-Among :
    (p : FilePath) (ps : List FilePath) {x : FilePath}
    → (x ≡ p) ⊎ Among x ps
    → Among x (insert_deep p ps)
insert_deep-Among p [] (inl e) = here e
insert_deep-Among p [] (inr m) = elim m [ ]
insert_deep-Among p (q ∷ qs) {x} m = elim (Bool-cases (deeper_le q p)) [
  | inl first ↦ rw first (elim m [ inl e ↦ here e | inr n ↦ there n ])
  | inr second ↦ rw second (elim m [
    | inl e ↦ there (insert_deep-Among p qs (inl e))
    | inr (here e) ↦ here e
    | inr (there n) ↦ there (insert_deep-Among p qs {x = x} (inr n))
  ])
]

sort-Among :
    (ps : List FilePath) {x : FilePath} → Among x ps → Among x (sort_mountpoints_deepest_first ps)
unfolding sort_mountpoints_deepest_first
sort-Among [] m = elim m [ ]
sort-Among (p ∷ ps) (here e) = insert_deep-Among p (sort_mountpoints_deepest_first ps) (inl e)
sort-Among (p ∷ ps) {x} (there m) =
    insert_deep-Among p (sort_mountpoints_deepest_first ps) (inr (sort-Among ps {x = x} m))

-- Where no mount point is listed, no mount is below the root.
pub none_left :
    (root : FilePath) (mounts : List MountInfo)
    → mount_points_under root mounts ≡ []
    → (m : MountInfo) → Among m mounts
    → is_under m.mountpoint root ≡ false
unfolding mount_points_under
none_left root mounts h m held = elim (Bool-cases (is_under m.mountpoint root)) [
  | inr outside ↦ outside
  | inl below ↦
      let listed : Among m.mountpoint (map (λ (k : MountInfo). k.mountpoint) mounts) =
        map-Among (λ (k : MountInfo). k.mountpoint) mounts held in
      let kept =
        Among-keep (λ p. is_under p root) (map (λ (k : MountInfo). k.mountpoint) mounts) listed
          below in
      elim (subst (Among m.mountpoint) h (
        sort-Among (keep (λ p. is_under p root) (map (λ (k : MountInfo). k.mountpoint) mounts))
          kept)) [ ]
]

mountpoints-Among :
    (mounts : List MountInfo) {x : FilePath}
    → Among x (mountpoints mounts)
    → (m : MountInfo) × Among m mounts × (x ≡ m.mountpoint)
mountpoints-Among [] m = elim m [ ]
mountpoints-Among (k ∷ mounts) {x} m =
    elim (path_insert_sound k.mountpoint (mountpoints mounts) {x = x} m) [
      | inl e ↦ (k, here refl, e)
      | inr n ↦ let (other, l, e) = mountpoints-Among mounts {x = x} n in (other, there l, e)
    ]

-- What is unmounted for a root is below it.
pub order_mounts-under :
    (root : FilePath) (mounts : List MountInfo) {x : FilePath}
    → Among x
        (order_mounts_for_recovery (keep (λ (m : MountInfo). is_under m.mountpoint root) mounts))
    → is_under x root ≡ true
unfolding order_mounts_for_recovery
order_mounts-under root mounts {x} m =
    let under = keep (λ (k : MountInfo). is_under k.mountpoint root) mounts in
    let (k, n, e) =
      mountpoints-Among under {x = x}
        (((topological_path_order_all (mountpoints under) (pairs_of under under)).1 x).0 m) in
    rw e (keep-Among (λ (k : MountInfo). is_under k.mountpoint root) mounts n).1
