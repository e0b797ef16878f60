-- ===== src/StaleRecovery/Active.antt =====
-- src/sandbox/stale_sandbox_recovery.rs: the roots in use, by processes, launchers, nested sandboxes
-- and mounts.
use freebsd_flatpak.Prelude.{
  ℕ, zero, suc, ◌+◌, Bool, true, false, ◌||◌, not, List, [], ◌∷◌, ◌++◌, map, Option, none, some,
  if◌then◌else◌, length, Result, ok, err, ◌>>=◌,
}
use freebsd_flatpak.Paths.{FilePath, path_insert, path_contains}
use freebsd_flatpak.StaleRecovery.Views.{
  MountInfo, RunRecord, RecoverError, View, root_of, parent_root_of, references_root,
  run_record_launcher_active, chroot_root_for_mount, sandbox_roots,
}

-- From a root in use to one that it needs.
abbrev pub Edge : Type 0
Edge = Option (FilePath × FilePath)

abbrev pub edge : Option FilePath → Option FilePath → Edge
edge (some a) (some b) = some (a, b)
edge (some a) none = none
edge none _ = none

-- a nested sandbox needs its parent
unfoldable pub record_edge : RunRecord → Edge
record_edge r = edge (root_of r) (parent_root_of r)

-- a mount in a sandbox needs the sandbox of its source
unfoldable pub mount_edge : View → MountInfo → Edge
mount_edge v m = edge (chroot_root_for_mount v m.mountpoint) (chroot_root_for_mount v m.source)

-- the body of the loops; the flag says whether the set grew
unfoldable pub follow : Edge → List FilePath × Bool → List FilePath × Bool
unfolding path_contains
follow none s = s
follow (some (a, b)) (active, changed) =
    if path_contains active a
    then (path_insert b active, changed || not (path_contains active b))
    else (active, changed)

unfoldable pub follow_edges : List Edge → List FilePath × Bool → List FilePath × Bool
follow_edges [] s = s
follow_edges (e ∷ edges) s = follow_edges edges (follow e s)

-- `loop { … if !changed { break } }`; `none` is fuel that ran out
unfoldable pub spread : ℕ → List Edge → List FilePath → Option (List FilePath)
spread zero edges active = none
spread (suc fuel) edges active =
    let (next, changed) = follow_edges edges (active, false) in
    elim changed [ true ↦ spread fuel edges next | false ↦ some next ]

-- each round but the last adds the end of an edge
abbrev pub spread_fuel : List Edge → ℕ
spread_fuel edges = length edges + 1

module _ (v : View) where
  -- the roots that a process or a launcher uses
  unfoldable pub used_roots : List RunRecord → List FilePath → Result RecoverError (List FilePath)
  used_roots [] active = ok active
  used_roots (r ∷ records) active = elim (root_of r) [
    | none ↦ used_roots records active
    | some root ↦ elim (references_root v root) [
      | true ↦ used_roots records (path_insert root active)
      | false ↦ elim (run_record_launcher_active v r) [
        | err e ↦ err e
        | ok true ↦ used_roots records (path_insert root active)
        | ok false ↦ used_roots records active
      ]
    ]
  ]

  abbrev pub record_edges : List Edge
  record_edges = map record_edge v.records

  abbrev pub mount_edges : List Edge
  mount_edges = map (mount_edge v) v.mounts

  unfoldable pub active_roots_from_records : Result RecoverError (Option (List FilePath))
  active_roots_from_records = used_roots v.records [] >>= λ active.
      ok (spread (spread_fuel record_edges) record_edges active)

  -- `active.extend(…)`
  unfoldable pub extend_referenced : List FilePath → List FilePath → List FilePath
  extend_referenced [] active = active
  extend_referenced (root ∷ roots) active =
      extend_referenced roots (if references_root v root then path_insert root active else active)

  abbrev pub all_edges : List Edge
  all_edges = record_edges ++ mount_edges

  abbrev pub spread_all : Option (List FilePath) → Option (List FilePath)
  spread_all none = none
  spread_all (some active) =
      spread (spread_fuel all_edges) all_edges (extend_referenced (sandbox_roots v) active)

  unfoldable pub active_sandbox_roots : Result RecoverError (Option (List FilePath))
  active_sandbox_roots = active_roots_from_records >>= λ active. ok (spread_all active)
