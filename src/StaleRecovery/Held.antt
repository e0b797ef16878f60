-- ===== src/StaleRecovery/Held.antt =====
-- The roots in use, described one by one.
use mathlib.Core.Path.{subst}
use freebsd_flatpak.Prelude.{
  Among-map, map-Among, Among-append, append_left, append_right, ◌≡◌, refl, ◌↔◌, ◌⊎◌, inl, inr,
  true, List, [], Option, some, arith, Result, ok, err, Among,
}
use freebsd_flatpak.Paths.{FilePath}
use freebsd_flatpak.StaleRecovery.Views.{
  MountInfo, RunRecord, RecoverError, View, root_of, parent_root_of, references_root,
  run_record_launcher_active, chroot_root_for_mount, sandbox_roots,
}
use freebsd_flatpak.StaleRecovery.Active.{
  Edge, record_edge, mount_edge, spread, spread_fuel, used_roots, record_edges, mount_edges,
  active_roots_from_records, extend_referenced, all_edges, active_sandbox_roots,
}
use freebsd_flatpak.StaleRecovery.Rounds.{Leads, from, along}
use freebsd_flatpak.StaleRecovery.Spreading.{spread_iff}
use freebsd_flatpak.StaleRecovery.Used.{
  edge_inv, edge_of, IsUsed, used_roots_iff, extend_referenced_iff,
}

-- A root is in use if a process or a launcher of its record uses it, if it is known and a process
-- uses it, if a nested sandbox in use has it as its parent, or if a sandbox in use mounts it.
pub data IsHeld (v : View) : FilePath → Type 0 where
  used :
      {x : FilePath} (r : RunRecord)
      → Among r v.records
      → root_of r ≡ some x
      → references_root v x ≡ true
      → IsHeld v x
  launched :
      {x : FilePath} (r : RunRecord)
      → Among r v.records
      → root_of r ≡ some x
      → run_record_launcher_active v r ≡ ok true
      → IsHeld v x
  known : {x : FilePath} → Among x (sandbox_roots v) → references_root v x ≡ true → IsHeld v x
  parent :
      {a b : FilePath} (r : RunRecord)
      → Among r v.records
      → root_of r ≡ some a
      → parent_root_of r ≡ some b
      → IsHeld v a
      → IsHeld v b
  source :
      {a b : FilePath} (m : MountInfo)
      → Among m v.mounts
      → chroot_root_for_mount v m.mountpoint ≡ some a
      → chroot_root_for_mount v m.source ≡ some b
      → IsHeld v a
      → IsHeld v b

module _ (v : View) where
  -- What an edge of a record or a mount leads to is in use.
  record_edge-IsHeld :
      {a b : FilePath} → Among (some (a, b)) (record_edges v) → IsHeld v a → IsHeld v b
  unfolding record_edge
  record_edge-IsHeld m held =
      let (r, n, e) = Among-map record_edge v.records m in
      let (root, above) = edge_inv (root_of r) (parent_root_of r) e in parent r n root above held

  mount_edge-IsHeld :
      {a b : FilePath} → Among (some (a, b)) (mount_edges v) → IsHeld v a → IsHeld v b
  unfolding mount_edge
  mount_edge-IsHeld m held =
      let (mounted, n, e) = Among-map (mount_edge v) v.mounts m in
      let (target, origin) =
        edge_inv (chroot_root_for_mount v mounted.mountpoint)
          (chroot_root_for_mount v mounted.source) e in
      source mounted n target origin held

  all_edges-IsHeld : {a b : FilePath} → Among (some (a, b)) (all_edges v) → IsHeld v a → IsHeld v b
  all_edges-IsHeld m held = elim (Among-append (record_edges v) (mount_edges v) m) [
    | inl n ↦ record_edge-IsHeld n held
    | inr n ↦ mount_edge-IsHeld n held
  ]

  module _ (start : List FilePath) (edges : List Edge)
      (starts : (x : FilePath) → Among x start → IsHeld v x)
      (steps : (a b : FilePath) → Among (some (a, b)) edges → IsHeld v a → IsHeld v b) where
    Leads-IsHeld : {x : FilePath} → Leads start edges x → IsHeld v x
    Leads-IsHeld (from {x} m) = starts x m
    Leads-IsHeld (along {a} {b} m l) = steps a b m (Leads-IsHeld l)

  IsUsed-IsHeld : {x : FilePath} → IsUsed v v.records x → IsHeld v x
  IsUsed-IsHeld (r, m, root, inl ref) = used r m root ref
  IsUsed-IsHeld (r, m, root, inr up) = launched r m root up

  -- What is in use is led to, if the edges start at what is used.
  IsHeld-Leads :
      (start : List FilePath)
      → ((x : FilePath) → IsUsed v v.records x → Among x start)
      → ((x : FilePath) → Among x (sandbox_roots v) → references_root v x ≡ true → Among x start)
      → {x : FilePath} → IsHeld v x
      → Leads start (all_edges v) x
  unfolding record_edge mount_edge
  IsHeld-Leads start uses knows (used {x} r m root ref) = from (uses x (r, m, root, inl ref))
  IsHeld-Leads start uses knows (launched {x} r m root up) = from (uses x (r, m, root, inr up))
  IsHeld-Leads start uses knows (known {x} m ref) = from (knows x m ref)
  IsHeld-Leads start uses knows (parent {a} {b} r m root above held) =
      along
        (append_left (record_edges v) (mount_edges v) (
          subst (λ e. Among e (record_edges v)) (edge_of root above)
            (map-Among record_edge v.records m)))
        (IsHeld-Leads start uses knows held)
  IsHeld-Leads start uses knows (source {a} {b} mounted m target origin held) =
      along
        (append_right (record_edges v) (mount_edges v) (
          subst (λ e. Among e (mount_edges v)) (edge_of target origin)
            (map-Among (mount_edge v) v.mounts m)))
        (IsHeld-Leads start uses knows held)

  module _ {active : List FilePath} (h : used_roots v v.records [] ≡ ok active) where
    from_records :
        active_roots_from_records v
        ≡ ok (spread (spread_fuel (record_edges v)) (record_edges v) active)
    unfolding active_roots_from_records
    from_records = rw h refl

    -- The two loops over the edges end, with the roots in use.
    active-used :
        (result : List FilePath) × (active_sandbox_roots v ≡ ok (some result))
        × ((x : FilePath) → Among x result ↔ IsHeld v x)
    unfolding active_sandbox_roots
    active-used =
        let (middle, ends, middle_iff) = spread_iff (record_edges v) active in
        let start = extend_referenced v (sandbox_roots v) middle in
        let (result, ends', result_iff) = spread_iff (all_edges v) start in
        let uses : (x : FilePath) → Among x active ↔ (Among x [] ⊎ IsUsed v v.records x) =
          used_roots_iff v v.records [] h in
        let starts_active : (x : FilePath) → Among x active → IsHeld v x =
          λ x m. elim ((uses x).0 m) [ inl n ↦ elim n [ ] | inr u ↦ IsUsed-IsHeld u ] in
        let middle_held : (x : FilePath) → Among x middle → IsHeld v x = λ x m.
          Leads-IsHeld active (record_edges v) starts_active
            (λ a b. record_edge-IsHeld {a = a} {b = b}) ((middle_iff x).0 m) in
        let start_held : (x : FilePath) → Among x start → IsHeld v x = λ x m.
          elim ((extend_referenced_iff v (sandbox_roots v) middle x).0 m) [
            | inl n ↦ middle_held x n
            | inr (n, ref) ↦ known n ref
          ] in
        (
          result,
          rw (from_records, ends, ends') refl,
          λ x. (
            λ m.
                Leads-IsHeld start (all_edges v) start_held
                  (λ a b. all_edges-IsHeld {a = a} {b = b}) ((result_iff x).0 m),
            λ held. (result_iff x).1 (
                IsHeld-Leads start
                  (λ y u.
                    (extend_referenced_iff v (sandbox_roots v) middle y).1
                      (inl ((middle_iff y).1 (from ((uses y).1 (inr u))))))
                  (λ y m ref. (extend_referenced_iff v (sandbox_roots v) middle y).1 (inr (m, ref)))
                  held),
          ),
        )

active-failed :
    (v : View) {e : RecoverError}
    → used_roots v v.records [] ≡ err e
    → active_sandbox_roots v ≡ err e
unfolding active_sandbox_roots active_roots_from_records
active-failed v h = rw h refl

-- Whenever the roots in use can be read, the loops that collect them end, and a root is among them
-- just if it is in use.
pub active_sandbox_roots_iff :
    (v : View) (answer : Option (List FilePath))
    → active_sandbox_roots v ≡ ok answer
    → (active : List FilePath) × (answer ≡ some active)
      × ((x : FilePath) → Among x active ↔ IsHeld v x)
active_sandbox_roots_iff v answer h = go (used_roots v v.records []) refl
  where
    go :
        (used : Result RecoverError (List FilePath))
        → used_roots v v.records [] ≡ used
        → (active : List FilePath) × (answer ≡ some active)
          × ((x : FilePath) → Among x active ↔ IsHeld v x)
    go (ok start) k =
        let (result, ends, iff) = active-used v k in (result, ground (arith, h, ends), iff)
    go (err e) k = absurd (cc (active-failed v k, h))
