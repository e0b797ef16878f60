-- ===== src/StaleRecovery/Topological.antt =====
-- src/sandbox/stale_sandbox_recovery.rs: the order in which roots and mounts are recovered.
use Prim.Native.Nat.{compare, Ordering}
use freebsd_flatpak.Prelude.{
  ℕ, zero, suc, Bool, true, false, ◌&&◌, ◌||◌, not, List, [], ◌∷◌, ◌++◌, Option, none, some,
  if◌then◌else◌, length, keep, any, or_else,
}
use freebsd_flatpak.Paths.{
  FilePath, path_eq, path_le, path_insert, path_erase, path_contains, is_under,
}
use freebsd_flatpak.StaleRecovery.Views.{
  MountInfo, RunRecord, View, root_of, parent_root_of, chroot_root_for_mount,
}

-- The first is recovered before the second.
abbrev pub Dependency : Type 0
Dependency = FilePath × FilePath

-- by the number of components, then by the paths
unfoldable pub deeper_le : FilePath → FilePath → Bool
unfolding path_le
deeper_le p q = elim (compare (length p) (length q)) [
  | Ordering.lt ↦ true
  | Ordering.eq ↦ path_le p q
  | Ordering.gt ↦ false
]

-- `max_by`, which gives the last of equal maxima
unfoldable pub deepest : List FilePath → Option FilePath
deepest [] = none
deepest (p ∷ ps) = elim (deepest ps) [
  | none ↦ some p
  | some q ↦ if deeper_le p q then some q else some p
]

-- `next_back`
unfoldable pub last_path : List FilePath → Option FilePath
last_path [] = none
last_path (p ∷ ps) = or_else (last_path ps) (some p)

unfoldable pub is_blocked : List Dependency → List FilePath → FilePath → Bool
is_blocked dependencies remaining candidate =
    any (λ (before, after). path_eq after candidate && path_contains remaining before) dependencies

unfoldable pub next_ready : List Dependency → List FilePath → Option FilePath
next_ready dependencies remaining =
    or_else (deepest (keep (λ c. not (is_blocked dependencies remaining c)) remaining))
      (last_path remaining)

-- `while !remaining.is_empty()`, each round of which takes one path; the fuel is their number
unfoldable pub order_loop : ℕ → List Dependency → List FilePath → List FilePath
order_loop zero dependencies remaining = []
order_loop (suc fuel) dependencies remaining = elim (next_ready dependencies remaining) [
  | none ↦ []
  | some ready ↦ ready ∷ order_loop fuel dependencies (path_erase ready remaining)
]

unfoldable pub topological_path_order : List FilePath → List Dependency → List FilePath
unfolding order_loop
topological_path_order remaining dependencies = order_loop (length remaining) dependencies remaining

module _ (v : View) (roots : List FilePath) where
  abbrev pub both_stale : Option FilePath → Option FilePath → Bool → List Dependency
  both_stale (some a) (some b) wanted =
      if wanted && path_contains roots a && path_contains roots b then (a, b) ∷ [] else []
  both_stale (some a) none wanted = []
  both_stale none _ wanted = []

  -- a nested sandbox before its parent
  unfoldable pub record_dependency : RunRecord → List Dependency
  record_dependency r = both_stale (root_of r) (parent_root_of r) true

  abbrev pub differ : Option FilePath → Option FilePath → Bool
  differ (some a) (some b) = not (path_eq a b)
  differ (some a) none = true
  differ none _ = true

  -- the sandbox of a mount before that of its source
  unfoldable pub mount_dependency : MountInfo → List Dependency
  mount_dependency m =
      let target = chroot_root_for_mount v m.mountpoint in
      let source = chroot_root_for_mount v m.source in
      both_stale target source (differ target source)

  abbrev pub collect {ℓ} : {A : Type ℓ} → (A → List Dependency) → List A → List Dependency
  collect f [] = []
  collect f (x ∷ xs) = f x ++ collect f xs

  -- the set of the dependencies; only whether one is in it counts
  unfoldable pub root_dependencies : List Dependency
  root_dependencies = collect record_dependency v.records ++ collect mount_dependency v.mounts

  unfoldable pub order_sandbox_roots_for_recovery : List FilePath
  order_sandbox_roots_for_recovery = topological_path_order roots root_dependencies

unfoldable pub mount_pair : MountInfo → MountInfo → List Dependency
mount_pair m parent =
    if not (path_eq m.mountpoint parent.mountpoint)
      && (is_under m.mountpoint parent.mountpoint || is_under m.source parent.mountpoint)
    then (m.mountpoint, parent.mountpoint) ∷ []
    else []

abbrev pub pairs_with : MountInfo → List MountInfo → List Dependency
pairs_with m [] = []
pairs_with m (parent ∷ rest) = mount_pair m parent ++ pairs_with m rest

abbrev pub pairs_of : List MountInfo → List MountInfo → List Dependency
pairs_of [] every = []
pairs_of (m ∷ rest) every = pairs_with m every ++ pairs_of rest every

abbrev pub mountpoints : List MountInfo → List FilePath
mountpoints [] = []
mountpoints (m ∷ rest) = path_insert m.mountpoint (mountpoints rest)

-- the mount points of `order_mounts_for_recovery`, which is all that its caller keeps
unfoldable pub order_mounts_for_recovery : List MountInfo → List FilePath
order_mounts_for_recovery mounts =
    topological_path_order (mountpoints mounts) (pairs_of mounts mounts)
