-- ===== src/SecureMount/Rules.antt =====
-- What must hold before the helper does anything.
use freebsd_flatpak.Prelude.{List, err, ◌++◌, map, ℕ, ◌≡◌, ◌≢◌, true, [], ◌∷◌, some, all, ok, Among}
use freebsd_flatpak.Text.{Text, text, parse_unsigned}
use freebsd_flatpak.Paths.{root_dir, normal, FilePath, to_path, is_rooted}
use freebsd_flatpak.SecureMount.{
  FileIdentity, FileType, regular, directory, Kernel, parent_of, file_name, is_normal,
  is_root_or_normal, Operation, nullfs_directory, nullfs_file, tmpfs, special, unmount_target,
  unmount_orphan_document, OpenFlag, o_nofollow, o_resolve_beneath, open_relative_dir, system,
  enoent, u32_max,
}

-- A path that leads down only.
abbrev pub IsBelow : FilePath → Type 0
IsBelow path = (path ≢ []) × (all is_normal path ≡ true)

module _ (k : Kernel) where
  -- The names of a path lead from one open file to another: each is opened in the file before it,
  -- beneath it and with no link followed.
  pub data Walks : ℕ → FilePath → ℕ → Type 0 where
    arrived : {fd : ℕ} → Walks fd [] fd
    at_root : {fd last : ℕ} {path : FilePath} → Walks fd path last → Walks fd (root_dir ∷ path) last
    child :
        {fd next last : ℕ} {path : FilePath} (name : Text) (flags : List OpenFlag)
        → k.openat fd name flags ≡ ok next
        → Among o_nofollow flags
        → Among o_resolve_beneath flags
        → Walks next path last
        → Walks fd (normal name ∷ path) last

  -- An absolute path leads to an open directory from the root of the filesystem.
  abbrev pub IsReached : FilePath → ℕ → Type 0
  IsReached path fd =
      (root : ℕ) × (is_rooted path ≡ true) × (k.open_root ≡ ok root) × Walks root path fd

  -- An absolute path leads to an open file, of which its parent leads to a directory and its name
  -- from there.
  abbrev pub IsEntry : FilePath → ℕ → Type 0
  IsEntry path fd =
      (parent : FilePath) × (name : Text) × (dir : ℕ) × (parent_of path ≡ some parent)
      × (file_name path ≡ some name)
      × IsReached parent dir
      × Walks dir (normal name ∷ []) fd

  -- An instance of the caller: a directory of his with his `.flatpak-info` in it, two below `chroots`
  -- in a directory that only he can use.
  abbrev pub IsInstance : Text → Type 0
  IsInstance root =
      (fd : ℕ) × (identity : FileIdentity) × (canonical : FilePath) × (app : FilePath)
      × (chroots : FilePath) × (runtime : FilePath) × IsReached (to_path root) fd
      × (k.fstat_identity fd ≡ ok identity)
      × (identity.uid ≡ k.real_uid)
      × (k.canonicalize (to_path root) ≡ ok canonical)
      × (parent_of canonical ≡ some app)
      × (parent_of app ≡ some chroots)
      × (file_name chroots ≡ some (text "chroots"))
      × (parent_of chroots ≡ some runtime)
      × (k.metadata runtime ≡ ok (k.real_uid, true))
      × (info_fd : ℕ) × (info : FileIdentity) × (k.openat fd (text ".flatpak-info")
            (o_nofollow ∷ [])
          ≡ ok info_fd)
      × (k.fstat_identity info_fd ≡ ok info)
      × (info.uid ≡ k.real_uid)
      × (k.fstat_type info_fd ≡ ok regular)

  -- A source that is opened with no link followed, of the type.
  abbrev pub IsSource : Text → FileType → Type 0
  IsSource source type =
      (fd : ℕ) × (is_rooted (to_path source) ≡ true)
      × IsEntry (to_path source) fd
      × (k.fstat_type fd ≡ ok type)

  -- The directory in which the instances of the caller are: `chroots`, which is his, in a directory
  -- that only he can use.
  abbrev pub IsChroots : ℕ → FilePath → Type 0
  IsChroots fd canonical =
      (chroots : FilePath) × (runtime : FilePath) × (identity : FileIdentity) × IsReached chroots fd
      × (k.canonicalize chroots ≡ ok canonical)
      × (file_name canonical ≡ some (text "chroots"))
      × (parent_of canonical ≡ some runtime)
      × (k.metadata runtime ≡ ok (k.real_uid, true))
      × (k.fstat_identity fd ≡ ok identity)
      × (identity.uid ≡ k.real_uid)

  -- What is behind the directory of the instances: a file of a grant of the caller's documents,
  -- `<app>/<instance>/run/user/<uid>/doc/<grant>/<file>`, of an instance that does not exist.
  abbrev pub IsDocumentOf : ℕ → FilePath → Type 0
  IsDocumentOf chroots_fd relative =
      (app : Text) × (instance_id : Text) × (uid : Text) × (grant : Text) × (file : Text)
      × (relative
          ≡ map normal
              (app ∷ instance_id ∷ text "run" ∷ text "user" ∷ uid ∷ text "doc" ∷ grant ∷ file ∷ []))
      × (parse_unsigned u32_max uid ≡ some k.real_uid)
      × (open_relative_dir k chroots_fd (normal app ∷ normal instance_id ∷ [])
          ≡ err (system enoent))

  -- A mounted document of an instance of the caller's that is gone.
  abbrev pub IsGoneDocument : Text → Type 0
  IsGoneDocument mountpoint =
      (fd : ℕ) × (canonical : FilePath) × (relative : FilePath) × IsChroots fd canonical
      × (is_rooted (to_path mountpoint) ≡ true)
      × (all is_root_or_normal (to_path mountpoint) ≡ true)
      × (to_path mountpoint ≡ canonical ++ relative)
      × IsDocumentOf fd relative
      × (k.mounted_type mountpoint ≡ ok (text "nullfs"))

  abbrev pub IsCleared : Operation → Type 0
  IsCleared (nullfs_directory root target source read_only) =
      IsInstance root × IsBelow target × IsSource source directory
  IsCleared (nullfs_file root target source read_only) =
      IsInstance root × IsBelow target × IsSource source regular
  IsCleared (tmpfs root target options) = IsInstance root × IsBelow target
  IsCleared (special root target type) =
      IsInstance root
      × IsBelow target
      × Among type (text "devfs" ∷ text "fdescfs" ∷ text "linprocfs" ∷ text "linsysfs" ∷ [])
  IsCleared (unmount_target root target force) = IsInstance root × IsBelow target
  IsCleared (unmount_orphan_document mountpoint force) = IsGoneDocument mountpoint
