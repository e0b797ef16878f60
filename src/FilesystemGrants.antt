-- ===== src/FilesystemGrants.antt =====
-- src/sandbox/filesystem_grants.rs: the directories of the host that a sandbox mounts.
mod Grants
mod Dirs
mod Builder
mod Filesystem
pub mod Kept
pub mod Allowed
pub mod Normal
pub mod Mapped
mod Tests
unfoldable pub use Grants.*
unfoldable pub use Dirs.*
unfoldable pub use Builder.*
unfoldable pub use Filesystem.*
