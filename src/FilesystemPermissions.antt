-- ===== src/FilesystemPermissions.antt =====
-- src/sandbox/filesystem_permissions.rs: the filesystem permissions of an application.
mod Defs
pub mod Suffixes
mod Tests
unfoldable pub use Defs.*
