-- ===== src/SecureMount.antt =====
-- src/secure_mount.rs: the helper that mounts for a caller, as root.
mod Checks
mod Helper
pub mod Rules
pub mod Validated
pub mod Cleared
mod Tests
unfoldable pub use Checks.*
unfoldable pub use Helper.*
