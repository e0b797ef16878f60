-- ===== src/Remotes/Config.antt =====
-- src/remotes/remote_config.rs: the configuration files of the remotes, and adding, changing and
-- deleting a remote together with its entry in the OSTree repository.
mod Defs
mod Store
pub mod Files
pub mod Updates
pub mod Failures
mod Tests
unfoldable pub use Defs.*
unfoldable pub use Store.*
