-- ===== src/StaleRecovery.antt =====
-- src/sandbox/stale_sandbox_recovery.rs: which sandbox roots are in use, and the teardown of the
-- others.
mod Views
mod Active
mod Topological
mod Teardown
mod Recover
pub mod Rounds
pub mod Spreading
pub mod Used
pub mod Held
pub mod Choice
pub mod Ordered
pub mod Acts
pub mod Reasons
pub mod Ended
pub mod TornRoot
pub mod Torn
mod Tests
unfoldable pub use Views.*
unfoldable pub use Active.*
unfoldable pub use Topological.*
unfoldable pub use Teardown.*
unfoldable pub use Recover.*
