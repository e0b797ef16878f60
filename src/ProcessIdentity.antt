-- ===== src/ProcessIdentity.antt =====
-- src/process_identity.rs: the start time by which a process is told from a later one of its number.
mod Defs
pub mod RoundTrip
mod Tests
unfoldable pub use Defs.*
