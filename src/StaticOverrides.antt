-- ===== src/StaticOverrides.antt =====
-- src/sandbox/static_overrides.rs: overrides laid over an application's metadata.
mod Defs
pub mod Merge
mod Tests
unfoldable pub use Defs.*
