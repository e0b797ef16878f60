-- ===== src/FlatpakMetadata.antt =====
-- src/flatpak_metadata.rs: the reader of key files (`[section]` headers and `key=value` lines).
mod Defs
pub mod Lookup
mod Tests
unfoldable pub use Defs.*
