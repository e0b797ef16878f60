-- ===== src/Remotes.antt =====
-- src/remotes: configured remotes, and the refs that they offer.
pub mod Config
pub mod Refs
