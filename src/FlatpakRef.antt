-- ===== src/FlatpakRef.antt =====
-- src/flatpak_ref.rs: full refs `kind/id/arch/branch` and partial refs, in which all but the ID
-- may be left out.
mod Defs
mod Names
pub mod Laws
mod Tests
unfoldable pub use Defs.*
unfoldable pub use Names.*
