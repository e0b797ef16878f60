-- ===== src/Paths.antt =====
-- Rust's `Path` and sets of paths, for the parts of the program that compare and order paths.
mod Defs
mod Laws
mod Sets
unfoldable pub use Defs.*
pub use Laws.*
pub use Sets.*
