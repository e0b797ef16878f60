-- ===== src/Remotes/Refs.antt =====
-- src/remotes/ref_resolution.rs: finding the ref, the commit and the runtime that a request means.
mod Types
mod Select
mod Replacements
mod Apps
mod Locate
mod Search
pub mod Chosen
pub mod Chains
pub mod Order
pub mod Described
mod Tests
mod Installs
unfoldable pub use Types.*
unfoldable pub use Select.*
unfoldable pub use Replacements.*
unfoldable pub use Apps.*
unfoldable pub use Locate.*
unfoldable pub use Search.*
