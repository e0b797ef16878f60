-- ===== src/Extensions.antt =====
-- src/extensions/: which runtime extensions an application and its runtime take.
mod Facts
mod Points
mod Resolve
pub mod Owners
pub mod Payloads
pub mod Resolved
mod Tests
unfoldable pub use Facts.*
unfoldable pub use Points.*
unfoldable pub use Resolve.*
