-- ===== src/FileArguments.antt =====
-- src/sandbox/file_argument_translation.rs: URIs of files and paths among the arguments.
mod Percent
mod Paths
pub mod Laws
pub mod Normal
mod Tests
unfoldable pub use Percent.*
unfoldable pub use Paths.*
