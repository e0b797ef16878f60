-- ===== src/Text.antt =====
-- Rust's `str` and `String`: the sequence of the code points. Names and their behaviour are those
-- of the standard library's methods that the program calls.
mod Basic
mod Split
mod Chars
mod Order
mod Lines
mod Trim
mod Sorted
mod Ends
mod Sets
mod Numbers
unfoldable pub use Basic.*
unfoldable pub use Split.*
unfoldable pub use Chars.*
unfoldable pub use Order.*
unfoldable pub use Lines.*
unfoldable pub use Trim.*
unfoldable pub use Sorted.*
unfoldable pub use Ends.*
unfoldable pub use Sets.*
unfoldable pub use Numbers.*
