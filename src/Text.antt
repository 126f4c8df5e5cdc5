-- ===== src/Text.antt =====
-- Rust's `str` operations that the repository's code calls, over a text as the list of its code
-- points. Splitting, stripping and comparing give the same result over code points as over UTF-8.
mod Defs
mod Laws
mod Splitting
pub mod Words
pub mod Decimal
pub mod Utf8
pub mod Scalars
unfoldable pub use Defs.*
pub use Laws.*
pub use Splitting.*
