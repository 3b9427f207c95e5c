-- ===== src/Text.antt =====
-- `str` and `String` of Rust, as far as the program uses them: a text is the list of its characters,
-- each by its code point.
mod Words
mod Number
mod Utf8
mod Lossy
mod Parts
mod Trim
unfoldable pub use Words.*
unfoldable pub use Number.*
unfoldable pub use Utf8.*
unfoldable pub use Lossy.*
unfoldable pub use Parts.*
pub use Trim.{IsBlank, trim-spaced, trim-framed}
