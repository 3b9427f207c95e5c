-- ===== src/Text/Number.antt =====
-- `to_string` and `parse` of the unsigned integer types.
mod Print
mod Parse
mod RoundTrip
unfoldable pub use Print.*
unfoldable pub use Parse.{parse_uint}
pub use RoundTrip.{parse_uint-to_decimal, parse_uint-le, to_decimal-IsDigits, IsDigits}
