-- ===== src/Bytes.antt =====
-- Text as a list of bytes: what the agent uses of Rust's `str` and of `u64`'s parsing and printing.
mod Decimal
mod Order
pub mod RoundTrip
pub mod Equality
pub mod Literals
pub mod Dictionary
unfoldable pub use Decimal.{
  Bytes, u64_mod, bytes_eq, is_digit, parse_digits, parse_u64, fixed, count_digits, padded,
  split_once, strip_suffix, split,
}
unfoldable pub use Order.{bytes_ltb, bytes_leb}
pub use Order.{bytes_leb_refl, bytes_leb_trans, bytes_leb_total, bytes_leb_antisym}
