-- ===== src/Text.antt =====
-- Go's strings: lists of bytes, with the functions of `strings`, `strconv` and `unicode/utf8` that
-- Cachy uses.
mod Strings
pub mod Utf8
pub mod Space
pub mod Ascii
pub mod Decimal
pub mod Quote
pub mod Lines
pub use Strings.{
  Bytes, codes, equal_iff, equal_refl, find-some, contains-find, has_prefix-append, drop-append,
  take-append, trim_prefix-append, trim_suffix-append, has_suffix-append,
}
unfoldable pub use Strings.{
  equal, has_prefix, trim_prefix, has_suffix, trim_suffix, contains, find, cut, split_from, split,
  join, trim_left, trim_right,
}
