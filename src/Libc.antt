-- ===== src/Libc.antt =====
-- What the source uses of the C library: `%d` and `%zu` of `snprintf`, writes into a bounded buffer,
-- `atoi`, `toupper`.
pub mod Format
pub mod Atoi
mod Printing
mod Upper
pub mod Doubles
pub mod Scan
pub mod ScanLaws
pub mod RoundTrip
unfoldable pub use Format.{print_nat, print_int}
unfoldable pub use Atoi.{atoi, numeral, is_digit, skip_space, in_int, signed_numeral}
pub use Printing.{Buffer}
unfoldable pub use Printing.{empty_buffer, print, sent_bytes, bulk, print_all, concat}
unfoldable pub use Upper.{upper}
