-- ===== src/Bitops/Find.antt =====
-- `cmfs_find_next_bit_set` and `cmfs_find_next_bit_clear`: the search by bytes finds the next bit.
mod Byte
mod Scan
mod First
mod Range
pub use Byte.{bit_at, IsBytes, Finds}
pub use First.{find_next_bit_set-Finds, find_next_bit-Finds}
pub use Range.{find_next_bit_set-le}
