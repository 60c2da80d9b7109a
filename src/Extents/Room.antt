-- ===== src/Extents/Room.antt =====
-- The sizes of what an inode's block holds behind its fixed part, of
-- cmfs-tools/include/cmfs-kernel/cmfs_fs.h.
use cmfs.Prelude.{ℕ, suc, ◌+◌, ◌-◌, ◌*◌, ◌/◌, ◌%◌, ◌^◌, ◌<◌, ◌≤◌, arith}

-- `blocksize` less an offset, as a `size_t`: of an `int`, also where it is negative.
abbrev pub behind : ℕ → ℕ → ℕ
behind blocksize offset = (blocksize + 2 ^ 64 - offset) % 2 ^ 64

-- The results are the 32 bits of an `int`. Extent records of 32 bytes start at 192.
unfoldable pub extent_recs_per_inode : ℕ → ℕ
extent_recs_per_inode blocksize = behind blocksize 192 / 32 % 2 ^ 32

-- Chain records of 16 bytes start at 176.
unfoldable pub chain_recs_per_inode : ℕ → ℕ
chain_recs_per_inode blocksize = behind blocksize 176 / 16 % 2 ^ 32

-- Truncate records of 8 bytes start at 176.
unfoldable pub truncate_recs_per_inode : ℕ → ℕ
truncate_recs_per_inode blocksize = behind blocksize 176 / 8 % 2 ^ 32

-- The bytes of a file in its inode start at 168.
unfoldable pub max_inline_data : ℕ → ℕ
max_inline_data blocksize = behind blocksize 168 % 2 ^ 32

-- The local bitmap starts at 176.
unfoldable pub local_alloc_size : ℕ → ℕ
local_alloc_size blocksize = behind blocksize 176 % 2 ^ 32

-- `n` records of `size` bytes fit a block behind `offset`, and one more does not.
pub IsRoom : ℕ → ℕ → ℕ → ℕ → Type 0
IsRoom blocksize offset size n =
    (offset + n * size ≤ blocksize) × (blocksize < offset + suc n * size)

-- An inode's block of less than 2^31 bytes that has its fixed part has room for as many extent
-- records, chain records, truncate records, bytes of data and bytes of a local bitmap as the
-- functions say, and for no more.
pub per_inode-IsRoom :
    (blocksize : ℕ)
    → 192 ≤ blocksize
    → blocksize < 2 ^ 31
    → IsRoom blocksize 192 32 (extent_recs_per_inode blocksize)
      × IsRoom blocksize 176 16 (chain_recs_per_inode blocksize)
      × IsRoom blocksize 176 8 (truncate_recs_per_inode blocksize)
      × IsRoom blocksize 168 1 (max_inline_data blocksize)
      × IsRoom blocksize 176 1 (local_alloc_size blocksize)
unfolding extent_recs_per_inode chain_recs_per_inode truncate_recs_per_inode max_inline_data
    local_alloc_size IsRoom
per_inode-IsRoom blocksize long small = (
  (omega arith, omega arith),
  (omega arith, omega arith),
  (omega arith, omega arith),
  (omega arith, omega arith),
  (omega arith, omega arith),
)
