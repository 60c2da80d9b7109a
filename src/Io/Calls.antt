-- ===== src/Io/Calls.antt =====
-- The public calls of cmfs-tools/libcmfs/unix_io.c on a channel that may have a cache, and the
-- allocation of blocks of cmfs-tools/libcmfs/memory.c.
pub mod Whole
use cmfs.Prelude.{
  ℕ, zero, suc, ◌+◌, ◌-◌, ◌*◌, ◌/◌, ◌%◌, Bool, true, false, not, ◌&&◌, ◌^◌, Option, none, some,
  List, [], ◌∷◌, ltb, ◌==◌, if◌then◌else◌, length,
}
use cmfs.Prelude.Fault.{◌>>=◌}
use cmfs.Err.{invalid_argument, no_memory, Result, ok, err}
use cmfs.Io.Tree.{leaf, RbTree}
use cmfs.Io.Device.{Channel, Count, unix_io_read_block, unix_io_write_block}
use cmfs.Io.Cache.{IoCacheBlock, IoCache, uint64_max, io_cache_read_block, io_cache_write_blocks}

-- `struct _io_channel` with its `io_cache`.
pub record IoChannel : Type 0 where
  pub chan : Channel
  pub io_cache : Option IoCache

abbrev pub Read : Type 0
Read = Option (Result (Unit {0}) × List ℕ × IoChannel)

abbrev pub Written : Type 0
Written = Option (Result (Unit {0}) × IoChannel)

module _ (rb : RbTree) where
  abbrev read_through : Bool → IoChannel → ℕ → Count → List ℕ → Option IoCache → Read
  read_through nocache channel blkno count bytes (some ic) =
      io_cache_read_block rb channel.chan ic blkno count bytes nocache >>= λ r.
      some (r.0, r.1, record { chan = r.2; io_cache = some r.3 })
  read_through nocache channel blkno count bytes none =
      unix_io_read_block channel.chan blkno count bytes >>= λ r.
      some (r.0, r.1, record { chan = r.2; io_cache = none })

  unfoldable pub io_read_block : IoChannel → ℕ → Count → List ℕ → Read
  unfolding io_cache_read_block unix_io_read_block
  io_read_block channel blkno count bytes =
      read_through channel.chan.io_nocache channel blkno count bytes channel.io_cache

  unfoldable pub io_read_block_nocache : IoChannel → ℕ → Count → List ℕ → Read
  unfolding io_cache_read_block unix_io_read_block
  io_read_block_nocache channel blkno count bytes =
      read_through true channel blkno count bytes channel.io_cache

  abbrev write_through : Bool → IoChannel → ℕ → Count → List ℕ → Option IoCache → Written
  write_through nocache channel blkno count bytes (some ic) =
      io_cache_write_blocks rb channel.chan ic blkno count bytes nocache >>= λ r.
      some (r.0, record { chan = r.1; io_cache = some r.2 })
  write_through nocache channel blkno count bytes none =
      unix_io_write_block channel.chan blkno count bytes >>= λ r.
      some (r.0, record { chan = r.1; io_cache = none })

  unfoldable pub io_write_block : IoChannel → ℕ → Count → List ℕ → Written
  unfolding io_cache_write_blocks unix_io_write_block
  io_write_block channel blkno count bytes =
      write_through channel.chan.io_nocache channel blkno count bytes channel.io_cache

  unfoldable pub io_write_block_nocache : IoChannel → ℕ → Count → List ℕ → Written
  unfolding io_cache_write_blocks unix_io_write_block
  io_write_block_nocache channel blkno count bytes =
      write_through true channel blkno count bytes channel.io_cache

-- The array and the LRU list that the loop of `io_init_cache` fills, from place `i` on. The data
-- buffer is not cleared: `garbage` is what it holds.
unfoldable pub new_blocks : (ℕ → List ℕ) → ℕ → ℕ → List IoCacheBlock
new_blocks garbage i zero = []
new_blocks garbage i (suc n) =
    record { icb_blkno = uint64_max; icb_buf = garbage i } ∷ new_blocks garbage (i + 1) n

unfoldable pub new_lru : ℕ → ℕ → List ℕ
new_lru i zero = []
new_lru i (suc n) = i ∷ new_lru (i + 1) n

-- The cache that `io_init_cache` sets up.
abbrev pub new_cache : (ℕ → List ℕ) → ℕ → IoCache
new_cache garbage nr_blocks = record {
  ic_lru = new_lru 0 nr_blocks;
  ic_lookup = leaf;
  icbs = new_blocks garbage 0 nr_blocks;
  ic_hits = 0;
  ic_misses = 0;
  ic_inserts = 0;
  ic_removes = 0;
}

-- How the three allocations of `io_init_cache` end: those of `cmfs_malloc0` give memory or not, and
-- that of `posix_memalign` gives memory or fails with an `errno`.
pub record Allocations : Type 0 where
  pub cache : Bool
  pub data_buffer : Option ℕ
  pub metadata_buffer : Bool

-- `ENOMEM`.
abbrev pub enomem : ℕ
enomem = 12

-- `num_blocks` is an `int` and so is the product; the comparison with `SIZE_MAX` never holds where
-- it fits. `abort` is `none`.
unfoldable pub cmfs_malloc_blocks : Option ℕ → ℕ → ℕ → Option (Result (Unit {0}))
cmfs_malloc_blocks memalign blksize num_blocks =
    if ltb num_blocks (2 ^ 31) && ltb (num_blocks * blksize) (2 ^ 31)
    then elim memalign [
      | none ↦ some (ok tt)
      | some e ↦ if e == enomem then some (err no_memory) else none
    ]
    else none

-- What follows the allocation of the data buffer.
abbrev pub with_data_buffer :
    Bool → (ℕ → List ℕ) → IoChannel → ℕ → Result (Unit {0}) → Result IoChannel
with_data_buffer metadata garbage channel nr_blocks (err e) = err e
with_data_buffer metadata garbage channel nr_blocks (ok _) =
    if metadata
    then ok (record channel { io_cache = some (new_cache garbage nr_blocks) })
    else err no_memory

-- More blocks than an `int` counts are left out: the loop over them overflows its counter.
unfoldable pub io_init_cache :
    Allocations → (ℕ → List ℕ) → IoChannel → ℕ → Option (Result IoChannel)
unfolding new_blocks new_lru cmfs_malloc_blocks
io_init_cache allocations garbage channel nr_blocks =
    let filled =
      cmfs_malloc_blocks allocations.data_buffer channel.chan.io_blksize nr_blocks >>= λ r.
      some (with_data_buffer allocations.metadata_buffer garbage channel nr_blocks r) in
    if allocations.cache then filled else some (err no_memory)

unfoldable pub io_init_cache_size :
    Allocations → (ℕ → List ℕ) → IoChannel → ℕ → Option (Result IoChannel)
unfolding io_init_cache
io_init_cache_size allocations garbage channel bytes =
    let blksize = channel.chan.io_blksize in
    io_init_cache allocations garbage channel ((bytes + (blksize - 1)) / blksize)

-- `CMFS_MIN_BLOCKSIZE`.
abbrev pub min_blocksize : ℕ
min_blocksize = 4096

unfoldable pub io_set_blksize : Channel → ℕ → Result Channel
io_set_blksize ch blksize =
    if not (blksize % min_blocksize == 0)
    then err invalid_argument
    else ok (record ch { io_blksize = if blksize == 0 then min_blocksize else blksize })

-- `struct cmfs_io_stats`.
pub record IoStats : Type 0 where
  pub is_bytes_read : ℕ
  pub is_bytes_written : ℕ
  pub is_cache_hits : ℕ
  pub is_cache_misses : ℕ
  pub is_cache_inserts : ℕ
  pub is_cache_removes : ℕ

abbrev cache_stats : Channel → Option IoCache → IoStats
cache_stats ch none = record {
  is_bytes_read = ch.io_bytes_read;
  is_bytes_written = ch.io_bytes_written;
  is_cache_hits = 0;
  is_cache_misses = 0;
  is_cache_inserts = 0;
  is_cache_removes = 0;
}
cache_stats ch (some ic) = record {
  is_bytes_read = ch.io_bytes_read;
  is_bytes_written = ch.io_bytes_written;
  is_cache_hits = ic.ic_hits;
  is_cache_misses = ic.ic_misses;
  is_cache_inserts = ic.ic_inserts;
  is_cache_removes = ic.ic_removes;
}

unfoldable pub io_get_stats : IoChannel → IoStats
io_get_stats channel = cache_stats channel.chan channel.io_cache
