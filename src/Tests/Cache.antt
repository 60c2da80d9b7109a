-- ===== src/Tests/Cache.antt =====
-- Reads and writes of a small device, with a cache of two blocks.
use cmfs.Prelude.{
  ℕ, zero, suc, ◌<◌, true, false, ◌≡◌, ◌≢◌, refl, ◌⊎◌, arith, none, some, List, [], ◌∷◌, ltb, ◌==◌,
  if◌then◌else◌,
}
use cmfs.Err.{io, Result, ok, err}
use cmfs.Io.Tree.{leaf, node}
use cmfs.Io.Device.{
  failed, moved, Channel, bytes_at, blocks, in_bytes, unix_io_read_block, unix_io_write_block_full,
}
use cmfs.Io.Device.Read.{IsRead, unix_io_read_block-IsRead}
use cmfs.Io.Device.Write.{IsWrite, unix_io_write_block_full-IsWrite}
use cmfs.Io.Cache.{IoCache, uint64_max, io_cache_read_block, io_cache_write_blocks}
use cmfs.Io.Cache.Steps.{icb_at, member}
use cmfs.Io.Cache.Read.{block_of, IsCoherent, IsCachedRead}
use cmfs.Io.Cache.Read.Whole.{io_cache_read_block-IsCachedRead}
use cmfs.Io.Cache.Write.{IsCachedWrite, io_cache_write_blocks-IsCachedWrite}
use cmfs.Io.Cache.Write.Torn.{read_after_write, torn_write-stale}
use cmfs.Io.Calls.{Allocations, IoChannel, io_init_cache, io_read_block, io_read_block_nocache}
use cmfs.Tests.Balance.{plain}
use cmfs.Io.Calls.Whole.{Reads, Inits, io_init_cache-IsCoherent, io_read_block-Reads}

-- Two bytes a block, and byte `a` of the disk holds `a`. The first call moves one byte, and the next
-- one fails.
abbrev device : Channel
device = record {
  io_blksize = 2;
  io_error = 0;
  io_nocache = false;
  io_bytes_read = 0;
  io_bytes_written = 0;
  disk = λ a. a;
  replies = moved 1 ∷ failed 5 ∷ [];
}

-- Block 5 is cached.
abbrev warm : IoCache
warm = record {
  ic_lru = 1 ∷ 0 ∷ [];
  ic_lookup = node leaf 5 0 leaf;
  icbs =
      record { icb_blkno = 5; icb_buf = 10 ∷ 11 ∷ [] }
      ∷ record { icb_blkno = uint64_max; icb_buf = [] }
      ∷ [];
  ic_hits = 0;
  ic_misses = 0;
  ic_inserts = 1;
  ic_removes = 1;
}

only : (k i : ℕ) → (if 5 == k then some 0 else none) ≡ some i → (k ≡ 5) × (i ≡ 0)
only k i h = ground arith

warm-IsCoherent : IsCoherent device warm
unfolding bytes_at
warm-IsCoherent = record {
  sorted = (tt, tt);
  listed =
      λ k i f. let (a, b) = only k i f in rw (a, b) (omega arith, refl, λ z. absurd (omega arith));
  linked = linked;
  lru = lru;
  fresh = λ k i f s. let (a, b) = only k i f in rw (a, b) refl;
}
  where
    linked :
        (i : ℕ)
        → i < 2
        → (icb_at warm i).icb_blkno ≢ uint64_max
        → (if 5 == (icb_at warm i).icb_blkno then some 0 else none) ≡ some i
    linked zero h n = refl
    linked (suc zero) h n = absurd (n refl)
    linked (suc (suc i)) h n = absurd (omega arith)

    lru : (i : ℕ) → member i (1 ∷ 0 ∷ []) ≡ ltb i 2
    lru i = ground arith

abbrev with_cache : IoChannel
with_cache = record { chan = device; io_cache = some warm }

abbrev buffer : List ℕ
buffer = 70 ∷ 71 ∷ 72 ∷ 73 ∷ []

unix_io_read_block-IsRead_example :
    (ret : Result (Unit {0})) × (data' : List ℕ) × (ch' : Channel) × (unix_io_read_block device 5
        (blocks 2)
        buffer
      ≡ some (ret, data', ch'))
    × IsRead device 10 4 buffer ret data' ch'
unix_io_read_block-IsRead_example =
    unix_io_read_block-IsRead device 5 (blocks 2) buffer 4 refl (omega arith)

unix_io_write_block_full-IsWrite_example :
    (ret : Result (Unit {0})) × (completed : ℕ) × (ch' : Channel) × (unix_io_write_block_full device
        5
        (in_bytes 3)
        buffer
      ≡ some (ret, completed, ch'))
    × IsWrite device 10 3 buffer ret completed ch'
unix_io_write_block_full-IsWrite_example =
    unix_io_write_block_full-IsWrite device 5 (in_bytes 3) buffer 3 refl (omega arith) (omega arith)

io_cache_read_block-IsCachedRead_example :
    (ret : Result (Unit {0})) × (data' : List ℕ) × (ch' : Channel) × (ic' : IoCache)
    × (io_cache_read_block plain device warm 5 (blocks 2) buffer false
        ≡ some (ret, data', ch', ic'))
    × IsCachedRead device warm 5 2 buffer ret data' ch' ic'
io_cache_read_block-IsCachedRead_example =
    io_cache_read_block-IsCachedRead plain false device warm 5 2 buffer warm-IsCoherent
      (omega arith) (omega arith) (omega arith) (omega arith) (omega arith)

io_cache_write_blocks-IsCachedWrite_example :
    (ret : Result (Unit {0})) × (ch' : Channel) × (ic' : IoCache) × (io_cache_write_blocks plain
        device warm 5
        (blocks 2)
        buffer
        false
      ≡ some (ret, ch', ic'))
    × IsCachedWrite device warm 5 4 buffer ret ch' ic'
io_cache_write_blocks-IsCachedWrite_example =
    io_cache_write_blocks-IsCachedWrite plain false device warm 5 (blocks 2) buffer 4
      warm-IsCoherent (omega arith) (omega arith) refl (omega arith) (omega arith)

read_after_write_example :
    (ret : Result (Unit {0})) × (ch' : Channel) × (ic' : IoCache) × (io_cache_write_blocks plain
        device warm 5
        (blocks 2)
        buffer
        true
      ≡ some (ret, ch', ic'))
    × (ret ≡ ok tt
        → (ret' : Result (Unit {0})) × (data' : List ℕ) × (ch'' : Channel) × (ic'' : IoCache)
          × (io_cache_read_block plain ch' ic' 5 (blocks 2) (0 ∷ 0 ∷ 0 ∷ 0 ∷ []) false
              ≡ some (ret', data', ch'', ic''))
          × (((ret' ≡ ok tt) × (data' ≡ buffer)) ⊎ (ret' ≡ err io)))
read_after_write_example =
    read_after_write plain true false device warm 5 2 buffer (0 ∷ 0 ∷ 0 ∷ 0 ∷ []) warm-IsCoherent
      (omega arith) (omega arith) (omega arith) (omega arith) (omega arith) (omega arith)
      (omega arith)

torn_write_example :
    (ch' : Channel) × (io_cache_write_blocks plain device warm 5 (blocks 2) buffer false
      ≡ some (err io, ch', warm))
    × ((icb_at warm 0).icb_buf ≢ block_of ch'.disk 2 5)
torn_write_example =
    torn_write-stale plain false device warm 5 1 0 1 5 buffer [] warm-IsCoherent refl refl
      (omega arith) (omega arith) (omega arith) (omega arith) (omega arith)
      (λ e. absurd (omega arith))

abbrev with_memory : Allocations
with_memory = record { cache = true; data_buffer = none; metadata_buffer = true }

init_cache_example :
    Inits with_memory
      (λ i. i ∷ [])
      with_cache
      2
      (io_init_cache with_memory (λ i. i ∷ []) with_cache 2)
init_cache_example =
    io_init_cache-IsCoherent with_memory (λ i. i ∷ []) with_cache 2 (omega arith) (omega arith)

read_calls_example :
    Reads with_cache 5 2 buffer (io_read_block plain with_cache 5 (blocks 2) buffer)
    × Reads with_cache 5 2 buffer (io_read_block_nocache plain with_cache 5 (blocks 2) buffer)
read_calls_example =
    io_read_block-Reads plain with_cache 5 2 buffer (omega arith) (omega arith) (omega arith)
      (omega arith) (omega arith) (warm-IsCoherent, omega arith)
