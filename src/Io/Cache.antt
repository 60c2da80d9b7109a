-- ===== src/Io/Cache.antt =====
-- The cache of cmfs-tools/libcmfs/unix_io.c. A `struct io_cache_block` is known by its place in the
-- array that `io_init_cache` allocates, and `ic_lru` lists these places.
pub mod Steps
pub mod Read
pub mod Write
use cmfs.Prelude.{
  ℕ, zero, suc, ◌+◌, ◌-◌, ◌*◌, ◌/◌, ◌%◌, ◌^◌, min, Bool, true, false, Option, none, some, List, [],
  ◌∷◌, ◌++◌, ltb, ◌==◌, if◌then◌else◌, length, get_elem?, set, take, drop, replicate,
}
use cmfs.Prelude.Fault.{◌>>=◌}
use cmfs.Err.{internal_failure, Result, ok, err}
use cmfs.Io.Tree.{Tree, leaf, search_tree, link_node, RbTree}
use cmfs.Io.Device.{
  Channel, Count, blocks, in_bytes, unix_io_read_block, unix_io_write_block,
  unix_io_write_block_full,
}

-- `struct io_cache_block`, without its tree and list nodes.
pub record IoCacheBlock : Type 0 where
  pub icb_blkno : ℕ
  pub icb_buf : List ℕ

pub record IoCache : Type 0 where
  pub ic_lru : List ℕ
  pub ic_lookup : Tree
  pub icbs : List IoCacheBlock
  pub ic_hits : ℕ
  pub ic_misses : ℕ
  pub ic_inserts : ℕ
  pub ic_removes : ℕ

-- The block number of a cache block that is not in the tree.
abbrev pub uint64_max : ℕ
uint64_max = 2 ^ 64 - 1

unfoldable pub io_cache_lookup : IoCache → ℕ → Option ℕ
unfolding search_tree
io_cache_lookup ic blkno = search_tree ic.ic_lookup blkno

-- `list_del`.
abbrev pub list_del : ℕ → List ℕ → List ℕ
list_del i [] = []
list_del i (j ∷ js) = let rest = list_del i js in if j == i then rest else j ∷ rest

-- `list_entry(ic_lru.next, ...)`; from an empty list this is no cache block.
abbrev pub first_entry : List ℕ → Option ℕ
first_entry [] = none
first_entry (i ∷ js) = some i

unfoldable pub io_cache_seen : IoCache → ℕ → IoCache
io_cache_seen ic i = record ic { ic_lru = list_del i ic.ic_lru ++ i ∷ [] }

unfoldable pub io_cache_unsee : IoCache → ℕ → IoCache
io_cache_unsee ic i = record ic { ic_lru = i ∷ list_del i ic.ic_lru }

-- The call that follows every use of a cache block.
unfoldable pub touch : Bool → IoCache → ℕ → IoCache
unfolding io_cache_seen io_cache_unsee
touch nocache ic i = if nocache then io_cache_unsee ic i else io_cache_seen ic i

-- `icb->icb_blkno = blkno`.
unfoldable pub set_blkno : IoCache → ℕ → ℕ → Option IoCache
set_blkno ic i blkno = do
  icb ← get_elem? ic.icbs i
  some (record ic { icbs = set ic.icbs i (record icb { icb_blkno = blkno }) })

-- `memcpy(icb->icb_buf, bytes, io_blksize)`.
unfoldable pub set_buf : IoCache → ℕ → List ℕ → Option IoCache
set_buf ic i bytes = do
  icb ← get_elem? ic.icbs i
  some (record ic { icbs = set ic.icbs i (record icb { icb_buf = bytes }) })

unfoldable pub one_meg_of_blocks : Channel → ℕ
one_meg_of_blocks ch = (2 ^ 20 + ch.io_blksize - 1) / ch.io_blksize

-- How often a loop from 0 up to `count` runs; not at all where that is negative.
abbrev pub rounds : Count → ℕ
rounds (blocks n) = n
rounds (in_bytes n) = 0

-- The loop that counts the blocks that are cached.
unfoldable pub count_good : IoCache → ℕ → ℕ → ℕ
count_good ic blkno zero = 0
count_good ic blkno (suc n) =
    let more = suc (count_good ic (blkno + 1) n) in
    elim (io_cache_lookup ic blkno) [ none ↦ 0 | some _ ↦ more ]

-- "Read any blocks not in the cache".
unfoldable pub read_missing :
    Channel → ℕ → ℕ → ℕ → List ℕ → Option (Result (Unit {0}) × List ℕ × Channel)
unfolding unix_io_read_block
read_missing ch blkno n good bytes =
    if ltb good n
    then (unix_io_read_block ch (blkno + good) (blocks (n - good))
          (drop (good * ch.io_blksize) bytes)
        >>= λ r. some (r.0, take (good * ch.io_blksize) bytes ++ r.1, r.2))
    else some (ok tt, bytes, ch)

-- The loop over hunks goes on where `next` is called, with the buffer moved on by `size`.
abbrev pub next_hunk :
    (Channel → IoCache → List ℕ → Option (Result (Unit {0}) × List ℕ × Channel × IoCache))
    → ℕ
    → Result (Unit {0}) × List ℕ × Channel × IoCache
    → Option (Result (Unit {0}) × List ℕ × Channel × IoCache)
next_hunk next size (ok _, bytes, ch, ic) =
    next ch ic (drop size bytes) >>= λ s. some (s.0, take size bytes ++ s.1, s.2, s.3)
next_hunk next size (err e, bytes, ch, ic) = some (err e, bytes, ch, ic)

module _ (rb : RbTree) where
  unfoldable pub io_cache_insert : IoCache → ℕ → Option IoCache
  unfolding link_node
  io_cache_insert ic i = do
    icb ← get_elem? ic.icbs i
    t ← link_node ic.ic_lookup icb.icb_blkno i
    some (record ic { ic_lookup = rb.rb_insert_color t; ic_inserts = (ic.ic_inserts + 1) % 2 ^ 32 })

  unfoldable pub io_cache_disconnect : IoCache → ℕ → Option IoCache
  unfolding set_blkno
  io_cache_disconnect ic i = do
    icb ← get_elem? ic.icbs i
    if icb.icb_blkno == uint64_max
        then some ic
        else set_blkno (record ic { ic_lookup = rb.rb_erase i ic.ic_lookup }) i uint64_max

  -- The cache block, and the cache.
  unfoldable pub io_cache_pop_lru : IoCache → Option (ℕ × IoCache)
  unfolding io_cache_disconnect
  io_cache_pop_lru ic = do
    i ← first_entry ic.ic_lru
    ic₁ ← io_cache_disconnect ic i
    some (i, record ic₁ { ic_removes = (ic₁.ic_removes + 1) % 2 ^ 32 })

  -- "Steal the LRU buffer": the three calls that give block `blkno` a cache block.
  unfoldable pub steal : IoCache → ℕ → Option (ℕ × IoCache)
  unfolding io_cache_pop_lru set_blkno io_cache_insert
  steal ic blkno = do
    r ← io_cache_pop_lru ic
    ic₁ ← set_blkno r.1 r.0 blkno
    ic₂ ← io_cache_insert ic₁ r.0
    some (r.0, ic₂)

  -- A stolen cache block is filled and touched.
  unfoldable pub steal_filled : Bool → IoCache → ℕ → List ℕ → Option IoCache
  unfolding steal set_buf touch
  steal_filled nocache ic blkno bytes = do
    r ← steal ic blkno
    ic₁ ← set_buf r.1 r.0 bytes
    some (touch nocache ic₁ r.0)

  -- A block of the loop that syncs the cache after a read: the bytes of the block in `data`, with
  -- `hit` for `i < good_blocks`.
  unfoldable pub sync_block : Bool → Bool → ℕ → List ℕ → IoCache → Option (List ℕ × IoCache)
  unfolding io_cache_lookup steal_filled set_buf touch
  sync_block nocache hit blkno bytes ic = elim (io_cache_lookup ic blkno) [
    | none ↦
        if hit
        then none
        else if nocache
        then some (bytes, ic)
        else (steal_filled nocache ic blkno bytes >>= λ ic₁. some (bytes, ic₁))
    | some i ↦
        get_elem? ic.icbs i >>= λ icb. some (if hit then icb.icb_buf else bytes, touch nocache ic i)
  ]

  -- The loop, over the blocks that are left, of which `good` were counted as cached.
  unfoldable pub sync_blocks : ℕ → Bool → ℕ → ℕ → ℕ → List ℕ → IoCache → Option (List ℕ × IoCache)
  unfolding sync_block
  sync_blocks blksize nocache zero good blkno bytes ic = some (bytes, ic)
  sync_blocks blksize nocache (suc n) good blkno bytes ic =
      sync_block nocache (ltb 0 good) blkno (take blksize bytes) ic >>= λ r.
      sync_blocks blksize nocache n (good - 1) (blkno + 1) (drop blksize bytes) r.1 >>= λ s.
      some (r.0 ++ s.0, s.1)

  -- What follows the read of the blocks that are not cached.
  abbrev pub sync_read :
      Bool
      → ℕ
      → ℕ
      → ℕ
      → IoCache
      → Result (Unit {0}) × List ℕ × Channel
      → Option (Result (Unit {0}) × List ℕ × Channel × IoCache)
  sync_read nocache n good blkno ic (ok _, bytes, ch) =
      sync_blocks ch.io_blksize nocache n good blkno bytes ic >>= λ s. some (ok tt, s.0, ch, s.1)
  sync_read nocache n good blkno ic (err e, bytes, ch) = some (err e, bytes, ch, ic)

  unfoldable pub io_cache_read_blocks :
      Channel
      → IoCache
      → ℕ
      → Count
      → List ℕ
      → Bool
      → Option (Result (Unit {0}) × List ℕ × Channel × IoCache)
  unfolding count_good read_missing sync_blocks
  io_cache_read_blocks ch ic blkno count bytes nocache =
      let n = rounds count in
      let good = count_good ic blkno n in
      let counted = record ic {
        ic_hits = (ic.ic_hits + good) % 2 ^ 32;
        ic_misses = (ic.ic_misses + (n - good)) % 2 ^ 32;
      } in
      read_missing ch blkno n good bytes >>= sync_read nocache n good blkno counted

  -- The loop over hunks of at most `todo` blocks.
  unfoldable pub read_hunks :
      ℕ
      → ℕ
      → Channel
      → IoCache
      → ℕ
      → ℕ
      → List ℕ
      → Bool
      → Option (Result (Unit {0}) × List ℕ × Channel × IoCache)
  unfolding io_cache_read_blocks
  read_hunks zero todo ch ic blkno n bytes nocache = none
  read_hunks (suc fuel) todo ch ic blkno n bytes nocache =
      let step = min todo n in
      let hunk =
        io_cache_read_blocks ch ic blkno (blocks step) bytes nocache
        >>= next_hunk
            (λ ch' ic' rest. read_hunks fuel step ch' ic' (blkno + step) (n - step) rest nocache)
            (step * ch.io_blksize) in
      if n == 0 then some (ok tt, bytes, ch, ic) else hunk

  -- A negative `count` is one hunk. The loop takes a block or more at a time, so it ends.
  unfoldable pub io_cache_read_block :
      Channel
      → IoCache
      → ℕ
      → Count
      → List ℕ
      → Bool
      → Option (Result (Unit {0}) × List ℕ × Channel × IoCache)
  unfolding read_hunks io_cache_read_blocks one_meg_of_blocks
  io_cache_read_block ch ic blkno (in_bytes n) bytes nocache =
      io_cache_read_blocks ch ic blkno (in_bytes n) bytes nocache
  io_cache_read_block ch ic blkno (blocks n) bytes nocache =
      read_hunks (n + 1) (one_meg_of_blocks ch) ch ic blkno n bytes nocache

  -- A block of the loop that syncs the cache after a write.
  unfoldable pub update_block : Bool → ℕ → List ℕ → IoCache → Option IoCache
  unfolding io_cache_lookup steal_filled set_buf touch
  update_block nocache blkno bytes ic = elim (io_cache_lookup ic blkno) [
    | none ↦ if nocache then some ic else steal_filled nocache ic blkno bytes
    | some i ↦ set_buf ic i bytes >>= λ ic₁. some (touch nocache ic₁ i)
  ]

  unfoldable pub update_blocks : ℕ → Bool → ℕ → ℕ → List ℕ → IoCache → Option IoCache
  unfolding update_block
  update_blocks blksize nocache zero blkno bytes ic = some ic
  update_blocks blksize nocache (suc n) blkno bytes ic =
      update_block nocache blkno (take blksize bytes) ic
      >>= update_blocks blksize nocache n (blkno + 1) (drop blksize bytes)

  unfoldable pub io_cache_write_blocks :
      Channel → IoCache → ℕ → Count → List ℕ → Bool → Option (Result (Unit {0}) × Channel × IoCache)
  unfolding unix_io_write_block_full update_blocks
  io_cache_write_blocks ch ic blkno count bytes nocache = do
    r ← unix_io_write_block_full ch blkno count bytes
    ic₁ ← update_blocks ch.io_blksize nocache r.1 blkno bytes ic
    some (r.0, r.2, ic₁)
