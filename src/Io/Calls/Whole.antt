-- ===== src/Io/Calls/Whole.antt =====
-- A new cache is coherent, and calls with and without a cache read the same.
use cmfs.Prelude.{
  ◌≢◌, ◌==◌, Bool-cases, Option-cases, ℕ, zero, suc, ◌+◌, ◌*◌, ◌^◌, ◌<◌, ◌≤◌, Bool, true, false,
  ◌≡◌, refl, ◌∙◌, ap, ◌⊎◌, inl, inr, arith, Option, none, some, List, ◌++◌, ltb, leb, ◌&&◌, length,
  get_or, drop,
}
use cmfs.Err.{io, no_memory, Result, ok, err}
use cmfs.Io.Tree.{RbTree}
use cmfs.Io.Device.{Channel, bytes_at, blocks}
use cmfs.Io.Device.Read.{unix_io_read_block-IsRead}
use cmfs.Io.Cache.{IoCache, uint64_max}
use cmfs.Io.Cache.Steps.{no_block, member}
use cmfs.Io.Cache.Read.{IsCoherent}
use cmfs.Io.Cache.Read.Whole.{io_cache_read_block-IsCachedRead}
use cmfs.Io.Calls.{
  Allocations, enomem, cmfs_malloc_blocks, IoChannel, read_through, io_read_block,
  io_read_block_nocache, new_blocks, new_lru, new_cache, io_init_cache,
}

length-new_blocks : (garbage : ℕ → List ℕ) (i n : ℕ) → length (new_blocks garbage i n) ≡ n
unfolding new_blocks
length-new_blocks garbage i zero = refl
length-new_blocks garbage i (suc n) = ap suc (length-new_blocks garbage (i + 1) n)

new_blocks-free :
    (garbage : ℕ → List ℕ) (i n j : ℕ)
    → (get_or (new_blocks garbage i n) j no_block).icb_blkno ≡ uint64_max
unfolding new_blocks
new_blocks-free garbage i zero j = refl
new_blocks-free garbage i (suc n) zero = refl
new_blocks-free garbage i (suc n) (suc j) = new_blocks-free garbage (i + 1) n j

member-new_lru : (i n j : ℕ) → member j (new_lru i n) ≡ (leb i j && ltb j (i + n))
unfolding new_lru
member-new_lru i zero j = ground arith
member-new_lru i (suc n) j = ground (arith, member-new_lru (i + 1) n j)

-- What `io_init_cache` can end with, on memory that held `garbage`.
abbrev pub Inits : Allocations → (ℕ → List ℕ) → IoChannel → ℕ → Option (Result IoChannel) → Type 0
Inits a garbage channel nr_blocks r =
    ((a.cache ≡ true)
      × (a.data_buffer ≡ none)
      × (a.metadata_buffer ≡ true)
      × (r ≡ some (ok (record channel { io_cache = some (new_cache garbage nr_blocks) })))
      × IsCoherent channel.chan (new_cache garbage nr_blocks)
      × (length (new_cache garbage nr_blocks).icbs ≡ nr_blocks))
    ⊎ (((a.cache ≡ false) ⊎ (a.data_buffer ≡ some enomem) ⊎ (a.metadata_buffer ≡ false))
        × (r ≡ some (err no_memory)))
    ⊎ ((e : ℕ) × (a.data_buffer ≡ some e) × (e ≢ enomem) × (r ≡ none))

new_cache-IsCoherent :
    (garbage : ℕ → List ℕ) (ch : Channel) (nr_blocks : ℕ)
    → IsCoherent ch (new_cache garbage nr_blocks)
new_cache-IsCoherent garbage ch nr_blocks = record {
  sorted = tt;
  listed = λ k i f. absurd (ground arith);
  linked = λ i x y. absurd (y (new_blocks-free garbage 0 nr_blocks i));
  lru = λ i. member-new_lru 0 nr_blocks i ∙ ground (arith, length-new_blocks garbage 0 nr_blocks);
  fresh = λ k i f s. absurd (ground arith);
}

-- For a number of blocks and of bytes that fit an `int`, `io_init_cache` gives the channel a coherent
-- cache of `nr_blocks` blocks where all three allocations succeed, whatever the memory held. It fails
-- with `CMFS_ET_NO_MEMORY` where one of them has no memory, and it aborts only where the one for the
-- data fails with another `errno`.
pub io_init_cache-IsCoherent :
    (a : Allocations) (garbage : ℕ → List ℕ) (channel : IoChannel) (nr_blocks : ℕ)
    → nr_blocks < 2 ^ 31
    → nr_blocks * channel.chan.io_blksize < 2 ^ 31
    → Inits a garbage channel nr_blocks (io_init_cache a garbage channel nr_blocks)
unfolding io_init_cache cmfs_malloc_blocks
io_init_cache-IsCoherent a garbage channel nr_blocks few fits =
    let in_int : (ltb nr_blocks (2 ^ 31) && ltb (nr_blocks * channel.chan.io_blksize) (2 ^ 31))
        ≡ true =
      ground arith in
    elim (Bool-cases a.cache) [
      | inr no_cache ↦ inr (inl (inl no_cache, rw no_cache refl))
      | inl has_cache ↦ elim (Option-cases a.data_buffer) [
        | inl buffer ↦ elim (Bool-cases a.metadata_buffer) [
          | inl metadata ↦ inl (
            has_cache,
            buffer,
            metadata,
            rw (has_cache, in_int, buffer, metadata) refl,
            new_cache-IsCoherent garbage channel.chan nr_blocks,
            length-new_blocks garbage 0 nr_blocks,
          )
          | inr no_metadata ↦
              inr (inl (inr (inr no_metadata), rw (has_cache, in_int, buffer, no_metadata) refl))
        ]
        | inr (e, failed) ↦ elim (Bool-cases (e == enomem)) [
          | inl memory ↦
              let is_enomem : e ≡ enomem = ground arith in
              inr (
                inl (
                  inr (inl (failed ∙ ap (λ (t : ℕ). some t) is_enomem)),
                  rw (has_cache, in_int, failed, memory) refl,
                ))
          | inr other ↦ inr (
              inr (
                e,
                failed,
                (λ z. absurd (ground arith)),
                rw (has_cache, in_int, failed, other) refl,
              ))
        ]
      ]
    ]

-- The cache of a channel, if it has one, is coherent and has a block.
abbrev pub IsReady : Channel → Option IoCache → Type 0
IsReady ch none = Unit {0}
IsReady ch (some ic) = IsCoherent ch ic × (0 < length ic.icbs)

-- What is read, whether or not a cache is there.
abbrev pub Reads :
    IoChannel → ℕ → ℕ → List ℕ → Option (Result (Unit {0}) × List ℕ × IoChannel) → Type 0
Reads channel b n buf r =
    (ret : Result (Unit {0})) × (data' : List ℕ) × (channel' : IoChannel) × (r
      ≡ some (ret, data', channel'))
    × (((ret ≡ ok tt)
          × (data'
              ≡ bytes_at channel.chan.disk (b * channel.chan.io_blksize)
                  (n * channel.chan.io_blksize)
                ++ drop (n * channel.chan.io_blksize) buf))
        ⊎ (ret ≡ err io))
    × (channel'.chan.disk ≡ channel.chan.disk)
    × IsReady channel'.chan channel'.io_cache

module _ (rb : RbTree) (channel : IoChannel) (b n : ℕ) (buf : List ℕ)
    (inside : b * channel.chan.io_blksize + n * channel.chan.io_blksize < 2 ^ 63)
    (some_bytes : 0 < channel.chan.io_blksize) (le : channel.chan.io_blksize ≤ 2 ^ 20)
    (fits : n * channel.chan.io_blksize < 2 ^ 31)
    (long : n * channel.chan.io_blksize ≤ length buf) where
  through-Reads :
      (nocache : Bool) (o : Option IoCache)
      → IsReady channel.chan o
      → Reads channel b n buf (read_through rb nocache channel b (blocks n) buf o)
  through-Reads nocache none ready =
      let enough : ltb (n * channel.chan.io_blksize) (2 ^ 31) ≡ true = ground arith in
      let (ret, data', ch', e, r) =
        unix_io_read_block-IsRead channel.chan b (blocks n) buf (n * channel.chan.io_blksize)
          (rw enough refl) inside in
      (
        ret,
        data',
        record { chan = ch'; io_cache = none },
        rw e refl,
        elim r.outcome [
          | inr (bad, _) ↦ inr bad
          | inl (good, all) ↦ inl (
            good,
            r.contents
                ∙ ap
                    (λ (t : ℕ).
                      bytes_at channel.chan.disk (b * channel.chan.io_blksize) t ++ drop t buf)
                    all,
          )
        ],
        r.same_disk,
        tt,
      )
  through-Reads nocache (some ic) ready =
      let (ret, data', ch', ic', e, r) =
        io_cache_read_block-IsCachedRead rb nocache channel.chan ic b n buf ready.0 ready.1 inside
          some_bytes le long in
      (
        ret,
        data',
        record { chan = ch'; io_cache = some ic' },
        rw e refl,
        r.outcome,
        r.same_disk,
        (r.coherent, rw r.size ready.1),
      )

  -- Both read calls, with a coherent cache or with none, return the bytes on the disk or
  -- `CMFS_ET_IO`, change no byte of the disk and leave a coherent cache. The blocks end below byte 2^63
  -- of the device, the block size is at most 1 MB, and the size fits an `int` and the buffer.
  pub io_read_block-Reads :
      IsReady channel.chan channel.io_cache
      → Reads channel b n buf (io_read_block rb channel b (blocks n) buf)
        × Reads channel b n buf (io_read_block_nocache rb channel b (blocks n) buf)
  unfolding io_read_block io_read_block_nocache
  io_read_block-Reads ready = (
    through-Reads channel.chan.io_nocache channel.io_cache ready,
    through-Reads true channel.io_cache ready,
  )
