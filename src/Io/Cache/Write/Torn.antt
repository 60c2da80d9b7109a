-- ===== src/Io/Cache/Write/Torn.antt =====
-- Writes through the cache that succeed are read back; one that stops inside a cached block leaves
-- the cache with the block's old bytes.
use cmfs.Prelude.{
  ℕ, zero, suc, ◌+◌, ◌-◌, ◌*◌, ◌/◌, ◌%◌, ◌^◌, ◌<◌, ◌≤◌, min, Bool, true, false, ◌≡◌, ◌≢◌, refl, sym,
  ◌∙◌, ap, ◌⊎◌, inl, inr, arith, some, List, ◌∷◌, ◌++◌, ltb, ◌==◌, length, get_or, take, drop,
}
use native.Mathlib.Nat.{mul-mod_left, div-eq_of_lt}
use cmfs.Err.{io, Result, ok, err}
use cmfs.Io.Tree.{RbTree}
use cmfs.Io.Device.{
  Reply, failed, moved, Channel, bytes_at, store, next_reply, write_loop, blocks, size_of,
  unix_io_write_block_full,
}
use cmfs.Io.Device.Bytes.{bytes_at-get, store-inside}
use cmfs.Io.Cache.{IoCache, update_blocks, io_cache_read_block, io_cache_write_blocks}
use cmfs.Io.Cache.Steps.{IsCache, icb_at, cached}
use cmfs.Io.Cache.Steps.Fill.{weaken}
use cmfs.Io.Cache.Read.{block_of, nothing_stale, IsCoherent}
use cmfs.Io.Cache.Read.Whole.{io_cache_read_block-IsCachedRead}
use cmfs.Io.Cache.Write.{torn, IsCachedWrite, io_cache_write_blocks-IsCachedWrite}

-- A write of whole blocks leaves the cache coherent.
whole-IsCoherent :
    (ch : Channel) (ic : IoCache) (b size : ℕ) (buf : List ℕ) (ret : Result (Unit {0}))
    (ch' : Channel) (ic' : IoCache) (w : IsCachedWrite ch ic b size buf ret ch' ic')
    → w.tot % ch.io_blksize ≡ 0
    → IsCoherent ch' ic'
whole-IsCoherent ch ic b size buf ret ch' ic' w h =
    let v : IsCache (block_of ch'.disk ch.io_blksize) nothing_stale ic' =
      weaken (block_of ch'.disk ch.io_blksize) nothing_stale (torn ch.io_blksize b w.tot) ic'
        w.valid (λ k i f s. rw h refl) in
    rw w.same_blksize v

size_of-blocks : (s n : ℕ) → n * s < 2 ^ 31 → size_of s (blocks n) ≡ some (n * s)
size_of-blocks s n h = let e : ltb (n * s) (2 ^ 31) ≡ true = ground arith in rw e refl

-- After a write of `n` blocks that succeeds, a read of the same blocks gives what was written, or
-- the error of the device, with and without `nocache` in each. The cache is coherent and has a block,
-- the block size is at most 1 MB, the size fits an `int` and both buffers, and the blocks end below
-- byte 2^63 of the device.
pub read_after_write :
    (rb : RbTree) (nocache nocache' : Bool) (ch : Channel) (ic : IoCache) (b n : ℕ)
    (buf buf' : List ℕ)
    → IsCoherent ch ic
    → 0 < length ic.icbs
    → 0 < ch.io_blksize
    → ch.io_blksize ≤ 2 ^ 20
    → n * ch.io_blksize < 2 ^ 31
    → b * ch.io_blksize + n * ch.io_blksize < 2 ^ 63
    → n * ch.io_blksize ≤ length buf
    → n * ch.io_blksize ≤ length buf'
    → (ret : Result (Unit {0})) × (ch' : Channel) × (ic' : IoCache) × (io_cache_write_blocks rb ch
          ic b
          (blocks n)
          buf
          nocache
        ≡ some (ret, ch', ic'))
      × (ret ≡ ok tt
          → (ret' : Result (Unit {0})) × (data' : List ℕ) × (ch'' : Channel) × (ic'' : IoCache)
            × (io_cache_read_block rb ch' ic' b (blocks n) buf' nocache'
                ≡ some (ret', data', ch'', ic''))
            × (((ret' ≡ ok tt)
                  × (data' ≡ take (n * ch.io_blksize) buf ++ drop (n * ch.io_blksize) buf'))
                ⊎ (ret' ≡ err io)))
read_after_write rb nocache nocache' ch ic b n buf buf' v pos some_bytes le fits inside long long' =
    let s = ch.io_blksize in
    let (ret, ch', ic', e, w) =
      io_cache_write_blocks-IsCachedWrite rb nocache ch ic b (blocks n) buf (n * s) v pos some_bytes
        (size_of-blocks s n fits) long inside in
    (
      ret,
      ch',
      ic',
      e,
      λ done.
          let all : w.tot ≡ n * s = ground (arith, w.outcome) in
          let whole : w.tot % s ≡ 0 = rw all (mul-mod_left n s) in
          let v' = whole-IsCoherent ch ic b (n * s) buf ret ch' ic' w whole in
          let same = w.same_blksize in
          let (ret', data', ch'', ic'', e', r) =
            io_cache_read_block-IsCachedRead rb nocache' ch' ic' b n buf' v' (rw w.number pos)
              (rw same inside) (rw same some_bytes) (rw same le) (rw same long') in
          (
            ret',
            data',
            ch'',
            ic'',
            e',
            elim r.outcome [
              | inr bad ↦ inr bad
              | inl (good, data_is) ↦
                  let run : bytes_at ch'.disk (b * s) (n * s) ≡ take (n * s) buf =
                    bytes_at-get ch'.disk (b * s) (n * s) buf
                      (λ i lt.
                        w.contents (b * s + i)
                        ∙ ap (λ (t : ℕ). store ch.disk (b * s) (take t buf) (b * s + i)) all
                        ∙ store-inside ch.disk (b * s) (n * s) buf (b * s + i) long (omega arith)
                            (omega arith)
                        ∙ ap (λ (t : ℕ). get_or buf t 0) (omega arith))
                      long in
                  inl (
                    good,
                    data_is
                        ∙ ap (λ (t : ℕ). bytes_at ch'.disk (b * t) (n * t) ++ drop (n * t) buf')
                            same
                        ∙ ap (λ t. t ++ drop (n * s) buf') run,
                  )
            ],
          ),
    )

first_byte : (d : ℕ → ℕ) (l n : ℕ) → 0 < n → get_or (bytes_at d l n) 0 0 ≡ d l
unfolding bytes_at
first_byte d l zero h = absurd (omega arith)
first_byte d l (suc n) h = refl

loop_moves :
    (fuel size location : ℕ) (buf : List ℕ) (tot : ℕ) (ch : Channel) (m : ℕ)
    → (next_reply (size - tot) ch.replies).0 ≡ moved m
    → 0 < m
    → tot < size
    → write_loop (suc fuel) size location buf tot ch
      ≡ write_loop fuel size location buf (tot + m) (record ch {
        disk = store ch.disk (location + tot) (take m (drop tot buf));
        replies = (next_reply (size - tot) ch.replies).1;
      })
unfolding write_loop
loop_moves fuel size location buf tot ch m h some_bytes lt =
    let more : ltb tot size ≡ true = ground arith in
    let not_zero : (m == 0) ≡ false = ground arith in rw (more, h, not_zero, write_loop) refl

loop_fails :
    (fuel size location : ℕ) (buf : List ℕ) (tot : ℕ) (ch : Channel) (e : ℕ)
    → (next_reply (size - tot) ch.replies).0 ≡ failed e
    → tot < size
    → write_loop (suc fuel) size location buf tot ch
      ≡ some (
        err io,
        tot,
        record ch { replies = (next_reply (size - tot) ch.replies).1; io_error = e },
      )
unfolding write_loop
loop_fails fuel size location buf tot ch e h lt =
    let more : ltb tot size ≡ true = ground arith in rw (more, h, write_loop) refl

-- A device that takes `m` bytes and then fails.
failing_loop :
    (fuel size location : ℕ) (buf : List ℕ) (ch : Channel) (m e : ℕ) (rest : List Reply)
    → ch.replies ≡ moved m ∷ failed e ∷ rest
    → 0 < m
    → m < size
    → (ch' : Channel) × (write_loop (suc (suc fuel)) size location buf 0 ch ≡ some (err io, m, ch'))
      × (ch'.disk ≡ store ch.disk location (take m buf))
      × (ch'.io_blksize ≡ ch.io_blksize)
failing_loop fuel size location buf ch m e rest h some_bytes lt =
    let all : min m (size - 0) ≡ m = omega arith in
    let first : (next_reply (size - 0) ch.replies).0 ≡ moved m =
      unfold next_reply in rw h (ap moved all) in
    let next : Channel = record ch {
      disk = store ch.disk (location + 0) (take m (drop 0 buf));
      replies = (next_reply (size - 0) ch.replies).1;
    } in
    let second : (next_reply (size - m) (next_reply (size - 0) ch.replies).1).0 ≡ failed e =
      unfold next_reply in rw h refl in
    let z : 0 + m ≡ m = omega arith in
    let z' : location + 0 ≡ location = omega arith in
    (
      record next { replies = (next_reply (size - m) next.replies).1; io_error = e },
      loop_moves (suc fuel) size location buf 0 ch m first some_bytes (omega arith)
          ∙ ap (λ (t : ℕ). write_loop (suc fuel) size location buf t next) z
          ∙ loop_fails fuel size location buf m next e second lt,
      rw z' refl,
      refl,
    )

-- The first block of a write is cached in a coherent cache, and its first byte is to change.
-- Where the device takes part of that block, at least a byte, and then fails, the write fails
-- with `CMFS_ET_IO` and leaves the cache as it was, so that the cached block differs from the
-- disk. The size fits an `int` and the buffer, and the
-- range ends below byte 2^63 of the device.
pub torn_write-stale :
    (rb : RbTree) (nocache : Bool) (ch : Channel) (ic : IoCache) (b n i m e : ℕ) (buf : List ℕ)
    (rest : List Reply)
    → IsCoherent ch ic
    → cached ic b ≡ some i
    → ch.replies ≡ moved m ∷ failed e ∷ rest
    → 0 < m
    → m < ch.io_blksize
    → suc n * ch.io_blksize < 2 ^ 31
    → b * ch.io_blksize + suc n * ch.io_blksize < 2 ^ 63
    → suc n * ch.io_blksize ≤ length buf
    → get_or buf 0 0 ≢ ch.disk (b * ch.io_blksize)
    → (ch' : Channel) × (io_cache_write_blocks rb ch ic b (blocks (suc n)) buf nocache
        ≡ some (err io, ch', ic))
      × ((icb_at ic i).icb_buf ≢ block_of ch'.disk ch.io_blksize b)
unfolding io_cache_write_blocks unix_io_write_block_full update_blocks
torn_write-stale rb nocache ch ic b n i m e buf rest v found h some_bytes lt fits inside long
      differs =
    let s = ch.io_blksize in
    let in_int64 : ltb (b * s) (2 ^ 63) ≡ true = ground arith in
    let size : suc n * s ≡ s + n * s = omega arith in
    let fuel : suc n * s + 1 ≡ suc (suc (suc n * s - 1)) = omega arith in
    let (last, e₁, d, same) =
      failing_loop (suc n * s - 1) (suc n * s) (b * s) buf ch m e rest h some_bytes (omega arith) in
    let none_done : m / last.io_blksize ≡ 0 = rw same (div-eq_of_lt lt) in
    let done : Channel = record last { io_bytes_written = (last.io_bytes_written + m) % 2 ^ 64 } in
    (
      done,
      rw (size_of-blocks s (suc n) fits, in_int64, fuel, e₁, none_done) refl,
      λ stale. differs (
          ap (λ (t : ℕ). get_or buf t 0) (omega arith)
          ∙ sym
              (store-inside ch.disk (b * s) m buf (b * s) (omega arith) (omega arith) (omega arith))
          ∙ sym (ap (λ (f : ℕ → ℕ). f (b * s)) d)
          ∙ sym (first_byte done.disk (b * s) s (omega arith))
          ∙ ap (λ xs. get_or xs 0 0) (sym stale ∙ v.fresh b i found refl)
          ∙ first_byte ch.disk (b * s) s (omega arith)),
    )
