-- ===== src/Io/Cache/Read/Hunks.antt =====
-- `io_cache_read_blocks` and the loop of `io_cache_read_block`.
use cmfs.Prelude.{
  ℕ, ◌+◌, ◌-◌, ◌*◌, ◌%◌, ◌^◌, ◌<◌, ◌≤◌, Bool, true, ◌≡◌, refl, sym, ◌∙◌, ap, ◌⊎◌, inl, inr, arith,
  some, List, ◌++◌, ltb, Bool-cases, length, take, drop, take-append-drop, length-take,
}
use cmfs.Err.{io, Result, ok, err}
use cmfs.Io.Tree.{RbTree}
use cmfs.Io.Device.{Channel, bytes_at, blocks, size_of}
use cmfs.Io.Device.Read.{unix_io_read_block-IsRead}
use cmfs.Io.Cache.{
  IoCache, uint64_max, count_good, sync_blocks, sync_read, read_missing, io_cache_read_blocks,
}
use cmfs.Io.Cache.Steps.{cached, IsCache}
use cmfs.Io.Cache.Read.{
  block_of, nothing_stale, IsCoherent, drop-drop, add-mul, sync_blocks-hit, count_good-cached,
  IsCachedRead,
}

-- The part of a run of `n` blocks that starts at block `g`.
pub mul-sub : (n g s : ℕ) → g ≤ n → n * s ≡ g * s + (n - g) * s
mul-sub n g s h =
    let e : n ≡ g + (n - g) = omega arith in ap (λ (t : ℕ). t * s) e ∙ add-mul g (n - g) s

module _ (ch : Channel) (b n g : ℕ) (buf : List ℕ) where
  abbrev s : ℕ
  s = ch.io_blksize

  -- The buffer once the blocks that are not cached were read.
  abbrev filled : List ℕ
  filled = take (g * s) buf ++ (bytes_at ch.disk ((b + g) * s) ((n - g) * s) ++ drop (n * s) buf)

  read_missing_lem :
      g ≤ n
      → b * s + n * s < 2 ^ 63
      → n * s < 2 ^ 31
      → (ret : Result (Unit {0})) × (out : List ℕ) × (ch' : Channel) × (read_missing ch b n g buf
          ≡ some (ret, out, ch'))
        × (((ret ≡ ok tt) × (out ≡ filled)) ⊎ (ret ≡ err io))
        × (ch'.disk ≡ ch.disk)
        × (ch'.io_blksize ≡ ch.io_blksize)
  unfolding read_missing
  read_missing_lem le inside fits = elim (Bool-cases (ltb g n)) [
    | inl more ↦
        let m = mul-sub n g s le in
        let small : ltb ((n - g) * s) (2 ^ 31) ≡ true = ground arith in
        let size : size_of s (blocks (n - g)) ≡ some ((n - g) * s) = rw small refl in
        let (ret, out, ch', e, r) =
          unix_io_read_block-IsRead ch (b + g) (blocks (n - g)) (drop (g * s) buf) ((n - g) * s)
            size (omega (arith, m, add-mul b g s)) in
        (
          ret,
          take (g * s) buf ++ out,
          ch',
          rw (more, e) refl,
          elim r.outcome [
            | inr (failed, _) ↦ inr failed
            | inl (done, all) ↦ inl (
              done,
              ap (λ t. take (g * s) buf ++ t)
                  (r.contents
                    ∙ ap (λ (t : ℕ). bytes_at ch.disk ((b + g) * s) t ++ drop t (drop (g * s) buf))
                        all
                    ∙ ap (λ t. bytes_at ch.disk ((b + g) * s) ((n - g) * s) ++ t)
                        (drop-drop (g * s) ((n - g) * s) buf ∙ ap (λ (t : ℕ). drop t buf) (sym m))),
            )
          ],
          r.same_disk,
          r.same_blksize,
        )
    | inr whole ↦
        let e : n ≡ g = ground arith in
        let z : n - g ≡ 0 = ground arith in
        let z' : (n - g) * s ≡ 0 = rw z (omega arith) in
        (
          ok tt,
          buf,
          ch,
          rw whole refl,
          inl (
            refl,
            sym (take-append-drop (n * s) buf)
                ∙ ap (λ (t : ℕ). take (t * s) buf ++ drop (n * s) buf) e
                ∙ ap (λ t. take (g * s) buf ++ (t ++ drop (n * s) buf))
                    (sym (unfold bytes_at in ap (bytes_at ch.disk ((b + g) * s)) z')),
          ),
          refl,
          refl,
        )
  ]

-- The statistics are no part of the invariant.
with_counts :
    (F : ℕ → List ℕ) (S : ℕ → Bool) (ic : IoCache) (hits misses : ℕ)
    → IsCache F S ic
    → IsCache F S (record ic { ic_hits = hits; ic_misses = misses })
with_counts F S ic hits misses v = record {
  sorted = v.sorted;
  listed = v.listed;
  linked = v.linked;
  lru = v.lru;
  fresh = v.fresh;
}

-- The invariant for another channel to the same disk.
pub other_channel :
    (ch ch' : Channel) (ic : IoCache)
    → ch'.disk ≡ ch.disk
    → ch'.io_blksize ≡ ch.io_blksize
    → IsCoherent ch ic
    → IsCoherent ch' ic
other_channel ch ch' ic d s v = rw (d, s) v

module _ (rb : RbTree) (nocache : Bool) where
  sync_read_lem :
      (ch ch' : Channel) (b n g : ℕ) (buf : List ℕ) (ic : IoCache)
      → IsCoherent ch ic
      → 0 < length ic.icbs
      → b + n ≤ uint64_max
      → g ≤ n
      → n * ch.io_blksize ≤ length buf
      → ((j : ℕ) → j < g → (i : ℕ) × (cached ic (b + j) ≡ some i))
      → ch'.disk ≡ ch.disk
      → ch'.io_blksize ≡ ch.io_blksize
      → (data' : List ℕ) × (ic' : IoCache) × (sync_read rb nocache n g b ic
            (ok tt, filled ch b n g buf, ch')
          ≡ some (ok tt, data', ch', ic'))
        × IsCachedRead ch ic b n buf (ok tt) data' ch' ic'
  sync_read_lem ch ch' b n g buf ic v pos small le long hits d same =
      let m = mul-sub n g ch.io_blksize le in
      let front : length (take (g * ch.io_blksize) buf) ≡ g * ch.io_blksize =
        omega (arith, length-take (g * ch.io_blksize) buf) in
      let (ic', e, v', size) =
        sync_blocks-hit rb ch.disk ch.io_blksize nocache n g (n - g) b (b + g)
          (take (g * ch.io_blksize) buf) (drop (n * ch.io_blksize) buf) ic v pos (omega arith) refl
          small front hits in
      (
        bytes_at ch.disk (b * ch.io_blksize) (n * ch.io_blksize) ++ drop (n * ch.io_blksize) buf,
        ic',
        rw (ap (λ (t : ℕ). sync_blocks rb t nocache n g b (filled ch b n g buf) ic) same ∙ e) refl,
        record {
          outcome = inl (refl, refl);
          coherent = other_channel ch ch' ic' d same v';
          same_disk = d;
          same_blksize = same;
          size = size;
        },
      )

  -- One hunk.
  pub io_cache_read_blocks-IsCachedRead :
      (ch : Channel) (ic : IoCache) (b n : ℕ) (buf : List ℕ)
      → IsCoherent ch ic
      → 0 < length ic.icbs
      → b + n ≤ uint64_max
      → b * ch.io_blksize + n * ch.io_blksize < 2 ^ 63
      → n * ch.io_blksize < 2 ^ 31
      → n * ch.io_blksize ≤ length buf
      → (ret : Result (Unit {0})) × (data' : List ℕ) × (ch' : Channel) × (ic' : IoCache)
        × (io_cache_read_blocks rb ch ic b (blocks n) buf nocache ≡ some (ret, data', ch', ic'))
        × IsCachedRead ch ic b n buf ret data' ch' ic'
  unfolding io_cache_read_blocks
  io_cache_read_blocks-IsCachedRead ch ic b n buf v pos small inside fits long =
      let g = count_good ic b n in
      let (le, hits) = count_good-cached (block_of ch.disk ch.io_blksize) nothing_stale ic v n b in
      let counted : IoCache = record ic {
        ic_hits = (ic.ic_hits + g) % 2 ^ 32;
        ic_misses = (ic.ic_misses + (n - g)) % 2 ^ 32;
      } in
      let v₁ : IsCoherent ch counted =
        with_counts (block_of ch.disk ch.io_blksize) nothing_stale ic ((ic.ic_hits + g) % 2 ^ 32)
          ((ic.ic_misses + (n - g)) % 2 ^ 32) v in
      let (ret, out, ch', e, outcome, d, same) = read_missing_lem ch b n g buf le inside fits in
      elim outcome [
        | inr failed ↦ (
          ret,
          out,
          ch',
          counted,
          rw e (rw failed refl),
          record {
            outcome = inr failed;
            coherent = other_channel ch ch' counted d same v₁;
            same_disk = d;
            same_blksize = same;
            size = refl;
          },
        )
        | inl (done, out_is) ↦
            let (data', ic', e', r) =
              sync_read_lem ch ch' b n g buf counted v₁ pos small le long hits d same in
            (
              ok tt,
              data',
              ch',
              ic',
              rw e (rw (done, out_is) e'),
              record {
                outcome = r.outcome;
                coherent = r.coherent;
                same_disk = d;
                same_blksize = same;
                size = r.size;
              },
            )
      ]
