-- ===== src/Io/Cache/Read/Whole.antt =====
-- `io_cache_read_block`: the hunks put together.
use cmfs.Prelude.{
  ℕ, zero, suc, ◌+◌, ◌-◌, ◌*◌, ◌/◌, ◌^◌, ◌<◌, ◌≤◌, min, Bool, false, ◌≡◌, refl, sym, ◌∙◌, ap, inl,
  inr, arith, some, List, ◌++◌, ◌==◌, Bool-cases, length, take, drop, length-append, length-drop,
}
use mathlib.Core.List.{append_assoc}
use native.Mathlib.Nat.{div-mul-le_self, le-div_iff_mul-le, le-mul_of_pos_right}
use cmfs.Err.{io, Result, ok, err}
use cmfs.Io.Tree.{RbTree}
use cmfs.Io.Device.{Channel, bytes_at, blocks}
use cmfs.Io.Device.Bytes.{length-bytes_at, bytes_at-append}
use cmfs.Io.Cache.{
  IoCache, uint64_max, one_meg_of_blocks, io_cache_read_blocks, read_hunks, io_cache_read_block,
}
use cmfs.Io.Cache.Read.{IsCoherent, take-append, drop-append, drop-drop, add-mul, IsCachedRead}
use cmfs.Io.Cache.Read.Hunks.{mul-sub, io_cache_read_blocks-IsCachedRead}

no_blocks : (d : ℕ → ℕ) (l n : ℕ) (buf : List ℕ) → n ≡ 0 → bytes_at d l n ++ drop n buf ≡ buf
unfolding bytes_at
no_blocks d l zero buf h = refl
no_blocks d l (suc n) buf h = absurd (omega arith)

-- A hunk is a block or more.
one_meg-pos : (s : ℕ) → 0 < s → 0 < (2 ^ 20 + s - 1) / s
one_meg-pos s h = (le-div_iff_mul-le {k = s} {x = 1} {y = 2 ^ 20 + s - 1} h).1 (omega arith)

-- A hunk is less than 2 MB.
one_meg-bound : (s : ℕ) → 0 < s → s ≤ 2 ^ 20 → (2 ^ 20 + s - 1) / s * s < 2 ^ 31
one_meg-bound s h h' = omega (arith, div-mul-le_self (2 ^ 20 + s - 1) s)

module _ (rb : RbTree) (nocache : Bool) where
  hunk_fails :
      (fuel todo : ℕ) (ch ch' : Channel) (ic ic' : IoCache) (b n : ℕ) (buf data' : List ℕ)
      → (n == 0) ≡ false
      → io_cache_read_blocks rb ch ic b (blocks (min todo n)) buf nocache
        ≡ some (err io, data', ch', ic')
      → read_hunks rb (suc fuel) todo ch ic b n buf nocache ≡ some (err io, data', ch', ic')
  unfolding read_hunks
  hunk_fails fuel todo ch ch' ic ic' b n buf data' more e = rw (more, e) refl

  hunk_goes_on :
      (fuel todo : ℕ) (ch ch' ch'' : Channel) (ic ic' ic'' : IoCache) (b n : ℕ)
      (buf data' rest : List ℕ) (ret : Result (Unit {0}))
      → (n == 0) ≡ false
      → io_cache_read_blocks rb ch ic b (blocks (min todo n)) buf nocache
        ≡ some (ok tt, data', ch', ic')
      → read_hunks rb fuel
          (min todo n)
          ch'
          ic'
          (b + min todo n)
          (n - min todo n)
          (drop (min todo n * ch.io_blksize) data')
          nocache
        ≡ some (ret, rest, ch'', ic'')
      → read_hunks rb (suc fuel) todo ch ic b n buf nocache
        ≡ some (ret, take (min todo n * ch.io_blksize) data' ++ rest, ch'', ic'')
  unfolding read_hunks
  hunk_goes_on fuel todo ch ch' ch'' ic ic' ic'' b n buf data' rest ret more e e' =
      rw (more, e, e') refl

  -- Two neighbouring reads are one.
  joined_reads :
      (ch ch' ch'' : Channel) (ic ic' ic'' : IoCache) (b n step : ℕ) (buf data' rest : List ℕ)
      (ret : Result (Unit {0}))
      → step ≤ n
      → data'
        ≡ bytes_at ch.disk (b * ch.io_blksize) (step * ch.io_blksize)
          ++ drop (step * ch.io_blksize) buf
      → ch'.disk ≡ ch.disk
      → ch'.io_blksize ≡ ch.io_blksize
      → length ic'.icbs ≡ length ic.icbs
      → IsCachedRead ch' ic'
          (b + step)
          (n - step)
          (drop (step * ch.io_blksize) data')
          ret
          rest
          ch''
          ic''
      → IsCachedRead ch ic b n buf ret (take (step * ch.io_blksize) data' ++ rest) ch'' ic''
  joined_reads ch ch' ch'' ic ic' ic'' b n step buf data' rest ret le data_is d same size r =
      let s = ch.io_blksize in
      let D = ch.disk in
      let l = length-bytes_at D (b * s) (step * s) in
      let front = bytes_at D (b * s) (step * s) in
      let taken : take (step * s) data' ≡ front =
        ap (take (step * s)) data_is ∙ take-append (step * s) front (drop (step * s) buf) l in
      let dropped : drop (step * s) data' ≡ drop (step * s) buf =
        ap (drop (step * s)) data_is ∙ drop-append (step * s) front (drop (step * s) buf) l in
      let m = mul-sub n step s le in
      record {
        outcome = elim r.outcome [
          | inr failed ↦ inr failed
          | inl (done, rest_is) ↦
              let rest_is' : rest
                  ≡ bytes_at D ((b + step) * s) ((n - step) * s) ++ drop (n * s) buf =
                rest_is
                ∙ ap
                    (λ (t : ℕ).
                      bytes_at ch'.disk ((b + step) * t) ((n - step) * t)
                      ++ drop ((n - step) * t) (drop (step * s) data'))
                    same
                ∙ ap
                    (λ (f : ℕ → ℕ).
                      bytes_at f ((b + step) * s) ((n - step) * s)
                      ++ drop ((n - step) * s) (drop (step * s) data'))
                    d
                ∙ ap (λ t. bytes_at D ((b + step) * s) ((n - step) * s) ++ t)
                    (ap (drop ((n - step) * s)) dropped
                      ∙ drop-drop (step * s) ((n - step) * s) buf
                      ∙ ap (λ (t : ℕ). drop t buf) (sym m)) in
              let run : bytes_at D (b * s) (n * s)
                  ≡ front ++ bytes_at D ((b + step) * s) ((n - step) * s) =
                ap (bytes_at D (b * s)) m
                ∙ bytes_at-append D (b * s) (step * s) ((n - step) * s)
                ∙ ap (λ (t : ℕ). front ++ bytes_at D t ((n - step) * s)) (sym (add-mul b step s)) in
              inl (
                done,
                rw (taken, rest_is', run)
                    (sym (
                      append_assoc front (bytes_at D ((b + step) * s) ((n - step) * s))
                        (drop (n * s) buf))),
              )
        ];
        coherent = r.coherent;
        same_disk = r.same_disk ∙ d;
        same_blksize = r.same_blksize ∙ same;
        size = r.size ∙ size;
      }

  read_hunks_lem :
      (fuel todo : ℕ) (ch : Channel) (ic : IoCache) (b n : ℕ) (buf : List ℕ)
      → IsCoherent ch ic
      → 0 < length ic.icbs
      → b + n ≤ uint64_max
      → b * ch.io_blksize + n * ch.io_blksize < 2 ^ 63
      → n * ch.io_blksize ≤ length buf
      → 0 < todo
      → todo * ch.io_blksize < 2 ^ 31
      → n < fuel
      → (ret : Result (Unit {0})) × (data' : List ℕ) × (ch' : Channel) × (ic' : IoCache)
        × (read_hunks rb fuel todo ch ic b n buf nocache ≡ some (ret, data', ch', ic'))
        × IsCachedRead ch ic b n buf ret data' ch' ic'
  read_hunks_lem zero todo ch ic b n buf v pos small inside long some_todo fits enough =
      absurd (omega arith)
  read_hunks_lem (suc fuel) todo ch ic b n buf v pos small inside long some_todo fits enough =
      elim (Bool-cases (n == 0)) [
        | inl none_left ↦
            let z : n ≡ 0 = ground arith in
            (
              ok tt,
              buf,
              ch,
              ic,
              unfold read_hunks in rw none_left refl,
              record {
                outcome = inl (
                  refl,
                  sym (
                      no_blocks ch.disk (b * ch.io_blksize) (n * ch.io_blksize) buf
                        (rw z (omega arith))),
                );
                coherent = v;
                same_disk = refl;
                same_blksize = refl;
                size = refl;
              },
            )
        | inr more ↦
            let step = min todo n in
            let s = ch.io_blksize in
            let pos_step : 0 < step = ground arith in
            let m = mul-sub n step s (omega arith) in
            let m' = mul-sub todo step s (omega arith) in
            let (ret, data', ch', ic', e, r) =
              io_cache_read_blocks-IsCachedRead rb nocache ch ic b step buf v pos (omega arith)
                (omega (arith, m)) (omega (arith, m')) (omega (arith, m)) in
            elim r.outcome [
              | inr failed ↦ (
                err io,
                data',
                ch',
                ic',
                hunk_fails fuel todo ch ch' ic ic' b n buf data' more (e ∙ rw failed refl),
                record {
                  outcome = inr refl;
                  coherent = r.coherent;
                  same_disk = r.same_disk;
                  same_blksize = r.same_blksize;
                  size = r.size;
                },
              )
              | inl (done, data_is) ↦
                  let l : n * s - step * s ≤ length (drop (step * s) data') = omega (
                    arith,
                    length-drop (step * s) data',
                    ap (λ t. length t) data_is,
                    length-append (bytes_at ch.disk (b * s) (step * s)) (drop (step * s) buf),
                    length-bytes_at ch.disk (b * s) (step * s),
                    length-drop (step * s) buf,
                  ) in
                  let l' : (n - step) * ch'.io_blksize ≤ length (drop (step * s) data') =
                    rw r.same_blksize (omega (arith, m, l)) in
                  let inside' : (b + step) * ch'.io_blksize + (n - step) * ch'.io_blksize < 2 ^ 63 =
                    rw r.same_blksize (omega (arith, m, add-mul b step s)) in
                  let fits' : step * ch'.io_blksize < 2 ^ 31 =
                    rw r.same_blksize (omega (arith, m')) in
                  let (ret', rest, ch'', ic'', e', r') =
                    read_hunks_lem fuel step ch' ic' (b + step) (n - step) (drop (step * s) data')
                      r.coherent (rw r.size pos) (omega arith) inside' l' pos_step fits'
                      (omega arith) in
                  (
                    ret',
                    take (step * s) data' ++ rest,
                    ch'',
                    ic'',
                    hunk_goes_on fuel todo ch ch' ch'' ic ic' ic'' b n buf data' rest ret' more
                        (e ∙ ap (λ t. some (t, data', ch', ic')) done) e',
                    joined_reads ch ch' ch'' ic ic' ic'' b n step buf data' rest ret' (omega arith)
                        data_is r.same_disk r.same_blksize r.size r',
                  )
            ]
      ]

  -- With a coherent cache of a block or more, `io_cache_read_block` of `n` blocks ends without a
  -- failed assertion, and succeeds with the bytes on the disk or fails with `CMFS_ET_IO`. The disk
  -- is unchanged and the cache coherent after both. The blocks end below byte 2^63
  -- of the device, the block size is at most 1 MB, and the buffer holds `n` blocks.
  pub io_cache_read_block-IsCachedRead :
      (ch : Channel) (ic : IoCache) (b n : ℕ) (buf : List ℕ)
      → IsCoherent ch ic
      → 0 < length ic.icbs
      → b * ch.io_blksize + n * ch.io_blksize < 2 ^ 63
      → 0 < ch.io_blksize
      → ch.io_blksize ≤ 2 ^ 20
      → n * ch.io_blksize ≤ length buf
      → (ret : Result (Unit {0})) × (data' : List ℕ) × (ch' : Channel) × (ic' : IoCache)
        × (io_cache_read_block rb ch ic b (blocks n) buf nocache ≡ some (ret, data', ch', ic'))
        × IsCachedRead ch ic b n buf ret data' ch' ic'
  unfolding io_cache_read_block one_meg_of_blocks
  io_cache_read_block-IsCachedRead ch ic b n buf v pos inside some_bytes le long =
      let small : b + n ≤ uint64_max =
        omega (arith, le-mul_of_pos_right b some_bytes, le-mul_of_pos_right n some_bytes) in
      read_hunks_lem (n + 1) (one_meg_of_blocks ch) ch ic b n buf v pos small inside long
        (one_meg-pos ch.io_blksize some_bytes) (one_meg-bound ch.io_blksize some_bytes le)
        (omega arith)
