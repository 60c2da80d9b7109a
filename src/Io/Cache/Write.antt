-- ===== src/Io/Cache/Write.antt =====
-- Writing through the cache: what the disk and the cache hold afterwards.
pub mod Torn
use cmfs.Prelude.{
  ℕ, zero, suc, ◌+◌, ◌-◌, ◌*◌, ◌/◌, ◌%◌, ◌^◌, ◌<◌, ◌≤◌, Bool, true, false, not, ◌&&◌, ◌≡◌, refl,
  sym, ◌∙◌, ap, ◌⊎◌, inl, inr, arith, Option, none, some, List, [], ◌++◌, ltb, leb, ◌==◌,
  if◌then◌else◌, Bool-cases, length, get_or, take, drop, length-drop,
}
use cmfs.Prelude.Fault.{◌>>=◌}
use native.Mathlib.Nat.{
  div-add-mod', div-le_self, div-mul-le_self, le-div_iff_mul-le, le-mul_of_pos_right, mod-lt,
}
use cmfs.Err.{io, Result, ok, err}
use cmfs.Io.Tree.{RbTree}
use cmfs.Io.Device.{Channel, bytes_at, store, Count, blocks, size_of, unix_io_write_block_full}
use cmfs.Io.Device.Bytes.{bytes_at-cong, bytes_at-get, store-inside, store-outside, get_or-drop}
use cmfs.Io.Device.Write.{IsWrite, unix_io_write_block_full-IsWrite}
use cmfs.Io.Cache.{IoCache, uint64_max, update_block, update_blocks, io_cache_write_blocks}
use cmfs.Io.Cache.Steps.{IsCache}
use cmfs.Io.Cache.Steps.Fill.{weaken, update_block-IsCache}
use cmfs.Io.Cache.Read.{block_of, nothing_stale, IsCoherent, add-mul, drop-drop}
use cmfs.Io.Cache.Read.Hunks.{mul-sub}

abbrev pub in_range : ℕ → ℕ → ℕ → Bool
in_range lo hi k = leb lo k && ltb k hi

module _ (rb : RbTree) (F : ℕ → List ℕ) (s hi : ℕ) (nocache : Bool) where
  -- Block numbers stop being stale one after the other.
  pub update_blocks-IsCache :
      (n b : ℕ) (bytes : List ℕ) (ic : IoCache)
      → IsCache F (in_range b hi) ic
      → 0 < length ic.icbs
      → b + n ≤ uint64_max
      → ((j : ℕ) → j < n → take s (drop (j * s) bytes) ≡ F (b + j))
      → (ic' : IoCache) × (update_blocks rb s nocache n b bytes ic ≡ some ic')
        × IsCache F (in_range (b + n) hi) ic'
        × (length ic'.icbs ≡ length ic.icbs)
  unfolding update_blocks
  update_blocks-IsCache zero b bytes ic v pos small h =
      let e : b + 0 ≡ b = omega arith in (ic, refl, rw e v, refl)
  update_blocks-IsCache (suc n) b bytes ic v pos small h =
      let z : 0 * s ≡ 0 = omega arith in
      let e : b + 0 ≡ b = omega arith in
      let first : take s bytes ≡ F b = rw (z, e) at (h 0 (omega arith)) in
      let (ic₁, e₁, v₁, size₁) =
        update_block-IsCache rb F (in_range (b + 1) hi) (in_range b hi) b (λ j n s. ground arith)
          nocache ic (take s bytes) v pos (λ z. absurd (omega arith)) first in
      let (ic₂, e₂, v₂, size₂) =
        update_blocks-IsCache n (b + 1) (drop s bytes) ic₁ v₁ (rw size₁ pos) (omega arith) (λ j lt.
          let at : b + 1 + j ≡ b + suc j = omega arith in
          let m : s + j * s ≡ suc j * s = omega arith in
          rw at (
            ap (take s) (drop-drop s (j * s) bytes ∙ ap (λ (t : ℕ). drop t bytes) m)
            ∙ h (suc j) (omega arith))) in
      let e' : b + 1 + n ≡ b + suc n = omega arith in (ic₂, rw e₁ e₂, rw e' at v₂, size₂ ∙ size₁)

-- The block that `tot` bytes from block `b` on end inside, if they do.
abbrev pub torn : ℕ → ℕ → ℕ → ℕ → Bool
torn s b tot k = not (tot % s == 0) && (k == b + tot / s)

-- The end of the blocks that `tot` bytes from block `b` on change.
abbrev end_of : ℕ → ℕ → ℕ → ℕ
end_of s b tot = b + tot / s + (if tot % s == 0 then 0 else 1)

mul_mono : (m n s : ℕ) → m ≤ n → m * s ≤ n * s
mul_mono m n s h = omega (arith, mul-sub n m s h)

module _ (s b tot : ℕ) (some_bytes : 0 < s) where
  parts : tot ≡ tot / s * s + tot % s
  parts = sym (div-add-mod' tot s)

  -- A block out of that range has no changed byte.
  outside :
      (k : ℕ) → in_range b (end_of s b tot) k ≡ false → (k * s + s ≤ b * s) ⊎ (b * s + tot ≤ k * s)
  outside k h = elim (Bool-cases (ltb k b)) [
    | inl lt ↦ inl (omega (arith, add-mul k 1 s, mul_mono (k + 1) b s (ground arith)))
    | inr ge ↦ inr (elim (Bool-cases (tot % s == 0)) [
      | inl whole ↦
          let z : tot % s ≡ 0 = ground arith in
          omega (arith, parts, z, add-mul b (tot / s) s, mul_mono (b + tot / s) k s (ground arith))
      | inr part ↦ omega (
        arith,
        parts,
        mod-lt tot some_bytes,
        add-mul b (tot / s + 1) s,
        add-mul (tot / s) 1 s,
        mul_mono (b + (tot / s + 1)) k s (ground arith),
      )
    ])
  ]

  module _ (d d' : ℕ → ℕ) (buf : List ℕ) (long : tot ≤ length buf)
      (written : (a : ℕ) → d' a ≡ store d (b * s) (take tot buf) a) where
    same_block : (k : ℕ) → in_range b (end_of s b tot) k ≡ false → block_of d s k ≡ block_of d' s k
    same_block k out = bytes_at-cong d d' (k * s) s λ a lo hi.
        sym (written a ∙ store-outside d (b * s) tot buf a long (ground (arith, outside k out)))

    new_block : (j : ℕ) → j < tot / s → take s (drop (j * s) buf) ≡ block_of d' s (b + j)
    new_block j lt =
        let room : j * s + s ≤ tot =
          omega (arith, parts, add-mul j 1 s, mul_mono (j + 1) (tot / s) s (omega arith)) in
        let start = add-mul b j s in
        sym (
          bytes_at-get d' ((b + j) * s) s (drop (j * s) buf)
            (λ i i_lt.
              written ((b + j) * s + i)
              ∙ store-inside d (b * s) tot buf ((b + j) * s + i) long (omega arith) (omega arith)
              ∙ ap (λ (t : ℕ). get_or buf t 0) (omega arith)
              ∙ sym (get_or-drop (j * s) buf i))
            (omega (arith, length-drop (j * s) buf)))

-- What a write through the cache leaves. The cache is coherent but for the block that a failed
-- write ended inside, if there is one.
pub record IsCachedWrite (ch : Channel) (ic : IoCache) (b size : ℕ) (buf : List ℕ)
    (ret : Result (Unit {0})) (ch' : Channel) (ic' : IoCache) : Type 0 where
  pub tot : ℕ
  pub contents : (a : ℕ) → ch'.disk a ≡ store ch.disk (b * ch.io_blksize) (take tot buf) a
  pub outcome : ((ret ≡ ok tt) × (tot ≡ size)) ⊎ ((ret ≡ err io) × (tot < size))
  pub valid : IsCache (block_of ch'.disk ch.io_blksize) (torn ch.io_blksize b tot) ic'
  pub same_blksize : ch'.io_blksize ≡ ch.io_blksize
  pub number : length ic'.icbs ≡ length ic.icbs

div_mono : (m n s : ℕ) → 0 < s → m ≤ n → m / s ≤ n / s
div_mono m n s pos h =
    (le-div_iff_mul-le {k = s} {x = m / s} {y = n} pos).1 (omega (arith, div-mul-le_self m s))

torn_only :
    (s b tot k : ℕ) → torn s b tot k ≡ false → in_range (b + tot / s) (end_of s b tot) k ≡ false
torn_only s b tot k h = elim (Bool-cases (tot % s == 0)) [
  | inl whole ↦ rw whole (ground arith)
  | inr part ↦ rw part (ground (arith, rw part at h))
]

-- With a coherent cache of a block or more, `io_cache_write_blocks` ends without a failed
-- assertion; it writes all of the buffer, or fails with `CMFS_ET_IO` after the first `tot` bytes.
-- The cache then holds what is on the disk, but for a block that is written in part. The range
-- ends below byte 2^63 of the device, the size fits an `int` and the buffer holds it.
pub io_cache_write_blocks-IsCachedWrite :
    (rb : RbTree) (nocache : Bool) (ch : Channel) (ic : IoCache) (b : ℕ) (count : Count)
    (buf : List ℕ) (size : ℕ)
    → IsCoherent ch ic
    → 0 < length ic.icbs
    → 0 < ch.io_blksize
    → size_of ch.io_blksize count ≡ some size
    → size ≤ length buf
    → b * ch.io_blksize + size < 2 ^ 63
    → (ret : Result (Unit {0})) × (ch' : Channel) × (ic' : IoCache) × (io_cache_write_blocks rb ch
          ic b count buf nocache
        ≡ some (ret, ch', ic'))
      × IsCachedWrite ch ic b size buf ret ch' ic'
unfolding io_cache_write_blocks
io_cache_write_blocks-IsCachedWrite rb nocache ch ic b count buf size v pos some_bytes size_is long
      inside =
    let s = ch.io_blksize in
    let small : b + size / s ≤ uint64_max =
      omega (arith, le-mul_of_pos_right b some_bytes, div-le_self size s) in
    let (ret, completed, ch', e, w) =
      unix_io_write_block_full-IsWrite ch b count buf size size_is inside long in
    let le : w.tot ≤ size = ground (arith, w.outcome) in
    let hi = end_of s b w.tot in
    let v₁ : IsCache (block_of ch'.disk s) (in_range b hi) ic = record {
      sorted = v.sorted;
      listed = v.listed;
      linked = v.linked;
      lru = v.lru;
      fresh = λ k i f out.
          v.fresh k i f refl
          ∙ same_block s b w.tot some_bytes ch.disk ch'.disk buf (omega arith) w.contents k out;
    } in
    let (ic', e', v₂, number) =
      update_blocks-IsCache rb (block_of ch'.disk s) s hi nocache (w.tot / s) b buf ic v₁ pos
        (omega (arith, div_mono w.tot size s some_bytes le))
        (new_block s b w.tot some_bytes ch.disk ch'.disk buf (omega arith) w.contents) in
    (
      ret,
      ch',
      ic',
      rw (e, w.blocks_done, e') refl,
      record {
        tot = w.tot;
        contents = w.contents;
        outcome = w.outcome;
        valid =
            weaken (block_of ch'.disk s) (torn s b w.tot) (in_range (b + w.tot / s) hi) ic' v₂
              (λ k i f. torn_only s b w.tot k);
        same_blksize = w.same_blksize;
        number = number;
      },
    )
