-- ===== src/Io/Cache/Read.antt =====
-- Reading through the cache: what is returned is what is on the disk.
pub mod Hunks
pub mod Whole
use cmfs.Prelude.{
  ℕ, zero, suc, ◌+◌, ◌-◌, ◌*◌, ◌^◌, ◌<◌, ◌≤◌, Bool, true, false, ◌≡◌, ◌≢◌, refl, sym, ◌∙◌, ap, ◌⊎◌,
  inl, inr, arith, Option, none, some, List, [], ◌∷◌, ◌++◌, ltb, ◌==◌, if◌then◌else◌, Bool-cases,
  Option-cases, length, take, drop, length-append, length-take, length-drop,
}
use mathlib.Core.List.{append_assoc}
use cmfs.Prelude.Fault.{◌>>=◌}
use cmfs.Err.{io, Result, ok, err}
use cmfs.Io.Tree.{RbTree}
use cmfs.Io.Device.{Channel, bytes_at, blocks, unix_io_read_block}
use cmfs.Io.Device.Bytes.{length-bytes_at, bytes_at-append}
use cmfs.Io.Device.Read.{unix_io_read_block-IsRead}
use cmfs.Io.Cache.{
  IoCache, uint64_max, count_good, sync_block, sync_blocks, sync_read, read_missing,
  io_cache_read_blocks,
}
use cmfs.Io.Cache.Steps.{cached, IsCache, io_cache_lookup-eq}
use cmfs.Io.Cache.Steps.Fill.{sync_block-hit, sync_block-miss}

-- Block `k` of a disk.
abbrev pub block_of : (ℕ → ℕ) → ℕ → ℕ → List ℕ
block_of d blksize k = bytes_at d (k * blksize) blksize

abbrev pub nothing_stale : ℕ → Bool
nothing_stale k = false

-- The cache holds what is on the disk.
abbrev pub IsCoherent : Channel → IoCache → Type 0
IsCoherent ch ic = IsCache (block_of ch.disk ch.io_blksize) nothing_stale ic

pub take-append : (n : ℕ) (xs ys : List ℕ) → length xs ≡ n → take n (xs ++ ys) ≡ xs
take-append zero [] ys h = refl
take-append zero (x ∷ xs) ys h = absurd (omega arith)
take-append (suc n) [] ys h = absurd (omega arith)
take-append (suc n) (x ∷ xs) ys h = ap (λ t. x ∷ t) (take-append n xs ys (omega arith))

pub drop-append : (n : ℕ) (xs ys : List ℕ) → length xs ≡ n → drop n (xs ++ ys) ≡ ys
drop-append zero [] ys h = refl
drop-append zero (x ∷ xs) ys h = absurd (omega arith)
drop-append (suc n) [] ys h = absurd (omega arith)
drop-append (suc n) (x ∷ xs) ys h = drop-append n xs ys (omega arith)

drop-append_le : (n : ℕ) (xs ys : List ℕ) → n ≤ length xs → drop n (xs ++ ys) ≡ drop n xs ++ ys
drop-append_le zero xs ys h = refl
drop-append_le (suc n) [] ys h = absurd (omega arith)
drop-append_le (suc n) (x ∷ xs) ys h = drop-append_le n xs ys (omega arith)

pub drop-drop : (m n : ℕ) (xs : List ℕ) → drop n (drop m xs) ≡ drop (m + n) xs
drop-drop zero n xs = ap (λ (t : ℕ). drop t xs) (omega arith)
drop-drop (suc m) zero [] = let e : suc m + 0 ≡ suc m = omega arith in rw e refl
drop-drop (suc m) (suc n) [] = let e : suc m + suc n ≡ suc (m + suc n) = omega arith in rw e refl
drop-drop (suc m) n (x ∷ xs) =
    let e : suc m + n ≡ suc (m + n) = omega arith in rw e (drop-drop m n xs)

suc-mul : (n s : ℕ) → suc n * s ≡ s + n * s
suc-mul n s = omega arith

pub add-mul : (m n s : ℕ) → (m + n) * s ≡ m * s + n * s
add-mul zero n s = omega arith
add-mul (suc m) n s =
    let e : suc m + n ≡ suc (m + n) = omega arith in
    rw e (omega (arith, suc-mul (m + n) s, suc-mul m s, add-mul m n s))

-- A run of blocks is its first block and the rest.
run-split :
    (d : ℕ → ℕ) (s b n : ℕ)
    → bytes_at d (b * s) (suc n * s) ≡ block_of d s b ++ bytes_at d ((b + 1) * s) (n * s)
run-split d s b n =
    ap (bytes_at d (b * s)) (suc-mul n s)
    ∙ bytes_at-append d (b * s) s (n * s)
    ∙ ap (λ (t : ℕ). block_of d s b ++ bytes_at d t (n * s)) (omega (arith, add-mul b 1 s))

module _ (rb : RbTree) (d : ℕ → ℕ) (s : ℕ) (nocache : Bool) where
  abbrev Coherent : IoCache → Type 0
  Coherent = IsCache (block_of d s) nothing_stale

  -- The part of the loop that follows the blocks that were cached.
  sync_blocks-miss :
      (n b : ℕ) (ic : IoCache) (tail : List ℕ)
      → Coherent ic
      → 0 < length ic.icbs
      → b + n ≤ uint64_max
      → (ic' : IoCache) × (sync_blocks rb s nocache n 0 b (bytes_at d (b * s) (n * s) ++ tail) ic
          ≡ some (bytes_at d (b * s) (n * s) ++ tail, ic'))
        × Coherent ic'
        × (length ic'.icbs ≡ length ic.icbs)
  unfolding sync_blocks
  sync_blocks-miss zero b ic tail v pos small = (ic, refl, v, refl)
  sync_blocks-miss (suc n) b ic tail v pos small =
      let rest = bytes_at d ((b + 1) * s) (n * s) in
      let split : bytes_at d (b * s) (suc n * s) ++ tail ≡ block_of d s b ++ (rest ++ tail) =
        ap (λ t. t ++ tail) (run-split d s b n) ∙ append_assoc (block_of d s b) rest tail in
      let l = length-bytes_at d (b * s) s in
      let (ic₁, e₁, v₁, size₁) =
        sync_block-miss rb (block_of d s) b nocache ic v (block_of d s b) pos
          (λ z. absurd (omega arith)) refl in
      let (ic₂, e₂, v₂, size₂) =
        sync_blocks-miss n (b + 1) ic₁ tail v₁ (rw size₁ pos) (omega arith) in
      (
        ic₂,
        rw
            (
              split,
              take-append s (block_of d s b) (rest ++ tail) l,
              drop-append s (block_of d s b) (rest ++ tail) l,
              e₁,
              e₂,
            )
            refl,
        v₂,
        size₂ ∙ size₁,
      )

  sync_blocks-step :
      (n g b : ℕ) (bytes out rest : List ℕ) (ic ic₁ ic₂ : IoCache)
      → sync_block rb nocache true b (take s bytes) ic ≡ some (out, ic₁)
      → sync_blocks rb s nocache n g (b + 1) (drop s bytes) ic₁ ≡ some (rest, ic₂)
      → sync_blocks rb s nocache (suc n) (suc g) b bytes ic ≡ some (out ++ rest, ic₂)
  unfolding sync_blocks
  sync_blocks-step n g b bytes out rest ic ic₁ ic₂ first more =
      let pos : ltb 0 (suc g) ≡ true = ground arith in
      let pred : suc g - 1 ≡ g = omega arith in rw (pos, pred, first, more) refl

  -- The whole loop: `g` blocks were cached, and `front` is what the buffer held for them.
  pub sync_blocks-hit :
      (n g m b c : ℕ) (front tail : List ℕ) (ic : IoCache)
      → Coherent ic
      → 0 < length ic.icbs
      → n ≡ g + m
      → c ≡ b + g
      → b + n ≤ uint64_max
      → length front ≡ g * s
      → ((j : ℕ) → j < g → (i : ℕ) × (cached ic (b + j) ≡ some i))
      → (ic' : IoCache) × (sync_blocks rb s nocache n g b
            (front ++ (bytes_at d (c * s) (m * s) ++ tail))
            ic
          ≡ some (bytes_at d (b * s) (n * s) ++ tail, ic'))
        × Coherent ic'
        × (length ic'.icbs ≡ length ic.icbs)
  sync_blocks-hit n zero m b c [] tail ic v pos n_is c_is small l hits =
      let e : m ≡ n = omega arith in
      let e' : c ≡ b = omega arith in rw (e, e') (sync_blocks-miss n b ic tail v pos small)
  sync_blocks-hit n zero m b c (x ∷ front) tail ic v pos n_is c_is small l hits =
      absurd (omega arith)
  sync_blocks-hit zero (suc g) m b c front tail ic v pos n_is c_is small l hits =
      absurd (omega arith)
  sync_blocks-hit (suc n) (suc g) m b c front tail ic v pos n_is c_is small l hits =
      let b_is : b + 0 ≡ b = omega arith in
      let read = bytes_at d (c * s) (m * s) in
      let (i, found) = hits 0 (omega arith) in
      let (ic₁, e₁, v₁, size₁, same) =
        sync_block-hit rb (block_of d s) b nocache ic v (take s (front ++ (read ++ tail))) i
          (rw b_is at found) in
      let (ic₂, e₂, v₂, size₂) =
        sync_blocks-hit n g m (b + 1) c (drop s front) tail ic₁ v₁ (rw size₁ pos) (omega arith)
          (omega arith) (omega arith) (omega (arith, length-drop s front, suc-mul g s))
          (λ j lt.
            let (i', f) = hits (suc j) (omega arith) in
            let at : b + 1 + j ≡ b + suc j = omega arith in
            (i', same (b + 1 + j) ∙ ap (cached ic) at ∙ f)) in
      let dropped = drop-append_le s front (read ++ tail) (omega (arith, suc-mul g s)) in
      let rest = bytes_at d ((b + 1) * s) (n * s) in
      (
        ic₂,
        sync_blocks-step n g b (front ++ (read ++ tail)) (block_of d s b) (rest ++ tail) ic ic₁ ic₂
              e₁ (ap (λ t. sync_blocks rb s nocache n g (b + 1) t ic₁) dropped ∙ e₂)
            ∙ ap (λ t. some (t, ic₂))
                (sym (append_assoc (block_of d s b) rest tail)
                  ∙ ap (λ t. t ++ tail) (sym (run-split d s b n))),
        v₂,
        size₂ ∙ size₁,
      )

-- The blocks that are counted are cached.
pub count_good-cached :
    (F : ℕ → List ℕ) (S : ℕ → Bool) (ic : IoCache)
    → IsCache F S ic
    → (n b : ℕ)
    → (count_good ic b n ≤ n)
      × ((j : ℕ) → j < count_good ic b n → (i : ℕ) × (cached ic (b + j) ≡ some i))
unfolding count_good
count_good-cached F S ic v zero b = (omega arith, λ j h. absurd (omega arith))
count_good-cached F S ic v (suc n) b =
    let l = io_cache_lookup-eq F S ic v b in
    elim (Option-cases (cached ic b)) [
      | inl absent ↦
          let none_good : count_good ic b (suc n) ≡ 0 = rw (l, absent, count_good) refl in
          rw none_good (omega arith, λ j h. absurd (omega arith))
      | inr (i, found) ↦
          let (le, hits) = count_good-cached F S ic v n (b + 1) in
          let one_more : count_good ic b (suc n) ≡ suc (count_good ic (b + 1) n) =
            rw (l, found, count_good) refl in
          rw one_more (omega arith, λ j h. first i found hits j h)
    ]
  where
    first :
        (i : ℕ)
        → cached ic b ≡ some i
        → ((j : ℕ) → j < count_good ic (b + 1) n → (i : ℕ) × (cached ic (b + 1 + j) ≡ some i))
        → (j : ℕ) → j < suc (count_good ic (b + 1) n)
        → (i : ℕ) × (cached ic (b + j) ≡ some i)
    first i found hits zero h = let e : b + 0 ≡ b = omega arith in (i, rw e found)
    first i found hits (suc j) h =
        let (i', f) = hits j (omega arith) in
        let e : b + suc j ≡ b + 1 + j = omega arith in (i', rw e f)

-- A read through the cache succeeds with what is on the disk, or fails with the error of the
-- device; the disk, and what the cache holds of it, are right in both cases.
pub record IsCachedRead (ch : Channel) (ic : IoCache) (b n : ℕ) (buf : List ℕ)
    (ret : Result (Unit {0})) (data' : List ℕ) (ch' : Channel) (ic' : IoCache) : Type 0 where
  pub outcome :
      ((ret ≡ ok tt)
        × (data'
            ≡ bytes_at ch.disk (b * ch.io_blksize) (n * ch.io_blksize)
              ++ drop (n * ch.io_blksize) buf))
      ⊎ (ret ≡ err io)
  pub coherent : IsCoherent ch' ic'
  pub same_disk : ch'.disk ≡ ch.disk
  pub same_blksize : ch'.io_blksize ≡ ch.io_blksize
  pub size : length ic'.icbs ≡ length ic.icbs
