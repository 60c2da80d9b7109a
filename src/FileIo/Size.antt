-- ===== src/FileIo/Size.antt =====
-- The numbers of a read, in bytes and in blocks: fileio.c of cmfs-tools/libcmfs.
use cmfs.Prelude.{
  ℕ, ◌+◌, ◌-◌, ◌*◌, ◌/◌, ◌%◌, ◌^◌, ◌<◌, ◌≤◌, bit_and, true, ◌≡◌, sym, ap, ◌∙◌, arith, ◌==◌,
}
use cmfs.Prelude.Bits.{bit_and-mask}
use native.Mathlib.Nat.{add-mul, mul-le-mul_right, div-mul-le_self, lt-div-mul-add, div-add-mod'}

-- The blocks of a file of `size` bytes.
abbrev pub blocks_in : ℕ → ℕ → ℕ
blocks_in size blocksize = (size + blocksize - 1) / blocksize

whole_blocks : (n m : ℕ) → n % m ≡ 0 → n / m * m ≡ n
whole_blocks n m whole = omega (arith, div-add-mod' n m)

pub aligned_test : (bits m n : ℕ) → m ≡ 2 ^ bits → n % m ≡ 0 → (bit_and n (m - 1) == 0) ≡ true
aligned_test bits m n size whole =
    let e : bit_and n (m - 1) ≡ n % m = rw size (bit_and-mask bits n) in ground arith

-- The blocks that a read is about, in bytes.
module _ (size offset count m : ℕ) (some_m : 0 < m) (offset_whole : offset % m ≡ 0)
    (count_whole : count % m ≡ 0) where
  -- The blocks of a file end at or after its last byte, less than a block after it.
  pub blocks_end : (size ≤ blocks_in size m * m) × (blocks_in size m * m + 1 ≤ size + m)
  blocks_end =
      let above : size + m - 1 < blocks_in size m * m + m = lt-div-mul-add some_m in
      let below = div-mul-le_self (size + m - 1) m in (omega arith, omega arith)

  pub below-blocks : offset / m < blocks_in size m → offset < size
  below-blocks lt = omega (
    arith,
    blocks_end,
    mul-le-mul_right m lt,
    add-mul 1 (offset / m) m,
    whole_blocks offset m offset_whole,
  )

  pub beyond-blocks : blocks_in size m ≤ offset / m → size ≤ offset
  beyond-blocks le =
      omega (arith, blocks_end.0, mul-le-mul_right m le, whole_blocks offset m offset_whole)

  -- The blocks that are read end before the file's last one, or with it.
  pub cut_blocks :
      blocks_in size m < offset / m + count / m
      → offset / m ≤ blocks_in size m
      → (size ≤ offset + count)
        × ((blocks_in size m - offset / m) * m + offset ≡ blocks_in size m * m)
        × ((blocks_in size m - offset / m) * m ≤ count)
  cut_blocks lt le =
      let all : blocks_in size m * m ≤ (offset / m + count / m) * m =
        mul-le-mul_right m (omega arith) in
      let sum : (offset / m + count / m) * m ≡ offset + count = omega (
        arith,
        add-mul (offset / m) (count / m) m,
        whole_blocks offset m offset_whole,
        whole_blocks count m count_whole,
      ) in
      let rest : (blocks_in size m - offset / m) * m + offset / m * m ≡ blocks_in size m * m =
        sym (add-mul (blocks_in size m - offset / m) (offset / m) m)
        ∙ ap (λ t. t * m) (omega arith) in
      let here = whole_blocks offset m offset_whole in
      let top = blocks_end.0 in (omega arith, omega arith, omega arith)

  pub all_blocks :
      offset / m + count / m ≤ blocks_in size m
      → (count / m * m ≡ count) × (offset + count ≤ blocks_in size m * m)
  all_blocks le = (
    whole_blocks count m count_whole,
    omega (
      arith,
      mul-le-mul_right m le,
      add-mul (offset / m) (count / m) m,
      whole_blocks offset m offset_whole,
      whole_blocks count m count_whole,
    ),
  )
