-- ===== src/Mkfs/Endings.antt =====
-- The size of the journal and the arithmetic of `fill_defaults`: cmfs-tools/mkfs.cmfs/mkfs.c.
use cmfs.Prelude.{
  ℕ, ◌+◌, ◌*◌, ◌/◌, ◌%◌, ◌^◌, ◌<◌, ◌≤◌, false, not, ◌≡◌, ◌⊎◌, refl, sym, ap, ◌∙◌, inl, inr, arith,
  ltb, leb, ◌==◌, Bool-cases,
}
use cmfs.Prelude.Bits.{has_bit}
use native.Mathlib.Nat.{
  one-le-pow, mul_assoc, mul_comm, div-mul-le_self, lt-div-mul-add, mul-div-mul_right,
}
use cmfs.Open.Checks.{block_times}
use cmfs.Mkfs.Run.{ends}
use cmfs.Mkfs.Sizes.{State, align_bytes_to_clusters_ceil, figure_journal_size}

-- A size is found where no journal is asked for, or one that is smaller than the volume.
pub figure_journal_size-ends :
    (n : ℕ) (s : State)
    → s.blocksize_bits ≡ 12
    → (has_bit s.feature_flags.opt_compat 1 ≡ false)
      ⊎ (n / 2 ^ 12 % 2 ^ 32 < s.volume_size_in_blocks)
    → (journal : ℕ) × (figure_journal_size n s ≡ ends journal)
unfolding figure_journal_size
figure_journal_size-ends n s bits (inl without) = (0, rw without refl)
figure_journal_size-ends n s bits (inr small) =
    elim (Bool-cases (not (has_bit s.feature_flags.opt_compat 1))) [
      | inl without ↦ (0, rw without refl)
      | inr journal ↦ elim (Bool-cases (ltb 0 n)) [
        | inl sized ↦
            let fits : leb s.volume_size_in_blocks (n / 2 ^ 12 % 2 ^ 32) ≡ false = ground arith in
            (align_bytes_to_clusters_ceil s n, rw (journal, sized, bits, fits) refl)
        | inr free ↦ (
          align_bytes_to_clusters_ceil s (32768 * 2 ^ s.blocksize_bits % 2 ^ 32),
          rw (journal, free) refl,
        )
      ]
    ]

-- The arithmetic of the volume.
pub whole_clusters :
    (j blocks : ℕ)
    → blocks < 2 ^ 32
    → 2 ^ j ≤ blocks
    → (blocks * 4096 % 2 ^ 64 / 2 ^ (12 + j) ≡ blocks / 2 ^ j)
      × (blocks / 2 ^ j * 2 ^ (12 + j) % 2 ^ 64 ≡ blocks / 2 ^ j * (4096 * 2 ^ j))
      × (blocks / 2 ^ j * (4096 * 2 ^ j) / 2 ^ 12 ≡ blocks / 2 ^ j * 2 ^ j)
      × (0 < blocks / 2 ^ j)
whole_clusters j blocks small some_clusters =
    let pos : 0 < 2 ^ j = one-le-pow j 2 (omega arith) in
    let size : 2 ^ (12 + j) ≡ 4096 * 2 ^ j = block_times j in
    let bytes : blocks * 4096 % 2 ^ 64 ≡ blocks * 4096 = omega arith in
    let below = div-mul-le_self blocks (2 ^ j) in
    let c : ℕ = blocks / 2 ^ j in
    let order : c * (4096 * 2 ^ j) ≡ c * 2 ^ j * 4096 =
      ap (λ t. c * t) (mul_comm 4096 (2 ^ j)) ∙ sym (mul_assoc c (2 ^ j) 4096) in
    let a : blocks * 4096 / (2 ^ j * 4096) ≡ blocks / 2 ^ j =
      mul-div-mul_right blocks (2 ^ j) (omega arith) in
    let zero_times : 0 * 2 ^ j ≡ 0 = omega arith in
    let above : blocks < c * 2 ^ j + 2 ^ j = lt-div-mul-add pos in
    (
      rw (bytes, size, mul_comm 4096 (2 ^ j)) a,
      rw (size, order) (omega arith),
      rw order (omega arith),
      elim (Bool-cases (c == 0)) [
        | inl empty ↦
            let z : c ≡ 0 = ground arith in
            let nothing : c * 2 ^ j ≡ 0 = ap (λ t. t * 2 ^ j) z ∙ zero_times in absurd (omega arith)
        | inr more ↦ ground arith
      ],
    )
