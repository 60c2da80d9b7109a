-- ===== src/Extents/Units.antt =====
-- The conversions between bytes, blocks and clusters.
use cmfs.Prelude.{
  ℕ, ◌+◌, ◌-◌, ◌*◌, ◌/◌, ◌%◌, ◌^◌, ◌<◌, ◌≤◌, min, ◌≡◌, ◌↔◌, refl, arith, inl, inr, ltb, Bool-cases,
}
use native.Mathlib.Nat.{le-div_iff_mul-le}
use cmfs.Extents.{Fs, clusters_to_blocks, clusters_in_bytes}

clusters_to_blocks-mod :
    (fs : Fs) (clusters : ℕ)
    → clusters < 2 ^ 32
    → clusters_to_blocks fs clusters
      ≡ clusters * 2 ^ (fs.s_clustersize_bits - fs.s_blocksize_bits) % 2 ^ 32
unfolding clusters_to_blocks
clusters_to_blocks-mod fs clusters h =
    let e : clusters % 2 ^ 32 ≡ clusters = omega arith in rw e refl

-- `cmfs_clusters_to_blocks` gives the number of blocks exactly when that number fits 32 bits,
-- although it returns 64.
pub clusters_to_blocks_iff :
    (fs : Fs) (clusters : ℕ)
    → clusters < 2 ^ 32
    → (clusters_to_blocks fs clusters
        ≡ clusters * 2 ^ (fs.s_clustersize_bits - fs.s_blocksize_bits))
      ↔ (clusters * 2 ^ (fs.s_clustersize_bits - fs.s_blocksize_bits) < 2 ^ 32)
clusters_to_blocks_iff fs clusters h =
    let m = clusters_to_blocks-mod fs clusters h in
    (λ e. omega (arith, m, e), λ lt. omega (arith, m))

-- `cmfs_clusters_in_bytes` rounds up and stops at the largest 32-bit number, also where its sum
-- wraps round, for clusters of at most 32 MB.
pub clusters_in_bytes-eq :
    (fs : Fs) (bytes : ℕ)
    → fs.fs_clustersize ≡ 2 ^ fs.s_clustersize_bits
    → 0 < fs.fs_clustersize
    → fs.fs_clustersize ≤ 2 ^ 25
    → bytes < 2 ^ 64
    → clusters_in_bytes fs bytes
      ≡ min ((bytes + fs.fs_clustersize - 1) / fs.fs_clustersize) (2 ^ 32 - 1)
unfolding clusters_in_bytes
clusters_in_bytes-eq fs bytes size pos small fits =
    let s = fs.fs_clustersize in
    elim (Bool-cases (ltb ((bytes + s - 1) % 2 ^ 64) bytes)) [
      | inr no_wrap ↦
          let e : (bytes + s - 1) % 2 ^ 64 ≡ bytes + s - 1 = ground arith in
          rw (← size, no_wrap, e) (ground arith)
      | inl wraps ↦
          let high : 2 ^ 32 - 1 ≤ (2 ^ 64 - 1) / s =
            (le-div_iff_mul-le {k = s} {x = 2 ^ 32 - 1} {y = 2 ^ 64 - 1} pos).1 (omega arith) in
          let high' : 2 ^ 32 - 1 ≤ (bytes + s - 1) / s =
            (le-div_iff_mul-le {k = s} {x = 2 ^ 32 - 1} {y = bytes + s - 1} pos).1 (ground arith) in
          rw (← size, wraps) (ground (arith, high, high'))
    ]
