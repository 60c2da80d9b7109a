-- ===== src/Extents/Groups.antt =====
-- `cmfs_calc_cluster_groups` of cmfs-tools/include/cmfs/cmfs.h: how clusters are divided into groups.
use cmfs.Prelude.{
  ℕ, zero, suc, ◌+◌, ◌-◌, ◌*◌, ◌/◌, ◌%◌, ◌^◌, ◌<◌, ◌≤◌, true, false, ◌≡◌, refl, inl, inr, arith,
  Option, none, some, ltb, ◌==◌, if◌then◌else◌, Bool-cases,
}
use native.Mathlib.Nat.{div-add-mod', div-eq_of_lt-le, mod-lt}

-- `struct cmfs_cluster_group_sizes`.
pub record ClusterGroupSizes : Type 0 where
  pub cgs_cpg : ℕ
  pub cgs_tail_group_bits : ℕ
  pub cgs_cluster_groups : ℕ

-- `cmfs_group_bitmap_size`: the bitmap starts 64 bytes into a group descriptor. A negative `int`
-- becomes a `uint32_t` here.
unfoldable pub group_bits : ℕ → ℕ
group_bits blocksize = 8 * ((blocksize + 2 ^ 32 - 64) % 2 ^ 32) % 2 ^ 32

-- What follows the choice of `cgs_cpg`.
abbrev pub sizes : ℕ → ℕ → ClusterGroupSizes
sizes clusters cpg = record {
  cgs_cpg = cpg;
  cgs_tail_group_bits = if clusters % cpg == 0 then cpg else clusters % cpg;
  cgs_cluster_groups = (clusters + cpg - 1) % 2 ^ 64 / cpg % 2 ^ 32;
}

-- A division by 0 is `none`.
unfoldable pub calc_cluster_groups : ℕ → ℕ → Option ClusterGroupSizes
unfolding group_bits
calc_cluster_groups clusters blocksize =
    let max_bits = group_bits blocksize in
    let cpg = (if ltb clusters max_bits then clusters else max_bits) % 2 ^ 16 in
    if cpg == 0 then none else some (sizes clusters cpg)

add-mul-one : (q n : ℕ) → (q + 1) * n ≡ q * n + n
add-mul-one zero n = omega arith
add-mul-one (suc q) n = omega arith

-- A number divided into full groups and a last one that is not empty.
divided :
    (c n : ℕ)
    → 0 < n
    → 0 < c
    → (q : ℕ) × ((c + n - 1) / n ≡ q + 1) × (q * n + (if c % n == 0 then n else c % n) ≡ c)
divided c n pos some_bits =
    let parts = div-add-mod' c n in
    let r_lt = mod-lt c pos in
    elim (Bool-cases (c % n == 0)) [
      | inr part ↦
          let q = c / n in
          (
            q,
            div-eq_of_lt-le {k = q + 1} n {m = c + n - 1}
                (omega (arith, parts, add-mul-one q n, nonzero (c % n) part))
                (omega (arith, parts, add-mul-one q n, add-mul-one (q + 1) n, r_lt)),
            rw part parts,
          )
      | inl whole ↦
          let z : c % n ≡ 0 = ground arith in split (c / n) (omega (arith, parts, z)) whole
    ]
  where
    nonzero : (x : ℕ) → (x == 0) ≡ false → 0 < x
    nonzero x h = ground arith

    split :
        (q : ℕ)
        → q * n ≡ c
        → (c % n == 0) ≡ true
        → (q' : ℕ) × ((c + n - 1) / n ≡ q' + 1) × (q' * n + (if c % n == 0 then n else c % n) ≡ c)
    split zero e whole = absurd (omega arith)
    split (suc q) e whole =
        let s : suc q * n ≡ q * n + n = omega arith in
        (
          q,
          div-eq_of_lt-le {k = q + 1} n {m = c + n - 1} (omega (arith, s, e, add-mul-one q n))
              (omega (arith, s, e, add-mul-one q n, add-mul-one (q + 1) n)),
          rw whole (omega (arith, s, e)),
        )

le_mul : (q n : ℕ) → 0 < n → q ≤ q * n
le_mul zero n h = omega arith
le_mul (suc q) n h = omega (arith, le_mul q n h)

sizes-divide :
    (c n : ℕ)
    → 0 < n
    → n < 2 ^ 16
    → 0 < c
    → c < 2 ^ 32
    → (((sizes c n).cgs_cluster_groups - 1) * n + (sizes c n).cgs_tail_group_bits ≡ c)
      × (0 < (sizes c n).cgs_tail_group_bits)
      × ((sizes c n).cgs_tail_group_bits ≤ n)
sizes-divide c n pos small some_bits few =
    let (q, groups, sum) = divided c n pos some_bits in
    let wide : (c + n - 1) % 2 ^ 64 ≡ c + n - 1 = omega arith in
    let r_lt = mod-lt c pos in
    let tail : 0 < (if c % n == 0 then n else c % n) = ground arith in
    let fits : (q + 1) % 2 ^ 32 ≡ q + 1 = omega (arith, le_mul q n pos, sum, tail) in
    let pred : q + 1 - 1 ≡ q = omega arith in
    (rw (wide, groups, fits, pred) sum, tail, ground (arith, r_lt))

pub calc_cluster_groups-divides :
    (clusters blocksize : ℕ)
    → 72 ≤ blocksize
    → blocksize ≤ 8000
    → 0 < clusters
    → clusters < 2 ^ 32
    → (s : ClusterGroupSizes) × (calc_cluster_groups clusters blocksize ≡ some s)
      × ((s.cgs_cluster_groups - 1) * s.cgs_cpg + s.cgs_tail_group_bits ≡ clusters)
      × (0 < s.cgs_tail_group_bits)
      × (s.cgs_tail_group_bits ≤ s.cgs_cpg)
      × (s.cgs_cpg ≤ 8 * (blocksize - 64))
unfolding calc_cluster_groups group_bits
calc_cluster_groups-divides clusters blocksize low high some_clusters few =
    let max_bits = 8 * ((blocksize + 2 ^ 32 - 64) % 2 ^ 32) % 2 ^ 32 in
    let bits : max_bits ≡ 8 * (blocksize - 64) = omega arith in
    let n = (if ltb clusters max_bits then clusters else max_bits) % 2 ^ 16 in
    let pos : 0 < n = ground (arith, bits) in
    let le : n ≤ 8 * (blocksize - 64) = ground (arith, bits) in
    let pos' : (n == 0) ≡ false = ground arith in
    let (sum, tail, tail_le) = sizes-divide clusters n pos (omega arith) some_clusters few in
    (sizes clusters n, rw pos' refl, sum, tail, tail_le, le)
