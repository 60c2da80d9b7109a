-- ===== src/Open/Checks.antt =====
-- The checks on a superblock: openfs.c of cmfs-tools/libcmfs.
use cmfs.Prelude.{
  ℕ, zero, suc, ◌+◌, ◌-◌, ◌*◌, ◌^◌, ◌<◌, ◌≤◌, Bool, true, false, ◌||◌, not, ◌≡◌, ◌≢◌, refl, sym, ap,
  ◌∙◌, arith, Option, some, ltb, leb, ◌==◌, if◌then◌else◌, inl, inr, Bool-cases,
}
use native.Mathlib.Nat.{pow-le-pow_right, pow-suc}
use cmfs.Err.{Result, ok}
use cmfs.Open.{Super, check_super}

-- A superblock at a block number that can be opened.
pub record IsSuper (number : ℕ) (di : Super) : Type 0 where
  pub signature : di.has_signature ≡ true
  pub here : di.i_blkno ≡ number
  pub block : di.s_blocksize_bits ≡ 12
  pub cluster_low : 12 ≤ di.s_clustersize_bits
  pub cluster_high : di.s_clustersize_bits ≤ 25
  pub root : 0 < di.s_root_blkno
  pub system_dir : 0 < di.s_system_dir_blkno

pub check_super-passes :
    (number : ℕ) (di : Super) → IsSuper number di → check_super di number ≡ some (ok tt)
unfolding check_super
check_super-passes number di is =
    let a : (di.s_blocksize_bits == 0) ≡ false = ground (arith, is.block) in
    let b : (di.i_blkno == number) ≡ true = ground (arith, is.here) in
    let c : (ltb di.s_clustersize_bits 12 || ltb 25 di.s_clustersize_bits) ≡ false =
      ground (arith, is.cluster_low, is.cluster_high) in
    let d : ((di.s_root_blkno == 0) || (di.s_system_dir_blkno == 0)) ≡ false =
      ground (arith, is.root, is.system_dir) in
    rw (a, b, c, d, is.block) refl

power_bits : (bits : ℕ) → bits < 31 → 2 ^ bits ≡ 4096 → bits ≡ 12
power_bits bits small e = elim (Bool-cases (ltb bits 12)) [
  | inl low ↦
      let le : bits ≤ 11 = ground arith in
      let pow : 2 ^ bits ≤ 2 ^ 11 = pow-le-pow_right (omega arith) le in absurd (omega arith)
  | inr other ↦ elim (Bool-cases (ltb 12 bits)) [
    | inl high ↦
        let le : 13 ≤ bits = ground arith in
        let pow : 2 ^ 13 ≤ 2 ^ bits = pow-le-pow_right (omega arith) le in absurd (omega arith)
    | inr rest ↦ ground arith
  ]
]

-- A check that was passed.
pub gate :
    {A : Type 0} {a : A} (t : Bool) (stopped rest : Option (Result A))
    → stopped ≢ some (ok a)
    → (if t then stopped else rest) ≡ some (ok a)
    → (t ≡ false) × (rest ≡ some (ok a))
gate true stopped rest stops h = absurd (stops h)
gate false stopped rest stops h = (refl, h)

pub check_super→IsSuper :
    (number : ℕ) (di : Super)
    → di.has_signature ≡ true
    → check_super di number ≡ some (ok tt)
    → IsSuper number di
unfolding check_super
check_super→IsSuper number di signature passed =
    let a = gate (di.s_blocksize_bits == 0) _ _ (λ h. cc) passed in
    let b = gate (not (di.i_blkno == number)) _ _ (λ h. cc) a.1 in
    let c = gate (ltb di.s_clustersize_bits 12 || ltb 25 di.s_clustersize_bits) _ _ (λ h. cc) b.1 in
    let d = gate ((di.s_root_blkno == 0) || (di.s_system_dir_blkno == 0)) _ _ (λ h. cc) c.1 in
    let e = gate (leb 31 di.s_blocksize_bits) _ _ (λ h. cc) d.1 in
    let f = gate (not (2 ^ di.s_blocksize_bits == 4096)) _ _ (λ h. cc) e.1 in
    record {
      signature = signature;
      here = ground (arith, b.0);
      block = power_bits di.s_blocksize_bits (ground (arith, e.0)) (ground (arith, f.0));
      cluster_low = ground (arith, c.0);
      cluster_high = ground (arith, c.0);
      root = ground (arith, d.0);
      system_dir = ground (arith, d.0);
    }

pub block_times : (k : ℕ) → 2 ^ (12 + k) ≡ 4096 * 2 ^ k
block_times zero = refl
block_times (suc k) =
    let e : 12 + suc k ≡ suc (12 + k) = omega arith in
    rw e (omega (arith, pow-suc 2 (12 + k), pow-suc 2 k, block_times k))

pub whole_clusters :
    {number : ℕ} (di : Super)
    → IsSuper number di
    → 2 ^ di.s_clustersize_bits ≡ 4096 * 2 ^ (di.s_clustersize_bits - di.s_blocksize_bits)
whole_clusters di is =
    let e : di.s_clustersize_bits - di.s_blocksize_bits ≡ di.s_clustersize_bits - 12 =
      omega (arith, is.block) in
    let sum : 12 + (di.s_clustersize_bits - 12) ≡ di.s_clustersize_bits =
      omega (arith, is.cluster_low) in
    ap (λ t. 2 ^ t) (sym sum)
    ∙ block_times (di.s_clustersize_bits - 12)
    ∙ ap (λ t. 4096 * 2 ^ t) (sym e)
