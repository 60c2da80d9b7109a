-- ===== src/Feature/Merge.antt =====
-- Sets of features as sets of bits: what may be set and cleared together, and what
-- `cmfs_merge_feature_with_default_flags` computes.
use cmfs.Prelude.{
  ℕ, ◌-◌, ◌^◌, ◌<◌, bit_and, bit_or, Bool, true, false, not, ◌&&◌, ◌||◌, ◌≡◌, sym, ◌∙◌, inl, inr,
  arith, ◌==◌, if◌then◌else◌, Bool-cases,
}
use cmfs.Prelude.Bits.{
  has_bit, has_bit-and, has_bit-or, has_bit-zero, has_bit-complement, has_bit-beyond, has_bit_ext,
  bit_or-lt, bit_and-le, has_bit-pow, bit_or-zero, bit_and-zero,
}
use cmfs.Err.{ok, err, conflicting_features}
use cmfs.Feature.{
  FsOptions, compat_only, mkfs_features_default, merge_features, feature_match, feature_clear_deps,
  check_feature_flags, merge_feature_with_default_flags, without_bits,
}

-- Three `uint32_t`.
abbrev pub IsOptions : FsOptions → Type 0
IsOptions a = (a.opt_compat < 2 ^ 32) × (a.opt_incompat < 2 ^ 32) × (a.opt_ro_compat < 2 ^ 32)

abbrev Apart : ℕ → ℕ → Type 0
Apart a b = (k : ℕ) → has_bit a k && has_bit b k ≡ false

-- No feature is in both sets.
abbrev pub Disjoint : FsOptions → FsOptions → Type 0
Disjoint a b =
    Apart a.opt_compat b.opt_compat
    × Apart a.opt_incompat b.opt_incompat
    × Apart a.opt_ro_compat b.opt_ro_compat

and_zero→Apart : (a b : ℕ) → (bit_and a b == 0) ≡ true → Apart a b
and_zero→Apart a b h k =
    let z : bit_and a b ≡ 0 = ground arith in sym (has_bit-and a b k) ∙ rw z (has_bit-zero k)

-- A test of `check_feature_flags`, on one of the three words.
abbrev clash : ℕ → ℕ → Bool
clash a b = not (b == 0) && not (bit_and a b == 0)

clash→Apart : (a b : ℕ) → clash a b ≡ false → Apart a b
clash→Apart a b h = elim (Bool-cases (b == 0)) [
  | inl z ↦ let e : b ≡ 0 = ground arith in λ k. rw (e, has_bit-zero k) (ground arith)
  | inr n ↦ and_zero→Apart a b (ground arith)
]

Apart→clash : (a b : ℕ) → a < 2 ^ 32 → Apart a b → clash a b ≡ false
Apart→clash a b h apart =
    let z : bit_and a b ≡ 0 =
      has_bit_ext 32 _ 0 (omega (arith, bit_and-le a b)) (omega arith)
        (λ k. has_bit-and a b k ∙ apart k ∙ sym (has_bit-zero k)) in
    rw z (ground arith)

pub check_feature_flags→Disjoint : (a b : FsOptions) → check_feature_flags a b ≡ true → Disjoint a b
unfolding check_feature_flags
check_feature_flags→Disjoint a b h =
    (clash→Apart _ _ (ground arith), clash→Apart _ _ (ground arith), clash→Apart _ _ (ground arith))

-- For a set of 32-bit words the check passes exactly when no feature is in it and in the other.
pub check_feature_flags_iff :
    (a b : FsOptions)
    → IsOptions a
    → (check_feature_flags a b ≡ true → Disjoint a b)
      × (Disjoint a b → check_feature_flags a b ≡ true)
unfolding check_feature_flags
check_feature_flags_iff a b small = (
  check_feature_flags→Disjoint a b,
  λ h. ground (
    arith,
    Apart→clash a.opt_compat b.opt_compat small.0 h.0,
    Apart→clash a.opt_incompat b.opt_incompat small.1 h.1,
    Apart→clash a.opt_ro_compat b.opt_ro_compat small.2 h.2,
  ),
)

same_digit : (a i k : ℕ) → (i == k) ≡ true → has_bit a k ≡ has_bit a i
same_digit a i k e = let e' : i ≡ k = ground arith in rw e'

-- Setting a bit that a word has does not change it.
absorb :
    (a i : ℕ)
    → a < 2 ^ 32
    → 2 ^ i < 2 ^ 32
    → (bit_and a (2 ^ i) == 0) ≡ false
    → bit_or a (2 ^ i) ≡ a
absorb a i h small hit = elim (Bool-cases (has_bit a i)) [
  | inl there ↦
      has_bit_ext 32 _ a (bit_or-lt 32 a (2 ^ i) h small) h
        (λ k. has_bit-or a (2 ^ i) k ∙ ground (arith, has_bit-pow i k, same_digit a i k))
  | inr absent ↦
      let z : bit_and a (2 ^ i) ≡ 0 =
        has_bit_ext 32 _ 0 (omega (arith, bit_and-le a (2 ^ i))) (omega arith) (λ k.
          has_bit-and a (2 ^ i) k
          ∙ ground (arith, has_bit-pow i k, has_bit-zero k, same_digit a i k)) in
      absurd (ground arith)
]

-- A round of `cmfs_feature_clear_deps`, for a feature that has bit `i` of the first word alone.
clear_dep :
    (a : FsOptions) (i : ℕ)
    → IsOptions a
    → 2 ^ i < 2 ^ 32
    → (if feature_match a (compat_only (2 ^ i)) then merge_features a (compat_only (2 ^ i)) else a)
      ≡ a
unfolding feature_match merge_features
clear_dep a i small fits = ground (
  arith,
  absorb a.opt_compat i small.0 fits,
  bit_and-zero a.opt_incompat,
  bit_and-zero a.opt_ro_compat,
  bit_or-zero a.opt_incompat,
  bit_or-zero a.opt_ro_compat,
)

-- No supported feature depends on another, so the dependants of a set of 32-bit words are the set
-- itself.
pub feature_clear_deps-eq : (a : FsOptions) → IsOptions a → feature_clear_deps a ≡ a
unfolding feature_clear_deps
feature_clear_deps-eq a small =
    rw (clear_dep a 0 small (omega arith)) (clear_dep a 1 small (omega arith))

abbrev Kept : ℕ → ℕ → ℕ → ℕ → Type 0
Kept default set cleared dest =
    (k : ℕ) → has_bit dest k ≡ (has_bit default k || has_bit set k) && not (has_bit cleared k)

-- `dest` has the default features and those of `set`, without those of `cleared`.
pub record IsMerge (set cleared dest : FsOptions) : Type 0 where
  pub compat :
      Kept mkfs_features_default.opt_compat set.opt_compat cleared.opt_compat dest.opt_compat
  pub incompat : Kept 0 set.opt_incompat cleared.opt_incompat dest.opt_incompat
  pub ro_compat : Kept 0 set.opt_ro_compat cleared.opt_ro_compat dest.opt_ro_compat

without_bits-Kept :
    (default set cleared : ℕ)
    → default < 2 ^ 32
    → set < 2 ^ 32
    → cleared < 2 ^ 32
    → Kept default set cleared (without_bits (bit_or default set) cleared)
without_bits-Kept default set cleared hd hs hc k =
    has_bit-and (bit_or default set) (2 ^ 32 - 1 - cleared) k
    ∙ ground (
      arith,
      has_bit-or default set k,
      has_bit-complement 32 cleared k hc,
      has_bit-beyond 32 default k hd,
      has_bit-beyond 32 set k hs,
    )

module _ (set reverse : FsOptions) (small : IsOptions set) (small' : IsOptions reverse) where
  -- Sets of 32-bit words with a feature in common are refused.
  pub merge_conflict :
      ¬ Disjoint set reverse
      → merge_feature_with_default_flags set reverse ≡ err conflicting_features
  unfolding merge_feature_with_default_flags
  merge_conflict h = elim (Bool-cases (check_feature_flags set reverse)) [
    | inl passes ↦ absurd (h ((check_feature_flags_iff set reverse small).0 passes))
    | inr fails ↦ rw (feature_clear_deps-eq reverse small', fails)
  ]

  -- Sets of 32-bit words with no feature in common are merged with the defaults, bit by bit.
  pub merge_feature_with_default_flags-IsMerge :
      Disjoint set reverse
      → (dest : FsOptions) × (merge_feature_with_default_flags set reverse ≡ ok (dest, reverse))
        × IsMerge set reverse dest
  unfolding merge_feature_with_default_flags merge_features
  merge_feature_with_default_flags-IsMerge h = (
    _,
    rw (feature_clear_deps-eq reverse small', (check_feature_flags_iff set reverse small).1 h),
    record {
      compat = without_bits-Kept _ _ _ (omega arith) small.0 small'.0;
      incompat = without_bits-Kept _ _ _ (omega arith) small.1 small'.1;
      ro_compat = without_bits-Kept _ _ _ (omega arith) small.2 small'.2;
    },
  )
