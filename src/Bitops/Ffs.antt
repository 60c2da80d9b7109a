-- ===== src/Bitops/Ffs.antt =====
-- `ffs` by digits, and what it finds in a masked byte.
use cmfs.Prelude.{
  ℕ, zero, suc, ◌+◌, ◌-◌, ◌/◌, ◌%◌, ◌<◌, ◌≤◌, Bool, true, false, ◌≡◌, refl, sym, ◌∙◌, inl, inr,
  arith, ◌==◌, if◌then◌else◌, Bool-cases,
}
use cmfs.Prelude.Bits.{has_bit}
use cmfs.Bitops.{ffs_from, ffs}

-- `d` is the answer of `ffs` on a word whose digits are `f`: no digit below it is set, it has no
-- digit below `w` to find if it is 0, and else it is one more than a set digit's number.
pub record IsFfs (f : ℕ → Bool) (w d : ℕ) : Type 0 where
  pub none_set : d ≡ 0 → (k : ℕ) → k < w → f k ≡ false
  pub lowest : (k : ℕ) → k + 1 < d → f k ≡ false
  pub is_set : 0 < d → f (d - 1) ≡ true
  pub small : d ≤ w

IsFfs-zero : (n : ℕ) → IsFfs (has_bit n) 0 0
IsFfs-zero n = record {
  none_set = λ _ k h. absurd (omega arith);
  lowest = λ k h. absurd (omega arith);
  is_set = λ h. absurd (omega arith);
  small = omega arith;
}

IsFfs-one : (n w : ℕ) → has_bit n 0 ≡ true → IsFfs (has_bit n) (suc w) 1
IsFfs-one n w e = record {
  none_set = λ h. absurd (omega arith);
  lowest = λ k h. absurd (omega arith);
  is_set = λ _. e;
  small = omega arith;
}

IsFfs-miss :
    (n w : ℕ) → has_bit n 0 ≡ false → IsFfs (has_bit (n / 2)) w 0 → IsFfs (has_bit n) (suc w) 0
IsFfs-miss n w e r = record {
  none_set = none_set;
  lowest = λ k h. absurd (omega arith);
  is_set = λ h. absurd (omega arith);
  small = omega arith;
}
  where
    none_set : ◌≡◌ {A = ℕ} 0 0 → (k : ℕ) → k < suc w → has_bit n k ≡ false
    none_set h zero lt = e
    none_set h (suc k) lt = unfold has_bit in r.none_set refl k (omega arith)

IsFfs-later :
    (n w d : ℕ)
    → has_bit n 0 ≡ false
    → IsFfs (has_bit (n / 2)) w (suc d)
    → IsFfs (has_bit n) (suc w) (suc (suc d))
IsFfs-later n w d e r = record {
  none_set = λ h. absurd (omega arith);
  lowest = lowest;
  is_set = λ _. is_set;
  small = omega (arith, r.small);
}
  where
    lowest : (k : ℕ) → k + 1 < suc (suc d) → has_bit n k ≡ false
    lowest zero lt = e
    lowest (suc k) lt = unfold has_bit in r.lowest k (omega arith)

    is_set : has_bit n (suc (suc d) - 1) ≡ true
    is_set =
        let a : suc (suc d) - 1 ≡ suc d = omega arith in
        let b : suc d - 1 ≡ d = omega arith in
        rw a (unfold has_bit in (rw b at (r.is_set (omega arith))))

pub ffs_from-IsFfs : (w n : ℕ) → IsFfs (has_bit n) w (ffs_from w n)
unfolding ffs_from
ffs_from-IsFfs zero n = IsFfs-zero n
ffs_from-IsFfs (suc w) n = elim (Bool-cases (n % 2 == 1)) [
  | inl odd ↦ rw odd (IsFfs-one n w (unfold has_bit in odd))
  | inr even ↦
      rw even (later (ffs_from w (n / 2)) (ffs_from-IsFfs w (n / 2)) (unfold has_bit in even))
]
  where
    later :
        (d : ℕ)
        → IsFfs (has_bit (n / 2)) w d
        → has_bit n 0 ≡ false
        → IsFfs (has_bit n) (suc w) (if d == 0 then 0 else d + 1)
    later zero r e = IsFfs-miss n w e r
    later (suc d) r e =
        let a : (suc d == 0) ≡ false = ground arith in
        let b : suc d + 1 ≡ suc (suc d) = omega arith in rw (a, b) (IsFfs-later n w d e r)

-- `ffs` of a byte under a mask: only the digits below `w` count.
IsFfs-congr : (f g : ℕ → Bool) (w d : ℕ) → ((k : ℕ) → k < w → f k ≡ g k) → IsFfs f w d → IsFfs g w d
IsFfs-congr f g w d e r = record {
  none_set = λ z k h. sym (e k h) ∙ r.none_set z k h;
  lowest = λ k h. sym (e k (omega (arith, r.small))) ∙ r.lowest k h;
  is_set = λ h. sym (e (d - 1) (omega (arith, r.small))) ∙ r.is_set h;
  small = r.small;
}

pub ffs-IsFfs : (n : ℕ) (g : ℕ → Bool) → ((k : ℕ) → k < 32 → has_bit n k ≡ g k) → IsFfs g 32 (ffs n)
unfolding ffs
ffs-IsFfs n g e = IsFfs-congr (has_bit n) g 32 (ffs_from 32 n) e (ffs_from-IsFfs 32 n)
