-- ===== src/Bitops/Find/Byte.antt =====
-- What the searches find, and the byte that ends the loop over whole bytes.
use cmfs.Prelude.{
  ℕ, zero, suc, ◌+◌, ◌-◌, ◌/◌, ◌%◌, ◌^◌, ◌<◌, ◌≤◌, min, bit_and, Bool, true, false, ◌&&◌, not, ◌≡◌,
  refl, sym, ◌∙◌, ap, Option, some, List, inl, inr, arith, ltb, ◌==◌, if◌then◌else◌, Bool-cases,
  get_or,
}
use cmfs.Prelude.Bits.{
  has_bit, has_bit-and, has_bit-mask, has_bit-complement, has_bit-beyond, has_bit_ext, bit_and-le,
}
use cmfs.Bitops.{ffs, finish_set, finish_clear, last_mask}
use cmfs.Bitops.Ffs.{IsFfs, ffs-IsFfs}

-- Bit `i` of the bitmap.
abbrev pub bit_at : List ℕ → ℕ → Bool
bit_at addr i = has_bit (get_or addr (i / 8) 0) (i % 8)

abbrev pub IsBytes : List ℕ → Type 0
IsBytes addr = (i : ℕ) → get_or addr i 0 < 2 ^ 8

-- `o` is a normal return of the first bit from `offset` on that has `F`, if one is below `size`,
-- and of a number that is no smaller than `size` if there is none.
pub record Finds (F : ℕ → Bool) (size offset : ℕ) (o : Option ℕ) : Type 0 where
  pub found : ℕ
  pub returns : o ≡ some found
  pub clear : (j : ℕ) → offset ≤ j → j < found → j < size → F j ≡ false
  pub hit : found < size → (offset ≤ found) × (F found ≡ true)

-- The answer for the byte at bit `res`, of which `w` bits are below `size`.
finish-Finds :
    (F : ℕ → Bool) (size res w d : ℕ)
    → res + w ≤ size
    → (w < 8 → res + w ≡ size)
    → (8 ≤ w → (0 < d) × (d ≤ 8))
    → d ≤ w + 1
    → (d ≡ 0 → (k : ℕ) → k < w → F (res + k) ≡ false)
    → ((k : ℕ) → k + 1 < d → k < w → F (res + k) ≡ false)
    → (0 < d → d ≤ w → F (res + (d - 1)) ≡ true)
    → Finds F size res (some (if d == 0 then size else res + d - 1))
finish-Finds F size res w zero inside last full d_le none_set lowest is_set = record {
  found = size;
  returns = refl;
  clear = λ j lo _ hi.
      let e : res + (j - res) ≡ j = omega arith in rw e at (none_set refl (j - res) (grind arith));
  hit = λ h. absurd (omega arith);
}
finish-Finds F size res w (suc d) inside last full d_le none_set lowest is_set = record {
  found = res + d;
  returns = ground arith;
  clear = λ j lo hi _.
      let e : res + (j - res) ≡ j = omega arith in
      rw e at (lowest (j - res) (omega arith) (omega arith));
  hit = λ h.
      let e : suc d - 1 ≡ d = omega arith in
      (omega arith, rw e at (is_set (omega arith) (grind arith)));
}

mask_shift : (m : ℕ) → m < 8 → (2 ^ 8 - 1) / 2 ^ (8 - m) ≡ 2 ^ m - 1
mask_shift zero h = refl
mask_shift (suc zero) h = refl
mask_shift (suc (suc zero)) h = refl
mask_shift (suc (suc (suc zero))) h = refl
mask_shift (suc (suc (suc (suc zero)))) h = refl
mask_shift (suc (suc (suc (suc (suc zero))))) h = refl
mask_shift (suc (suc (suc (suc (suc (suc zero)))))) h = refl
mask_shift (suc (suc (suc (suc (suc (suc (suc zero))))))) h = refl
mask_shift (suc (suc (suc (suc (suc (suc (suc (suc m)))))))) h = absurd (omega arith)

last_mask-eq : (size res : ℕ) → res < size → last_mask size res ≡ 2 ^ min 8 (size - res) - 1
last_mask-eq size res h = elim (Bool-cases (ltb size (res + 8))) [
  | inl short ↦
      let e : min 8 (size - res) ≡ size - res = ground arith in
      rw (short, e) (mask_shift (size - res) (ground arith))
  | inr long ↦ let e : min 8 (size - res) ≡ 8 = ground arith in rw (long, e) refl
]

masked :
    (size res b k : ℕ)
    → res < size
    → has_bit (bit_and b (last_mask size res)) k ≡ has_bit b k && ltb k (min 8 (size - res))
masked size res b k h =
    rw (last_mask-eq size res h) (has_bit-and b _ k ∙ ap (λ t. has_bit b k && t) (has_bit-mask _ k))

byte_has_bit : (b : ℕ) → b < 2 ^ 8 → ((k : ℕ) → k < 8 → has_bit b k ≡ false) → b ≡ 0
byte_has_bit b h e = has_bit_ext 8 b 0 h (omega arith) λ k. elim (Bool-cases (ltb k 8)) [
  | inl lt ↦ e k (ground arith) ∙ sym (has_bit-beyond 0 0 k (omega arith) (omega arith))
  | inr ge ↦
      has_bit-beyond 8 b k h (ground arith) ∙ sym (has_bit-beyond 0 0 k (omega arith) (omega arith))
]

byte_full : (b : ℕ) → b < 2 ^ 8 → ((k : ℕ) → k < 8 → has_bit b k ≡ true) → b ≡ 2 ^ 8 - 1
byte_full b h e = has_bit_ext 8 b (2 ^ 8 - 1) h (omega arith) λ k. elim (Bool-cases (ltb k 8)) [
  | inl lt ↦ e k (ground arith) ∙ sym (has_bit-mask 8 k ∙ lt)
  | inr ge ↦ has_bit-beyond 8 b k h (ground arith) ∙ sym (has_bit-mask 8 k ∙ ge)
]

not-false : {b : Bool} → not b ≡ false → b ≡ true
not-false h = ground arith

module _ (F : ℕ → Bool) (size res : ℕ) (below : res < size) where
  abbrev w : ℕ
  w = min 8 (size - res)

  -- `ffs` on a word whose digits below `w` are those of the byte, which is not skipped.
  byte-Finds :
      (g : ℕ → Bool) (d : ℕ)
      → ((k : ℕ) → k < w → g k ≡ F (res + k))
      → ¬ ((k : ℕ) → k < 8 → F (res + k) ≡ false)
      → IsFfs g 32 d
      → d ≤ w + 1
      → Finds F size res (some (if d == 0 then size else res + d - 1))
  byte-Finds g d e busy r d_le =
      finish-Finds F size res w d (omega arith) (λ h. omega arith) full d_le
        (λ z k h. sym (e k h) ∙ r.none_set z k (omega arith))
        (λ k lt h. sym (e k h) ∙ r.lowest k lt)
        (λ pos le. sym (e (d - 1) (omega arith)) ∙ r.is_set pos)
    where
      some_set : 8 ≤ w → ¬ (d ≡ 0)
      some_set h z = busy λ k lt. sym (e k (omega arith)) ∙ r.none_set z k (omega arith)

      in_byte : 8 ≤ w → ¬ (8 < d)
      in_byte h lt8 = busy λ k lt. sym (e k (omega arith)) ∙ r.lowest k (omega arith)

      full : 8 ≤ w → (0 < d) × (d ≤ 8)
      full h = omega (arith, some_set h, in_byte h)

  module _ (b : ℕ) (byte : b < 2 ^ 8) where
    pub finish_set-Finds :
        (b == 0) ≡ false
        → ((k : ℕ) → k < 8 → F (res + k) ≡ has_bit b k)
        → Finds F size res (some (finish_set size res b))
    unfolding finish_set
    finish_set-Finds ne reads = byte-Finds g d agree busy r (bound d r)
      where
        g : ℕ → Bool
        g k = has_bit b k && ltb k w

        d : ℕ
        d = ffs (bit_and b (last_mask size res))

        r : IsFfs g 32 d
        r = ffs-IsFfs _ g (λ k _. masked size res b k below)

        agree : (k : ℕ) → k < w → g k ≡ F (res + k)
        agree k h = ground (arith, reads k)

        busy : ¬ ((k : ℕ) → k < 8 → F (res + k) ≡ false)
        busy h =
            let z : b ≡ 0 = byte_has_bit b byte (λ k lt. sym (reads k lt) ∙ h k lt) in ground arith

        bound : (d : ℕ) → IsFfs g 32 d → d ≤ w + 1
        bound zero r = omega arith
        bound (suc d) r =
            let e : suc d - 1 ≡ d = omega arith in
            let t : g d ≡ true = rw e at (r.is_set (omega arith)) in ground arith

    pub finish_clear-Finds :
        (b == 2 ^ 8 - 1) ≡ false
        → ((k : ℕ) → k < 8 → F (res + k) ≡ not (has_bit b k))
        → Finds F size res (some (finish_clear size res b))
    unfolding finish_clear
    finish_clear-Finds ne reads = byte-Finds g d agree busy r bound
      where
        m : ℕ
        m = bit_and b (last_mask size res)

        m_small : m < 2 ^ 32
        m_small = omega (arith, bit_and-le b (last_mask size res))

        g : ℕ → Bool
        g k = not (has_bit b k && ltb k w)

        d : ℕ
        d = ffs (2 ^ 32 - 1 - m)

        digits : (k : ℕ) → k < 32 → has_bit (2 ^ 32 - 1 - m) k ≡ g k
        digits k h = has_bit-complement 32 m k m_small ∙ ground (arith, masked size res b k below)

        r : IsFfs g 32 d
        r = ffs-IsFfs _ g digits

        agree : (k : ℕ) → k < w → g k ≡ F (res + k)
        agree k h = ground (arith, reads k)

        busy : ¬ ((k : ℕ) → k < 8 → F (res + k) ≡ false)
        busy h =
            let z : b ≡ 2 ^ 8 - 1 =
              byte_full b byte (λ k lt. not-false (sym (reads k lt) ∙ h k lt)) in
            ground arith

        at_w : g w ≡ true
        at_w = ground arith

        bound : d ≤ w + 1
        bound = ground (arith, r.lowest w, at_w)
