-- ===== src/Bitops/Count.antt =====
-- `cmfs_get_bits_set` ends, and counts the set bits of a range.
use cmfs.Prelude.{
  ℕ, zero, suc, ◌+◌, ◌-◌, ◌*◌, ◌<◌, ◌≤◌, Bool, true, false, ◌≡◌, refl, ap, ◌∙◌, some, List, inl,
  inr, arith, ltb, if◌then◌else◌, Bool-cases, length,
}
use cmfs.Bitops.{count_set, get_bits_set}
use cmfs.Bitops.Find.{bit_at, IsBytes, find_next_bit_set-Finds}

-- How many of the `n` numbers from `lo` on have `F`.
abbrev pub count : (ℕ → Bool) → ℕ → ℕ → ℕ
count F lo zero = 0
count F lo (suc n) = (if F lo then 1 else 0) + count F (lo + 1) n

pub count-clear :
    (F : ℕ → Bool) (lo n : ℕ) → ((j : ℕ) → lo ≤ j → j < lo + n → F j ≡ false) → count F lo n ≡ 0
count-clear F lo zero h = refl
count-clear F lo (suc n) h =
    rw (h lo (omega arith) (omega arith))
      (omega (arith, count-clear F (lo + 1) n (λ j a b. h j (omega arith) (omega arith))))

pub count-append :
    (F : ℕ → Bool) (lo a b : ℕ) → count F lo (a + b) ≡ count F lo a + count F (lo + a) b
count-append F lo zero b =
    let e : 0 + b ≡ b = omega arith in
    let e' : lo + 0 ≡ lo = omega arith in rw (e, e') (omega arith)
count-append F lo (suc a) b =
    let e : suc a + b ≡ suc (a + b) = omega arith in
    let e' : lo + suc a ≡ lo + 1 + a = omega arith in
    rw (e, e') (omega (arith, count-append F (lo + 1) a b))

-- The first hit counts one, and leaves what follows it.
count-hit :
    (F : ℕ → Bool) (size offset found : ℕ)
    → offset ≤ found
    → found < size
    → ((j : ℕ) → offset ≤ j → j < found → F j ≡ false)
    → F found ≡ true
    → count F offset (size - offset) ≡ 1 + count F (found + 1) (size - (found + 1))
count-hit F size offset found lo hi clear hit =
    let e : size - offset ≡ (found - offset) + suc (size - (found + 1)) = omega arith in
    let e' : offset + (found - offset) ≡ found = omega arith in
    rw (e, count-append, e', hit)
      (omega (arith, count-clear F offset (found - offset) (λ j a b. clear j a (omega arith))))

module _ (addr : List ℕ) (size : ℕ) (bytes : IsBytes addr) (fits : size ≤ 8 * length addr) where
  count_set-eq :
      (fuel offset acc : ℕ)
      → offset ≤ size
      → size - offset < fuel
      → count_set fuel addr size offset acc
        ≡ some (some (acc + count (bit_at addr) offset (size - offset)))
  unfolding count_set
  count_set-eq zero offset acc inside enough = absurd (omega arith)
  count_set-eq (suc fuel) offset acc inside enough =
      let r = find_next_bit_set-Finds addr size offset bytes fits inside in
      elim (Bool-cases (ltb r.found size)) [
        | inl more ↦
            let lt : r.found < size = ground arith in
            let (lo, hit) = r.hit lt in
            let one =
              count-hit (bit_at addr) size offset r.found lo lt
                (λ j a b. r.clear j a b (omega arith)) hit in
            let rest = count_set-eq fuel (r.found + 1) (acc + 1) (omega arith) (omega arith) in
            rw (r.returns, count_set, more, rest, one) (ap (λ (t : ℕ). some (some t)) (omega arith))
        | inr last ↦
            let none_left =
              count-clear (bit_at addr) offset (size - offset)
                (λ j a b. r.clear j a (ground arith) (omega arith)) in
            rw (r.returns, count_set, last, none_left) (ap (λ (t : ℕ). some (some t)) (omega arith))
      ]

  -- In a bitmap of bytes with at least `size` bits, `cmfs_get_bits_set` ends for every offset of
  -- at most `size`, reads nothing out of range, and counts the set bits from `offset` up to
  -- `size`.
  pub get_bits_set-eq :
      (offset : ℕ)
      → offset ≤ size
      → get_bits_set addr size offset ≡ some (some (count (bit_at addr) offset (size - offset)))
  unfolding get_bits_set
  get_bits_set-eq offset inside =
      count_set-eq (size + 1 - offset) offset 0 inside (omega arith)
      ∙ ap (λ (t : ℕ). some (some t)) (omega arith)
