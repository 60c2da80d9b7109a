-- ===== src/Mkfs/Defaults.antt =====
-- The sizes that mkfs works with fit one another: cmfs-tools/mkfs.cmfs/mkfs.c.
use cmfs.Prelude.{
  ℕ, zero, suc, ◌*◌, ◌%◌, ◌^◌, ◌<◌, ◌≤◌, true, false, ◌≡◌, ◌⊎◌, refl, sym, ap, ◌∙◌, inl, inr, arith,
  some, ltb, leb, ◌==◌, if◌then◌else◌, Bool-cases,
}
use cmfs.Prelude.Bits.{has_bit, has_bit-pow}
use native.Mathlib.Nat.{pow-suc, mul_assoc, mul_comm}
use cmfs.Mkfs.Run.{ends}
use cmfs.Mkfs.Sizes.{valid_loop, get_valid_size, bits_loop, get_bits}

-- The answer is `base` times a power of two, and the largest one that is not above `num`.
pub record IsLargest (base num r : ℕ) : Type 0 where
  pub power : ℕ
  pub is_power : r ≡ base * 2 ^ power
  pub below : r ≤ num
  pub largest : num < 2 * r

valid_loop-IsLargest :
    (fuel base num lo hi tmp power : ℕ)
    → tmp ≡ base * 2 ^ power
    → (lo ≡ tmp) ⊎ (lo ≡ tmp * 2)
    → 0 < tmp
    → tmp ≤ num
    → num ≤ hi
    → hi < 2 ^ 63
    → 2 * hi < lo * 2 ^ fuel
    → (r : ℕ) × (valid_loop fuel num lo hi tmp ≡ some r) × IsLargest base num r
unfolding valid_loop
valid_loop-IsLargest zero base num lo hi tmp power e step pos le fits small enough =
    absurd (elim step [ inl a ↦ omega arith | inr b ↦ omega arith ])
valid_loop-IsLargest (suc fuel) base num lo hi tmp power e step pos le fits small enough =
    let (power', e') = next_power step in
    let lo_pos : 0 < lo = elim step [ inl a ↦ omega arith | inr b ↦ omega arith ] in
    elim (Bool-cases (leb lo hi)) [
      | inr over ↦
          let twice : num < 2 * tmp = elim step [ inl a ↦ ground arith | inr b ↦ ground arith ] in
          (tmp, rw over refl, record { power = power; is_power = e; below = le; largest = twice })
      | inl more ↦ elim (Bool-cases (lo == num)) [
        | inl same ↦
            let z : lo ≡ num = ground arith in
            (
              num,
              rw (more, same) refl,
              record {
                power = power';
                is_power = sym z ∙ e';
                below = omega arith;
                largest = omega arith;
              },
            )
        | inr other ↦ elim (Bool-cases (ltb lo num)) [
          | inl low ↦
              let wide : lo * 2 % 2 ^ 64 ≡ lo * 2 = ground arith in
              rw (more, other, low, wide)
                (valid_loop-IsLargest fuel base num (lo * 2) hi lo power' e' (inr refl) lo_pos
                  (ground arith) fits small (omega (arith, pow-suc 2 fuel, double fuel)))
          | inr high ↦
              let twice : num < 2 * tmp = elim step [
                | inl a ↦ ground arith
                | inr b ↦ ground arith
              ] in
              (
                tmp,
                rw (more, other, high) refl,
                record { power = power; is_power = e; below = le; largest = twice },
              )
        ]
      ]
    ]
  where
    next_power : (lo ≡ tmp) ⊎ (lo ≡ tmp * 2) → (p : ℕ) × (lo ≡ base * 2 ^ p)
    next_power (inl a) = (power, a ∙ e)
    next_power (inr b) = (
      suc power,
      b
          ∙ ap (λ t. t * 2) e
          ∙ mul_assoc base (2 ^ power) 2
          ∙ ap (λ t. base * t) (sym (pow-suc 2 power)),
    )

    double : (f : ℕ) → lo * 2 ^ suc f ≡ lo * 2 * 2 ^ f
    double f = ap (λ t. lo * t) (pow-suc 2 f ∙ mul_comm (2 ^ f) 2) ∙ sym (mul_assoc lo 2 (2 ^ f))

-- For a size between the least and the greatest one, which is below 2^63: the loop ends, and the size
-- that is taken is the least one doubled some times, the largest of these that is not above the size
-- that was asked for.
pub get_valid_size-IsLargest :
    (num lo hi : ℕ)
    → 0 < lo
    → lo ≤ num
    → num ≤ hi
    → hi < 2 ^ 63
    → (r : ℕ) × (get_valid_size num lo hi ≡ some r) × IsLargest lo num r
unfolding get_valid_size
get_valid_size-IsLargest num lo hi pos le fits small =
    valid_loop-IsLargest 65 lo num lo hi lo 0 (omega arith) (inl refl) pos le fits small
      (omega arith)

pow_injective : (k i : ℕ) → 2 ^ k ≡ 2 ^ i → (k == i) ≡ true
pow_injective k i e =
    let hit : has_bit (2 ^ i) i ≡ true = has_bit-pow i i ∙ ground arith in
    sym (has_bit-pow k i) ∙ ap (λ t. has_bit t i) e ∙ hit

bits_loop-pow : (i k bits : ℕ) → bits_loop i (2 ^ k) bits ≡ (if ltb k i then k else bits)
unfolding bits_loop
bits_loop-pow zero k bits = ground arith
bits_loop-pow (suc i) k bits = elim (Bool-cases (2 ^ k == 2 ^ i)) [
  | inl same ↦
      let e = pow_injective k i (ground arith) in rw (same, bits_loop-pow i k i) (ground arith)
  | inr other ↦
      let ne : (k == i) ≡ false = elim (Bool-cases (k == i)) [
        | inl same ↦
            let e : k ≡ i = ground arith in
            let p : 2 ^ k ≡ 2 ^ i = ap (λ t. 2 ^ t) e in absurd (ground arith)
        | inr differ ↦ differ
      ] in
      rw (other, bits_loop-pow i k bits) (ground arith)
]

pub get_bits-pow : (k : ℕ) → 0 < k → k < 32 → get_bits (2 ^ k) ≡ ends k
unfolding get_bits
get_bits-pow k pos lt =
    let small : ltb k 32 ≡ true = ground arith in
    let some_bits : (k == 0) ≡ false = ground arith in
    rw (bits_loop-pow 32 k 0, small, some_bits) refl
