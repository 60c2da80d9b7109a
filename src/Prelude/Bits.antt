-- ===== src/Prelude/Bits.antt =====
-- Binary digits of the native numbers: `has_bit n k` reads digit `k`, and the laws say what the
-- native `&`, `|`, a complement at a fixed width, a power of two and a low mask do to it.
use Prim.Native.Nat.{
  ℕ, zero, suc, ◌+◌, ◌-◌, ◌*◌, ◌/◌, ◌%◌, ◌^◌, ◌≤◌, ◌<◌, min, max, bit_and, bit_or, digits,
  bit_and-bitwise, bit_or-bitwise,
}
use mathlib.Core.Path.{◌≡◌, refl, sym, ap, ◌∙◌}
use mathlib.Core.Bool.{Bool, true, false, ◌&&◌, ◌||◌, not, false≢true}
use native.Mathlib.Decide.{ℕ_discrete}
use native.Mathlib.Omega.{arith}
use native.Mathlib.Nat.{
  pow-suc, one-le-pow, mod-lt, mod-add-div, add-mul-mod_self_left, mod-eq_of_lt,
}
use cmfs.Prelude.Tests.{◌==◌, ltb}

unfoldable pub has_bit : ℕ → ℕ → Bool
has_bit n zero = n % 2 == 1
has_bit n (suc k) = has_bit (n / 2) k

-- The digit recursion that the native operations stand for does not depend on its fuel.
module _ (z : ℕ → ℕ) (f : ℕ → ℕ → ℕ) where
  digits_enough : (n m a b : ℕ) → a ≤ n → a ≤ m → digits z f n a b ≡ digits z f m a b
  digits_enough zero zero zero b p q = refl
  digits_enough zero (suc m) zero b p q = refl
  digits_enough (suc n) zero zero b p q = refl
  digits_enough (suc n) (suc m) zero b p q = refl
  digits_enough zero m (suc a) b p q = absurd (omega arith)
  digits_enough (suc n) zero (suc a) b p q = absurd (omega arith)
  digits_enough (suc n) (suc m) (suc a) b p q =
      omega (arith, digits_enough n m (suc a / 2) (b / 2) (omega arith) (omega arith))

bit_and_halves : (a b : ℕ) → bit_and a b ≡ bit_and (a / 2) (b / 2) * 2 + min (a % 2) (b % 2)
bit_and_halves zero b = omega (arith, bit_and-bitwise 0 b, bit_and-bitwise 0 (b / 2))
bit_and_halves (suc a) b = omega (
  arith,
  bit_and-bitwise (suc a) b,
  bit_and-bitwise (suc a / 2) (b / 2),
  digits_enough (λ y. zero) min a (suc a / 2) (suc a / 2) (b / 2) (omega arith) (omega arith),
)

bit_or_halves : (a b : ℕ) → bit_or a b ≡ bit_or (a / 2) (b / 2) * 2 + max (a % 2) (b % 2)
bit_or_halves zero b = omega (arith, bit_or-bitwise 0 b, bit_or-bitwise 0 (b / 2))
bit_or_halves (suc a) b = omega (
  arith,
  bit_or-bitwise (suc a) b,
  bit_or-bitwise (suc a / 2) (b / 2),
  digits_enough (λ y. y) max a (suc a / 2) (suc a / 2) (b / 2) (omega arith) (omega arith),
)

half_double : (a b : ℕ) → b ≤ 1 → (a * 2 + b) / 2 ≡ a
half_double a b h = omega arith

pub has_bit-and : (a b k : ℕ) → has_bit (bit_and a b) k ≡ has_bit a k && has_bit b k
unfolding has_bit
has_bit-and a b zero = ground (arith, bit_and_halves a b)
has_bit-and a b (suc k) =
    let e : bit_and a b / 2 ≡ bit_and (a / 2) (b / 2) = omega (arith, bit_and_halves a b) in
    rw e (has_bit-and (a / 2) (b / 2) k)

pub has_bit-or : (a b k : ℕ) → has_bit (bit_or a b) k ≡ has_bit a k || has_bit b k
unfolding has_bit
has_bit-or a b zero = ground (arith, bit_or_halves a b)
has_bit-or a b (suc k) =
    let e : bit_or a b / 2 ≡ bit_or (a / 2) (b / 2) = omega (arith, bit_or_halves a b) in
    rw e (has_bit-or (a / 2) (b / 2) k)

pub has_bit-zero : (k : ℕ) → has_bit 0 k ≡ false
unfolding has_bit
has_bit-zero zero = refl
has_bit-zero (suc k) = has_bit-zero k

pub has_bit-pow : (i j : ℕ) → has_bit (2 ^ i) j ≡ (i == j)
unfolding has_bit
has_bit-pow zero zero = refl
has_bit-pow zero (suc j) = rw (has_bit-zero j) (ground arith)
has_bit-pow (suc i) zero = ground (arith, pow-suc 2 i)
has_bit-pow (suc i) (suc j) =
    let e : 2 ^ suc i / 2 ≡ 2 ^ i = omega (arith, pow-suc 2 i) in
    rw e (has_bit-pow i j ∙ ground arith)

-- The digits of `2 ^ w - 1 - x`, the complement at width `w`.
pub has_bit-complement :
    (w x k : ℕ) → x < 2 ^ w → has_bit (2 ^ w - 1 - x) k ≡ ltb k w && not (has_bit x k)
unfolding has_bit
has_bit-complement zero x k h =
    let e : 2 ^ 0 - 1 - x ≡ 0 = omega arith in rw (e, has_bit-zero k) (ground arith)
has_bit-complement (suc w) x zero h = ground (arith, pow-suc 2 w, one-le-pow w 2)
has_bit-complement (suc w) x (suc k) h =
    let e : (2 ^ suc w - 1 - x) / 2 ≡ 2 ^ w - 1 - x / 2 = omega (arith, pow-suc 2 w) in
    rw e (has_bit-complement w (x / 2) k (omega (arith, pow-suc 2 w)) ∙ ground arith)

-- The digits of the low mask `2 ^ w - 1`.
pub has_bit-mask : (w k : ℕ) → has_bit (2 ^ w - 1) k ≡ ltb k w
has_bit-mask w k =
    ground (arith, has_bit-complement w 0 k (one-le-pow w 2 (omega arith)), has_bit-zero k)

pub has_bit-beyond : (w x k : ℕ) → x < 2 ^ w → w ≤ k → has_bit x k ≡ false
unfolding has_bit
has_bit-beyond zero x k h le = let e : x ≡ 0 = omega arith in rw e (has_bit-zero k)
has_bit-beyond (suc w) x zero h le = absurd (omega arith)
has_bit-beyond (suc w) x (suc k) h le =
    has_bit-beyond w (x / 2) k (omega (arith, pow-suc 2 w)) (omega arith)

-- Numbers below `2 ^ w` with the same digits are equal.
pub has_bit_ext :
    (w x y : ℕ) → x < 2 ^ w → y < 2 ^ w → ((k : ℕ) → has_bit x k ≡ has_bit y k) → x ≡ y
unfolding has_bit
has_bit_ext zero x y hx hy h = omega arith
has_bit_ext (suc w) x y hx hy h =
    let rest : x / 2 ≡ y / 2 =
      has_bit_ext w (x / 2) (y / 2) (omega (arith, pow-suc 2 w)) (omega (arith, pow-suc 2 w))
        (λ k. h (suc k)) in
    ground (arith, h 0)

pub bit_or-lt : (w a b : ℕ) → a < 2 ^ w → b < 2 ^ w → bit_or a b < 2 ^ w
bit_or-lt zero a b h k =
    let e : a ≡ 0 = omega arith in let e' : b ≡ 0 = omega arith in rw (e, e') (omega arith)
bit_or-lt (suc w) a b h k = omega (
  arith,
  pow-suc 2 w,
  bit_or_halves a b,
  bit_or-lt w (a / 2) (b / 2) (omega (arith, pow-suc 2 w)) (omega (arith, pow-suc 2 w)),
)

bit_and-le_fuel : (n a b : ℕ) → a ≤ n → bit_and a b ≤ a
bit_and-le_fuel n zero b h = omega (arith, bit_and-bitwise 0 b)
bit_and-le_fuel zero (suc a) b h = absurd (omega arith)
bit_and-le_fuel (suc n) (suc a) b h =
    omega (arith, bit_and_halves (suc a) b, bit_and-le_fuel n (suc a / 2) (b / 2) (omega arith))

pub bit_and-le : (a b : ℕ) → bit_and a b ≤ a
bit_and-le a b = bit_and-le_fuel a a b (omega arith)

bit_or-zero_fuel : (n a : ℕ) → a ≤ n → bit_or a 0 ≡ a
bit_or-zero_fuel n zero h = omega (arith, bit_or-bitwise 0 0)
bit_or-zero_fuel zero (suc a) h = absurd (omega arith)
bit_or-zero_fuel (suc n) (suc a) h =
    omega (arith, bit_or_halves (suc a) 0, bit_or-zero_fuel n (suc a / 2) (omega arith))

pub bit_or-zero : (a : ℕ) → bit_or a 0 ≡ a
bit_or-zero a = bit_or-zero_fuel a a (omega arith)

bit_and-zero_fuel : (n a : ℕ) → a ≤ n → bit_and a 0 ≡ 0
bit_and-zero_fuel n zero h = omega (arith, bit_and-bitwise 0 0)
bit_and-zero_fuel zero (suc a) h = absurd (omega arith)
bit_and-zero_fuel (suc n) (suc a) h =
    omega (arith, bit_and_halves (suc a) 0, bit_and-zero_fuel n (suc a / 2) (omega arith))

pub bit_and-zero : (a : ℕ) → bit_and a 0 ≡ 0
bit_and-zero a = bit_and-zero_fuel a a (omega arith)

bit_and-le_right_fuel : (n a b : ℕ) → a ≤ n → bit_and a b ≤ b
bit_and-le_right_fuel n zero b h = omega (arith, bit_and-bitwise 0 b)
bit_and-le_right_fuel zero (suc a) b h = absurd (omega arith)
bit_and-le_right_fuel (suc n) (suc a) b h =
    omega
      (arith, bit_and_halves (suc a) b, bit_and-le_right_fuel n (suc a / 2) (b / 2) (omega arith))

pub bit_and-le_right : (a b : ℕ) → bit_and a b ≤ b
bit_and-le_right a b = bit_and-le_right_fuel a a b (omega arith)

-- The low digits are the remainder.
pub bit_and-mask : (w a : ℕ) → bit_and a (2 ^ w - 1) ≡ a % 2 ^ w
bit_and-mask zero a = omega (arith, bit_and-le_right a 0)
bit_and-mask (suc w) a =
    let m : ℕ = 2 ^ w in
    let low : ℕ = a / 2 % m * 2 + a % 2 in
    let double : 2 ^ suc w ≡ m * 2 = pow-suc 2 w in
    let some_m : 0 < m = one-le-pow w 2 (omega arith) in
    let small : a / 2 % m < m = mod-lt (a / 2) some_m in
    let high : low + m * 2 * (a / 2 / m) ≡ a = grind (arith, mod-add-div (a / 2) m) in
    let half : (m * 2 - 1) / 2 ≡ m - 1 = omega arith in
    let rest : a % (m * 2) ≡ low =
      ap (λ t. t % (m * 2)) (sym high)
      ∙ add-mul-mod_self_left low (m * 2) (a / 2 / m)
      ∙ mod-eq_of_lt (omega arith) in
    rw (double, rest, bit_and_halves a (m * 2 - 1), half, bit_and-mask w (a / 2)) (omega arith)

digit_eq : (b k j : ℕ) → (k == j) ≡ true → has_bit b j ≡ has_bit b k
digit_eq b k j e = let e' : k ≡ j = ground arith in rw e'

-- The test of one bit.
module _ (b k : ℕ) where
  pow_test_clear : has_bit b k ≡ false → bit_and b (2 ^ k) ≡ 0
  pow_test_clear clear =
      has_bit_ext (suc k) _ 0
        (omega (arith, bit_and-le_right b (2 ^ k), pow-suc 2 k, one-le-pow k 2 (omega arith)))
        (omega (arith, pow-suc 2 k, one-le-pow k 2 (omega arith)))
        (λ j.
          has_bit-and b (2 ^ k) j ∙ ground (arith, has_bit-pow k j, has_bit-zero j, digit_eq b k j))

  pow_test_set : has_bit b k ≡ true → (bit_and b (2 ^ k) == 0) ≡ false
  pow_test_set is_set =
      let one : has_bit (bit_and b (2 ^ k)) k ≡ true =
        has_bit-and b (2 ^ k) k ∙ ground (arith, has_bit-pow k k) in
      elim (ℕ_discrete (bit_and b (2 ^ k)) 0) [
        | yes z ↦ absurd (false≢true (sym (has_bit-zero k) ∙ rw z at one))
        | no n ↦ ground arith
      ]

  pub bit_and_pow_test : (bit_and b (2 ^ k) == 0) ≡ not (has_bit b k)
  bit_and_pow_test = ground (arith, pow_test_clear, pow_test_set)
