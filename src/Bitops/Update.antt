-- ===== src/Bitops/Update.antt =====
-- `cmfs_set_bit`, `cmfs_clear_bit` and `cmfs_test_bit` as operations on the bits of a bitmap.
use cmfs.Prelude.{
  ℕ, zero, suc, ◌-◌, ◌*◌, ◌/◌, ◌%◌, ◌^◌, ◌<◌, ◌≤◌, bit_and, bit_or, Bool, true, false, not, ◌≡◌,
  refl, ◌∙◌, some, none, List, [], ◌∷◌, inl, inr, arith, ◌==◌, if◌then◌else◌, Bool-cases, length,
  get_or, get_elem?, set, length-set, get_elem?-get_or,
}
use cmfs.Prelude.Bits.{
  has_bit, has_bit-and, has_bit-or, has_bit-pow, has_bit-complement, has_bit-zero, has_bit_ext,
  bit_and-le, bit_or-lt,
}
use cmfs.Bitops.{set_bit, clear_bit, test_bit}
use cmfs.Bitops.Find.{bit_at, IsBytes}

-- `addr'` is `addr` with bit `nr` made `v`, and no other bit changed.
pub record IsUpdate (nr : ℕ) (v : Bool) (addr addr' : List ℕ) : Type 0 where
  pub same_length : length addr' ≡ length addr
  pub bytes : IsBytes addr'
  pub reads : (i : ℕ) → bit_at addr' i ≡ (if i == nr then v else bit_at addr i)

get_elem?-eq-none : (xs : List ℕ) (i : ℕ) → length xs ≤ i → get_elem? xs i ≡ none
get_elem?-eq-none [] i h = refl
get_elem?-eq-none (x ∷ xs) zero h = absurd (omega arith)
get_elem?-eq-none (x ∷ xs) (suc i) h = get_elem?-eq-none xs i (omega arith)

pub get_or-set :
    (xs : List ℕ) (i j v : ℕ)
    → i < length xs
    → get_or (set xs i v) j 0 ≡ (if j == i then v else get_or xs j 0)
get_or-set [] i j v h = absurd (omega arith)
get_or-set (x ∷ xs) zero zero v h = refl
get_or-set (x ∷ xs) zero (suc j) v h = ground arith
get_or-set (x ∷ xs) (suc i) zero v h = ground arith
get_or-set (x ∷ xs) (suc i) (suc j) v h = get_or-set xs i j v (omega arith) ∙ ground arith

pow-small : (k : ℕ) → k < 8 → 2 ^ k < 2 ^ 8
pow-small zero h = omega arith
pow-small (suc zero) h = omega arith
pow-small (suc (suc zero)) h = omega arith
pow-small (suc (suc (suc zero))) h = omega arith
pow-small (suc (suc (suc (suc zero)))) h = omega arith
pow-small (suc (suc (suc (suc (suc zero))))) h = omega arith
pow-small (suc (suc (suc (suc (suc (suc zero)))))) h = omega arith
pow-small (suc (suc (suc (suc (suc (suc (suc zero))))))) h = omega arith
pow-small (suc (suc (suc (suc (suc (suc (suc (suc n)))))))) h = absurd (omega arith)

-- The test `(mask & *ADDR) != 0`.
mask_test : (b k : ℕ) → k < 8 → not (bit_and (2 ^ k) b == 0) ≡ has_bit b k
mask_test b k h = elim (Bool-cases (has_bit b k)) [
  | inr clear ↦
      let z : bit_and (2 ^ k) b ≡ 0 =
        has_bit_ext 8 _ 0 (omega (arith, bit_and-le (2 ^ k) b, pow-small k h)) (omega arith)
          (λ j. has_bit-and (2 ^ k) b j ∙ ground (arith, has_bit-pow k j, has_bit-zero j)) in
      rw (z, clear) refl
  | inl is_set ↦ elim (Bool-cases (bit_and (2 ^ k) b == 0)) [
    | inr ne ↦ rw (ne, is_set) refl
    | inl z ↦
        let e : bit_and (2 ^ k) b ≡ 0 = ground arith in
        let c : has_bit (bit_and (2 ^ k) b) k ≡ true =
          has_bit-and (2 ^ k) b k ∙ ground (arith, has_bit-pow k k) in
        absurd (ground (arith, has_bit-zero k, rw e at c))
  ]
]

module _ (addr : List ℕ) (nr : ℕ) (bytes : IsBytes addr) (inside : nr < 8 * length addr) where
  abbrev b : ℕ
  b = get_or addr (nr / 8) 0

  read : get_elem? addr (nr / 8) ≡ some b
  read = get_elem?-get_or addr (nr / 8) 0 (omega arith)

  -- A new byte for the one that holds bit `nr`.
  write-IsUpdate :
      (b' : ℕ) (v : Bool)
      → b' < 2 ^ 8
      → ((k : ℕ) → k < 8 → has_bit b' k ≡ (if k == nr % 8 then v else has_bit b k))
      → IsUpdate nr v addr (set addr (nr / 8) b')
  write-IsUpdate b' v small digits = record {
    same_length = length-set addr (nr / 8) b';
    bytes = λ i. rw (get_or-set addr (nr / 8) i b' (omega arith)) (ground (arith, bytes i));
    reads = λ i. elim (Bool-cases (i / 8 == nr / 8)) [
      | inl same ↦
          let e : i / 8 ≡ nr / 8 = ground arith in
          rw (get_or-set addr (nr / 8) (i / 8) b' (omega arith), same)
            (digits (i % 8) (omega arith) ∙ rw e (ground arith))
      | inr other ↦ rw (get_or-set addr (nr / 8) (i / 8) b' (omega arith), other) (ground arith)
    ];
  }

  -- `cmfs_test_bit` reads the bit.
  pub test_bit-eq : test_bit nr addr ≡ some (bit_at addr nr)
  unfolding test_bit
  test_bit-eq = rw (read, mask_test b (nr % 8) (omega arith))

  -- For a bit inside a buffer of bytes `cmfs_set_bit` returns the bit that was there, sets it,
  -- and changes no other bit.
  pub set_bit-IsUpdate :
      (addr' : List ℕ) × (set_bit nr addr ≡ some (bit_at addr nr, addr'))
      × IsUpdate nr true addr addr'
  unfolding set_bit
  set_bit-IsUpdate = (
    set addr (nr / 8) (bit_or b (2 ^ (nr % 8))),
    rw (read, mask_test b (nr % 8) (omega arith)),
    write-IsUpdate _ true (bit_or-lt 8 b _ (bytes (nr / 8)) (pow-small (nr % 8) (omega arith)))
        (λ k h. has_bit-or b _ k ∙ ground (arith, has_bit-pow (nr % 8) k)),
  )

  -- For a bit inside a buffer of bytes `cmfs_clear_bit` returns the bit that was there, clears
  -- it, and changes no other bit.
  pub clear_bit-IsUpdate :
      (addr' : List ℕ) × (clear_bit nr addr ≡ some (bit_at addr nr, addr'))
      × IsUpdate nr false addr addr'
  unfolding clear_bit
  clear_bit-IsUpdate = (
    set addr (nr / 8) (bit_and b (2 ^ 8 - 1 - 2 ^ (nr % 8))),
    rw (read, mask_test b (nr % 8) (omega arith)),
    write-IsUpdate _ false (omega (arith, bit_and-le b (2 ^ 8 - 1 - 2 ^ (nr % 8)), bytes (nr / 8)))
        (λ k h.
          has_bit-and b _ k
          ∙ ground (
            arith,
            has_bit-complement 8 (2 ^ (nr % 8)) k (pow-small (nr % 8) (omega arith)),
            has_bit-pow (nr % 8) k,
          )),
  )

-- A bit outside the buffer is a fault in all three.
pub bit_faults :
    (addr : List ℕ) (nr : ℕ)
    → 8 * length addr ≤ nr
    → (set_bit nr addr ≡ none) × (clear_bit nr addr ≡ none) × (test_bit nr addr ≡ none)
unfolding set_bit clear_bit test_bit
bit_faults addr nr h =
    let e : get_elem? addr (nr / 8) ≡ none = get_elem?-eq-none addr (nr / 8) (omega arith) in
    (rw e, rw e, rw e)
