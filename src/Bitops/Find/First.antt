-- ===== src/Bitops/Find/First.antt =====
-- The byte that holds `offset`, and the two searches as a whole.
use cmfs.Prelude.{
  ℕ, zero, suc, ◌+◌, ◌-◌, ◌*◌, ◌/◌, ◌%◌, ◌^◌, ◌<◌, ◌≤◌, bit_and, Bool, true, false, ◌&&◌, not, ◌≡◌,
  refl, sym, ◌∙◌, ap, Option, some, List, [], ◌∷◌, inl, inr, arith, ltb, ◌==◌, if◌then◌else◌,
  Bool-cases, length, get_or, get_elem?, drop, length-drop,
}
use cmfs.Prelude.Bits.{has_bit, has_bit-and, has_bit-mask, has_bit-complement, has_bit-beyond}
use cmfs.Bitops.{finish_set, finish_clear, scan, high_mask, find_next_bit_set, find_next_bit_clear}
use cmfs.Bitops.Ffs.{IsFfs, ffs-IsFfs}
use cmfs.Bitops.Find.Byte.{bit_at, IsBytes, Finds}
use cmfs.Bitops.Find.Scan.{scan_set-Finds, scan_clear-Finds}

get_or-drop : (n i : ℕ) (xs : List ℕ) → get_or (drop n xs) i 0 ≡ get_or xs (n + i) 0
get_or-drop zero i xs = let e : 0 + i ≡ i = omega arith in rw e
get_or-drop (suc n) i [] = refl
get_or-drop (suc n) i (x ∷ xs) =
    let e : suc n + i ≡ suc (n + i) = omega arith in rw e (get_or-drop n i xs)

get_elem?-eq-get_or : (xs : List ℕ) (i : ℕ) → i < length xs → get_elem? xs i ≡ some (get_or xs i 0)
get_elem?-eq-get_or [] i h = absurd (omega arith)
get_elem?-eq-get_or (x ∷ xs) zero h = refl
get_elem?-eq-get_or (x ∷ xs) (suc i) h = get_elem?-eq-get_or xs i (omega arith)

drop-IsBytes : (n : ℕ) (xs : List ℕ) → IsBytes xs → IsBytes (drop n xs)
drop-IsBytes n xs h i = rw get_or-drop (h (n + i))

bit_at-drop : (n j : ℕ) (xs : List ℕ) → bit_at (drop n xs) j ≡ bit_at xs (8 * n + j)
bit_at-drop n j xs =
    let q : (8 * n + j) / 8 ≡ n + j / 8 = omega arith in
    let r : (8 * n + j) % 8 ≡ j % 8 = omega arith in rw (q, r, get_or-drop)

high_digits : (bit k : ℕ) → bit < 8 → k < 32 → has_bit (high_mask bit) k ≡ not (ltb k bit)
high_digits bit k h lt =
    has_bit-complement 32 (2 ^ bit - 1) k (small bit h) ∙ ground (arith, has_bit-mask bit k)
  where
    small : (bit : ℕ) → bit < 8 → 2 ^ bit - 1 < 2 ^ 32
    small zero h = omega arith
    small (suc zero) h = omega arith
    small (suc (suc zero)) h = omega arith
    small (suc (suc (suc zero))) h = omega arith
    small (suc (suc (suc (suc zero)))) h = omega arith
    small (suc (suc (suc (suc (suc zero))))) h = omega arith
    small (suc (suc (suc (suc (suc (suc zero)))))) h = omega arith
    small (suc (suc (suc (suc (suc (suc (suc zero))))))) h = omega arith
    small (suc (suc (suc (suc (suc (suc (suc (suc n)))))))) h = absurd (omega arith)

-- The bits that are looked at in the byte at `base`: those from `bit` on.
module _ (F : ℕ → Bool) (size base bit offset : ℕ) (at : base + bit ≡ offset)
    (in_byte : bit < 8) where
  abbrev pub from_bit : ℕ → Bool
  from_bit k = F (base + k) && not (ltb k bit) && ltb k 8

  first-Finds :
      (d : ℕ) (o : Option ℕ)
      → IsFfs from_bit 32 d
      → Finds F size (base + 8) o
      → Finds F size offset (if d == 0 then o else some (offset - bit + d - 1))
  first-Finds zero o r later = record {
    found = later.found;
    returns = later.returns;
    clear = λ j lo hi below. elim (Bool-cases (ltb j (base + 8))) [
      | inl here ↦
          let e : base + (j - base) ≡ j = omega arith in
          let c : from_bit (j - base) ≡ false = r.none_set refl (j - base) (ground arith) in
          rw e at (inside (j - base) (ground arith) (ground arith) c)
      | inr after ↦ later.clear j (ground arith) hi below
    ];
    hit = λ h. (omega (arith, (later.hit h).0), (later.hit h).1);
  }
    where
      inside : (k : ℕ) → bit ≤ k → k < 8 → from_bit k ≡ false → F (base + k) ≡ false
      inside k lo hi c = ground arith
  first-Finds (suc d) o r later = record {
    found = base + d;
    returns = ground arith;
    clear = λ j lo hi below.
        let e : base + (j - base) ≡ j = omega arith in
        let c : from_bit (j - base) ≡ false = r.lowest (j - base) (omega arith) in
        rw e at (inside (j - base) (omega arith) (omega arith) c);
    hit = λ h. (omega (arith, found_in.0), found_in.2);
  }
    where
      at_d : from_bit d ≡ true
      at_d = let e : suc d - 1 ≡ d = omega arith in rw e at (r.is_set (omega arith))

      found_in : (bit ≤ d) × (d < 8) × (F (base + d) ≡ true)
      found_in = ground (arith, at_d)

      inside : (k : ℕ) → bit ≤ k → k < d → from_bit k ≡ false → F (base + k) ≡ false
      inside k lo hi c = ground (arith, found_in)

-- The searches, where the bitmap has `size` bits and `offset` does not pass its end.
module _ (addr : List ℕ) (size offset : ℕ) (bytes : IsBytes addr) (fits : size ≤ 8 * length addr)
    (inside : offset ≤ size) where
  abbrev pub byte : ℕ
  byte = get_or addr (offset / 8) 0

  here : (k : ℕ) → k < 8 → bit_at addr (offset / 8 * 8 + k) ≡ has_bit byte k
  here k h =
      let q : (offset / 8 * 8 + k) / 8 ≡ offset / 8 = omega arith in
      let r : (offset / 8 * 8 + k) % 8 ≡ k = omega arith in rw (q, r)

  abbrev n : ℕ
  n = offset / 8

  suffix :
      (m : ℕ) (F : Bool → Bool) (j : ℕ) → F (bit_at addr (m * 8 + j)) ≡ F (bit_at (drop m addr) j)
  suffix m F j =
      let e : 8 * m + j ≡ m * 8 + j = omega arith in ap F (rw e at (sym (bit_at-drop m j addr)))

  suffix_fits : (m res : ℕ) → m * 8 ≡ res → size ≤ res + 8 * length (drop m addr)
  suffix_fits m res e = omega (arith, length-drop m addr)

  set_from :
      (m res : ℕ)
      → m * 8 ≡ res
      → Finds (bit_at addr) size res (scan 0 finish_set size res (drop m addr))
  set_from m res e =
      scan_set-Finds size res (drop m addr) (drop-IsBytes m addr bytes) (suffix_fits m res e) _
        (λ j _. rw (← e) (suffix m (λ b. b) j))

  clear_from :
      (m res : ℕ)
      → m * 8 ≡ res
      → Finds
          (λ j. not (bit_at addr j))
          size
          res
          (scan (2 ^ 8 - 1) finish_clear size res (drop m addr))
  clear_from m res e =
      scan_clear-Finds size res (drop m addr) (drop-IsBytes m addr bytes) (suffix_fits m res e) _
        (λ j _. rw (← e) (suffix m not j))

  set_digits :
      (k : ℕ)
      → k < 32
      → has_bit (bit_and byte (high_mask (offset % 8))) k
        ≡ from_bit (bit_at addr) size (n * 8) (offset % 8) offset (omega arith) (omega arith) k
  set_digits k h =
      has_bit-and byte _ k
      ∙ ground (arith, high_digits (offset % 8) k, here k, has_bit-beyond 8 byte k, bytes n)

  clear_digits :
      (k : ℕ)
      → k < 32
      → has_bit (bit_and (bit_and (2 ^ 32 - 1 - byte) (high_mask (offset % 8))) (2 ^ 8 - 1)) k
        ≡ from_bit
            (λ j. not (bit_at addr j))
            size
            (n * 8)
            (offset % 8)
            offset
            (omega arith)
            (omega arith)
            k
  clear_digits k h =
      has_bit-and _ (2 ^ 8 - 1) k
      ∙ ground (
        arith,
        has_bit-and (2 ^ 32 - 1 - byte) (high_mask (offset % 8)) k,
        has_bit-mask 8 k,
        has_bit-complement 32 byte k,
        high_digits (offset % 8) k,
        here k,
        bytes n,
      )

  empty_Finds : (F : ℕ → Bool) → (size == 0) ≡ true → Finds F size offset (some 0)
  empty_Finds F e = record {
    found = 0;
    returns = refl;
    clear = λ j lo hi _. absurd (omega arith);
    hit = λ h. absurd (ground arith);
  }

  pub find_next_bit_set-Finds : Finds (bit_at addr) size offset (find_next_bit_set addr size offset)
  unfolding find_next_bit_set
  find_next_bit_set-Finds = elim (Bool-cases (size == 0)) [
    | inl none_left ↦ rw none_left (empty_Finds _ none_left)
    | inr some_left ↦ elim (Bool-cases (offset % 8 == 0)) [
      | inl whole ↦
          let e : n * 8 ≡ offset = ground arith in rw (some_left, whole, e) (set_from n offset e)
      | inr part ↦
          rw (some_left, part, get_elem?-eq-get_or addr n (ground arith))
            (first-Finds (bit_at addr) size (n * 8) (offset % 8) offset (omega arith) (omega arith)
              _ _ (ffs-IsFfs _ _ set_digits) (set_from (n + 1) (n * 8 + 8) (omega arith)))
    ]
  ]

  find_next_bit_clear-Finds :
      Finds (λ j. not (bit_at addr j)) size offset (find_next_bit_clear addr size offset)
  unfolding find_next_bit_clear
  find_next_bit_clear-Finds = elim (Bool-cases (size == 0)) [
    | inl none_left ↦ rw none_left (empty_Finds _ none_left)
    | inr some_left ↦ elim (Bool-cases (offset % 8 == 0)) [
      | inl whole ↦
          let e : n * 8 ≡ offset = ground arith in rw (some_left, whole, e) (clear_from n offset e)
      | inr part ↦
          rw (some_left, part, get_elem?-eq-get_or addr n (ground arith))
            (first-Finds _ size (n * 8) (offset % 8) offset (omega arith) (omega arith) _ _
              (ffs-IsFfs _ _ clear_digits) (clear_from (n + 1) (n * 8 + 8) (omega arith)))
    ]
  ]

  -- In a bitmap of bytes with at least `size` bits, from an offset of at most `size`,
  -- `cmfs_find_next_bit_set` and `cmfs_find_next_bit_clear` read no byte outside the bitmap and
  -- return the first set bit, or the first clear bit, from `offset` on if one lies below `size`, and
  -- otherwise a number of at least `size`.
  pub find_next_bit-Finds :
      Finds (bit_at addr) size offset (find_next_bit_set addr size offset)
      × Finds (λ j. not (bit_at addr j)) size offset (find_next_bit_clear addr size offset)
  find_next_bit-Finds = (find_next_bit_set-Finds, find_next_bit_clear-Finds)
