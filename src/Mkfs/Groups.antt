-- ===== src/Mkfs/Groups.antt =====
-- Allocation from one group: `alloc_from_group` of cmfs-tools/mkfs.cmfs/mkfs.c.
use cmfs.Prelude.{
  ℕ, zero, suc, ◌+◌, ◌*◌, ◌%◌, ◌^◌, ◌<◌, ◌≤◌, Bool, true, false, not, ◌≡◌, refl, sym, ap, ◌∙◌, inl,
  inr, arith, Option, none, some, ltb, leb, Bool-cases, length,
}
use cmfs.Bitops.{find_next_bit_set, find_first_bit_clear}
use cmfs.Bitops.Find.{bit_at, IsBytes, Finds, find_next_bit-Finds, find_next_bit_set-Finds}
use cmfs.Bitops.Count.{count}
use cmfs.Mkfs.{GroupDesc, BitInfo, group_loop, alloc_from_group}

-- A group whose bitmap holds its bits, with the free bits counted. No group has more than 32,256 bits.
pub record IsGroup (gd : GroupDesc) : Type 0 where
  pub bytes : IsBytes gd.bg_bitmap
  pub fits : gd.bg_bits ≤ 8 * length gd.bg_bitmap
  pub small : gd.bg_bits ≤ 32256
  pub counted : gd.bg_free_bits_count + count (bit_at gd.bg_bitmap) 0 gd.bg_bits ≡ gd.bg_bits

-- A search finds the one bit that is first.
found_first :
    (F : ℕ → Bool) (size offset b : ℕ) (o : Option ℕ)
    → Finds F size offset o
    → offset ≤ b
    → b < size
    → ((j : ℕ) → offset ≤ j → j < b → F j ≡ false)
    → F b ≡ true
    → o ≡ some b
found_first F size offset b o finds lo hi before hit = elim (Bool-cases (ltb finds.found b)) [
  | inl early ↦
      let h = finds.hit (ground arith) in
      let e : false ≡ true = sym (before finds.found h.0 (ground arith)) ∙ h.1 in cc
  | inr late ↦ elim (Bool-cases (ltb b finds.found)) [
    | inl past ↦ let e : false ≡ true = sym (finds.clear b lo (ground arith) hi) ∙ hit in cc
    | inr same ↦ let e : finds.found ≡ b = ground arith in finds.returns ∙ ap (λ (t : ℕ). some t) e
  ]
]

module _ (gd : GroupDesc) (is : IsGroup gd) where
  -- The free run that starts at `b` and ends at the set bit `e`.
  pub record IsShortRun (count b e : ℕ) : Type 0 where
    pub full : (j : ℕ) → j < b → bit_at gd.bg_bitmap j ≡ true
    pub free : (j : ℕ) → b ≤ j → j < e → bit_at gd.bg_bitmap j ≡ false
    pub end : bit_at gd.bg_bitmap e ≡ true
    pub some_free : b < e
    pub inside : e < gd.bg_bits
    pub short : e < b + count

  next_set :
      (b e : ℕ)
      → b ≤ e
      → e < gd.bg_bits
      → ((j : ℕ) → b ≤ j → j < e → bit_at gd.bg_bitmap j ≡ false)
      → bit_at gd.bg_bitmap e ≡ true
      → find_next_bit_set gd.bg_bitmap gd.bg_bits b ≡ some e
  next_set b e le inside free hit =
      found_first (bit_at gd.bg_bitmap) gd.bg_bits b e _
        (find_next_bit_set-Finds gd.bg_bitmap gd.bg_bits b is.bytes is.fits (omega arith)) le inside
        free hit

  stays :
      (count e fuel : ℕ)
      → 0 < count
      → e < gd.bg_bits
      → bit_at gd.bg_bitmap e ≡ true
      → group_loop fuel gd count e ≡ none
  unfolding group_loop
  stays count e zero pos inside hit = refl
  stays count e (suc fuel) pos inside hit =
      let in_group : ltb e gd.bg_bits ≡ true = ground arith in
      let small : e % 2 ^ 16 ≡ e = omega (arith, is.small) in
      let too_short : leb (e + count) e ≡ false = ground arith in
      rw
        (
          in_group,
          next_set e e (omega arith) inside (λ j a b. absurd (omega arith)) hit,
          small,
          too_short,
        )
        (stays count e fuel pos inside hit)

  waits : (count b e fuel : ℕ) → IsShortRun count b e → group_loop fuel gd count b ≡ none
  unfolding group_loop
  waits count b e zero run = refl
  waits count b e (suc fuel) run =
      let in_group : ltb b gd.bg_bits ≡ true = ground (arith, run.some_free, run.inside) in
      let small : e % 2 ^ 16 ≡ e = omega (arith, is.small, run.inside) in
      let too_short : leb (b + count) e ≡ false = ground (arith, run.short) in
      rw
        (
          in_group,
          next_set b e (omega (arith, run.some_free)) run.inside run.free run.end,
          small,
          too_short,
        )
        (stays count e fuel (omega (arith, run.some_free, run.short)) run.inside run.end)

  -- Where the first free run of a group is too short and a set bit follows it, the loop stays at that
  -- bit: `alloc_from_group` does not end, whatever fuel it has.
  pub alloc_from_group-stuck :
      (fuel count b e : ℕ) (bi : BitInfo)
      → IsShortRun count b e
      → alloc_from_group fuel count gd bi ≡ none
  unfolding alloc_from_group find_first_bit_clear
  alloc_from_group-stuck fuel count b e bi run =
      let first =
        found_first (λ j. not (bit_at gd.bg_bitmap j)) gd.bg_bits 0 b _
          (find_next_bit-Finds gd.bg_bitmap gd.bg_bits 0 is.bytes is.fits (omega arith)).1
          (omega arith) (omega (arith, run.some_free, run.inside))
          (λ j a lt. rw (run.full j lt) refl) (rw (run.free b (omega arith) run.some_free) refl) in
      let small : b % 2 ^ 16 ≡ b = omega (arith, is.small, run.some_free, run.inside) in
      rw (first, small) (rw (waits count b e fuel run) refl)
