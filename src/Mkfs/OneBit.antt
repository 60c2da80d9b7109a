-- ===== src/Mkfs/OneBit.antt =====
-- One bit from a group: `alloc_from_group` of cmfs-tools/mkfs.cmfs/mkfs.c.
use cmfs.Prelude.{
  ℕ, suc, ◌+◌, ◌-◌, ◌%◌, ◌^◌, ◌<◌, Bool, true, false, not, ◌≡◌, refl, sym, ap, ◌∙◌, inl, inr, arith,
  some, List, ltb, leb, Bool-cases,
}
use cmfs.Prelude.Fault.{◌>>=◌}
use cmfs.Bitops.{find_next_bit_clear, find_first_bit_clear}
use cmfs.Bitops.Find.{bit_at, find_next_bit-Finds, find_next_bit_set-Finds, find_next_bit_set-le}
use cmfs.Bitops.Count.{count}
use cmfs.Mkfs.{
  GroupDesc, BitInfo, Taken, group_loop, take_bits, taken_at, alloc_from_group, set_bits,
}
use cmfs.Mkfs.Marks.{IsMarked, set_bits-IsMarked, count-marked, count-set}
use cmfs.Mkfs.Groups.{IsGroup}

module _ (gd : GroupDesc) (is : IsGroup gd) where
  -- What one bit that is taken leaves.
  pub record IsTaken (bi : BitInfo) (b : ℕ) (t : Taken) : Type 0 where
    pub inside : b < gd.bg_bits
    pub first : (j : ℕ) → j < b → bit_at gd.bg_bitmap j ≡ true
    pub was_free : bit_at gd.bg_bitmap b ≡ false
    pub marked : IsMarked 1 b gd.bg_bitmap t.gd.bg_bitmap
    pub group : IsGroup t.gd
    pub counted : t.gd.bg_free_bits_count + 1 ≡ gd.bg_free_bits_count
    pub start : t.start_blkno ≡ (gd.bg_blkno + b) % 2 ^ 64
    pub used : t.bi.used_bits ≡ (bi.used_bits + 1) % 2 ^ 32

  one_of : (b : Bool) → not b ≡ false → b ≡ true
  one_of true h = refl
  one_of false h = cc

  none_of : (b : Bool) → not b ≡ true → b ≡ false
  none_of true h = cc
  none_of false h = refl

  some_free_bit :
      0 < gd.bg_free_bits_count
      → (b : ℕ) × (b < gd.bg_bits)
        × ((j : ℕ) → j < b → bit_at gd.bg_bitmap j ≡ true)
        × (bit_at gd.bg_bitmap b ≡ false)
        × (find_next_bit_clear gd.bg_bitmap gd.bg_bits 0 ≡ some b)
  some_free_bit free =
      let finds =
        (find_next_bit-Finds gd.bg_bitmap gd.bg_bits 0 is.bytes is.fits (omega arith)).1 in
      let b = finds.found in
      elim (Bool-cases (ltb b gd.bg_bits)) [
        | inl within ↦ (
          b,
          ground arith,
          λ j lt. one_of (bit_at gd.bg_bitmap j) (finds.clear j (omega arith) lt (ground arith)),
          none_of (bit_at gd.bg_bitmap b) (finds.hit (ground arith)).1,
          finds.returns,
        )
        | inr full ↦
            let all : count (bit_at gd.bg_bitmap) 0 gd.bg_bits ≡ gd.bg_bits =
              count-set (bit_at gd.bg_bitmap) 0 gd.bg_bits (λ j a lt.
                one_of (bit_at gd.bg_bitmap j) (finds.clear j a (ground arith) (omega arith))) in
            absurd (omega (arith, all, is.counted))
      ]

  one_bit_fits :
      (fuel b : ℕ)
      → b < gd.bg_bits
      → bit_at gd.bg_bitmap b ≡ false
      → group_loop (suc fuel) gd 1 b ≡ some (some b)
  unfolding group_loop
  one_bit_fits fuel b lt clear =
      let finds =
        find_next_bit_set-Finds gd.bg_bitmap gd.bg_bits b is.bytes is.fits (omega arith) in
      let bound =
        find_next_bit_set-le gd.bg_bitmap gd.bg_bits b finds.found (omega arith) finds.returns in
      let past : b < finds.found = elim (Bool-cases (ltb b finds.found)) [
        | inl yes_past ↦ ground arith
        | inr not_past ↦
            let hit = finds.hit (ground arith) in
            let e : finds.found ≡ b = ground (arith, hit.0) in
            let both : false ≡ true = sym clear ∙ ap (bit_at gd.bg_bitmap) (sym e) ∙ hit.1 in
            absurd cc
      ] in
      let in_group : ltb b gd.bg_bits ≡ true = ground arith in
      let small : finds.found % 2 ^ 16 ≡ finds.found = omega (arith, bound, is.small) in
      let enough : leb (b + 1) finds.found ≡ true = ground arith in
      rw (in_group, finds.returns, small, enough) refl

  runs_to :
      (fuel count b : ℕ) (bi : BitInfo) (bitmap : List ℕ)
      → find_next_bit_clear gd.bg_bitmap gd.bg_bits 0 ≡ some b
      → b < 2 ^ 16
      → group_loop fuel gd count b ≡ some (some b)
      → set_bits count b gd.bg_bitmap ≡ some bitmap
      → alloc_from_group fuel count gd bi ≡ some (some (take_bits gd bi count b bitmap))
  unfolding alloc_from_group find_first_bit_clear
  runs_to fuel count b bi bitmap found lt loops marks =
      let small : b % 2 ^ 16 ≡ b = omega arith in
      rw found (
        ap (λ t. group_loop fuel gd count t >>= λ start. taken_at gd bi count start) small
        ∙ ap (λ r. r >>= λ start. taken_at gd bi count start) loops
        ∙ ap (λ r. r >>= λ t. some (some (take_bits gd bi count b t))) marks)

  -- In a group with a free bit, `alloc_from_group` of one bit ends and takes the first free bit: it
  -- sets this bit and no other, the group counts one free bit less and still as many as it has, and
  -- the block number is the group's with the number of the bit.
  pub alloc_from_group-IsTaken :
      (fuel : ℕ) (bi : BitInfo)
      → 0 < gd.bg_free_bits_count
      → (b : ℕ) × (t : Taken) × (alloc_from_group (suc fuel) 1 gd bi ≡ some (some t))
        × IsTaken bi b t
  alloc_from_group-IsTaken fuel bi free =
      let (b, inside, before, clear, found) = some_free_bit free in
      let (bitmap, e, marks) =
        set_bits-IsMarked 1 b gd.bg_bitmap is.bytes (omega (arith, is.fits)) in
      let less : (gd.bg_free_bits_count + 2 ^ 16 - 1) % 2 ^ 16 ≡ gd.bg_free_bits_count - 1 =
        omega (arith, is.counted, is.small) in
      let more =
        count-marked 1 b gd.bg_bits gd.bg_bitmap bitmap marks (omega arith)
          (λ j lt. let z : b + j ≡ b = omega arith in rw z clear) in
      (
        b,
        take_bits gd bi 1 b bitmap,
        runs_to (suc fuel) 1 b bi bitmap found (omega (arith, is.small))
            (one_bit_fits fuel b inside clear) e,
        record {
          inside = inside;
          first = before;
          was_free = clear;
          marked = marks;
          group = record {
            bytes = marks.bytes;
            fits = rw marks.same_length is.fits;
            small = is.small;
            counted = rw less (omega (arith, more, is.counted));
          };
          counted = rw less (omega arith);
          start = refl;
          used = refl;
        },
      )
