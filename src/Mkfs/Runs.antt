-- ===== src/Mkfs/Runs.antt =====
-- `find_clear_bits` of cmfs-tools/mkfs.cmfs/mkfs.c finds the first run of free bits.
use cmfs.Prelude.{
  ℕ, zero, suc, ◌+◌, ◌-◌, ◌*◌, ◌%◌, ◌^◌, ◌<◌, ◌≤◌, Bool, true, false, not, ◌≡◌, ◌⊎◌, refl, sym, ap,
  ◌∙◌, inl, inr, arith, Option, some, List, ltb, leb, ◌==◌, if◌then◌else◌, Bool-cases, length,
}
use cmfs.Prelude.Fault.{◌>>=◌}
use cmfs.Bitops.Find.{bit_at, IsBytes, find_next_bit-Finds}
use cmfs.Mkfs.{no_bit, clear_loop, bail, find_clear_bits}

module _ (addr : List ℕ) (size bits offset : ℕ) (bytes : IsBytes addr)
    (fits : size ≤ 8 * length addr) (small : size < 2 ^ 31) (some_bits : 0 < bits)
    (few : bits < 2 ^ 32) where
  -- No run of `bits` free bits starts here: one of them is set.
  abbrev pub Blocked : ℕ → Type 0
  Blocked o = (j : ℕ) × (j < bits) × (bit_at addr (o + j) ≡ true)

  -- The answer is the first run of `bits` free bits from `offset` on, or there is none.
  abbrev pub IsFirstRun : ℕ → Type 0
  IsFirstRun r =
      ((r ≡ no_bit) × ((o : ℕ) → offset ≤ o → o + bits ≤ size → Blocked o))
      ⊎ ((offset ≤ r)
          × (r + bits ≤ size)
          × ((j : ℕ) → j < bits → bit_at addr (r + j) ≡ false)
          × ((o : ℕ) → offset ≤ o → o < r → Blocked o))

  -- Where the loop is: a free run of `count` bits starts at `base`, and no run that is long enough
  -- starts before it.
  record IsAt (base count first_zero : ℕ) : Type 0 where
    from_offset : offset ≤ base
    inside : base + count ≤ size
    short : count ≤ bits
    starts : 0 < count → first_zero ≡ base
    free : (j : ℕ) → j < count → bit_at addr (base + j) ≡ false
    before : (o : ℕ) → offset ≤ o → o < base → Blocked o

  -- A start whose run would reach over set bits.
  set_ahead :
      (base count next : ℕ)
      → count < bits
      → ((j : ℕ) → base + count ≤ j → j < next → bit_at addr j ≡ true)
      → (o : ℕ) → base ≤ o
      → o < next
      → base + count < next
      → Blocked o
  set_ahead base count next short set o lo hi some_set = elim (Bool-cases (ltb o (base + count))) [
    | inl early ↦
        let e : o + (base + count - o) ≡ base + count = ground arith in
        (base + count - o, ground arith, rw e (set (base + count) (omega arith) some_set))
    | inr late ↦ let e : o + 0 ≡ o = omega arith in (0, some_bits, rw e (set o (ground arith) hi))
  ]

  not-true : (b : Bool) → not b ≡ false → b ≡ true
  not-true true h = refl
  not-true false h = cc

  not-false : (b : Bool) → not b ≡ true → b ≡ false
  not-false true h = cc
  not-false false h = refl

  -- No free bit is left, or the next one is found at `next`.
  none_left :
      (base count first_zero next : ℕ)
      → IsAt base count first_zero
      → count < bits
      → size ≤ next
      → ((j : ℕ) → base + count ≤ j → j < next → j < size → bit_at addr j ≡ true)
      → IsFirstRun no_bit
  none_left base count first_zero next at short over set = inl (
    refl,
    λ o from fit. elim (Bool-cases (ltb o base)) [
      | inl old ↦ at.before o from (ground arith)
      | inr new ↦
          set_ahead base count size short (λ j lo hi. set j lo (omega arith) hi) o (ground arith)
            (omega arith) (ground arith)
    ],
  )

  after_skip :
      (base count first_zero next : ℕ)
      → IsAt base count first_zero
      → count < bits
      → base + count < next
      → next < size
      → ((j : ℕ) → base + count ≤ j → j < next → bit_at addr j ≡ true)
      → bit_at addr next ≡ false
      → IsAt next 1 next
  after_skip base count first_zero next at short past inside set clear = record {
    from_offset = omega (arith, at.from_offset);
    inside = omega arith;
    short = omega arith;
    starts = λ _. refl;
    free = λ j lt. let e : next + j ≡ next = omega arith in rw e clear;
    before = λ o from lt. elim (Bool-cases (ltb o base)) [
      | inl old ↦ at.before o from (ground arith)
      | inr new ↦ set_ahead base count next short set o (ground arith) lt past
    ];
  }

  grown :
      (base count first_zero : ℕ)
      → IsAt base count first_zero
      → count < bits
      → base + count < size
      → bit_at addr (base + count) ≡ false
      → IsAt base (count + 1) (if count == 0 then base + count else first_zero)
  grown base count first_zero at short inside clear = record {
    from_offset = at.from_offset;
    inside = omega arith;
    short = omega arith;
    starts = λ _. ground (arith, at.starts);
    free = λ j lt. elim (Bool-cases (ltb j count)) [
      | inl old ↦ at.free j (ground arith)
      | inr new ↦ let e : j ≡ count = ground arith in rw e clear
    ];
    before = at.before;
  }

  -- The run is long enough, or the loop goes on.
  abbrev Goes : Option ℕ → Type 0
  Goes o = (r : ℕ) × (o ≡ some r) × IsFirstRun r

  round_end :
      (base count first_zero : ℕ) (rest : Option ℕ)
      → IsAt base count first_zero
      → 0 < count
      → (count < bits → Goes rest)
      → Goes (if count == bits then some first_zero else rest)
  round_end base count first_zero rest at some_count ih = elim (Bool-cases (count == bits)) [
    | inl full ↦
        let e : count ≡ bits = ground arith in
        (
          base,
          rw (full, at.starts some_count) refl,
          inr (
            at.from_offset,
            omega (arith, at.inside),
            λ j lt. at.free j (omega arith),
            at.before,
          ),
        )
    | inr part ↦ let (r, e, is) = ih (ground (arith, at.short)) in (r, rw part e, is)
  ]

  clear_loop-IsFirstRun :
      (fuel base count first_zero : ℕ)
      → IsAt base count first_zero
      → count < bits
      → size - (base + count) < fuel
      → Goes (clear_loop fuel addr size bits (base + count) count first_zero)
  unfolding clear_loop
  clear_loop-IsFirstRun zero base count first_zero at short enough = absurd (omega arith)
  clear_loop-IsFirstRun (suc fuel) base count first_zero at short enough =
      let room : (size + 2 ^ 32 - (base + count) + count) % 2 ^ 32 ≡ size - base =
        omega (arith, at.inside) in
      let finds = (find_next_bit-Finds addr size (base + count) bytes fits at.inside).1 in
      let next = finds.found in
      let set = λ (j : ℕ) (lo : base + count ≤ j) (hi : j < next) (below : j < size).
        not-true (bit_at addr j) (finds.clear j lo hi below) in
      elim (Bool-cases (leb bits (size - base))) [
        | inr ends ↦ (
          no_bit,
          rw (room, ends) refl,
          inl (
            refl,
            λ o from fit. elim (Bool-cases (ltb o base)) [
              | inl old ↦ at.before o from (ground arith)
              | inr new ↦ absurd (ground arith)
            ],
          ),
        )
        | inl goes_on ↦ elim (Bool-cases (leb size next)) [
          | inl over ↦ (
            no_bit,
            rw (room, goes_on, finds.returns, over) refl,
            none_left base count first_zero next at short (ground arith) set,
          )
          | inr within ↦
              let clear = not-false (bit_at addr next) (finds.hit (ground arith)).1 in
              elim (Bool-cases (next == base + count)) [
                | inl same ↦
                    let e : next ≡ base + count = ground arith in
                    let is = grown base count first_zero at short (ground arith) (rw e at clear) in
                    let off : (base + count + 1) % 2 ^ 32 ≡ base + (count + 1) =
                      omega (arith, at.inside) in
                    let longer : (count + 1) % 2 ^ 32 ≡ count + 1 = omega arith in
                    rw (room, goes_on, finds.returns, within, same, e, off, longer)
                      (round_end base (count + 1) (if count == 0 then base + count else first_zero)
                        _ is (omega arith)
                        (λ more.
                          clear_loop-IsFirstRun fuel base (count + 1)
                            (if count == 0 then base + count else first_zero) is more
                            (omega arith)))
                | inr past ↦
                    let after : base + count < next =
                      ground (arith, (finds.hit (ground arith)).0) in
                    let is =
                      after_skip base count first_zero next at short after (ground arith)
                        (λ j lo hi. set j lo hi (ground arith)) clear in
                    let off : (next + 1) % 2 ^ 32 ≡ next + 1 = omega (arith, is.inside) in
                    rw (room, goes_on, finds.returns, within, past, off)
                      (round_end next 1 next _ is (omega arith)
                        (λ more. clear_loop-IsFirstRun fuel next 1 next is more (omega arith)))
              ]
        ]
      ]

  -- With a bitmap of bytes that holds `size` bits, and a number of bits and an offset that the types
  -- hold: `find_clear_bits` ends, reads no byte outside the bitmap and answers the first run of free
  -- bits from the offset on, or -1 where every run of that length has a bit that is set.
  pub find_clear_bits-IsFirstRun :
      offset ≤ size → (r : ℕ) × (find_clear_bits addr size bits offset ≡ some r) × IsFirstRun r
  unfolding find_clear_bits
  find_clear_bits-IsFirstRun inside =
      let z : offset + 0 ≡ offset = omega arith in
      let at : IsAt offset 0 no_bit = record {
        from_offset = omega arith;
        inside = omega arith;
        short = omega arith;
        starts = λ pos. absurd (omega arith);
        free = λ j lt. absurd (omega arith);
        before = λ o lo hi. absurd (omega arith);
      } in
      let (r, e, is) =
        clear_loop-IsFirstRun (suc size) offset 0 no_bit at some_bits (omega arith) in
      elim is [
        | inl (none_free, blocked) ↦ (
          no_bit,
          ap (λ o. o >>= λ t. some (bail size t))
                (ap (λ t. clear_loop (suc size) addr size bits t 0 no_bit) (sym z) ∙ e)
              ∙ rw none_free refl,
          inl (refl, blocked),
        )
        | inr (from, fit, free, first) ↦
            let below : leb size r ≡ false = ground arith in
            let kept : bail size r ≡ r = ground arith in
            (
              r,
              ap (λ o. o >>= λ t. some (bail size t))
                    (ap (λ t. clear_loop (suc size) addr size bits t 0 no_bit) (sym z) ∙ e)
                  ∙ ap (λ (t : ℕ). some t) kept,
              inr (from, fit, free, first),
            )
      ]
