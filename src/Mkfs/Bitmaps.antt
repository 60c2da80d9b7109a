-- ===== src/Mkfs/Bitmaps.antt =====
-- Allocation from the cluster bitmap: `alloc_from_bitmap` of cmfs-tools/mkfs.cmfs/mkfs.c.
use cmfs.Prelude.{
  ℕ, ◌+◌, ◌-◌, ◌*◌, ◌%◌, ◌^◌, ◌<◌, ◌≤◌, ◌≡◌, ◌⊎◌, refl, sym, ap, ◌∙◌, inl, inr, arith, Option, none,
  some, List, ◌==◌, if◌then◌else◌, Bool-cases, length, get_elem?, set, length-set,
}
use cmfs.Mkfs.{
  GroupDesc, AllocGroup, AllocBitmap, Allocated, find_group, first_bit, chain_less,
  take_from_bitmap, alloc_from_bitmap,
}
use cmfs.Mkfs.Marks.{IsMarked, set_bits-IsMarked, count-marked}
use cmfs.Mkfs.Groups.{IsGroup}
use cmfs.Mkfs.Search.{
  AreGroups, IsFreeRun, get_elem?-inside, Chosen, find_group-Searched, find_group-none,
}
use cmfs.Mkfs.Places.{set-AreGroups, gd_of, gd_of-set}

-- `r` is the bitmap with a run of free bits of the group at place `i` taken, from bit `b` on.
pub record IsAllocated (fcg bb cb bits : ℕ) (bitmap : AllocBitmap) (i b : ℕ) (gd gd' : GroupDesc)
    (r : Allocated) : Type 0 where
  pub group : gd_of (get_elem? bitmap.groups i) ≡ some gd
  pub run : IsFreeRun gd bits b
  pub marked : IsMarked bits b gd.bg_bitmap gd'.bg_bitmap
  pub counted : gd'.bg_free_bits_count + bits ≡ gd.bg_free_bits_count
  pub groups :
      (j : ℕ)
      → gd_of (get_elem? r.bitmap.groups j)
        ≡ (if j == i then some gd' else gd_of (get_elem? bitmap.groups j))
  pub are_groups : AreGroups r.bitmap.groups
  pub start : r.start ≡ first_bit fcg bb cb gd b * 2 ^ bitmap.unit_bits % 2 ^ 64
  pub num : r.num ≡ bits * 2 ^ bitmap.unit_bits % 2 ^ 64
  pub used : r.bitmap.bi.used_bits ≡ (bitmap.bi.used_bits + bits) % 2 ^ 32

module _ (fcg bb cb bits : ℕ) (bitmap : AllocBitmap) (is : AreGroups bitmap.groups) where
  -- The group after the call.
  abbrev taken : GroupDesc → List ℕ → GroupDesc
  taken gd marked = record gd {
    bg_free_bits_count = (gd.bg_free_bits_count + 2 ^ 16 - bits % 2 ^ 16) % 2 ^ 16;
    bg_bitmap = marked;
  }

  fewer :
      (gd : GroupDesc)
      → IsGroup gd
      → bits ≤ gd.bg_free_bits_count
      → (gd.bg_free_bits_count + 2 ^ 16 - bits % 2 ^ 16) % 2 ^ 16 + bits ≡ gd.bg_free_bits_count
  fewer gd group le = omega (arith, group.counted, group.small)

  taken-IsGroup :
      (gd : GroupDesc) (marked : List ℕ) (b : ℕ)
      → IsGroup gd
      → IsFreeRun gd bits b
      → IsMarked bits b gd.bg_bitmap marked
      → IsGroup (taken gd marked)
  taken-IsGroup gd marked b group run marks =
      let more = count-marked bits b gd.bg_bits gd.bg_bitmap marked marks run.inside run.free in
      let less = fewer gd group run.counted in
      record {
        bytes = marks.bytes;
        fits = rw marks.same_length group.fits;
        small = group.small;
        counted = omega (arith, more, less, group.counted);
      }

  -- The head of the chain has fewer free bits.
  chain_less-AreGroups :
      (groups : List AllocGroup) (chain : ℕ)
      → AreGroups groups
      → chain < length groups
      → (groups' : List AllocGroup) × (chain_less groups chain bits ≡ some groups')
        × AreGroups groups'
        × ((j : ℕ) → gd_of (get_elem? groups' j) ≡ gd_of (get_elem? groups j))
  chain_less-AreGroups groups chain are lt =
      let (head, e) = get_elem?-inside groups chain lt in
      let head' : AllocGroup = record head {
        chain_free = (head.chain_free + 2 ^ 32 - bits % 2 ^ 32) % 2 ^ 32;
      } in
      (
        set groups chain head',
        rw e refl,
        set-AreGroups groups chain head head' are e (are.are chain head e) refl refl,
        λ j. gd_of-set groups chain j head head' e ∙ (elim (Bool-cases (j == chain)) [
          | inl same ↦
              let z : j ≡ chain = ground arith in
              rw same (sym (ap (λ t. gd_of (get_elem? groups t)) z ∙ ap gd_of e))
          | inr other ↦ rw other refl
        ]),
      )

  abbrev after : ℕ → ℕ → GroupDesc → List AllocGroup → Allocated
  after i b gd groups = record {
    start = first_bit fcg bb cb gd b * 2 ^ bitmap.unit_bits % 2 ^ 64;
    num = bits * 2 ^ bitmap.unit_bits % 2 ^ 64;
    bitmap = record bitmap {
      groups = groups;
      bi = record bitmap.bi { used_bits = (bitmap.bi.used_bits + bits) % 2 ^ 32 };
    };
  }

  pub take-IsAllocated :
      (i b : ℕ) (g : AllocGroup)
      → get_elem? bitmap.groups i ≡ some g
      → IsFreeRun g.gd bits b
      → (gd' : GroupDesc) × (r : Allocated) × (take_from_bitmap fcg bb cb bits bitmap i b ≡ some r)
        × IsAllocated fcg bb cb bits bitmap i b g.gd gd' r
  unfolding take_from_bitmap
  take-IsAllocated i b g e run =
      let group = is.are i g e in
      let (marked, set_e, marks) =
        set_bits-IsMarked bits b g.gd.bg_bitmap group.bytes
          (omega (arith, run.inside, group.fits)) in
      let g' : AllocGroup = record g { gd = taken g.gd marked } in
      let are =
        set-AreGroups bitmap.groups i g g' is e (taken-IsGroup g.gd marked b group run marks) refl
          refl in
      let (groups', chain_e, are', same) =
        chain_less-AreGroups (set bitmap.groups i g') g.gd.bg_chain are
          (rw (length-set bitmap.groups i g') (is.chained i g e)) in
      (
        taken g.gd marked,
        after i b g.gd groups',
        rw (e, set_e, chain_e) refl,
        record {
          group = ap gd_of e;
          run = run;
          marked = marks;
          counted = fewer g.gd group run.counted;
          groups = λ j. same j ∙ gd_of-set bitmap.groups i j g g' e;
          are_groups = are';
          start = refl;
          num = refl;
          used = refl;
        },
      )

  -- No group at the head of a chain has a free run.
  abbrev pub AreFull : Type 0
  AreFull =
      (k b : ℕ) (g : AllocGroup)
      → k < bitmap.num_chains
      → get_elem? bitmap.groups k ≡ some g
      → ¬ IsFreeRun g.gd bits b

  -- In a bitmap whose groups count their free bits, with chains that lead to later groups and no more
  -- chains than groups, a search for one bit or more ends. It calls exit with nothing found only where
  -- no group at the head of a chain has a run of so many free bits. Else it takes such a run of one
  -- group: it sets these bits and no others of this and the other groups, the group counts as many
  -- free bits as it has left, and the bits used grow by the run. `*start` is what the code computes
  -- from the bit and the block number of the group, in units of the bitmap.
  pub alloc_from_bitmap-IsAllocated :
      0 < bits
      → bitmap.num_chains ≤ length bitmap.groups
      → ((alloc_from_bitmap fcg bb cb bits bitmap ≡ some none) × AreFull)
        ⊎ ((i : ℕ) × (b : ℕ) × (gd : GroupDesc) × (gd' : GroupDesc) × (r : Allocated)
            × (alloc_from_bitmap fcg bb cb bits bitmap ≡ some (some r))
            × IsAllocated fcg bb cb bits bitmap i b gd gd' r)
  unfolding alloc_from_bitmap
  alloc_from_bitmap-IsAllocated some_bits chains =
      let (found, e, chosen) =
        find_group-Searched bitmap.groups is bits some_bits bitmap.num_chains 0 (omega arith) in
      ends found e chosen
    where
      ends :
          (found : Option (ℕ × ℕ))
          → find_group bitmap.num_chains bitmap.groups bits 0 ≡ some found
          → Chosen bitmap.groups is bits some_bits found
          → ((alloc_from_bitmap fcg bb cb bits bitmap ≡ some none) × AreFull)
            ⊎ ((i : ℕ) × (b : ℕ) × (gd : GroupDesc) × (gd' : GroupDesc) × (r : Allocated)
                × (alloc_from_bitmap fcg bb cb bits bitmap ≡ some (some r))
                × IsAllocated fcg bb cb bits bitmap i b gd gd' r)
      ends none e chosen = inl (
        rw e refl,
        λ k b g lt at_place run.
            find_group-none bitmap.groups is bits some_bits bitmap.num_chains 0 k b g (omega arith)
              (omega arith) (omega arith) at_place run e,
      )
      ends (some (i, b)) e (g, at_place, run) =
          let (gd', r, taken_e, is_allocated) = take-IsAllocated i b g at_place run in
          inr (i, b, g.gd, gd', r, rw (e, taken_e) refl, is_allocated)
