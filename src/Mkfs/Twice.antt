-- ===== src/Mkfs/Twice.antt =====
-- What `alloc_from_bitmap` of cmfs-tools/mkfs.cmfs/mkfs.c makes of the block numbers of groups.
use cmfs.Prelude.{
  ◌≢◌, ◌≤◌, ◌+◌, false, ℕ, ◌*◌, ◌%◌, ◌^◌, ◌<◌, ◌≡◌, refl, sym, ap, ◌∙◌, inl, inr, arith, Option,
  none, some, List, ◌==◌, Bool-cases, get_elem?, set, get_elem?-set_self, get_elem?-set_ne,
}
use mathlib.Core.Path.{subst}
use cmfs.Prelude.Fault.{some_inj, >>=-eq-some}
use cmfs.Mkfs.{
  GroupDesc, AllocGroup, AllocBitmap, Allocated, set_bits, first_bit, chain_less, take_from_bitmap,
}
use cmfs.Mkfs.Sizes.{State}
use cmfs.Mkfs.Places.{inside_of, gd_of}
use cmfs.Mkfs.Divided.{IsDivided, initialize_bitmap-IsDivided}
use cmfs.Mkfs.Growth.{IsUntouched}
use cmfs.Mkfs.Run.{ends}
use cmfs.Mkfs.Volume.{IsSized}
use cmfs.Mkfs.Setup.{first_group, with_first, initialize_bitmap}
use cmfs.Mkfs.Search.{IsFreeRun, get_elem?-inside}
use cmfs.Mkfs.Bitmaps.{take-IsAllocated}

abbrev blkno_of : Option AllocGroup → Option ℕ
blkno_of none = none
blkno_of (some g) = some g.gd.bg_blkno

set-blkno :
    (groups : List AllocGroup) (i : ℕ) (g g' : AllocGroup)
    → get_elem? groups i ≡ some g
    → g'.gd.bg_blkno ≡ g.gd.bg_blkno
    → (j : ℕ) → blkno_of (get_elem? (set groups i g') j) ≡ blkno_of (get_elem? groups j)
set-blkno groups i g g' e same j = elim (Bool-cases (j == i)) [
  | inl here ↦
      let z : j ≡ i = ground arith in
      ap (λ t. blkno_of (get_elem? (set groups i g') t)) z
      ∙ ap blkno_of (get_elem?-set_self groups i g' (inside_of groups i g e))
      ∙ ap (λ (t : ℕ). some t) same
      ∙ sym (ap blkno_of (ap (get_elem? groups) z ∙ e))
  | inr other ↦ ap blkno_of (get_elem?-set_ne groups g' (λ z. absurd (ground arith)))
]

-- The head of a chain keeps its block number.
chain_less-blkno :
    (groups groups' : List AllocGroup) (chain bits : ℕ)
    → chain_less groups chain bits ≡ some groups'
    → (j : ℕ) → blkno_of (get_elem? groups' j) ≡ blkno_of (get_elem? groups j)
chain_less-blkno groups groups' chain bits e j =
    let (head, at_head, same) = >>=-eq-some (get_elem? groups chain) _ e in
    ap (λ t. blkno_of (get_elem? t j)) (sym (some_inj same))
    ∙ set-blkno groups chain head _ at_head refl j

-- What is taken starts where the block number of the group and the bit say, and no group gets another
-- block number.
record IsTakenAt (fcg bb cb : ℕ) (bitmap : AllocBitmap) (i b : ℕ) (r : Allocated) : Type 0 where
  pub gd : GroupDesc
  pub group : blkno_of (get_elem? bitmap.groups i) ≡ some gd.bg_blkno
  pub start : r.start ≡ first_bit fcg bb cb gd b * 2 ^ bitmap.unit_bits % 2 ^ 64
  pub same_unit : r.bitmap.unit_bits ≡ bitmap.unit_bits
  pub same_blkno :
      (j : ℕ) → blkno_of (get_elem? r.bitmap.groups j) ≡ blkno_of (get_elem? bitmap.groups j)

take_from_bitmap-IsTakenAt :
    (fcg bb cb bits : ℕ) (bitmap : AllocBitmap) (i b : ℕ) (r : Allocated)
    → take_from_bitmap fcg bb cb bits bitmap i b ≡ some r
    → IsTakenAt fcg bb cb bitmap i b r
unfolding take_from_bitmap
take_from_bitmap-IsTakenAt fcg bb cb bits bitmap i b r e =
    let (g, at_place, e₁) = >>=-eq-some (get_elem? bitmap.groups i) _ e in
    let (marked, _, e₂) = >>=-eq-some (set_bits bits b g.gd.bg_bitmap) _ e₁ in
    let (groups, less, e₃) = >>=-eq-some (chain_less _ g.gd.bg_chain bits) _ e₂ in
    let same = sym (some_inj e₃) in
    record {
      gd = g.gd;
      group = ap blkno_of at_place;
      start = ap (λ (t : Allocated). t.start) same;
      same_unit = ap (λ (t : Allocated). t.bitmap.unit_bits) same;
      same_blkno = λ j.
          ap (λ (t : Allocated). blkno_of (get_elem? t.bitmap.groups j)) same
          ∙ chain_less-blkno _ groups g.gd.bg_chain bits less j
          ∙ set-blkno bitmap.groups i g _ at_place refl j;
    }

blkno-stride :
    (s : State) (stride : ℕ) (bitmap : AllocBitmap) (i c : ℕ)
    → IsDivided s stride bitmap
    → 0 < i
    → blkno_of (get_elem? bitmap.groups i) ≡ some c
    → c ≡ stride
blkno-stride s stride bitmap i c is pos e = at_place (get_elem? bitmap.groups i) refl e
  where
    at_place :
        (o : Option AllocGroup) → get_elem? bitmap.groups i ≡ o → blkno_of o ≡ some c → c ≡ stride
    at_place none there h = cc
    at_place (some g) there h = sym (some_inj h) ∙ is.same_place i g there pos

-- The same bit of two groups after the first gives the same start.
take_from_bitmap-twice :
    (s : State) (stride : ℕ) (bitmap : AllocBitmap) (fcg bb cb n m i k b : ℕ) (r r' : Allocated)
    → IsDivided s stride bitmap
    → 0 < i
    → 0 < k
    → take_from_bitmap fcg bb cb n bitmap i b ≡ some r
    → take_from_bitmap fcg bb cb m r.bitmap k b ≡ some r'
    → r'.start ≡ r.start
take_from_bitmap-twice s stride bitmap fcg bb cb n m i k b r r' is pos pos' e e' =
    let at = take_from_bitmap-IsTakenAt fcg bb cb n bitmap i b r e in
    let at' = take_from_bitmap-IsTakenAt fcg bb cb m r.bitmap k b r' e' in
    let first = blkno-stride s stride bitmap i at.gd.bg_blkno is pos at.group in
    let second =
      blkno-stride s stride bitmap k at'.gd.bg_blkno is pos' (sym (at.same_blkno k) ∙ at'.group) in
    let same : at'.gd.bg_blkno ≡ at.gd.bg_blkno = second ∙ sym first in
    at'.start
    ∙ ap (λ t. first_bit fcg bb cb at'.gd b * 2 ^ t % 2 ^ 64) at.same_unit
    ∙ rw same (sym at.start)

group_of :
    (o : Option AllocGroup) (gd : GroupDesc)
    → gd_of o ≡ some gd
    → (g : AllocGroup) × (o ≡ some g) × (g.gd ≡ gd)
group_of none gd e = cc
group_of (some g) gd e = (g, refl, some_inj e)

-- The second bit of a group that is untouched is free.
second_bit : (least : ℕ) (gd : GroupDesc) → IsUntouched least gd → 2 ≤ least → IsFreeRun gd 1 1
second_bit least gd is two = record {
  inside = omega (arith, is.wide);
  free = λ j lt. is.free (1 + j) (omega arith);
  counted = omega (arith, is.one_taken, is.wide);
}

module _ (s : State) (stride : ℕ) (bitmap : AllocBitmap) (is : IsDivided s stride bitmap)
    (two : 2 ≤ s.tail_group_bits) where
  place :
      (i : ℕ)
      → 0 < i
      → i < s.nr_cluster_groups
      → (g : AllocGroup) × (get_elem? bitmap.groups i ≡ some g) × IsFreeRun g.gd 1 1
  place i pos lt =
      let (g, e) = get_elem?-inside bitmap.groups i (omega (arith, is.number)) in
      (g, e, second_bit s.tail_group_bits g.gd (is.untouched i g e pos) two)

  both_taken :
      (fcg bb cb i k : ℕ)
      → 0 < i
      → 0 < k
      → i ≢ k
      → i < s.nr_cluster_groups
      → k < s.nr_cluster_groups
      → (r : Allocated) × (r' : Allocated) × (take_from_bitmap fcg bb cb 1 bitmap i 1 ≡ some r)
        × (take_from_bitmap fcg bb cb 1 r.bitmap k 1 ≡ some r')
        × (r'.start ≡ r.start)
  both_taken fcg bb cb i k pos pos' differ lt lt' =
      let (g, at, run) = place i pos lt in
      let (h, at', run') = place k pos' lt' in
      let (gd, r, e, taken) = take-IsAllocated fcg bb cb 1 bitmap is.groups i 1 g at run in
      let other : (k == i) ≡ false = elim (Bool-cases (k == i)) [
        | inl same ↦ absurd (differ (ground arith))
        | inr unequal ↦ unequal
      ] in
      let kept : gd_of (get_elem? r.bitmap.groups k) ≡ some h.gd =
        taken.groups k ∙ rw other (ap gd_of at') in
      let (h', at'', same) = group_of (get_elem? r.bitmap.groups k) h.gd kept in
      let (gd', r', e', taken') =
        take-IsAllocated fcg bb cb 1 r.bitmap taken.are_groups k 1 h' at''
          (subst (λ (t : GroupDesc). IsFreeRun t 1 1) (sym same) run') in
      (
        r,
        r',
        e,
        e',
        take_from_bitmap-twice s stride bitmap fcg bb cb 1 1 i k 1 r r' is pos pos' e e',
      )

-- Of a volume that `fill_defaults` has sized, with blocks of 4096 bytes, the superblock and the first
-- descriptor within the first group and two clusters or more in the last one: take any two different
-- groups after the first of the bitmap that `initialize_bitmap` leaves. From both the cluster behind
-- the descriptor can be taken one after the other, by the part of `alloc_from_bitmap` behind its
-- search, and both times the same place of the volume is given out.
pub initialize_bitmap-twice :
    (s : State) (j blocks unit_bits fcg bb cb i k : ℕ)
    → IsSized j blocks s
    → blocks < 2 ^ 32
    → s.blocksize ≡ 4096
    → first_group j < s.global_cpg
    → 2 ≤ s.tail_group_bits
    → 0 < i
    → 0 < k
    → i ≢ k
    → i < s.nr_cluster_groups
    → k < s.nr_cluster_groups
    → (bitmap : AllocBitmap) × (r : Allocated) × (r' : Allocated) × (initialize_bitmap s unit_bits
        ≡ ends (with_first s j, bitmap))
      × (take_from_bitmap fcg bb cb 1 bitmap i 1 ≡ some r)
      × (take_from_bitmap fcg bb cb 1 r.bitmap k 1 ≡ some r')
      × (r'.start ≡ r.start)
initialize_bitmap-twice s j blocks unit_bits fcg bb cb i k is few size in_first two pos pos' differ
      lt lt' =
    let (bitmap, e, divided) =
      initialize_bitmap-IsDivided s j blocks unit_bits is few size (omega arith) in_first in
    let (r, r', taken, taken', same) =
      both_taken s (s.global_cpg * 2 ^ j % 2 ^ 32) bitmap divided two fcg bb cb i k pos pos' differ
        lt lt' in
    (bitmap, r, r', e, taken, taken', same)
