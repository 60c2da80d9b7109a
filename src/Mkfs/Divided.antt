-- ===== src/Mkfs/Divided.antt =====
-- What `initialize_bitmap` leaves of a volume that `fill_defaults` has sized: cmfs-tools/mkfs.cmfs/mkfs.c.
use cmfs.Prelude.{
  ℕ, zero, suc, ◌+◌, ◌-◌, ◌*◌, ◌%◌, ◌^◌, ◌<◌, ◌≤◌, true, false, ◌≡◌, refl, sym, ap, ◌∙◌, arith,
  some, List, [], ◌∷◌, ◌==◌, length, get_elem?,
}
use mathlib.Core.Path.{subst}
use native.Mathlib.Nat.{le-mul_of_pos_right, one-le-pow}
use cmfs.Extents.Room.{chain_recs_per_inode}
use cmfs.Prelude.Fault.{some_inj}
use cmfs.Mkfs.{BitInfo, AllocGroup, AllocBitmap}
use cmfs.Mkfs.Run.{ends}
use cmfs.Mkfs.Marks.{IsMarked, set_bits-IsMarked, count-marked}
use cmfs.Mkfs.Search.{Leads, AreGroups}
use cmfs.Mkfs.Sizes.{State}
use cmfs.Mkfs.Volume.{IsSized}
use cmfs.Mkfs.Setup.{
  Building, first_group, first_group_blkno, marked_first, as_bitmap, with_first, build_first,
  build_groups, initialize_bitmap,
}
use cmfs.Mkfs.Built.{Each, IsNew, initialize_alloc_group-IsNew}
use cmfs.Mkfs.Growth.{IsUntouched, IsPlaced, rest, IsBuilding, build_groups-IsBuilding}

-- The clusters of the volume are divided into groups that count their bits. All groups but the first
-- have the same block number.
pub record IsDivided (s : State) (stride : ℕ) (bitmap : AllocBitmap) : Type 0 where
  pub groups : AreGroups bitmap.groups
  pub number : length bitmap.groups ≡ s.nr_cluster_groups
  pub chains : bitmap.num_chains ≤ length bitmap.groups
  pub total : bitmap.bi.total_bits ≡ s.volume_size_in_clusters
  pub same_place :
      (k : ℕ) (g : AllocGroup) → get_elem? bitmap.groups k ≡ some g → 0 < k → g.gd.bg_blkno ≡ stride
  pub untouched :
      (k : ℕ) (g : AllocGroup)
      → get_elem? bitmap.groups k ≡ some g
      → 0 < k
      → IsUntouched s.tail_group_bits g.gd

module _ (s : State) (stride : ℕ) (size : s.blocksize ≡ 4096) (few : s.global_cpg ≤ 32256)
    (some_tail : 0 < s.tail_group_bits) (tail_fits : s.tail_group_bits ≤ s.global_cpg)
    (clusters : s.volume_size_in_clusters < 2 ^ 32) where
  abbrev Builds : ℕ → ℕ → Building → Type 0
  Builds i n b = IsBuilding s stride size few some_tail tail_fits clusters i n b

  abbrev left : ℕ → ℕ
  left n = rest s stride size few some_tail tail_fits clusters n

  left-eq : (m : ℕ) → left (suc m) ≡ m * s.global_cpg + s.tail_group_bits
  left-eq zero = omega arith
  left-eq (suc m) = omega (arith, left-eq m)

  one-Each : (P : ℕ → AllocGroup → Type 0) (g : AllocGroup) → P 0 g → Each P (g ∷ [])
  one-Each P g here zero x e = subst (λ (t : AllocGroup). P 0 t) (some_inj e) here
  one-Each P g here (suc k) x e = absurd cc

  -- The first group, behind its first bit and the `n` bits after it.
  marked_first-IsPlaced :
      (j n : ℕ) (g : AllocGroup) (bi : BitInfo) (bitmap : List ℕ)
      → IsNew s.blocksize size
          (first_group_blkno j)
          0
          s.global_cpg
          (record { used_bits = 0; total_bits = 0 })
          g
          bi
      → IsMarked n 1 g.gd.bg_bitmap bitmap
      → n < s.global_cpg
      → IsPlaced stride s.tail_group_bits 1 0 (marked_first s.global_cpg n g bitmap)
  marked_first-IsPlaced j n g bi bitmap is marks lt =
      let more =
        count-marked n 1 g.gd.bg_bits g.gd.bg_bitmap bitmap marks (omega (arith, is.has_bits))
          (λ i inside. is.others (1 + i) (omega arith)) in
      record {
        group = record {
          bytes = marks.bytes;
          fits = omega (arith, marks.same_length, is.group.fits);
          small = is.group.small;
          counted = omega (arith, more, is.group.counted, is.free, is.has_bits);
        };
        leads = subst (λ o. Leads 1 0 o) (sym is.unlinked) tt;
        chained = omega (arith, is.at_chain);
        at_blkno = λ pos. absurd (omega arith);
        untouched = λ pos. absurd (omega arith);
      }

  build_first-IsBuilding :
      (j m : ℕ)
      → s.nr_cluster_groups ≡ suc (suc m)
      → (s.nr_cluster_groups - 1) * s.global_cpg + s.tail_group_bits ≡ s.volume_size_in_clusters
      → first_group j < s.global_cpg
      → (b : Building) × (build_first s j ≡ some b) × Builds 1 (suc m) b
  unfolding build_first
  build_first-IsBuilding j m number divided in_first =
      let n : ℕ = first_group j in
      let (g, bi, e, is) =
        initialize_alloc_group-IsNew s.blocksize size (first_group_blkno j) 0 s.global_cpg
          (record { used_bits = 0; total_bits = 0 }) (omega arith) few in
      let (bitmap, e', marks) =
        set_bits-IsMarked n 1 g.gd.bg_bitmap is.group.bytes
          (omega (arith, is.group.fits, is.has_bits)) in
      let rounds : s.nr_cluster_groups - 1 ≡ suc m = omega arith in
      let whole : suc m * s.global_cpg + s.tail_group_bits ≡ s.volume_size_in_clusters =
        ap (λ (t : ℕ). t * s.global_cpg + s.tail_group_bits) (sym rounds) ∙ divided in
      (
        record {
          groups = marked_first s.global_cpg n g bitmap ∷ [];
          bi = record bi { used_bits = (bi.used_bits + n) % 2 ^ 32 };
          chain = 1;
          wrapped = false;
          cpg = s.global_cpg;
        },
        rw (e, e') refl,
        record {
          len = refl;
          each =
              one-Each (IsPlaced stride s.tail_group_bits 1) (marked_first s.global_cpg n g bitmap)
                (marked_first-IsPlaced j n g bi bitmap is marks in_first);
          chain_in = omega arith;
          chain_few = omega arith;
          wrapped = λ w. absurd cc;
          total = rw is.total (omega (arith, left-eq m, whole));
          cpg = λ pos. refl;
        },
      )

  -- The bitmap that the loop leaves.
  as_bitmap-IsDivided :
      (unit_bits : ℕ) (b : Building)
      → Builds s.nr_cluster_groups 0 b
      → IsDivided s stride (as_bitmap unit_bits 245 b)
  as_bitmap-IsDivided unit_bits b is = record {
    groups = record {
      are = λ k g e. (is.each k g e).group;
      linked = λ k g e. rw is.len (is.each k g e).leads;
      chained = λ k g e. rw is.len (is.each k g e).chained;
    };
    number = is.len;
    chains = ground (arith, is.len, is.chain_in, is.wrapped);
    total = omega (arith, is.total);
    same_place = λ k g e. (is.each k g e).at_blkno;
    untouched = λ k g e. (is.each k g e).untouched;
  }

recs_per_inode : (blocksize : ℕ) → blocksize ≡ 4096 → chain_recs_per_inode blocksize ≡ 245
unfolding chain_recs_per_inode
recs_per_inode blocksize size = rw size refl

-- The parts of `initialize_bitmap`.
runs :
    (s : State) (j m unit_bits : ℕ) (first b : Building)
    → s.blocksize ≡ 4096
    → s.cluster_size_bits - s.blocksize_bits ≡ j
    → s.nr_cluster_groups - 1 ≡ suc m
    → build_first s j ≡ some first
    → build_groups s 245 (s.global_cpg * 2 ^ j % 2 ^ 32) (suc m) 1 first ≡ some b
    → b.bi.total_bits ≡ s.volume_size_in_clusters
    → initialize_bitmap s unit_bits ≡ ends (with_first s j, as_bitmap unit_bits 245 b)
unfolding initialize_bitmap
runs s j m unit_bits first b size c_to_b rounds starts loops total =
    let same : (b.bi.total_bits == s.volume_size_in_clusters) ≡ true = ground arith in
    rw (c_to_b, recs_per_inode s.blocksize size, rounds, starts, loops, same) refl

-- Of a volume that `fill_defaults` has sized, with blocks of 4096 bytes, two groups or more and the
-- superblock and the first descriptor within the first group, `initialize_bitmap` ends without a call
-- of exit: it leaves as many groups as there are, which hold all clusters, count their free bits and
-- are linked to later ones, and no more chains than groups. The groups after
-- the first have no bit taken but the one of their descriptor. But every group after the first is given
-- the block number of the second group.
pub initialize_bitmap-IsDivided :
    (s : State) (j blocks unit_bits : ℕ)
    → IsSized j blocks s
    → blocks < 2 ^ 32
    → s.blocksize ≡ 4096
    → 2 ≤ s.nr_cluster_groups
    → first_group j < s.global_cpg
    → (bitmap : AllocBitmap) × (initialize_bitmap s unit_bits ≡ ends (with_first s j, bitmap))
      × IsDivided s (s.global_cpg * 2 ^ j % 2 ^ 32) bitmap
initialize_bitmap-IsDivided s j blocks unit_bits is few size groups in_first =
    let at_least = le-mul_of_pos_right s.volume_size_in_clusters (one-le-pow j 2 (omega arith)) in
    let clusters : s.volume_size_in_clusters < 2 ^ 32 =
      omega (arith, at_least, is.whole, is.fits) in
    let c_to_b : s.cluster_size_bits - s.blocksize_bits ≡ j =
      omega (arith, is.cluster_bits, is.block_bits) in
    let stride : ℕ = s.global_cpg * 2 ^ j % 2 ^ 32 in
    let m : ℕ = s.nr_cluster_groups - 2 in
    let number : s.nr_cluster_groups ≡ suc (suc m) = omega arith in
    let rounds : s.nr_cluster_groups - 1 ≡ suc m = omega arith in
    let (first, e, start) =
      build_first-IsBuilding s stride size is.group_fits is.tail is.tail_fits clusters j m number
        is.divided in_first in
    let (b, e', end) =
      build_groups-IsBuilding s stride size is.group_fits is.tail is.tail_fits clusters (suc m) 1
        first (omega arith) (omega arith) start in
    let divided =
      as_bitmap-IsDivided s stride size is.group_fits is.tail is.tail_fits clusters unit_bits b
        end in
    (
      as_bitmap unit_bits 245 b,
      runs s j m unit_bits first b size c_to_b rounds e e' divided.total,
      divided,
    )
