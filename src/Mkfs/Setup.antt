-- ===== src/Mkfs/Setup.antt =====
-- How mkfs sets up the cluster bitmap: cmfs-tools/mkfs.cmfs/mkfs.c.
use cmfs.Prelude.{
  ℕ, zero, suc, ◌+◌, ◌-◌, ◌*◌, ◌/◌, ◌%◌, ◌^◌, Bool, true, false, ◌||◌, Option, none, some, List, [],
  ◌∷◌, ◌++◌, leb, ◌==◌, if◌then◌else◌, get_elem?, set, replicate,
}
use cmfs.Prelude.Fault.{◌>>=◌}
use cmfs.Extents.Room.{chain_recs_per_inode}
use cmfs.Mkfs.{BitInfo, AllocGroup, AllocBitmap, set_bits}
use cmfs.Mkfs.Run.{Run, ends, exits}
use cmfs.Mkfs.Sizes.{State}

-- The new group, and the bit info of its owner.
abbrev pub new_group : ℕ → ℕ → ℕ → ℕ → ℕ → List ℕ → BitInfo → AllocGroup × BitInfo
new_group blocksize parent blkno chain bits bitmap bi = (
  record {
    gd = record {
      bg_size = (blocksize + 2 ^ 32 - 64) % 2 ^ 32 % 2 ^ 16;
      bg_bits = bits;
      bg_free_bits_count = (bits + 2 ^ 16 - 1) % 2 ^ 16;
      bg_chain = chain;
      bg_next_group = 0;
      bg_parent_dinode = parent;
      bg_blkno = blkno;
      bg_bitmap = bitmap;
    };
    chain_free = 0;
    chain_total = 0;
    next = none;
  },
  record { used_bits = (bi.used_bits + 1) % 2 ^ 32; total_bits = (bi.total_bits + bits) % 2 ^ 32 },
)

-- The bitmap fills the block behind the 64 bytes of the descriptor; its first bit is set.
unfoldable pub initialize_alloc_group :
    ℕ → ℕ → ℕ → ℕ → ℕ → ℕ → BitInfo → Option (AllocGroup × BitInfo)
unfolding set_bits
initialize_alloc_group blocksize parent blkno chain cpg bpc bi =
    set_bits 1 0 (replicate (blocksize - 64) 0) >>= λ bitmap.
    some (new_group blocksize parent blkno chain (cpg * bpc % 2 ^ 16) bitmap bi)

-- Clusters are not smaller than blocks. The clusters up to the one with the first group descriptor, and the block of that one.
abbrev pub first_group : ℕ → ℕ
first_group c_to_b_bits = (3 + (2 ^ c_to_b_bits - 1)) % 2 ^ 32 / 2 ^ c_to_b_bits

abbrev pub first_group_blkno : ℕ → ℕ
first_group_blkno c_to_b_bits = first_group c_to_b_bits * 2 ^ c_to_b_bits % 2 ^ 32

-- The first group, with the clusters in front of it taken.
abbrev pub marked_first : ℕ → ℕ → AllocGroup → List ℕ → AllocGroup
marked_first cpg n g bitmap =
    let free = (g.gd.bg_free_bits_count + 2 ^ 16 - n % 2 ^ 16) % 2 ^ 16 in
    record g {
      gd = record g.gd { bg_bitmap = bitmap; bg_free_bits_count = free };
      chain_total = cpg;
      chain_free = free;
    }

-- The variables of the loop over the groups.
pub record Building : Type 0 where
  pub groups : List AllocGroup
  pub bi : BitInfo
  pub chain : ℕ
  pub wrapped : Bool
  pub cpg : ℕ

-- The link of the group `recs` places before, where the chains have wrapped.
abbrev pub linked : Bool → ℕ → ℕ → ℕ → List AllocGroup → Option (List AllocGroup)
linked false i recs blkno groups = some groups
linked true i recs blkno groups = get_elem? groups (i - recs) >>= λ g.
    some (
      set groups (i - recs)
        (record g { gd = record g.gd { bg_next_group = blkno }; next = some i }))

-- The totals of the chain that the group is in.
abbrev pub totalled : ℕ → AllocGroup → List AllocGroup → Option (List AllocGroup)
totalled chain new groups = get_elem? groups chain >>= λ head. some (
    set groups chain (record head {
      chain_total = (head.chain_total + new.gd.bg_bits) % 2 ^ 32;
      chain_free = new.gd.bg_free_bits_count;
    }))

-- A round for group `i`; every group is put at `blkno`.
unfoldable pub build_group : State → ℕ → ℕ → ℕ → Building → Option Building
unfolding initialize_alloc_group
build_group s recs blkno i b =
    let cpg = if i == s.nr_cluster_groups - 1 then s.tail_group_bits else b.cpg in
    initialize_alloc_group s.blocksize 0 blkno b.chain cpg 1 b.bi >>= λ (new, bi).
    linked b.wrapped i recs blkno (b.groups ++ new ∷ []) >>= λ groups.
    totalled b.chain new groups >>= λ groups'. some (record {
      groups = groups';
      bi = bi;
      chain = if leb recs (b.chain + 1) then 0 else b.chain + 1;
      wrapped = b.wrapped || leb recs (b.chain + 1);
      cpg = cpg;
    })

unfoldable pub build_groups : State → ℕ → ℕ → ℕ → ℕ → Building → Option Building
unfolding build_group
build_groups s recs blkno zero i b = some b
build_groups s recs blkno (suc n) i b =
    build_group s recs blkno i b >>= build_groups s recs blkno n (i + 1)

abbrev pub as_bitmap : ℕ → ℕ → Building → AllocBitmap
as_bitmap unit_bits recs b = record {
  groups = b.groups;
  unit = 2 ^ unit_bits % 2 ^ 32;
  unit_bits = unit_bits;
  num_chains = if b.wrapped then recs else b.chain;
  bi = b.bi;
}

abbrev pub with_first : State → ℕ → State
with_first s c_to_b_bits = record s {
  first_cluster_group = first_group c_to_b_bits;
  first_cluster_group_blkno = first_group_blkno c_to_b_bits;
}

-- The first group, with the bit info after it.
unfoldable pub build_first : State → ℕ → Option Building
unfolding initialize_alloc_group set_bits
build_first s c_to_b_bits =
    initialize_alloc_group s.blocksize 0 (first_group_blkno c_to_b_bits) 0 s.global_cpg 1
      (record { used_bits = 0; total_bits = 0 })
    >>= λ (g, bi). set_bits (first_group c_to_b_bits) 1 g.gd.bg_bitmap >>= λ bitmap. some (record {
      groups = marked_first s.global_cpg (first_group c_to_b_bits) g bitmap ∷ [];
      bi = record bi { used_bits = (bi.used_bits + first_group c_to_b_bits) % 2 ^ 32 };
      chain = 1;
      wrapped = false;
      cpg = s.global_cpg;
    })

-- The check of the total.
abbrev pub checked : State → ℕ → ℕ → ℕ → Building → Run (State × AllocBitmap)
checked s c_to_b_bits recs unit_bits b =
    if b.bi.total_bits == s.volume_size_in_clusters
    then ends (with_first s c_to_b_bits, as_bitmap unit_bits recs b)
    else exits

unfoldable pub initialize_bitmap : State → ℕ → Run (State × AllocBitmap)
unfolding build_first build_groups chain_recs_per_inode
initialize_bitmap s unit_bits =
    let c_to_b_bits = s.cluster_size_bits - s.blocksize_bits in
    let recs = chain_recs_per_inode s.blocksize in
    build_first s c_to_b_bits >>= λ first.
    build_groups s recs (s.global_cpg * 2 ^ c_to_b_bits % 2 ^ 32) (s.nr_cluster_groups - 1) 1 first
    >>= λ b. checked s c_to_b_bits recs unit_bits b
