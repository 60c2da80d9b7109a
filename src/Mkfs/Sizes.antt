-- ===== src/Mkfs/Sizes.antt =====
-- The numbers that mkfs starts from: cmfs-tools/mkfs.cmfs/mkfs.c and mkfs.h.
use cmfs.Prelude.{
  ℕ, zero, suc, ◌+◌, ◌-◌, ◌*◌, ◌/◌, ◌%◌, ◌^◌, Bool, not, Option, none, some, List, ltb, leb, ◌==◌,
  if◌then◌else◌,
}
use cmfs.Prelude.Bits.{has_bit}
use cmfs.Err.{cannot_determine_sector_size, Result, ok, err}
use cmfs.Feature.{FsOptions}
use cmfs.Io.Calls.{min_blocksize}
use cmfs.Extents.Groups.{ClusterGroupSizes, calc_cluster_groups}
use cmfs.Mkfs.Run.{Run, ends, exits, require, ◌>>=◌}

-- `struct _State`, without what is only printed and the bitmaps.
pub record State : Type 0 where
  pub blocksize : ℕ
  pub blocksize_bits : ℕ
  pub cluster_size : ℕ
  pub cluster_size_bits : ℕ
  pub specified_size_in_blocks : ℕ
  pub volume_size_in_bytes : ℕ
  pub volume_size_in_clusters : ℕ
  pub volume_size_in_blocks : ℕ
  pub pagesize_bits : ℕ
  pub journal_size_in_bytes : ℕ
  pub extent_alloc_size_in_clusters : ℕ
  pub initial_slots : ℕ
  pub inline_data : Bool
  pub vol_label : List ℕ
  pub uuid : List ℕ
  pub nr_cluster_groups : ℕ
  pub global_cpg : ℕ
  pub tail_group_bits : ℕ
  pub first_cluster_group : ℕ
  pub first_cluster_group_blkno : ℕ
  pub feature_flags : FsOptions

-- The loop of `get_valid_size`, on fuel; `num` is the size that is asked for.
unfoldable pub valid_loop : ℕ → ℕ → ℕ → ℕ → ℕ → Option ℕ
valid_loop zero num lo hi tmp = none
valid_loop (suc fuel) num lo hi tmp =
    let rest = valid_loop fuel num (lo * 2 % 2 ^ 64) hi lo in
    if leb lo hi
    then (if lo == num then some num else if ltb lo num then rest else some tmp)
    else some tmp

-- `lo` doubles, so that 64 rounds are enough for 64 bits.
unfoldable pub get_valid_size : ℕ → ℕ → ℕ → Option ℕ
unfolding valid_loop
get_valid_size num lo hi = valid_loop 65 num lo hi lo

-- The loop of `get_bits` from bit `i - 1` down; the first round, with a shift by 32, is left out.
unfoldable pub bits_loop : ℕ → ℕ → ℕ → ℕ
bits_loop zero num bits = bits
bits_loop (suc i) num bits = bits_loop i num (if num == 2 ^ i then i else bits)

unfoldable pub get_bits : ℕ → Run ℕ
unfolding bits_loop
get_bits num = let bits = bits_loop 32 num 0 in if bits == 0 then exits else ends bits

unfoldable pub align_bytes_to_clusters_ceil : State → ℕ → ℕ
align_bytes_to_clusters_ceil s bytes =
    let sum = (bytes + s.cluster_size + 2 ^ 64 - 1) % 2 ^ 64 in
    let ret = if ltb sum bytes then 2 ^ 64 - 1 else sum in
    ret / 2 ^ s.cluster_size_bits * 2 ^ s.cluster_size_bits % 2 ^ 64

-- `j_blocks` is an `unsigned int`.
unfoldable pub figure_journal_size : ℕ → State → Run ℕ
unfolding align_bytes_to_clusters_ceil
figure_journal_size size s =
    let j_blocks = size / 2 ^ s.blocksize_bits % 2 ^ 32 in
    if not (has_bit s.feature_flags.opt_compat 1)
    then ends 0
    else if ltb 0 size
    then (if leb s.volume_size_in_blocks j_blocks
        then exits
        else ends (align_bytes_to_clusters_ceil s size))
    else ends (align_bytes_to_clusters_ceil s (32768 * 2 ^ s.blocksize_bits % 2 ^ 32))

abbrev pub figure_extent_alloc_size : ℕ
figure_extent_alloc_size = 4

abbrev pub default_clustersize : ℕ
default_clustersize = 2 ^ 20

-- The sector size that is gone by.
abbrev pub sector : Result ℕ → Run ℕ
sector (ok sectsize) = ends (if sectsize == 0 then min_blocksize else sectsize)
sector (err cannot_determine_sector_size) = ends min_blocksize
sector (err e) = exits

abbrev pub device_blocks : Result ℕ → Run ℕ
device_blocks (ok blocks) = ends blocks
device_blocks (err e) = exits

-- `volume_size_in_blocks` from the size of the device and the size that was asked for.
abbrev pub volume_blocks : State → Result ℕ → Run ℕ
volume_blocks s device =
    if s.volume_size_in_blocks == 0
    then (device_blocks device >>= λ blocks.
        if s.specified_size_in_blocks == 0
        then ends blocks
        else if ltb blocks s.specified_size_in_blocks
        then exits
        else ends s.specified_size_in_blocks)
    else ends s.volume_size_in_blocks

-- A division by 0 is a stop.
abbrev pub as_run : {A : Type 0} → Option A → Run A
as_run none = none
as_run (some a) = ends a

-- The volume cut to clusters.
abbrev pub whole_volume : State → ℕ → ℕ → ℕ → ℕ → ℕ → State
whole_volume s blocks blocksize blocksize_bits cluster_size cluster_size_bits =
    let bytes = blocks * blocksize % 2 ^ 64 in
    let clusters = bytes / 2 ^ cluster_size_bits in
    let whole = clusters * 2 ^ cluster_size_bits % 2 ^ 64 in
    record s {
      blocksize_bits = blocksize_bits;
      cluster_size = cluster_size;
      cluster_size_bits = cluster_size_bits;
      volume_size_in_clusters = clusters;
      volume_size_in_bytes = whole;
      volume_size_in_blocks = whole / 2 ^ blocksize_bits;
    }

abbrev pub with_groups : State → ClusterGroupSizes → State
with_groups s cgs = record s {
  global_cpg = cgs.cgs_cpg;
  nr_cluster_groups = cgs.cgs_cluster_groups;
  tail_group_bits = cgs.cgs_tail_group_bits;
}

abbrev pub with_defaults : State → ℕ → ℕ → State
with_defaults s pagesize_bits journal = record s {
  pagesize_bits = pagesize_bits;
  journal_size_in_bytes = journal;
  extent_alloc_size_in_clusters = figure_extent_alloc_size;
}

-- What `fill_defaults` does with the block size and the cluster size.
unfoldable pub size_volume : ℕ → ℕ → ℕ → ℕ → State → Run State
unfolding get_bits figure_journal_size calc_cluster_groups
size_volume pagesize_bits blocks blocksize cluster_size s = do
  blocksize_bits ← get_bits blocksize
  cluster_size_bits ← get_bits cluster_size
  let volume = whole_volume s blocks blocksize blocksize_bits cluster_size cluster_size_bits
  cgs ← as_run (calc_cluster_groups volume.volume_size_in_clusters blocksize)
  journal ← figure_journal_size s.journal_size_in_bytes (with_groups volume cgs)
  ends (with_defaults (with_groups volume cgs) pagesize_bits journal)

-- `pagesize`, `sectsize` and `device` are what the system says of its pages and of the device.
unfoldable pub fill_defaults : ℕ → Result ℕ → Result ℕ → State → Run State
unfolding get_bits size_volume
fill_defaults pagesize sectsize device s = do
  pagesize_bits ← get_bits pagesize
  sector_size ← sector sectsize
  fits ← require (leb sector_size s.blocksize)
  blocks ← volume_blocks s device
  is_4096 ← require (s.blocksize == 4096)
  size_volume pagesize_bits blocks s.blocksize
      (if s.cluster_size == 0 then default_clustersize else s.cluster_size) s
