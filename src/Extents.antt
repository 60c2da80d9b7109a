-- ===== src/Extents.antt =====
-- Extent trees: the unit conversions of cmfs-tools/include/cmfs/cmfs.h, extents.c (reading an
-- extent block), extent_tree.c and extent_map.c of cmfs-tools/libcmfs, on a little-endian machine.
pub mod Units
pub mod Groups
pub mod Room
pub mod Search
pub mod Map
pub mod Descent
pub mod Beyond
use cmfs.Prelude.{
  ℕ, zero, suc, ◌+◌, ◌-◌, ◌*◌, ◌/◌, ◌%◌, ◌^◌, Bool, true, false, ◌&&◌, ◌||◌, not, Option, none,
  some, List, [], ◌∷◌, ltb, leb, ◌==◌, if◌then◌else◌, length, get_elem?,
}
use cmfs.Prelude.Fault.{◌>>=◌}
use cmfs.Err.{bad_blkno, bad_extent_block_magic, corrupt_extent_block, Result, ok, err}

-- `struct cmfs_extent_rec`. The union is kept as its 64 bits, `e_int_blocks`.
pub record ExtentRec : Type 0 where
  pub e_cpos : ℕ
  pub e_blkno : ℕ
  pub e_int_blocks : ℕ

unfoldable pub e_leaf_blocks : ExtentRec → ℕ
e_leaf_blocks rec = rec.e_int_blocks % 2 ^ 32

unfoldable pub e_flags : ExtentRec → ℕ
e_flags rec = rec.e_int_blocks / 2 ^ 32 % 2 ^ 8

-- `struct cmfs_extent_list`; `l_recs` is all of the array.
pub record ExtentList : Type 0 where
  pub l_tree_depth : ℕ
  pub l_count : ℕ
  pub l_next_free_rec : ℕ
  pub l_recs : List ExtentRec

-- `struct cmfs_extent_block`, with whether its signature is that of an extent block.
pub record ExtentBlock : Type 0 where
  pub has_signature : Bool
  pub h_blkno : ℕ
  pub h_next_leaf_block : ℕ
  pub h_list : ExtentList

-- The parts of `cmfs_filesys` and its superblock that the code uses, and the blocks on the disk as
-- `cmfs_read_blocks` gives them.
pub record Fs : Type 0 where
  pub s_clustersize_bits : ℕ
  pub s_blocksize_bits : ℕ
  pub fs_blocks : ℕ
  pub fs_clustersize : ℕ
  pub read_blocks : ℕ → Result ExtentBlock

-- A shift of a `uint32_t`, and only then the cast.
unfoldable pub clusters_to_blocks : Fs → ℕ → ℕ
clusters_to_blocks fs clusters =
    clusters % 2 ^ 32 * 2 ^ (fs.s_clustersize_bits - fs.s_blocksize_bits) % 2 ^ 32

unfoldable pub blocks_to_clusters : Fs → ℕ → ℕ
blocks_to_clusters fs blocks = blocks / 2 ^ (fs.s_clustersize_bits - fs.s_blocksize_bits)

unfoldable pub rec_blocks : Fs → ℕ → ExtentRec → ℕ
unfolding e_leaf_blocks
rec_blocks fs tree_depth rec = if tree_depth == 0 then e_leaf_blocks rec else rec.e_int_blocks

unfoldable pub rec_clusters : Fs → ℕ → ExtentRec → ℕ
unfolding rec_blocks blocks_to_clusters
rec_clusters fs tree_depth rec = blocks_to_clusters fs (rec_blocks fs tree_depth rec)

unfoldable pub clusters_in_bytes : Fs → ℕ → ℕ
clusters_in_bytes fs bytes =
    let sum = (bytes + fs.fs_clustersize - 1) % 2 ^ 64 in
    let ret = (if ltb sum bytes then 2 ^ 64 - 1 else sum) / 2 ^ fs.s_clustersize_bits in
    if ltb (2 ^ 32 - 1) ret then 2 ^ 32 - 1 else ret

-- `CMFS_SUPER_BLOCK_BLKNO`.
abbrev pub super_block_blkno : ℕ
super_block_blkno = 2

unfoldable pub read_extent_block_nocheck : Fs → ℕ → Result ExtentBlock
read_extent_block_nocheck fs blkno =
    if ltb blkno super_block_blkno || ltb fs.fs_blocks blkno
    then err bad_blkno
    else elim (fs.read_blocks blkno) [
      | err e ↦ err e
      | ok eb ↦ if eb.has_signature then ok eb else err bad_extent_block_magic
    ]

-- The test that the list's count of records fits its array. `cmfs_read_extent_block` makes it, and
-- the descent of extent_tree.c makes it again.
abbrev pub checked : Result ExtentBlock → Result ExtentBlock
checked (err e) = err e
checked (ok eb) =
    if ltb eb.h_list.l_count eb.h_list.l_next_free_rec then err corrupt_extent_block else ok eb

unfoldable pub read_extent_block : Fs → ℕ → Result ExtentBlock
unfolding read_extent_block_nocheck
read_extent_block fs blkno = checked (read_extent_block_nocheck fs blkno)

-- The test of `cmfs_search_extent_list`. `rec_end` is a `uint64_t`.
unfoldable pub covers : Fs → ℕ → ExtentRec → ℕ → Bool
unfolding rec_clusters
covers fs tree_depth rec v_cluster =
    leb rec.e_cpos v_cluster
    && ltb v_cluster ((rec.e_cpos + rec_clusters fs tree_depth rec) % 2 ^ 64)

-- The loops over `n` records from record `i` on. `none` is a record beyond the array. The index of
-- the first record that covers the cluster, or -1.
unfoldable pub search_recs : Fs → ℕ → ℕ → ℕ → List ExtentRec → ℕ → Option (Option ℕ)
unfolding covers
search_recs fs tree_depth i zero recs v_cluster = some none
search_recs fs tree_depth i (suc n) [] v_cluster = none
search_recs fs tree_depth i (suc n) (rec ∷ recs) v_cluster =
    let rest = search_recs fs tree_depth (i + 1) n recs v_cluster in
    if covers fs tree_depth rec v_cluster then some (some i) else rest

unfoldable pub search_extent_list : Fs → ExtentList → ℕ → Option (Option ℕ)
unfolding search_recs
search_extent_list fs el v_cluster =
    search_recs fs el.l_tree_depth 0 el.l_next_free_rec el.l_recs v_cluster

unfoldable pub hole_index_from : ℕ → ℕ → List ExtentRec → ℕ → Option ℕ
hole_index_from i zero recs v_cluster = some i
hole_index_from i (suc n) [] v_cluster = none
hole_index_from i (suc n) (rec ∷ recs) v_cluster =
    let rest = hole_index_from (i + 1) n recs v_cluster in
    if ltb v_cluster rec.e_cpos then some i else rest

unfoldable pub search_for_hole_index : ExtentList → ℕ → Option ℕ
unfolding hole_index_from
search_for_hole_index el v_cluster = hole_index_from 0 el.l_next_free_rec el.l_recs v_cluster

-- The record that `__cmfs_find_path` goes down by: the first of all but the last that has the
-- cluster, or the last. `range` is a `uint32_t`.
unfoldable pub child_from : Fs → ℕ → ℕ → ℕ → List ExtentRec → ℕ → Option ℕ
unfolding rec_clusters
child_from fs tree_depth i zero recs cpos = some i
child_from fs tree_depth i (suc n) [] cpos = none
child_from fs tree_depth i (suc n) (rec ∷ recs) cpos =
    let rest = child_from fs tree_depth (i + 1) n recs cpos in
    let range = (rec.e_cpos + rec_clusters fs tree_depth rec) % 2 ^ 32 in
    if leb rec.e_cpos cpos && ltb cpos range then some i else rest

-- A level of the descent: the extent block that the chosen record points to.
unfoldable pub find_child : Fs → ExtentList → ℕ → Option (Result ExtentBlock)
unfolding child_from read_extent_block
find_child fs el cpos = if el.l_next_free_rec == 0 then some (err corrupt_extent_block) else do
  i ← child_from fs el.l_tree_depth 0 (el.l_next_free_rec - 1) el.l_recs cpos
  rec ← get_elem? el.l_recs i
  some (
      if rec.e_blkno == 0
      then err corrupt_extent_block
      else checked (read_extent_block fs rec.e_blkno))

abbrev pub down :
    (ExtentList → Option (Result (List ExtentBlock)))
    → Result ExtentBlock
    → Option (Result (List ExtentBlock))
down next (err e) = some (err e)
down next (ok eb) = next eb.h_list >>= λ r. some (elim r [ err e ↦ err e | ok ebs ↦ ok (eb ∷ ebs) ])

-- No block fits the path any more, so that only an error ends the descent.
abbrev pub no_room : Result ExtentBlock → Option (Result (List ExtentBlock))
no_room (err e) = some (err e)
no_room (ok eb) = none

-- The blocks that are inserted in the path, from index 1 on. There is room for `room` of them.
unfoldable pub find_path_from : ℕ → Fs → ExtentList → ℕ → Option (Result (List ExtentBlock))
unfolding find_child
find_path_from zero fs el cpos =
    if el.l_tree_depth == 0 then some (ok []) else find_child fs el cpos >>= no_room
find_path_from (suc room) fs el cpos =
    let deeper = find_child fs el cpos >>= down (λ el'. find_path_from room fs el' cpos) in
    if el.l_tree_depth == 0 then some (ok []) else deeper

-- `CMFS_MAX_PATH_DEPTH`: the root and four blocks.
abbrev pub max_path_depth : ℕ
max_path_depth = 5

-- `path_leaf_buf`: the last of the `p_tree_depth` blocks.
abbrev pub leaf_of : ℕ → Result (List ExtentBlock) → Option (Result ExtentBlock)
leaf_of depth (err e) = some (err e)
leaf_of depth (ok ebs) = get_elem? ebs (depth - 1) >>= λ eb. some (ok eb)

-- `cmfs_tree_find_leaf`, with the assertions that the depth is 1 or more and below the bound.
unfoldable pub tree_find_leaf : Fs → ExtentList → ℕ → Option (Result ExtentBlock)
unfolding find_path_from
tree_find_leaf fs el cpos =
    if (el.l_tree_depth == 0) || leb max_path_depth el.l_tree_depth
    then none
    else (find_path_from (max_path_depth - 1) fs el cpos >>= leaf_of el.l_tree_depth)
