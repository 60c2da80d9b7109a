-- ===== src/Extents/Map.antt =====
-- cmfs-tools/libcmfs/extent_map.c: where the clusters and blocks of a file are.
pub mod Leaf
use cmfs.Prelude.{
  ℕ, ◌+◌, ◌-◌, ◌*◌, ◌%◌, ◌^◌, bit_and, Bool, true, false, ◌&&◌, ◌||◌, not, Option, none, some, List,
  ltb, ◌==◌, if◌then◌else◌, get_elem?,
}
use cmfs.Prelude.Fault.{◌>>=◌}
use cmfs.Err.{bad_blkno, corrupt_extent_block, Result, ok, err}
use cmfs.Extents.{
  ExtentRec, e_flags, ExtentList, ExtentBlock, Fs, clusters_to_blocks, blocks_to_clusters,
  rec_clusters, read_extent_block, search_extent_list, search_for_hole_index, tree_find_leaf,
}

-- What follows the label `no_more_extents`.
unfoldable pub hole_end : ExtentList → ℕ → ℕ → Option ℕ
hole_end el i v_cluster =
    if i == el.l_next_free_rec
    then some (2 ^ 64 - 1 - v_cluster)
    else do rec ← get_elem? el.l_recs i; some ((rec.e_cpos + 2 ^ 64 - v_cluster) % 2 ^ 64)

abbrev pub as_ok : Option ℕ → Option (Result ℕ)
as_ok none = none
as_ok (some n) = some (ok n)

-- The hole goes on in the next leaf.
unfoldable pub hole_in_next : Fs → ℕ → Result ExtentBlock → Option (Result ℕ)
unfolding search_for_hole_index hole_end rec_clusters
hole_in_next fs v_cluster (err e) = some (err e)
hole_in_next fs v_cluster (ok next_eb) = search_for_hole_index next_eb.h_list v_cluster >>= λ i.
    if i == 0
    then as_ok (hole_end next_eb.h_list i v_cluster)
    else (get_elem? next_eb.h_list.l_recs 0 >>= λ first.
        if ltb 1 i || not (rec_clusters fs next_eb.h_list.l_tree_depth first == 0)
        then some (err corrupt_extent_block)
        else as_ok (hole_end next_eb.h_list i v_cluster))

-- The block number of the next leaf; 0 also where the list is not in an extent block.
abbrev pub next_leaf : Option ExtentBlock → ℕ
next_leaf none = 0
next_leaf (some eb) = eb.h_next_leaf_block

unfoldable pub figure_hole_clusters : Fs → ExtentList → Option ExtentBlock → ℕ → Option (Result ℕ)
unfolding search_for_hole_index read_extent_block hole_in_next hole_end
figure_hole_clusters fs el eb v_cluster = search_for_hole_index el v_cluster >>= λ i.
    if (i == el.l_next_free_rec) && not (next_leaf eb == 0)
    then hole_in_next fs v_cluster (read_extent_block fs (next_leaf eb))
    else as_ok (hole_end el i v_cluster)

-- What `cmfs_get_clusters` returns; `p_cluster` is 0 for a hole.
pub record Clusters : Type 0 where
  pub p_cluster : ℕ
  pub num_clusters : ℕ
  pub extent_flags : ℕ

abbrev pub hole_of : Result ℕ → Result Clusters
hole_of (err e) = err e
hole_of (ok n) = ok (record { p_cluster = 0; num_clusters = n; extent_flags = 0 })

-- `coff` is a `uint32_t`.
unfoldable pub mapped : Fs → ExtentList → ExtentRec → ℕ → Result Clusters
unfolding blocks_to_clusters rec_clusters e_flags
mapped fs el rec v_cluster =
    let coff = (v_cluster - rec.e_cpos) % 2 ^ 32 in
    if rec.e_blkno == 0
    then err bad_blkno
    else ok (record {
      p_cluster = (blocks_to_clusters fs rec.e_blkno + coff) % 2 ^ 64;
      num_clusters = (rec_clusters fs el.l_tree_depth rec + 2 ^ 64 - coff) % 2 ^ 64;
      extent_flags = e_flags rec;
    })

abbrev pub at_index : Fs → ExtentList → Option ExtentBlock → ℕ → Option ℕ → Option (Result Clusters)
at_index fs el eb v_cluster none = figure_hole_clusters fs el eb v_cluster >>= λ r. some (hole_of r)
at_index fs el eb v_cluster (some i) =
    get_elem? el.l_recs i >>= λ rec. some (mapped fs el rec v_cluster)

-- The rest of `cmfs_get_clusters` once the leaf is known.
unfoldable pub clusters_in_leaf :
    Fs → ExtentList → Option ExtentBlock → ℕ → Option (Result Clusters)
unfolding search_extent_list figure_hole_clusters mapped
clusters_in_leaf fs el eb v_cluster =
    search_extent_list fs el v_cluster >>= at_index fs el eb v_cluster

abbrev pub in_found_leaf : Fs → ℕ → Result ExtentBlock → Option (Result Clusters)
in_found_leaf fs v_cluster (err e) = some (err e)
in_found_leaf fs v_cluster (ok eb) =
    if not (eb.h_list.l_tree_depth == 0)
    then some (err corrupt_extent_block)
    else clusters_in_leaf fs eb.h_list (some eb) v_cluster

-- `i_list` is the list in the inode.
unfoldable pub get_clusters : Fs → ExtentList → ℕ → Option (Result Clusters)
unfolding tree_find_leaf clusters_in_leaf
get_clusters fs i_list v_cluster =
    if i_list.l_tree_depth == 0
    then clusters_in_leaf fs i_list none v_cluster
    else (tree_find_leaf fs i_list v_cluster >>= in_found_leaf fs v_cluster)

-- `*p_blkno` and `*ret_count` of `cmfs_extent_map_get_blocks`, and the flags.
abbrev pub blocks_of : Fs → ℕ → Result Clusters → Result (ℕ × ℕ × ℕ)
blocks_of fs v_blkno (err e) = err e
blocks_of fs v_blkno (ok c) =
    let boff = bit_and v_blkno (clusters_to_blocks fs 1 - 1) in
    ok (
      (if c.p_cluster == 0 then 0 else (clusters_to_blocks fs c.p_cluster + boff) % 2 ^ 64),
      (clusters_to_blocks fs c.num_clusters + 2 ^ 64 - boff) % 2 ^ 64,
      c.extent_flags,
    )

unfoldable pub extent_map_get_blocks : Fs → ExtentList → ℕ → Option (Result (ℕ × ℕ × ℕ))
unfolding get_clusters blocks_to_clusters clusters_to_blocks
extent_map_get_blocks fs i_list v_blkno = do
  r ← get_clusters fs i_list (blocks_to_clusters fs v_blkno)
  some (blocks_of fs v_blkno r)
