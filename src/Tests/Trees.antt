-- ===== src/Tests/Trees.antt =====
-- A filesystem of two-block clusters, a file with two extents in its inode, and a tree of one level.
use cmfs.Prelude.{
  ℕ, zero, suc, ◌+◌, ◌-◌, ◌/◌, ◌^◌, min, ◌<◌, ◌≤◌, true, ◌≡◌, ◌≢◌, refl, ◌⊎◌, arith, some, [], ◌∷◌,
}
use cmfs.Err.{ok}
use cmfs.Extents.{
  ExtentList, ExtentBlock, Fs, blocks_to_clusters, rec_blocks, rec_clusters, clusters_in_bytes,
  checked, read_extent_block_nocheck, read_extent_block, find_child, tree_find_leaf, e_leaf_blocks,
}
use cmfs.Extents.Map.{Clusters, get_clusters}
use cmfs.Extents.Map.Leaf.{end_of, rec_at, IsLeaf, IsMapped, IsHole, get_clusters-cases}
use cmfs.Extents.Descent.{IsTree, tree_find_leaf-IsTree}
use cmfs.Extents.Beyond.{find_child_last}
use cmfs.Extents.Units.{clusters_in_bytes-eq}

-- Two extents: clusters 0 to 1 and 5 to 7.
abbrev leaf_list : ExtentList
leaf_list = record {
  l_tree_depth = 0;
  l_count = 2;
  l_next_free_rec = 2;
  l_recs =
      record { e_cpos = 0; e_blkno = 100; e_int_blocks = 4 }
      ∷ record { e_cpos = 5; e_blkno = 200; e_int_blocks = 6 }
      ∷ [];
}

abbrev leaf_block : ExtentBlock
leaf_block = record { has_signature = true; h_blkno = 9; h_next_leaf_block = 0; h_list = leaf_list }

-- Every block holds that leaf.
abbrev small_fs : Fs
small_fs = record {
  s_clustersize_bits = 13;
  s_blocksize_bits = 12;
  fs_blocks = 1000;
  fs_clustersize = 8192;
  read_blocks = λ b. ok leaf_block;
}

abbrev root_list : ExtentList
root_list = record {
  l_tree_depth = 1;
  l_count = 2;
  l_next_free_rec = 2;
  l_recs =
      record { e_cpos = 0; e_blkno = 9; e_int_blocks = 16 }
      ∷ record { e_cpos = 8; e_blkno = 9; e_int_blocks = 16 }
      ∷ [];
}

leaf_list-IsLeaf : IsLeaf small_fs leaf_list
unfolding rec_clusters rec_blocks e_leaf_blocks blocks_to_clusters
leaf_list-IsLeaf = record {
  no_depth = refl;
  in_array = omega arith;
  rising = rising;
  placed = placed;
  bounded = bounded;
  on_disk = on_disk;
}
  where
    rising : (i j : ℕ) → i < j → j < 2 → end_of small_fs leaf_list i ≤ (rec_at leaf_list j).e_cpos
    rising zero zero h k = absurd (omega arith)
    rising zero (suc zero) h k = omega arith
    rising zero (suc (suc j)) h k = absurd (omega arith)
    rising (suc i) zero h k = absurd (omega arith)
    rising (suc i) (suc j) h k = absurd (omega arith)

    placed : (i : ℕ) → i < 2 → (rec_at leaf_list i).e_blkno ≢ 0
    placed zero h = omega arith
    placed (suc zero) h = omega arith
    placed (suc (suc i)) h = absurd (omega arith)

    bounded : (i : ℕ) → i < 2 → end_of small_fs leaf_list i < 2 ^ 64
    bounded zero h = omega arith
    bounded (suc zero) h = omega arith
    bounded (suc (suc i)) h = absurd (omega arith)

    on_disk :
        (i : ℕ)
        → i < 2
        → blocks_to_clusters small_fs (rec_at leaf_list i).e_blkno
            + rec_clusters small_fs 0 (rec_at leaf_list i)
          < 2 ^ 64
    on_disk zero h = omega arith
    on_disk (suc zero) h = omega arith
    on_disk (suc (suc i)) h = absurd (omega arith)

get_clusters_example :
    (c : Clusters) × (get_clusters small_fs leaf_list 3 ≡ some (ok c))
    × (IsMapped small_fs leaf_list 3 c ⊎ IsHole small_fs leaf_list 3 c)
get_clusters_example = get_clusters-cases small_fs leaf_list leaf_list-IsLeaf 3 (omega arith)

root_list-IsTree : IsTree (λ el _ _. el ≡ leaf_list) 1 small_fs root_list 0 16
unfolding rec_clusters rec_blocks blocks_to_clusters read_extent_block read_extent_block_nocheck
root_list-IsTree = (
  refl,
  omega arith,
  (
    refl,
    omega arith,
    omega arith,
    (leaf_block, refl, (refl, refl)),
    (refl, omega arith, omega arith, (leaf_block, refl, (refl, refl)), refl),
  ),
)

find_leaf_example :
    (leaf : ExtentBlock) × (lo' : ℕ) × (hi' : ℕ) × (tree_find_leaf small_fs root_list 9
      ≡ some (ok leaf))
    × IsTree (λ el _ _. el ≡ leaf_list) 0 small_fs leaf.h_list lo' hi'
    × (lo' ≤ 9)
    × (9 < hi')
find_leaf_example =
    tree_find_leaf-IsTree (λ el _ _. el ≡ leaf_list) 0 small_fs root_list 0 16 9 (omega arith)
      root_list-IsTree (omega arith) (omega arith)

find_child_example :
    find_child small_fs root_list (2 ^ 32) ≡ some (checked (read_extent_block small_fs 9))
find_child_example =
    find_child_last small_fs root_list 1 (record { e_cpos = 8; e_blkno = 9; e_int_blocks = 16 })
      (2 ^ 32) (omega arith) refl refl (omega arith) (omega arith)

clusters_in_bytes_example :
    clusters_in_bytes small_fs (2 ^ 64 - 1) ≡ min ((2 ^ 64 - 1 + 8192 - 1) / 8192) (2 ^ 32 - 1)
clusters_in_bytes_example =
    clusters_in_bytes-eq small_fs (2 ^ 64 - 1) refl (omega arith) (omega arith) (omega arith)
