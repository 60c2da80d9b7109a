-- ===== src/Tests/Directories.antt =====
-- The theorems on files and directories at a small volume with one directory.
use cmfs.Prelude.{
  ℕ, true, false, ◌≡◌, refl, arith, none, some, List, [], ◌∷◌, ◌++◌, length, replicate,
}
use cmfs.Tests.Volumes.{
  header, foo, dir_block, dir_inode, content, volume, entries, divided, first_block,
}
use cmfs.Err.{Result, ok}
use cmfs.Extents.{
  ExtentList, e_leaf_blocks, e_flags, rec_clusters, rec_blocks, clusters_to_blocks,
  blocks_to_clusters,
}
use cmfs.Volume.{with_data, in_range, is_dir, read_inode, check_directory}
use cmfs.Volume.Iterate.Files.{
  BlockFunc, block_iterate, block_iterate_inode, extent_iterate_inode, block_iterate_func,
  iterate_blocks, after_walk,
}
use cmfs.Volume.Iterate.{
  IterateFlags, ExtentContext, iterate_el, iterate_recs, after_recs, leaf_step,
}
use cmfs.Volume.Iterate.Trees
use cmfs.Volume.Iterate.Trees.{iterate_el-visit}
use cmfs.Volume.Iterate.Order.{quiet, blocks_from, over_recs}
use cmfs.Prelude.Bits.{has_bit}
use cmfs.Dirs.Lookups.{Lookup, no_flags, lookup, lookup_proc, same_name}
use cmfs.Dirs.Blocks.{
  xlate_func, dir_iterate, dir_iterate2, iterate_dir, process_dir_block, read_dir_block,
}
use cmfs.Dirs.{
  le, inode_at, rec_len_at, name_len_at, swap_dir_entries, swap_loop, process_dir_entry,
  process_entries, bad_lengths, skipped, call_func, next_entry,
}
use cmfs.Dirs.Entries.{Dirent, Entries, bytes_from, visit}
use cmfs.Dirs.Block.{process_dir_entry-visit}
use cmfs.Dirs.Check.{swap_dir_entries_total, short_block-reads_beyond}
use cmfs.Dirs.Names.{find_entry, NoNul, lookup_answer, lookup_proc-answer}
use cmfs.Dirs.Found.{lookup-find_entry, found_or_not}

-- Any name in the directory.
pub lookup_in_root :
    (name : List ℕ)
    → NoNul name
    → lookup volume 2 name (length name) tt
      ≡ some (found_or_not (find_entry name (entries 5 ++ [])), tt)
unfolding in_range is_dir has_bit Trees.file_blocks over_recs Trees.leaf_blocks Trees.blocks_of_rec
    blocks_from e_leaf_blocks e_flags rec_clusters clusters_to_blocks blocks_to_clusters rec_blocks
lookup_in_root name clean =
    lookup-find_entry volume content entries (λ b w. refl) name clean 2 dir_inode (first_block ∷ [])
      tt (record { range = refl; as_read = refl; signed = refl }) refl
      (record {
        valid = refl;
        no_super = refl;
        no_alloc = refl;
        no_chain = refl;
        not_inline = refl;
        flat = refl;
        no_blocks = refl;
      })
      refl ((divided, refl), tt)

lookup-find_entry_example : lookup volume 2 foo 3 tt ≡ some (ok 9, tt)
unfolding in_range is_dir has_bit Trees.file_blocks over_recs Trees.leaf_blocks Trees.blocks_of_rec
    blocks_from e_leaf_blocks e_flags rec_clusters clusters_to_blocks blocks_to_clusters rec_blocks
    found_or_not find_entry
lookup-find_entry_example =
    lookup-find_entry volume content entries (λ b w. refl) foo
      (omega arith, (omega arith, (omega arith, tt))) 2 dir_inode (first_block ∷ []) tt
      (record { range = refl; as_read = refl; signed = refl }) refl
      (record {
        valid = refl;
        no_super = refl;
        no_alloc = refl;
        no_chain = refl;
        not_inline = refl;
        flat = refl;
        no_blocks = refl;
      })
      refl ((divided, refl), tt)

lookup_runs : lookup volume 2 foo 3 tt ≡ some (ok 9, tt)
unfolding in_range is_dir has_bit e_leaf_blocks e_flags rec_clusters clusters_to_blocks
    blocks_to_clusters lookup dir_iterate dir_iterate2 read_inode check_directory iterate_dir
    block_iterate block_iterate_inode extent_iterate_inode iterate_el iterate_recs after_recs
    leaf_step block_iterate_func iterate_blocks after_walk rec_blocks process_dir_block
    read_dir_block swap_dir_entries swap_loop process_dir_entry process_entries bad_lengths skipped
    call_func next_entry lookup_proc same_name inode_at rec_len_at name_len_at le
lookup_runs = refl

foo-NoNul : NoNul foo
foo-NoNul = (omega arith, (omega arith, (omega arith, tt)))

process_dir_entry-visit_example :
    process_dir_entry
      (with_data {P = Lookup} volume)
      no_flags
      (xlate_func (lookup_proc foo 3))
      2
      5
      1
      dir_block
      (tt, record { inode = 0; found = false })
    ≡ some (
      ok tt,
      record {
        offset = 24;
        next_real_entry = 24;
        entry = 3;
        changed = false;
        do_abort = true;
        buf = dir_block;
        world = (tt, record { inode = 9; found = true });
      },
    )
unfolding visit
process_dir_entry-visit_example =
    process_dir_entry-visit (with_data {P = Lookup} volume) no_flags
      (xlate_func (lookup_proc foo 3)) 2 5 dir_block refl (lookup_answer foo foo-NoNul)
      (λ k o e s is. lookup_proc-answer foo foo-NoNul k 5 o 64 dir_block e s is) (entries 5) 1
      (tt, record { inode = 0; found = false }) divided

-- The entries end 4 bytes before the end of the block.
abbrev short_block : List ℕ
short_block =
    header 2 24 1 ++ (b'.' ∷ 0 ∷ 0 ∷ 0 ∷ replicate 8 0) ++ header 9 36 3 ++ foo ++ replicate 25 0

abbrev short_entries : List Dirent
short_entries =
    (record { inode = 2; rec_len = 24; name = b'.' ∷ [] })
    ∷ (record { inode = 9; rec_len = 36; name = foo })
    ∷ []

short_divided : Entries 64 short_block 0 short_entries 60
unfolding inode_at rec_len_at name_len_at le bytes_from
short_divided = (
  record {
    has_inode = refl;
    has_rec_len = refl;
    has_name_len = refl;
    has_name = refl;
    aligned = omega arith;
    holds_name = omega arith;
    inside = omega arith;
  },
  (
    record {
      has_inode = refl;
      has_rec_len = refl;
      has_name_len = refl;
      has_name = refl;
      aligned = omega arith;
      holds_name = omega arith;
      inside = omega arith;
    },
    refl,
  ),
)

abbrev bar : List ℕ
bar = b'b' ∷ b'a' ∷ b'r' ∷ []

bar-NoNul : NoNul bar
bar-NoNul = (omega arith, (omega arith, (omega arith, tt)))

-- A name that the block does not have is looked for behind it.
short_block-reads_beyond_example :
    (swap_dir_entries short_block 64 ≡ some (ok tt))
    × (process_dir_entry
          (with_data {P = Lookup} volume)
          no_flags
          (xlate_func (lookup_proc bar 3))
          2
          5
          1
          short_block
          (tt, record { inode = 0; found = false })
        ≡ none)
unfolding visit
short_block-reads_beyond_example =
    short_block-reads_beyond (with_data {P = Lookup} volume) no_flags
      (xlate_func (lookup_proc bar 3)) 2 5 short_block refl (lookup_answer bar bar-NoNul)
      (λ k o e s is. lookup_proc-answer bar bar-NoNul k 5 o 64 short_block e s is) short_entries 1
      60 (tt, record { inode = 0; found = false }) refl short_divided (omega arith) (omega arith)
      refl

swap_dir_entries_total_example : (r : Result (Unit {0})) × (swap_dir_entries dir_block 64 ≡ some r)
swap_dir_entries_total_example = swap_dir_entries_total dir_block 64 (omega arith)

-- A list of one record, of the extent block at 7, and a function that collects block numbers.
abbrev root_list : ExtentList
root_list = record {
  l_tree_depth = 1;
  l_count = 1;
  l_next_free_rec = 1;
  l_recs = (record { e_cpos = 0; e_blkno = 7; e_int_blocks = 3 }) ∷ [];
}

abbrev collect : BlockFunc (Unit {0} × List ℕ)
collect blkno bcount ext_flags (w, seen) = some (quiet false, (w, blkno ∷ seen))

abbrev of_data : IterateFlags
of_data = record { depth_traverse = false; data_only = true }

abbrev context : ExtentContext (Unit {0} × List ℕ)
context = record {
  ccount = 0;
  errcode = none;
  last_eb_blkno = 0;
  last_eb_cpos = 0;
  world = (tt, []);
}

iterate_el-visit_example :
    (c : ExtentContext (Unit {0} × List ℕ)) × (iterate_el
        (with_data volume)
        of_data
        (block_iterate_func (with_data volume) collect false 10000)
        1
        root_list
        0
        context
      ≡ some (quiet false, root_list, c))
    × (c.world ≡ (tt, 30 ∷ 21 ∷ 20 ∷ []))
unfolding in_range Trees.file_blocks Trees.list_at over_recs Trees.leaf_blocks Trees.blocks_of_rec
    blocks_from e_leaf_blocks e_flags rec_clusters clusters_to_blocks blocks_to_clusters rec_blocks
iterate_el-visit_example =
    iterate_el-visit (with_data volume) content false 10000 collect
      (λ x (w, seen). (false, (w, x.blkno ∷ seen))) (λ x. Unit {0}) (λ x s p. refl) (λ b s. refl) 1
      root_list 0 context
      ((record { blkno = 20; bcount = 0; ext_flags = 0 })
        ∷ (record { blkno = 21; bcount = 1; ext_flags = 0 })
        ∷ (record { blkno = 30; bcount = 2; ext_flags = 0 })
        ∷ [])
      refl (tt, (tt, (tt, tt)))
