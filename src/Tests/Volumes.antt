-- ===== src/Tests/Volumes.antt =====
-- A small volume: a directory at block 2 with its entries in block 5, and a symbolic link to itself.
use cmfs.Prelude.{
  ℕ, true, false, refl, arith, some, List, [], ◌∷◌, ◌++◌, ◌==◌, if◌then◌else◌, replicate,
}
use cmfs.Err.{ok}
use cmfs.Extents.{ExtentBlock}
use cmfs.Volume.{Volume, Dinode}
use cmfs.Volume.Iterate.Order.{FileBlock}
use cmfs.Dirs.{le, inode_at, rec_len_at, name_len_at}
use cmfs.Dirs.Entries.{Dirent, Entries, bytes_from}

abbrev pub header : ℕ → ℕ → ℕ → List ℕ
header inode rec_len name_len = inode ∷ 0 ∷ 0 ∷ 0 ∷ 0 ∷ 0 ∷ 0 ∷ 0 ∷ rec_len ∷ 0 ∷ name_len ∷ 1 ∷ []

-- Two entries, `.` and `foo`, in 64 bytes.
abbrev pub foo : List ℕ
foo = b'f' ∷ b'o' ∷ b'o' ∷ []

abbrev pub dir_block : List ℕ
dir_block =
    header 2 24 1 ++ (b'.' ∷ 0 ∷ 0 ∷ 0 ∷ replicate 8 0) ++ header 9 40 3 ++ foo ++ replicate 25 0

abbrev pub dir_inode : Dinode
dir_inode = record {
  has_signature = true;
  i_size = 64;
  i_flags = 1;
  i_mode = 16877;
  i_blkno = 2;
  i_clusters = 1;
  i_last_eb_blk = 0;
  i_dyn_features = 0;
  i_list = record {
    l_tree_depth = 0;
    l_count = 2;
    l_next_free_rec = 1;
    l_recs = (record { e_cpos = 0; e_blkno = 5; e_int_blocks = 1 }) ∷ [];
  };
}

abbrev pub file_inode : Dinode
file_inode = record dir_inode { i_mode = 33188; i_blkno = 9 }

-- A symbolic link to `foo`.
abbrev pub link_inode : Dinode
link_inode = record dir_inode {
  i_mode = 41471;
  i_blkno = 9;
  i_size = 3;
  i_list = record {
    l_tree_depth = 0;
    l_count = 2;
    l_next_free_rec = 1;
    l_recs = (record { e_cpos = 0; e_blkno = 6; e_int_blocks = 1 }) ∷ [];
  };
}

-- An extent block at 7, with the records of blocks 20, 21 and 30.
abbrev pub leaf_eb : ExtentBlock
leaf_eb = record {
  has_signature = true;
  h_blkno = 7;
  h_next_leaf_block = 0;
  h_list = record {
    l_tree_depth = 0;
    l_count = 2;
    l_next_free_rec = 2;
    l_recs =
        (record { e_cpos = 0; e_blkno = 20; e_int_blocks = 2 })
        ∷ (record { e_cpos = 2; e_blkno = 30; e_int_blocks = 1 })
        ∷ [];
  };
}

abbrev pub content : ℕ → List ℕ
content b =
    if b == 5
    then dir_block
    else if b == 6
    then foo ++ 0 ∷ []
    else if b == 2
    then 200 ∷ []
    else if b == 9
    then 201 ∷ []
    else 0 ∷ []

abbrev pub small_inode : List ℕ → Dinode
small_inode [] = file_inode
small_inode (b ∷ bs) = if b == 200 then dir_inode else if b == 201 then link_inode else file_inode

abbrev pub volume : Volume (Unit {0})
volume = record {
  fs = record {
    s_clustersize_bits = 6;
    s_blocksize_bits = 6;
    fs_blocks = 100;
    fs_clustersize = 64;
    read_blocks = λ b. ok leaf_eb;
  };
  fs_blocksize = 64;
  read_only = false;
  read_blocks = λ b w. some (ok (content b), w);
  io_write_block = λ b bytes w. some (ok tt, w);
  set_changed = λ w. w;
  as_inode = small_inode;
  inode_bytes = λ di. di.i_blkno ∷ [];
  as_extent_block = λ bytes. leaf_eb;
  extent_block_bytes = λ eb. [];
}

abbrev pub entries : ℕ → List Dirent
entries b =
    (record { inode = 2; rec_len = 24; name = b'.' ∷ [] })
    ∷ (record { inode = 9; rec_len = 40; name = foo })
    ∷ []

pub divided : Entries 64 dir_block 0 (entries 5) 64
unfolding inode_at rec_len_at name_len_at le bytes_from
divided = (
  record {
    has_inode = refl;
    has_rec_len = refl;
    has_name_len = refl;
    has_name = refl;
    aligned = omega arith;
    holds_name = omega arith;
    inside = omega arith;
  },
  (
    record {
      has_inode = refl;
      has_rec_len = refl;
      has_name_len = refl;
      has_name = refl;
      aligned = omega arith;
      holds_name = omega arith;
      inside = omega arith;
    },
    refl,
  ),
)

abbrev pub first_block : FileBlock
first_block = record { blkno = 5; bcount = 0; ext_flags = 0 }
