-- ===== src/Volume/Iterate/Whole.antt =====
-- The iteration over the blocks of a file whose extents are in its inode.
use cmfs.Prelude.{
  ℕ, zero, Bool, true, false, ◌≡◌, refl, ap, ◌∙◌, arith, none, some, List, ◌==◌, inl, inr,
  Bool-cases,
}
use cmfs.Prelude.Bits.{has_bit}
use cmfs.Err.{ok}
use cmfs.Volume.{Dinode, Volume, in_range, read_inode, with_data, check_directory, is_dir}
use cmfs.Volume.Iterate.Files.{
  BlockFunc, after_walk, extent_iterate_inode, block_iterate_func, block_iterate_inode,
  block_iterate, new_context,
}
use cmfs.Volume.Iterate.{iterate_el}
use cmfs.Volume.Iterate.Order.{FileBlock, Answer, All, visit, quiet}
use cmfs.Volume.Iterate.Trees.{file_blocks, of_data, iterate_leaf-visit}

-- A valid inode with a list of extents and no extent blocks.
pub record IsFlat (inode : Dinode) : Type 0 where
  pub valid : has_bit inode.i_flags 0 ≡ true
  pub no_super : has_bit inode.i_flags 5 ≡ false
  pub no_alloc : has_bit inode.i_flags 6 ≡ false
  pub no_chain : has_bit inode.i_flags 9 ≡ false
  pub not_inline : has_bit inode.i_dyn_features 0 ≡ false
  pub flat : inode.i_list.l_tree_depth ≡ 0
  pub no_blocks : inode.i_last_eb_blk ≡ 0

module _ {W : Type 0} (v : Volume W) (content : ℕ → List ℕ) (append : Bool) (func : BlockFunc W)
    (answer : Answer W) (P : FileBlock → Type 0)
    (answers : (x : FileBlock) (w : W)
      → P x
      → func x.blkno x.bcount x.ext_flags w ≡ some (quiet (answer x w).0, (answer x w).1)) where
  pub block_iterate_inode-visit :
      (inode : Dinode) (xs : List FileBlock) (w : W)
      → IsFlat inode
      → file_blocks v content append inode.i_size zero inode.i_list ≡ some xs
      → All P xs
      → block_iterate_inode v func append inode w ≡ some (ok tt, inode, (visit answer xs w).1)
  unfolding block_iterate_inode extent_iterate_inode after_walk
  block_iterate_inode-visit inode xs w is e ps =
      let (c, run, seen, last) =
        iterate_leaf-visit v content append inode.i_size func answer P answers
          (λ c. c.last_eb_blkno ≡ 0) (λ c n w' k. k) inode.i_list 0
          (record { ccount = 0; errcode = none; last_eb_blkno = 0; last_eb_cpos = 0; world = w }) xs
          refl e ps in
      let run' =
        ap
          (λ d.
            iterate_el v (of_data v content append inode.i_size func answer P answers)
              (block_iterate_func v func append inode.i_size) d inode.i_list 0
              (new_context v (of_data v content append inode.i_size func answer P answers)
                (block_iterate_func v func append inode.i_size) w))
          is.flat
        ∙ run in
      let same : (inode.i_last_eb_blk == c.last_eb_blkno) ≡ true =
        ground (arith, is.no_blocks, last) in
      rw (is.valid, is.no_super, is.no_alloc, is.no_chain, is.not_inline, run', same, seen)
        (elim (Bool-cases ((visit answer xs w).0)) [ inl a ↦ rw a refl | inr a ↦ rw a refl ])

-- The sound inode at a block number, on a disk with this content.
pub record IsInode {W : Type 0} (v : Volume W) (content : ℕ → List ℕ) (blkno : ℕ) (di : Dinode)
    : Type 0 where
  pub range : in_range v.fs blkno ≡ true
  pub as_read : v.as_inode (content blkno) ≡ di
  pub signed : di.has_signature ≡ true

pub with_data-IsInode :
    {W P : Type 0} (v : Volume W) (content : ℕ → List ℕ) (blkno : ℕ) (di : Dinode)
    → IsInode v content blkno di
    → IsInode (with_data {P = P} v) content blkno di
with_data-IsInode v content blkno di is = record {
  range = is.range;
  as_read = is.as_read;
  signed = is.signed;
}

-- Reads that succeed and change nothing that can be seen.
abbrev pub Reads : {W : Type 0} → Volume W → (ℕ → List ℕ) → Type 0
Reads {W} v content = (b : ℕ) (w : W) → v.read_blocks b w ≡ some (ok (content b), w)

pub with_data-Reads :
    {W P : Type 0} (v : Volume W) (content : ℕ → List ℕ)
    → Reads v content
    → Reads (with_data {P = P} v) content
with_data-Reads v content reads b (w, p) = rw (reads b w) refl

pub read_inode-IsInode :
    {W : Type 0} (v : Volume W) (content : ℕ → List ℕ) (blkno : ℕ) (di : Dinode) (w : W)
    → Reads v content
    → IsInode v content blkno di
    → read_inode v blkno w ≡ some (ok di, w)
unfolding read_inode
read_inode-IsInode v content blkno di w reads is =
    rw (is.range, reads blkno w, is.as_read, is.signed) refl

pub check_directory-IsInode :
    {W : Type 0} (v : Volume W) (content : ℕ → List ℕ) (blkno : ℕ) (di : Dinode) (w : W)
    → Reads v content
    → IsInode v content blkno di
    → is_dir di ≡ true
    → check_directory v blkno w ≡ some (ok tt, w)
unfolding check_directory
check_directory-IsInode v content blkno di w reads is of_dir =
    rw (is.range, read_inode-IsInode v content blkno di w reads is, of_dir) refl

-- On a disk whose reads succeed, `cmfs_block_iterate` of a sound flat inode shows the blocks of the
-- file in order, up to its size, until the caller stops, and writes nothing.
pub block_iterate-visit :
    {W : Type 0} (v : Volume W) (content : ℕ → List ℕ) (append : Bool) (func : BlockFunc W)
    (answer : Answer W) (P : FileBlock → Type 0)
    (answers : (x : FileBlock) (w : W)
      → P x
      → func x.blkno x.bcount x.ext_flags w ≡ some (quiet (answer x w).0, (answer x w).1))
    (blkno : ℕ) (di : Dinode) (xs : List FileBlock) (w : W)
    → Reads v content
    → IsInode v content blkno di
    → IsFlat di
    → file_blocks v content append di.i_size zero di.i_list ≡ some xs
    → All P xs
    → block_iterate v func append blkno w ≡ some (ok tt, (visit answer xs w).1)
unfolding block_iterate
block_iterate-visit v content append func answer P answers blkno di xs w reads is flat e ps =
    rw
      (
        read_inode-IsInode v content blkno di w reads is,
        block_iterate_inode-visit v content append func answer P answers di xs w flat e ps,
      )
      refl
