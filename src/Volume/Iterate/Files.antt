-- ===== src/Volume/Iterate/Files.antt =====
-- The iteration over the extents of an inode and over the blocks of a file: extents.c.
use cmfs.Prelude.{
  ℕ, zero, suc, ◌+◌, ◌*◌, ◌%◌, ◌^◌, Bool, true, false, ◌&&◌, ◌||◌, not, Option, none, some, leb,
  ◌==◌, if◌then◌else◌,
}
use cmfs.Prelude.Bits.{has_bit}
use cmfs.Prelude.Fault.{◌>>=◌}
use cmfs.Err.{inode_not_valid, inode_cannot_be_iterated, Result, ok, err}
use cmfs.Extents.{ExtentList, e_flags, rec_clusters, clusters_to_blocks}
use cmfs.Volume.{M, Dinode, Volume, read_inode, write_inode}
use cmfs.Volume.Iterate.{Iret, no_bits, ExtentContext, ExtentFunc, IterateFlags, iterate_el}

module _ {W : Type 0} (v : Volume W) (flags : IterateFlags) (func : ExtentFunc W) where
  -- What follows the walk over the whole tree: `i_last_eb_blk` is brought up to date, and an inode
  -- that was changed is written. `abort` leaves `i_last_eb_blk` alone.
  abbrev pub kept_inode :
      Dinode → Option (Result (Unit {0}) × W) → Option (Result (Unit {0}) × Dinode × W)
  kept_inode inode none = none
  kept_inode inode (some (r, w)) = some (r, inode, w)

  unfoldable pub after_walk :
      Dinode → Iret × ExtentList × ExtentContext W → Option (Result (Unit {0}) × Dinode × W)
  after_walk inode (iret, el, c) =
      let walked = record inode { i_list = el } in
      let stale = not iret.abort && not (inode.i_last_eb_blk == c.last_eb_blkno) in
      let inode' = if stale then record walked { i_last_eb_blk = c.last_eb_blkno } else walked in
      (if iret.error then c.errcode else some none) >>= λ failed. elim failed [
        | some e ↦ some (err e, inode', c.world)
        | none ↦
            if iret.changed || stale
            then kept_inode inode' (write_inode v inode.i_blkno inode' c.world)
            else some (ok tt, inode', c.world)
      ]

  abbrev pub new_context : W → ExtentContext W
  new_context w = record {
    ccount = 0;
    errcode = none;
    last_eb_blkno = 0;
    last_eb_cpos = 0;
    world = w;
  }

  -- `CMFS_VALID_FL`; `CMFS_SUPER_BLOCK_FL`, `CMFS_LOCAL_ALLOC_FL` and `CMFS_CHAIN_FL`;
  -- `CMFS_INLINE_DATA_FL`.
  unfoldable pub extent_iterate_inode : Dinode → W → Option (Result (Unit {0}) × Dinode × W)
  extent_iterate_inode inode w =
      if not (has_bit inode.i_flags 0)
      then some (err inode_not_valid, inode, w)
      else if has_bit inode.i_flags 5
          || has_bit inode.i_flags 6
          || has_bit inode.i_flags 9
          || has_bit inode.i_dyn_features 0
      then some (err inode_cannot_be_iterated, inode, w)
      else (iterate_el v flags func inode.i_list.l_tree_depth inode.i_list 0 (new_context w)
          >>= after_walk inode)

-- A call `func(fs, blkno, bcount, ext_flags, priv_data)`.
abbrev pub BlockFunc : Type 0 → Type 0
BlockFunc W = ℕ → ℕ → ℕ → W → Option (Iret × W)

module _ {W : Type 0} (v : Volume W) (func : BlockFunc W) where
  -- The loop over `n` blocks. A block that starts behind the end of the file ends it, unless the
  -- caller asks for such blocks (`CMFS_BLOCK_FLAG_APPEND`).
  unfoldable pub iterate_blocks : Bool → ℕ → ℕ → ℕ → ℕ → ℕ → Iret → W → Option (Iret × W)
  iterate_blocks append i_size flags zero blkno bcount iret w = some (iret, w)
  iterate_blocks append i_size flags (suc n) blkno bcount iret w =
      let next = func blkno bcount flags w >>= λ (r, w').
      let rest = iterate_blocks append i_size flags n ((blkno + 1) % 2 ^ 64) (bcount + 1) r w' in
      if r.abort then some (r, w') else rest in
      if leb i_size (bcount * v.fs_blocksize % 2 ^ 64) && not append then some (iret, w) else next

  unfoldable pub block_iterate_func : Bool → ℕ → ExtentFunc W
  block_iterate_func append i_size rec tree_depth ccount ref_blkno recno w =
      iterate_blocks append i_size (e_flags rec)
        (clusters_to_blocks v.fs (rec_clusters v.fs tree_depth rec)) rec.e_blkno
        (clusters_to_blocks v.fs rec.e_cpos) no_bits w
      >>= λ (r, w'). some (r, rec, w')

  unfoldable pub block_iterate_inode : Bool → Dinode → W → Option (Result (Unit {0}) × Dinode × W)
  block_iterate_inode append inode w =
      extent_iterate_inode v (record { depth_traverse = false; data_only = true })
        (block_iterate_func append inode.i_size) inode w

  abbrev pub without_inode :
      Option (Result (Unit {0}) × Dinode × W) → Option (Result (Unit {0}) × W)
  without_inode none = none
  without_inode (some (r, _, w)) = some (r, w)

  abbrev iterate_over : Bool → Option (Result Dinode × W) → Option (Result (Unit {0}) × W)
  iterate_over append none = none
  iterate_over append (some (err e, w)) = some (err e, w)
  iterate_over append (some (ok inode, w)) = without_inode (block_iterate_inode append inode w)

  unfoldable pub block_iterate : Bool → ℕ → M W (Unit {0})
  block_iterate append blkno w = iterate_over append (read_inode v blkno w)
