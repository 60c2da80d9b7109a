-- ===== src/FileIo.antt =====
-- Reading a file: fileio.c of cmfs-tools/libcmfs.
pub mod Content
pub mod Size
pub mod Loop
pub mod Whole
pub mod Stuck
use cmfs.Prelude.{
  ℕ, zero, suc, ◌+◌, ◌-◌, ◌*◌, ◌/◌, ◌%◌, ◌^◌, bit_and, Bool, true, false, ◌&&◌, ◌||◌, not, Option,
  none, some, List, [], ◌∷◌, ◌++◌, ltb, leb, ◌==◌, if◌then◌else◌, replicate,
}
use cmfs.Prelude.Bits.{has_bit}
use cmfs.Err.{invalid_argument, Err, Result, ok, err}
use cmfs.Extents.Map.{extent_map_get_blocks}
use cmfs.Volume.{M, Dinode, Volume}

-- `*got` and the bytes that were put into the buffer, with how the call ends.
pub record FileRead (W : Type 0) : Type 0 where
  pub ret : Result (Unit {0})
  pub got : ℕ
  pub out : List ℕ
  pub world : W

-- `read_run` is `cmfs_read_blocks` of a number of blocks.
module _ {W : Type 0} (v : Volume W) (read_run : ℕ → ℕ → M W (List ℕ)) where
  -- The end of the loop: `*got` does not pass the end of the file.
  unfoldable pub limit_got : ℕ → ℕ → ℕ → ℕ
  limit_got i_size offset got =
      if ltb i_size ((got + offset) % 2 ^ 64)
      then (i_size + 2 ^ 64 - offset) % 2 ^ 64 % 2 ^ 32
      else got

  -- What a run of blocks is after_fill with: zeros in a hole or an extent without data.
  abbrev pub fill : ℕ × ℕ × ℕ → ℕ → W → Option (Result (List ℕ) × W)
  fill (p_blkno, contig, flags) n w =
      if (p_blkno == 0) || has_bit flags 0
      then some (ok (replicate (n * v.fs_blocksize) 0), w)
      else read_run p_blkno n w

  -- What follows in the loop, with `next` for its next round.
  abbrev pub after_fill :
      (ℕ → ℕ → ℕ → List ℕ → W → Option (FileRead W))
      → ℕ
      → ℕ
      → ℕ
      → ℕ
      → ℕ
      → ℕ
      → List ℕ
      → Option (Result (List ℕ) × W)
      → Option (FileRead W)
  after_fill next i_size offset n wanted v_blkno got out none = none
  after_fill next i_size offset n wanted v_blkno got out (some (err e, w)) =
      some (record { ret = err e; got = got; out = out; world = w })
  after_fill next i_size offset n wanted v_blkno got out (some (ok bytes, w)) =
      let got' = (got + n * 2 ^ v.fs.s_blocksize_bits) % 2 ^ 32 in
      let last : FileRead W = record {
        ret = ok tt;
        got = limit_got i_size offset got';
        out = out ++ bytes;
        world = w;
      } in
      let on = next (wanted - n) (v_blkno + n) got' (out ++ bytes) w in
      if wanted - n == 0 then some last else on

  abbrev pub after_map :
      (ℕ → ℕ → ℕ → List ℕ → W → Option (FileRead W))
      → ℕ
      → ℕ
      → ℕ
      → ℕ
      → ℕ
      → List ℕ
      → W
      → Option (Result (ℕ × ℕ × ℕ))
      → Option (FileRead W)
  after_map next i_size offset wanted v_blkno got out w none = none
  after_map next i_size offset wanted v_blkno got out w (some (err e)) =
      some (record { ret = err e; got = got; out = out; world = w })
  after_map next i_size offset wanted v_blkno got out w (some (ok (p_blkno, contig, flags))) =
      let n = if ltb wanted contig then wanted else contig in
      after_fill next i_size offset n wanted v_blkno got out (fill (p_blkno, contig, flags) n w)

  -- The loop, while blocks are wanted.
  unfoldable pub read_wanted : ℕ → Dinode → ℕ → ℕ → ℕ → ℕ → List ℕ → W → Option (FileRead W)
  read_wanted zero inode offset wanted v_blkno got out w = none
  read_wanted (suc fuel) inode offset wanted v_blkno got out w =
      let round =
        after_map (read_wanted fuel inode offset) inode.i_size offset wanted v_blkno got out w
          (extent_map_get_blocks v.fs inode.i_list v_blkno) in
      if wanted == 0 then some (record { ret = ok tt; got = got; out = out; world = w }) else round

  -- `ptr` is the address of the buffer, and `got` what `*got` was before.
  unfoldable pub file_read : Dinode → ℕ → ℕ → ℕ → ℕ → W → Option (FileRead W)
  file_read inode ptr count offset got w =
      let tmp = v.fs_blocksize - 1 in
      let wanted = count / 2 ^ v.fs.s_blocksize_bits in
      let v_blkno = offset / 2 ^ v.fs.s_blocksize_bits in
      let num_blocks = (inode.i_size + v.fs_blocksize - 1) % 2 ^ 64 / 2 ^ v.fs.s_blocksize_bits in
      let aligned =
        (bit_and count tmp == 0) && (bit_and offset tmp == 0) && (bit_and ptr tmp == 0) in
      let wanted' = if ltb num_blocks (v_blkno + wanted) then num_blocks - v_blkno else wanted in
      if not aligned
      then some (record { ret = err invalid_argument; got = got; out = []; world = w })
      else if leb num_blocks v_blkno
      then some (record { ret = ok tt; got = 0; out = []; world = w })
      else read_wanted (suc wanted') inode offset wanted' v_blkno 0 [] w
