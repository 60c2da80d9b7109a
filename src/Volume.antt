-- ===== src/Volume.antt =====
-- What the code above the block layer has of a `cmfs_filesys`: the device behind `fs_io`, how the
-- structures of cmfs-tools/include/cmfs-kernel/cmfs_fs.h lie over the bytes of a block, and the
-- inodes, group descriptors and extent blocks that are read and written through it.
pub mod Iterate
use cmfs.Prelude.{
  ℕ, ◌+◌, ◌-◌, ◌/◌, ◌%◌, ◌^◌, Bool, true, false, ◌&&◌, ◌||◌, not, ◌≡◌, Option, none, some, List,
  ltb, ◌==◌, if◌then◌else◌, ◌++◌, length, drop,
}
use cmfs.Prelude.Text.{codes}
use cmfs.Err.{
  bad_blkno, bad_inode_magic, bad_group_desc_magic, ro_filesys, no_directory, Err, Result, ok, err,
}
use cmfs.Extents.{Fs, ExtentList, ExtentBlock, super_block_blkno, read_extent_block}

-- A run of a function with an `errcode_t`, from a state of the device and the caller's data.
abbrev pub M : Type 0 → Type 0 → Type 0
M W A = W → Option (Result A × W)

abbrev pub goes_on : {W A B : Type 0} → (A → M W B) → Option (Result A × W) → Option (Result B × W)
goes_on f none = none
goes_on f (some (err e, w)) = some (err e, w)
goes_on f (some (ok a, w)) = f a w

-- `if (ret) goto out;`
infixl 5 ◌>>=◌ ◌>>◌
abbrev pub ◌>>=◌ : {W A B : Type 0} → M W A → (A → M W B) → M W B
◌>>=◌ m f w = goes_on f (m w)

abbrev pub ◌>>◌ : {W B : Type 0} → M W (Unit {0}) → M W B → M W B
m >> k = m >>= λ _. k

abbrev pub done : {W A : Type 0} → Result A → M W A
done r w = some (r, w)

abbrev pub check : {W : Type 0} → Bool → Err → M W (Unit {0})
check test e w = some (if test then ok tt else err e, w)

-- `struct cmfs_dinode`, with whether its signature is that of an inode. `i_list` is `id2.i_list`.
pub record Dinode : Type 0 where
  pub has_signature : Bool
  pub i_size : ℕ
  pub i_flags : ℕ
  pub i_mode : ℕ
  pub i_blkno : ℕ
  pub i_clusters : ℕ
  pub i_last_eb_blk : ℕ
  pub i_dyn_features : ℕ
  pub i_list : ExtentList

-- `fs.read_blocks` is used by the descent of an extent tree only: other blocks come from the device.
-- Allocation succeeds.
pub record Volume (W : Type 0) : Type 0 where
  pub fs : Fs
  pub fs_blocksize : ℕ
  pub read_only : Bool
  pub read_blocks : ℕ → M W (List ℕ)
  pub io_write_block : ℕ → List ℕ → M W (Unit {0})
  pub set_changed : W → W
  pub as_inode : List ℕ → Dinode
  pub inode_bytes : Dinode → List ℕ
  pub as_extent_block : List ℕ → ExtentBlock
  pub extent_block_bytes : ExtentBlock → List ℕ

-- The same volume for a caller with data of its own.
abbrev pub kept : {W P A : Type 0} → P → Option (Result A × W) → Option (Result A × (W × P))
kept p none = none
kept p (some (r, w)) = some (r, (w, p))

abbrev pub with_data : {W P : Type 0} → Volume W → Volume (W × P)
with_data v = record {
  fs = v.fs;
  fs_blocksize = v.fs_blocksize;
  read_only = v.read_only;
  read_blocks = λ b (w, p). kept p (v.read_blocks b w);
  io_write_block = λ b bytes (w, p). kept p (v.io_write_block b bytes w);
  set_changed = λ (w, p). (v.set_changed w, p);
  as_inode = v.as_inode;
  inode_bytes = v.inode_bytes;
  as_extent_block = v.as_extent_block;
  extent_block_bytes = v.extent_block_bytes;
}

-- The range of block numbers that the functions let through, the number of blocks included.
unfoldable pub in_range : Fs → ℕ → Bool
in_range fs blkno = not (ltb blkno super_block_blkno || ltb fs.fs_blocks blkno)

-- `S_ISDIR` and `S_ISLNK`.
unfoldable pub is_dir : Dinode → Bool
is_dir di = di.i_mode / 2 ^ 12 % 2 ^ 4 == 4

unfoldable pub is_lnk : Dinode → Bool
is_lnk di = di.i_mode / 2 ^ 12 % 2 ^ 4 == 10

-- `memcpy`: the address that it returns, which is its destination, and the bytes there afterwards.
abbrev pub memcpy : ℕ → List ℕ → List ℕ → ℕ × List ℕ
memcpy dest src bytes = (dest, src ++ drop (length src) bytes)

module _ {W : Type 0} (v : Volume W) where
  unfoldable pub read_inode : ℕ → M W Dinode
  read_inode blkno = do
    check (in_range v.fs blkno) bad_blkno
    blk ← v.read_blocks blkno
    check (v.as_inode blk).has_signature bad_inode_magic
    done (ok (v.as_inode blk))

  abbrev changed : M W (Unit {0})
  changed w = some (ok tt, v.set_changed w)

  unfoldable pub write_inode : ℕ → Dinode → M W (Unit {0})
  write_inode blkno di = do
    check (not v.read_only) ro_filesys
    check (in_range v.fs blkno) bad_blkno
    v.io_write_block blkno (v.inode_bytes di)
    changed

  unfoldable pub check_directory : ℕ → M W (Unit {0})
  check_directory dir = do
    check (in_range v.fs dir) bad_blkno
    inode ← read_inode dir
    check (is_dir inode) no_directory

  -- The block number and the inode of the `cmfs_cached_inode`.
  unfoldable pub read_cached_inode : ℕ → M W (ℕ × Dinode)
  read_cached_inode blkno = do
    check (in_range v.fs blkno) bad_blkno
    inode ← read_inode blkno
    done (ok (blkno, inode))

  -- The signature is copied to the block at the address `at`, and compared is the address.
  unfoldable pub read_group_desc : ℕ → ℕ → M W (List ℕ)
  read_group_desc at blkno = do
    check (in_range v.fs blkno) bad_blkno
    blk ← v.read_blocks blkno
    let copied = memcpy at (codes "GROUP01") blk
    check (copied.0 == 0) bad_group_desc_magic
    done (ok copied.1)

  unfoldable pub read_extents : ℕ → M W ExtentBlock
  read_extents blkno = do
    check (in_range v.fs blkno) bad_blkno
    blk ← v.read_blocks blkno
    done (read_extent_block (record v.fs { read_blocks = λ _. ok (v.as_extent_block blk) }) blkno)

  unfoldable pub write_extent_block : ℕ → ExtentBlock → M W (Unit {0})
  write_extent_block blkno eb = do
    check (not v.read_only) ro_filesys
    check (in_range v.fs blkno) bad_blkno
    v.io_write_block blkno (v.extent_block_bytes eb)
    changed
