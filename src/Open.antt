-- ===== src/Open.antt =====
-- Opening a file system: openfs.c and blockcheck.c of cmfs-tools/libcmfs.
pub mod Checks
pub mod Whole
use cmfs.Prelude.{
  ℕ, ◌+◌, ◌-◌, ◌*◌, ◌/◌, ◌%◌, ◌^◌, bit_or, Bool, true, false, ◌&&◌, ◌||◌, not, Option, none, some,
  List, [], ◌∷◌, ltb, leb, ◌==◌, if◌then◌else◌,
}
use cmfs.Prelude.Fault.{◌>>=◌}
use cmfs.Err.{
  bad_blkno, bad_magic, corrupt_superblock, unexpected_block_size, Err, Result, ok, err, guard,
  ◌>>◌,
}
use cmfs.Io.Tree.{RbTree}
use cmfs.Io.Device.{Channel, Count, blocks}
use cmfs.Io.Calls.{IoChannel, Read, io_read_block, io_read_block_nocache, io_set_blksize}
use cmfs.Extents.{Fs, super_block_blkno, clusters_to_blocks}

-- The inode of the superblock with its `struct cmfs_super_block`, and whether its signature is that
-- of a superblock.
pub record Super : Type 0 where
  pub has_signature : Bool
  pub i_blkno : ℕ
  pub i_clusters : ℕ
  pub s_root_blkno : ℕ
  pub s_system_dir_blkno : ℕ
  pub s_blocksize_bits : ℕ
  pub s_clustersize_bits : ℕ
  pub s_uuid : List ℕ
  pub s_first_cluster_group : ℕ

-- `struct _cmfs_filesys`, without its name and allocators. `uuid_str` has no closing NUL here.
pub record Filesys : Type 0 where
  pub fs_flags : ℕ
  pub fs_io : IoChannel
  pub fs_super : Super
  pub fs_orig_super : Option Super
  pub fs_blocksize : ℕ
  pub fs_clustersize : ℕ
  pub fs_clusters : ℕ
  pub fs_blocks : ℕ
  pub fs_umask : ℕ
  pub fs_root_blkno : ℕ
  pub fs_sysdir_blkno : ℕ
  pub fs_first_cg_blkno : ℕ
  pub uuid_str : List ℕ

abbrev pub max_blocksize : ℕ
max_blocksize = 4096

abbrev pub hard_ro : ℕ
hard_ro = 128

abbrev pub min_clustersize_bits : ℕ
min_clustersize_bits = 12

abbrev pub max_clustersize_bits : ℕ
max_clustersize_bits = 25

abbrev pub validate_meta_ecc : List ℕ → Result (Unit {0})
validate_meta_ecc bytes = ok tt

-- The conversions take only the two sizes from what is being opened.
abbrev pub units : Super → Fs
units di = record {
  s_clustersize_bits = di.s_clustersize_bits;
  s_blocksize_bits = di.s_blocksize_bits;
  fs_blocks = 0;
  fs_clustersize = 0;
  read_blocks = λ b. err bad_blkno;
}

-- `%02X` of a byte.
abbrev pub hex_digit : ℕ → ℕ
hex_digit d = if ltb d 10 then 48 + d else 55 + d

abbrev pub uuid_text : List ℕ → List ℕ
uuid_text [] = []
uuid_text (byte ∷ rest) = hex_digit (byte / 16) ∷ hex_digit (byte % 16) ∷ uuid_text rest

-- The checks on the superblock, with a stop where the block size is shifted out of an `int`.
unfoldable pub check_super : Super → ℕ → Option (Result (Unit {0}))
check_super di superblock =
    if di.s_blocksize_bits == 0
    then some (err corrupt_superblock)
    else if not (di.i_blkno == superblock)
    then some (err corrupt_superblock)
    else if ltb di.s_clustersize_bits min_clustersize_bits
        || ltb max_clustersize_bits di.s_clustersize_bits
    then some (err corrupt_superblock)
    else if (di.s_root_blkno == 0) || (di.s_system_dir_blkno == 0)
    then some (err corrupt_superblock)
    else if leb 31 di.s_blocksize_bits
    then none
    else if not (2 ^ di.s_blocksize_bits == max_blocksize)
    then some (err unexpected_block_size)
    else some (ok tt)

-- `as_super` is how the structures lie over the bytes of a block, and `garbage` what a buffer holds.
module _ (rb : RbTree) (as_super : List ℕ → Super) (garbage : List ℕ) where
  abbrev pub take_super :
      Option (Result (Unit {0}) × List ℕ × IoChannel) → Option (Result Super × IoChannel)
  take_super none = none
  take_super (some (err e, blk, channel)) = some (err e, channel)
  take_super (some (ok done, blk, channel)) = some (
    (guard (as_super blk).has_signature bad_magic >> validate_meta_ecc blk >> ok (as_super blk)),
    channel,
  )

  -- `cmfs_read_blocks`, with the cache or past it.
  abbrev pub read_device_blocks : Bool → IoChannel → ℕ → Count → List ℕ → Read
  read_device_blocks nocache channel blkno count bytes =
      if nocache
      then io_read_block_nocache rb channel blkno count bytes
      else io_read_block rb channel blkno count bytes

  unfoldable pub read_super : IoChannel → ℕ → Option (Result Super × IoChannel)
  unfolding io_read_block
  read_super channel superblock =
      take_super (read_device_blocks false channel superblock (blocks 1) garbage)

  -- What `io_set_blksize` returns is not looked at.
  abbrev pub resized : IoChannel → Result Channel → IoChannel
  resized channel (err e) = channel
  resized channel (ok ch) = record channel { chan = ch }

  unfoldable pub opened : ℕ → ℕ → ℕ → Super → IoChannel → Filesys
  unfolding clusters_to_blocks
  opened flags superblock block_size di channel = record {
    fs_flags = flags;
    fs_io = channel;
    fs_super = di;
    fs_orig_super = if superblock == super_block_blkno then some di else none;
    fs_blocksize = block_size;
    fs_clustersize = 2 ^ di.s_clustersize_bits;
    fs_clusters = di.i_clusters;
    fs_blocks = clusters_to_blocks (units di) di.i_clusters;
    fs_umask = 18;
    fs_root_blkno = di.s_root_blkno;
    fs_sysdir_blkno = di.s_system_dir_blkno;
    fs_first_cg_blkno = di.s_first_cluster_group;
    uuid_str = uuid_text di.s_uuid;
  }

  abbrev pub after_check : Filesys → Option (Result (Unit {0})) → Option (Result Filesys)
  after_check fs none = none
  after_check fs (some (err e)) = some (err e)
  after_check fs (some (ok done)) = some (ok fs)

  unfoldable pub after_super :
      ℕ → ℕ → ℕ → Option (Result Super × IoChannel) → Option (Result Filesys)
  unfolding check_super opened
  after_super flags superblock block_size none = none
  after_super flags superblock block_size (some (err e, channel)) = some (err e)
  after_super flags superblock block_size (some (ok di, channel)) =
      after_check (opened flags superblock block_size di channel) (check_super di superblock)

  unfoldable pub open_channel : ℕ → ℕ → ℕ → Bool → Result IoChannel → Option (Result Filesys)
  unfolding after_super read_super io_set_blksize
  open_channel flags superblock block_size readonly (err e) = some (err e)
  open_channel flags superblock block_size readonly (ok channel) =
      let number = if superblock == 0 then super_block_blkno else superblock in
      let kept = if readonly then bit_or flags hard_ro else flags in
      after_super kept number block_size
        (read_super (resized channel (io_set_blksize channel.chan block_size)) number)

  -- `from_io_open` is what `io_open` returned for the device, and `readonly` what
  -- `io_is_device_readonly` says of it.
  unfoldable pub open_fs : ℕ → ℕ → ℕ → Bool → Result IoChannel → Option (Result Filesys)
  unfolding open_channel
  open_fs flags superblock block_size readonly from_io_open =
      if not (block_size == max_blocksize)
      then some (err unexpected_block_size)
      else open_channel flags superblock block_size readonly from_io_open
