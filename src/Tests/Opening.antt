-- ===== src/Tests/Opening.antt =====
-- Opening a device with a superblock in block 2.
use cmfs.Prelude.{
  ℕ, ◌*◌, ◌≡◌, false, refl, arith, ◌⊎◌, some, List, [], ◌∷◌, ◌==◌, if◌then◌else◌, replicate, length,
}
use cmfs.Err.{io, ok, err}
use cmfs.Io.Device.{Channel, bytes_at}
use cmfs.Open.{Super, Filesys, open_fs}
use cmfs.Open.Checks.{IsSuper}
use cmfs.Open.Whole.{IsOpened, fresh, open_fs-IsOpened, IsSuper-open_fs}
use cmfs.Tests.Balance.{plain}

abbrev device : Channel
device = record {
  io_blksize = 512;
  io_error = 0;
  io_nocache = false;
  io_bytes_read = 0;
  io_bytes_written = 0;
  disk = λ a. if a == 8192 then 67 else 0;
  replies = [];
}

-- The signature is known by its first byte.
abbrev super_of : List ℕ → Super
super_of [] = record {
  has_signature = false;
  i_blkno = 0;
  i_clusters = 0;
  s_root_blkno = 0;
  s_system_dir_blkno = 0;
  s_blocksize_bits = 0;
  s_clustersize_bits = 0;
  s_uuid = [];
  s_first_cluster_group = 0;
}
super_of (byte ∷ bytes) = record {
  has_signature = byte == 67;
  i_blkno = 2;
  i_clusters = 1000;
  s_root_blkno = 5;
  s_system_dir_blkno = 6;
  s_blocksize_bits = 12;
  s_clustersize_bits = 20;
  s_uuid = replicate 16 171;
  s_first_cluster_group = 256;
}

abbrev buffer : List ℕ
buffer = replicate 4096 0

full_buffer : length buffer ≡ 4096
full_buffer = refl

device-IsSuper : IsSuper 2 (super_of (bytes_at device.disk (2 * 4096) 4096))
unfolding bytes_at
device-IsSuper = record {
  signature = refl;
  here = refl;
  block = refl;
  cluster_low = omega arith;
  cluster_high = omega arith;
  root = omega arith;
  system_dir = omega arith;
}

IsSuper-open_fs_example :
    (open_fs plain super_of buffer 1 0 4096 false (ok (fresh device)) ≡ some (err io))
    ⊎ ((fs : Filesys) × (open_fs plain super_of buffer 1 0 4096 false (ok (fresh device))
          ≡ some (ok fs)))
IsSuper-open_fs_example =
    IsSuper-open_fs plain super_of buffer full_buffer device 1 0 false (omega arith) device-IsSuper

abbrev sound_super : Super
sound_super = super_of (67 ∷ [])

abbrev opened_device : Filesys
opened_device = record {
  fs_flags = 1;
  fs_io = fresh (record device { io_blksize = 4096; io_bytes_read = 4096 });
  fs_super = sound_super;
  fs_orig_super = some sound_super;
  fs_blocksize = 4096;
  fs_clustersize = 1048576;
  fs_clusters = 1000;
  fs_blocks = 256000;
  fs_umask = 18;
  fs_root_blkno = 5;
  fs_sysdir_blkno = 6;
  fs_first_cg_blkno = 256;
  uuid_str =
      b'A' ∷ b'B' ∷ b'A' ∷ b'B' ∷ b'A' ∷ b'B' ∷ b'A' ∷ b'B' ∷ b'A' ∷ b'B' ∷ b'A' ∷ b'B' ∷ b'A'
      ∷ b'B' ∷ b'A' ∷ b'B' ∷ b'A' ∷ b'B' ∷ b'A' ∷ b'B' ∷ b'A' ∷ b'B' ∷ b'A' ∷ b'B' ∷ b'A' ∷ b'B'
      ∷ b'A' ∷ b'B' ∷ b'A' ∷ b'B' ∷ b'A' ∷ b'B' ∷ [];
}

is_opened :
    open_fs plain super_of buffer 1 0 4096 false (ok (fresh device)) ≡ some (ok opened_device)
unfolding open_fs
is_opened = refl

open_fs-IsOpened_example : IsOpened super_of device 2 opened_device
open_fs-IsOpened_example =
    open_fs-IsOpened plain super_of buffer full_buffer device 1 0 4096 false opened_device
      (omega arith) is_opened
