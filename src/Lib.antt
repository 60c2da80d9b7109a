-- ===== src/Lib.antt =====
-- The userspace tools of CMFS, a cluster file system made from ocfs2 for large shingled disks:
-- models of parts of cmfs-tools in C, and theorems about them.
--
-- The program. libcmfs reads and writes a file system on a device. Block I/O (unix_io.c) goes
-- through a cache that a channel may have; the file system's structures are read with it. A file is
-- an inode with a list of extents or with a tree of extent blocks (extents.c, extent_tree.c,
-- extent_map.c), directories are files, and mkfs.cmfs, debugfs.cmfs and dumpcmfs are programs on top
-- of the library. Bitmaps in memory (bitops.c) and feature strings (feature_string.c) stand beside it.
--
-- Which file models what:
--   Prelude   names, tests on numbers, lists, bits of numbers, C strings, runs that may stop
--   Err       cmfs-tools/libcmfs/cmfs_err.et: error codes, and results of functions with an errcode_t
--   Bitops    cmfs-tools/libcmfs/bitops.c: cmfs_set_bit, cmfs_clear_bit, cmfs_test_bit and the searches,
--             under their names without the prefix cmfs_
--   Feature   cmfs-tools/libcmfs/feature_string.c: parsing, merging, checking and printing of features
--   Io        cmfs-tools/libcmfs/unix_io.c: Io/Tree the search tree of the cache, Io/Device the loops
--             over pread64 and pwrite64, Io/Cache the cache, Io/Calls the public calls,
--             with cmfs_malloc_blocks of cmfs-tools/libcmfs/memory.c
--   Extents   cmfs-tools/include/cmfs/cmfs.h (conversions, and groups in Extents/Groups),
--             cmfs-tools/include/cmfs-kernel/cmfs_fs.h (room in an inode, Extents/Room), extents.c
--             (reading a block), extent_tree.c (descent and search), extent_map.c (Extents/Map)
--   Volume    what the code above has of a file system: inodes (inode.c, cached_inode.c), group
--             descriptors (chain.c) and extent blocks, read and written by block numbers;
--             Volume/Iterate the iterations over extents and blocks of extents.c
--   Dirs      cmfs-tools/libcmfs/dirblock.c, dir_iterate.c and lookup.c, at the bytes of a block
--   Namei     cmfs-tools/libcmfs/namei.c: path names and symbolic links
--   FileIo    cmfs-tools/libcmfs/fileio.c: cmfs_file_read, the loop that puts a file's blocks together
--   Open      cmfs-tools/libcmfs/openfs.c: cmfs_read_super and cmfs_open, from the channel that io_open
--             returned, over the block layer of Io
--   Mkfs      cmfs-tools/mkfs.cmfs/mkfs.c: Mkfs/Sizes what fill_defaults works out of the options and
--             the device, Mkfs/Setup how initialize_bitmap divides the clusters into groups, Mkfs/Uuid
--             translate_uuid, and Mkfs itself the allocation of bits of a group and of the bitmap
--   Tests     the theorems at concrete inputs
--
-- How state is kept. A channel is a record with its device: the disk is a function from byte
-- addresses to bytes, and a list says how the next system calls end, with an error or with a number
-- of bytes, so that short transfers and failures at any point are covered. A block of the cache is
-- known by its place in the array that io_init_cache allocates; the LRU list is a list of places, and
-- the tree has these places at its nodes. The balancing of kernel-rbtree.c, a copy of the Linux
-- kernel's, is a parameter that keeps the order of the nodes. Extent blocks come from a function that
-- stands for cmfs_read_blocks. From Volume on, the device is a record of functions on a state that the
-- caller chooses, so that reads and writes can have effects and fail; how the structures of
-- cmfs_fs.h lie over the bytes of a block is a parameter of it, but for directory entries, which are
-- taken from the bytes. A callback is a function on the device's state and the caller's data, and may
-- change records and buffers as in C.
--
-- Stops and bounds. `none` stands for a read outside a buffer or an array, for a failed assertion,
-- for an overflow of an int or a shift out of it, and for fuel that ran out. Loops that are not
-- structural run on fuel: read_loop and write_loop on the size and one more, since each round moves
-- a byte; read_hunks on the number of blocks and one more, since each round takes a block;
-- parse_tokens on the length of the string and one more; count_set on the bits that are left and one
-- more. The theorems show that these are enough. The descent of a tree has room for the four blocks of CMFS_MAX_PATH_DEPTH, and
-- stops where the code would write behind its path. The wrap-around of
-- unsigned numbers is written out, as `% 2 ^ 64` or `% 2 ^ 32`. The place of a block on the device is a product
-- of signed numbers: it is `none` from 2^63 on, and the theorems on reads and writes are about ranges
-- that end below it.
--
-- In Dirs, process_entries runs on the size of a block and one more, swap_loop, validate_entry and
-- resync on the bytes in front of their end; in Namei, walk on the length of the path and one more,
-- and links are counted down from the six that link_count allows. In FileIo, read_wanted runs on the
-- blocks that are wanted and one more, since each round takes a block where the extent map has one.
-- In Mkfs, clear_loop runs on the bits of the group and one more, chain_walk on the groups and one
-- more, valid_loop on 65 since a 64-bit number doubles; group_loop, which may go on for ever, has its
-- fuel as an argument. The calls of exit are the inner `none` or `exits`.
--
-- Not modelled: memory allocation but for that of a cache, which is taken to succeed, and the freeing of
-- memory; the byte swaps of big-endian machines; the vectored reads over libaio, the
-- locking and the sharing of a cache; the trailer of a directory block;
-- io_open, which is system calls, closing, and the read of a superblock into a buffer of the caller;
-- the options of mkfs.cmfs, what it writes and the order of its writes; the programs debugfs.cmfs
-- and dumpcmfs, which mostly print; the patches of the kernel.
pub mod Prelude
pub mod Err
pub mod Bitops
pub mod Feature
pub mod Io
pub mod Extents
pub mod Volume
pub mod Dirs
pub mod Namei
pub mod FileIo
pub mod Open
pub mod Mkfs
pub mod Tests
