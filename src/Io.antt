-- ===== src/Io.antt =====
-- cmfs-tools/libcmfs/unix_io.c: block I/O on a device, and the cache in front of it.
pub mod Tree
pub mod Device
pub mod Cache
pub mod Calls
