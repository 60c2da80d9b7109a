-- ===== src/Tests.antt =====
-- The theorems at concrete inputs.
mod Bitmaps
mod Features
mod Cache
mod Trees
mod Volumes
mod Directories
mod Balance
mod Files
mod Opening
mod Paths
mod Formatting
