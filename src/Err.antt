-- ===== src/Err.antt =====
-- The error codes of cmfs-tools/libcmfs/cmfs_err.et, without their CMFS_ET_ prefix, and results of
-- functions that return an `errcode_t`.
use cmfs.Prelude.{Bool, true, false, ◌≡◌, refl, ◌⊎◌, inl, inr}

pub data Err : Type 0 where
  io no_memory short_read short_write invalid_argument internal_failure : Err
  bad_group_desc_magic unexpected_block_size dir_corrupted no_directory : Err
  corrupt_superblock unsupp_feature conflicting_features bad_magic bad_inode_magic : Err
  bad_blkno ro_filesys no_space file_not_found inode_not_valid : Err
  inode_cannot_be_iterated bad_extent_block_magic corrupt_extent_block symlink_loop : Err
  cannot_determine_sector_size : Err

pub data Result {ℓ} (A : Type ℓ) : Type ℓ where
  ok : A → Result A
  err : Err → Result A

infixl 5 ◌>>=◌ ◌>>◌
abbrev pub ◌>>=◌ {ℓ} : {A : Type ℓ} {B : Type ℓ} (r : Result A) (next : A → Result B) → Result B
err code >>= next = err code
ok value >>= next = next value

-- The next call, made where the first one returned 0.
abbrev pub ◌>>◌ {ℓ} : {B : Type ℓ} (r : Result (Unit {0})) (after : Result B) → Result B
err code >> after = err code
ok _ >> after = after

-- `if (!test) return e;`
abbrev pub guard : Bool → Err → Result (Unit {0})
guard true e = ok tt
guard false e = err e

pub Result-cases {ℓ} :
    {A : Type ℓ} (r : Result A) → ((a : A) × (r ≡ ok a)) ⊎ ((e : Err) × (r ≡ err e))
Result-cases (ok a) = inl (a, refl)
Result-cases (err e) = inr (e, refl)
