-- ===== src/Open/Whole.antt =====
-- What an opened file system is: openfs.c of cmfs-tools/libcmfs.
use cmfs.Prelude.{
  ℕ, zero, suc, ◌-◌, ◌*◌, ◌^◌, bit_or, ◌<◌, Bool, true, false, not, ◌≡◌, ◌⊎◌, refl, sym, ap, ◌∙◌,
  arith, Option, none, some, List, [], ◌∷◌, ◌++◌, length, drop, ◌==◌, if◌then◌else◌, inl, inr,
}
use mathlib.Core.List.{append-nil}
use mathlib.Core.Path.{subst}
use cmfs.Err.{io, unexpected_block_size, bad_magic, guard, ◌>>◌, Result, ok, err}
use cmfs.Io.Tree.{RbTree}
use cmfs.Io.Device.{Channel, bytes_at}
use cmfs.Io.Calls.{IoChannel}
use cmfs.Io.Calls.Whole.{IsReady, io_read_block-Reads}
use cmfs.Extents.{super_block_blkno}
use cmfs.Open.{
  Super, Filesys, check_super, take_super, read_super, opened, after_check, after_super,
  open_channel, open_fs, hard_ro,
}
use cmfs.Open.Checks.{IsSuper, check_super-passes, check_super→IsSuper, gate, whole_clusters}

-- What an opened file system has of its device.
pub record IsOpened (as_super : List ℕ → Super) (ch : Channel) (number : ℕ) (fs : Filesys)
    : Type 0 where
  pub super : IsSuper number fs.fs_super
  pub on_disk : fs.fs_super ≡ as_super (bytes_at ch.disk (number * 4096) 4096)
  pub blocksize : fs.fs_blocksize ≡ 2 ^ fs.fs_super.s_blocksize_bits
  pub clustersize :
      fs.fs_clustersize
      ≡ fs.fs_blocksize * 2 ^ (fs.fs_super.s_clustersize_bits - fs.fs_super.s_blocksize_bits)
  pub same_disk : fs.fs_io.chan.disk ≡ ch.disk
  pub ready : IsReady fs.fs_io.chan fs.fs_io.io_cache

-- The number of the block that is taken for the superblock.
abbrev pub number_of : ℕ → ℕ
number_of superblock = if superblock == 0 then super_block_blkno else superblock

-- A channel as io_open leaves it, with no cache.
abbrev pub fresh : Channel → IoChannel
fresh ch = record { chan = ch; io_cache = none }

abbrev sized : Channel → IoChannel
sized ch = fresh (record ch { io_blksize = 4096 })

drop_all : (n : ℕ) (xs : List ℕ) → length xs ≡ n → drop n xs ≡ []
drop_all zero [] e = refl
drop_all zero (x ∷ xs) e = absurd (omega arith)
drop_all (suc n) [] e = refl
drop_all (suc n) (x ∷ xs) e = drop_all n xs (omega arith)

module _ (rb : RbTree) (as_super : List ℕ → Super) (garbage : List ℕ) (long : length garbage ≡ 4096)
    (ch : Channel) where
  abbrev ReadSuper : ℕ → Option (Result Super × IoChannel) → Type 0
  ReadSuper number r =
      (channel : IoChannel) × ((r ≡ some (err io, channel))
        ⊎ (r
            ≡ take_super rb as_super garbage
                (some (ok tt, bytes_at ch.disk (number * 4096) 4096, channel))))
      × (channel.chan.disk ≡ ch.disk)
      × IsReady channel.chan channel.io_cache

  read_super-cases :
      (number : ℕ)
      → number < 2 ^ 32
      → ReadSuper number (read_super rb as_super garbage (sized ch) number)
  unfolding read_super
  read_super-cases number small =
      let reads =
        (io_read_block-Reads rb (sized ch) number 1 garbage (omega arith) (omega arith)
          (omega arith) (omega arith) (omega arith) tt).0 in
      let (ret, bytes, channel, e, outcome, disk, ready) = reads in
      (
        channel,
        elim outcome [
          | inl (good, all) ↦
              let same : bytes ≡ bytes_at ch.disk (number * 4096) 4096 =
                all
                ∙ ap (λ t. bytes_at ch.disk (number * 4096) 4096 ++ t) (drop_all 4096 garbage long)
                ∙ append-nil (bytes_at ch.disk (number * 4096) 4096) in
              inr (
                ap (take_super rb as_super garbage) (
                  e
                  ∙ ap (λ t. some (t, bytes, channel)) good
                  ∙ ap (λ t. some (ok tt, t, channel)) same))
          | inr bad ↦
              inl (ap (take_super rb as_super garbage) (e ∙ ap (λ t. some (t, bytes, channel)) bad))
        ],
        disk,
        ready,
      )

  after_check-done :
      (fs₀ fs : Filesys) (r : Option (Result (Unit {0})))
      → after_check rb as_super garbage fs₀ r ≡ some (ok fs)
      → (r ≡ some (ok tt)) × (fs₀ ≡ fs)
  after_check-done fs₀ fs none h = cc
  after_check-done fs₀ fs (some (err e)) h = cc
  after_check-done fs₀ fs (some (ok tt)) h = (refl, cc)

  signed :
      (flags number : ℕ) (fs : Filesys) (channel : IoChannel) (di : Super) (signature : Bool)
      → after_super rb as_super garbage flags number 4096
          (some ((guard signature bad_magic >> ok tt >> ok di), channel))
        ≡ some (ok fs)
      → (signature ≡ true)
        × (after_check rb as_super garbage
              (opened rb as_super garbage flags number 4096 di channel)
              (check_super di number)
            ≡ some (ok fs))
  unfolding after_super
  signed flags number fs channel di true h = (refl, h)
  signed flags number fs channel di false h = cc

  after_super-IsOpened :
      (flags number : ℕ) (fs : Filesys) (channel : IoChannel)
      → channel.chan.disk ≡ ch.disk
      → IsReady channel.chan channel.io_cache
      → after_super rb as_super garbage flags number 4096 (
          take_super rb as_super garbage
            (some (ok tt, bytes_at ch.disk (number * 4096) 4096, channel)))
        ≡ some (ok fs)
      → IsOpened as_super ch number fs
  unfolding after_super opened
  after_super-IsOpened flags number fs channel disk ready done =
      let di : Super = as_super (bytes_at ch.disk (number * 4096) 4096) in
      let (signature, checked) = signed flags number fs channel di di.has_signature done in
      let (passed, same) =
        after_check-done (opened rb as_super garbage flags number 4096 di channel) fs
          (check_super di number) checked in
      let is : IsSuper number di = check_super→IsSuper number di signature passed in
      let made : IsOpened as_super ch number
          (opened rb as_super garbage flags number 4096 di channel) =
        record {
          super = is;
          on_disk = refl;
          blocksize = sym (ap (λ t. 2 ^ t) is.block);
          clustersize = whole_clusters di is;
          same_disk = disk;
          ready = ready;
        } in
      subst (λ (t : Filesys). IsOpened as_super ch number t) same made

  read-IsOpened :
      (flags number : ℕ) (fs : Filesys)
      → number < 2 ^ 32
      → after_super rb as_super garbage flags number 4096
          (read_super rb as_super garbage (sized ch) number)
        ≡ some (ok fs)
      → IsOpened as_super ch number fs
  unfolding after_super
  read-IsOpened flags number fs small done =
      let (channel, outcome, disk, ready) = read_super-cases number small in
      elim outcome [
        | inl bad ↦
            let failed : some (err io) ≡ some (ok fs) =
              ap (λ t. after_super rb as_super garbage flags number 4096 t) (sym bad) ∙ done in
            absurd cc
        | inr read ↦
            after_super-IsOpened flags number fs channel disk ready
              (ap (λ t. after_super rb as_super garbage flags number 4096 t) (sym read) ∙ done)
      ]

  -- On a channel without a cache, with a buffer of one block and a number below 2^32, whatever the
  -- disk and the caller's block size are: a file system that is opened stands on the superblock that
  -- the disk has at the number, or at block 2 for the number 0, and this has the signature, its own
  -- number, blocks of 2^12 bytes, clusters of 2^12 to 2^25 bytes, a root and a system directory. The
  -- block size and the cluster size are the powers of two that it names, the disk is unchanged, and
  -- a cache of the channel would be coherent.
  pub open_fs-IsOpened :
      (flags superblock block_size : ℕ) (readonly : Bool) (fs : Filesys)
      → superblock < 2 ^ 32
      → open_fs rb as_super garbage flags superblock block_size readonly (ok (fresh ch))
        ≡ some (ok fs)
      → IsOpened as_super ch (number_of superblock) fs
  unfolding open_fs
  open_fs-IsOpened flags superblock block_size readonly fs small done =
      let step =
        gate (not (block_size == 4096)) (some (err unexpected_block_size)) _ (λ h. cc) done in
      let size : block_size ≡ 4096 = ground (arith, step.0) in
      let kept : ℕ = if readonly then bit_or flags hard_ro else flags in
      read-IsOpened kept (number_of superblock) fs (ground arith) (
        subst
          (λ (t : ℕ).
            open_channel rb as_super garbage flags superblock t readonly (ok (fresh ch))
            ≡ some (ok fs))
          size step.1)

  -- On a channel without a cache, with a buffer of one block, a block size of 4096 bytes and a number
  -- below 2^32: if the block of the disk at the number, or block 2 for the number 0, is a superblock
  -- with the signature, its own number, blocks of 2^12 bytes, clusters of 2^12 to 2^25 bytes, a root
  -- and a system directory, then the file system is opened or `CMFS_ET_IO` is returned.
  pub IsSuper-open_fs :
      (flags superblock : ℕ) (readonly : Bool)
      → superblock < 2 ^ 32
      → IsSuper
          (number_of superblock)
          (as_super (bytes_at ch.disk (number_of superblock * 4096) 4096))
      → (open_fs rb as_super garbage flags superblock 4096 readonly (ok (fresh ch)) ≡ some (err io))
        ⊎ ((fs : Filesys) × (open_fs rb as_super garbage flags superblock 4096 readonly
                (ok (fresh ch))
              ≡ some (ok fs)))
  unfolding open_fs
  IsSuper-open_fs flags superblock readonly small is =
      let (channel, outcome, disk, ready) =
        read_super-cases (number_of superblock) (ground arith) in
      let di : Super = as_super (bytes_at ch.disk (number_of superblock * 4096) 4096) in
      let kept : ℕ = if readonly then bit_or flags hard_ro else flags in
      elim outcome [
        | inl bad ↦ inl (rw bad refl)
        | inr read ↦ inr (
          opened rb as_super garbage kept (number_of superblock) 4096 di channel,
          rw (read, is.signature, check_super-passes (number_of superblock) di is) refl,
        )
      ]
