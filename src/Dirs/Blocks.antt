-- ===== src/Dirs/Blocks.antt =====
-- Directory blocks read and written, and the iteration over a directory: dirblock.c and
-- dir_iterate.c.
use cmfs.Prelude.{ℕ, Bool, true, false, Option, none, some, List, [], ◌==◌, if◌then◌else◌}
use cmfs.Err.{Err, Result, ok, err}
use cmfs.Volume
use cmfs.Volume.{M, Volume, done, with_data, check_directory, read_inode}
use cmfs.Volume.Iterate.{Iret, no_bits}
use cmfs.Volume.Iterate.Files.{BlockFunc, block_iterate}
use cmfs.Dirs.{swap_dir_entries, DirFlags, DirRet, DirFunc, DirWalk, process_dir_entry}

module _ {W : Type 0} (v : Volume W) where
  abbrev swapped : List ℕ → W → Option (Result (Unit {0})) → Option (Result (List ℕ) × W)
  swapped bytes w none = none
  swapped bytes w (some (err e)) = some (err e, w)
  swapped bytes w (some (ok _)) = some (ok bytes, w)

  unfoldable pub read_dir_block : ℕ → M W (List ℕ)
  read_dir_block block =
      Volume.◌>>=◌ (v.read_blocks block)
        (λ buf w. swapped buf w (swap_dir_entries buf v.fs_blocksize))

  unfoldable pub write_dir_block : ℕ → List ℕ → M W (Unit {0})
  write_dir_block block inbuf =
      Volume.◌>>=◌ (λ w. swapped inbuf w (swap_dir_entries inbuf v.fs_blocksize))
        (λ buf. v.io_write_block block buf)

-- The parts of `struct dir_context` that change: the buffer and `errcode`.
pub record DirContext : Type 0 where
  pub buf : List ℕ
  pub errcode : Option Err

abbrev pub aborted : Iret
aborted = record no_bits { abort = true }

module _ {W : Type 0} (v : Volume W) (flags : DirFlags) (func : DirFunc W) (dir : ℕ) where
  -- The end of `cmfs_process_dir_block`.
  abbrev pub block_done :
      Bool → List ℕ → Option (Result (Unit {0}) × W) → Option (Iret × (W × DirContext))
  block_done do_abort buf none = none
  block_done do_abort buf (some (err e, w)) =
      some (aborted, (w, record { buf = buf; errcode = some e }))
  block_done do_abort buf (some (ok _, w)) =
      some (if do_abort then aborted else no_bits, (w, record { buf = buf; errcode = none }))

  abbrev pub processed :
      ℕ → Option (Result (Unit {0}) × DirWalk W) → Option (Iret × (W × DirContext))
  processed blocknr none = none
  processed blocknr (some (err e, s)) =
      some (aborted, (s.world, record { buf = s.buf; errcode = some e }))
  processed blocknr (some (ok _, s)) =
      block_done s.do_abort s.buf
        (if s.changed then write_dir_block v blocknr s.buf s.world else some (ok tt, s.world))

  abbrev pub block_read :
      ℕ → ℕ → DirContext → Option (Result (List ℕ) × W) → Option (Iret × (W × DirContext))
  block_read blocknr entry ctx none = none
  block_read blocknr entry ctx (some (err e, w)) =
      some (aborted, (w, record ctx { errcode = some e }))
  block_read blocknr entry ctx (some (ok buf, w)) =
      processed blocknr (process_dir_entry v flags func dir blocknr entry buf w)

  -- The first block of a directory starts with `.`.
  unfoldable pub process_dir_block : BlockFunc (W × DirContext)
  process_dir_block blocknr blockcnt ext_flags (w, ctx) =
      block_read blocknr (if blockcnt == 0 then 1 else 3) ctx (read_dir_block v blocknr w)

  abbrev pub dir_result :
      Option (Result (Unit {0}) × (W × DirContext)) → Option (Result (Unit {0}) × W)
  dir_result none = none
  dir_result (some (err e, (w, ctx))) = some (err e, w)
  dir_result (some (ok _, (w, ctx))) = some (elim ctx.errcode [ none ↦ ok tt | some e ↦ err e ], w)

  -- The buffer is filled before it is looked at.
  unfoldable pub iterate_dir : M W (Unit {0})
  iterate_dir w = dir_result (
      block_iterate (with_data v) process_dir_block false dir
        (w, record { buf = []; errcode = none }))

  unfoldable pub dir_iterate2 : M W (Unit {0})
  dir_iterate2 =
      Volume.◌>>=◌ (check_directory v dir) (λ _. Volume.◌>>=◌ (read_inode v dir) (λ _. iterate_dir))

-- A function that is not told the directory and the kind of entry, and `cmfs_dir_iterate` of it.
abbrev pub EntryFunc : Type 0 → Type 0
EntryFunc W = ℕ → ℕ → List ℕ → W → Option (DirRet × List ℕ × W)

abbrev pub xlate_func : {W : Type 0} → EntryFunc W → DirFunc W
xlate_func func dir entry blocknr offset buf w = func blocknr offset buf w

unfoldable pub dir_iterate : {W : Type 0} → Volume W → DirFlags → EntryFunc W → ℕ → M W (Unit {0})
dir_iterate v flags func dir = dir_iterate2 v flags (xlate_func func) dir
