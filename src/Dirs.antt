-- ===== src/Dirs.antt =====
-- Directories: dirblock.c, dir_iterate.c and lookup.c of cmfs-tools/libcmfs, on a little-endian
-- machine. A directory block is its bytes; `none` is a read outside it.
pub mod Blocks
pub mod Lookups
pub mod Entries
pub mod Block
pub mod Check
pub mod Names
pub mod Found
use cmfs.Prelude.{
  ℕ, zero, suc, ◌+◌, ◌-◌, ◌*◌, ◌/◌, ◌%◌, Bool, true, false, ◌&&◌, ◌||◌, not, Option, none, some,
  List, [], ◌∷◌, ltb, leb, ◌==◌, if◌then◌else◌, get_elem?,
}
use cmfs.Prelude.Fault.{◌>>=◌}
use cmfs.Err.{dir_corrupted, file_not_found, Err, Result, ok, err}
use cmfs.Volume
use cmfs.Volume.{M, Volume, done, with_data, check_directory, read_inode}
use cmfs.Volume.Iterate.{Iret, no_bits}
use cmfs.Volume.Iterate.Files.{BlockFunc, block_iterate}

-- The `n` bytes from `o` on as a little-endian number.
unfoldable pub le : List ℕ → ℕ → ℕ → Option ℕ
le buf o zero = some 0
le buf o (suc n) = get_elem? buf o >>= λ b. le buf (o + 1) n >>= λ r. some (b + 256 * r)

-- The fields of the `struct cmfs_dir_entry` at an offset.
unfoldable pub inode_at : List ℕ → ℕ → Option ℕ
inode_at buf o = le buf o 8

unfoldable pub rec_len_at : List ℕ → ℕ → Option ℕ
rec_len_at buf o = le buf (o + 8) 2

unfoldable pub name_len_at : List ℕ → ℕ → Option ℕ
name_len_at buf o = get_elem? buf (o + 10)

-- `DIRENT_HEADER_SIZE`, and where the name is.
abbrev pub header_size : ℕ
header_size = 12

-- The loop of `cmfs_swap_dir_entries_direction`, which swaps nothing here: whether all entries that
-- it meets are sound. `sound` is `retval == 0`.
unfoldable pub swap_loop : ℕ → List ℕ → ℕ → ℕ → Bool → Option Bool
swap_loop zero buf p end sound = none
swap_loop (suc fuel) buf p end sound =
    let round = name_len_at buf p >>= λ name_len. rec_len_at buf p >>= λ rec_len.
    let short = ltb rec_len header_size || not (rec_len % 4 == 0) in
    let rec_len' = if short then header_size else rec_len in
    let small = ltb rec_len' (name_len + header_size) in
    swap_loop fuel buf (p + rec_len') end (sound && not short && not small) in
    if ltb (p + header_size) end then round else some sound

unfoldable pub swap_dir_entries : List ℕ → ℕ → Option (Result (Unit {0}))
swap_dir_entries buf bytes = swap_loop (suc bytes) buf 0 bytes true >>= λ sound.
    some (if sound then ok tt else err dir_corrupted)

-- The test of an entry's lengths in dir_iterate.c.
unfoldable pub bad_lengths : List ℕ → ℕ → ℕ → Option Bool
bad_lengths buf offset rec_len =
    let names = name_len_at buf offset >>= λ name_len. some (ltb rec_len (name_len + 8)) in
    if ltb rec_len 8 || not (rec_len % 4 == 0) then some true else names

unfoldable pub validate_entry : ℕ → List ℕ → ℕ → ℕ → Option Bool
validate_entry zero buf offset final_offset = none
validate_entry (suc fuel) buf offset final_offset =
    let round = rec_len_at buf offset >>= λ rec_len. bad_lengths buf offset rec_len >>= λ bad.
    let rest = validate_entry fuel buf (offset + rec_len) final_offset in
    if bad then some false else rest in
    if ltb offset final_offset then round else some (offset == final_offset)

-- The search for the next offset from which valid entries reach `final_offset`.
unfoldable pub resync : ℕ → List ℕ → ℕ → ℕ → Option ℕ
resync zero buf offset final_offset = none
resync (suc fuel) buf offset final_offset =
    let round = validate_entry (suc final_offset) buf offset final_offset >>= λ valid.
    let rest = resync fuel buf (offset + 4) final_offset in if valid then some offset else rest in
    if ltb offset final_offset then round else some offset

-- `is_dots` of cmfs.h, of the `len` bytes of a name at `o`.
unfoldable pub is_dots : List ℕ → ℕ → ℕ → Option Bool
is_dots buf o len =
    let second = get_elem? buf (o + 1) >>= λ d. some (d == b'.') in
    if len == 0
    then some false
    else (get_elem? buf o >>= λ c.
        if c == b'.'
        then (if len == 1 then some true else if len == 2 then second else some false)
        else some false)

-- The flags `CMFS_DIRENT_FLAG_`.
pub record DirFlags : Type 0 where
  pub include_empty : Bool
  pub include_removed : Bool
  pub exclude_dots : Bool

-- The bits `CMFS_DIRENT_CHANGED` and `CMFS_DIRENT_ABORT` of an answer.
pub record DirRet : Type 0 where
  pub changed : Bool
  pub abort : Bool

-- A call `func(dir, entry, dirent, blocknr, offset, blocksize, buf, priv_data)`, which may change
-- the buffer; `dirent` lies at the offset in it.
abbrev pub DirFunc : Type 0 → Type 0
DirFunc W = ℕ → ℕ → ℕ → ℕ → List ℕ → W → Option (DirRet × List ℕ × W)

-- The variables of `cmfs_process_dir_entry`, the buffer, and the device with the caller's data.
pub record DirWalk (W : Type 0) : Type 0 where
  pub offset : ℕ
  pub next_real_entry : ℕ
  pub entry : ℕ
  pub changed : Bool
  pub do_abort : Bool
  pub buf : List ℕ
  pub world : W

module _ {W : Type 0} (v : Volume W) (flags : DirFlags) (func : DirFunc W) (dir blocknr : ℕ) where
  -- An empty entry, or one of `.` and `..`.
  unfoldable pub skipped : DirWalk W → Option Bool
  skipped s =
      let dots = name_len_at s.buf s.offset >>= λ len. is_dots s.buf (s.offset + header_size) len in
      inode_at s.buf s.offset >>= λ inode.
      if (inode == 0) && not flags.include_empty
      then some true
      else if flags.exclude_dots
      then dots
      else some false

  -- The call of `func`, with what is kept of its answer.
  unfoldable pub call_func : DirWalk W → Option (DirRet × DirWalk W)
  call_func s =
      let kind = if ltb s.offset s.next_real_entry then 4 else s.entry in
      func dir kind blocknr s.offset s.buf s.world >>= λ (r, buf', w'). some (
        r,
        record s {
          entry = if ltb s.entry 3 then s.entry + 1 else s.entry;
          changed = s.changed || r.changed;
          do_abort = s.do_abort || r.abort;
          buf = buf';
          world = w';
        },
      )

  -- The code behind `next:`.
  unfoldable pub next_entry : DirWalk W → Option (DirWalk W)
  next_entry s = rec_len_at s.buf s.offset >>= λ rec_len.
      let s' = record s {
        next_real_entry =
            if s.next_real_entry == s.offset
            then s.next_real_entry + rec_len
            else s.next_real_entry;
      } in
      let further = some (record s' { offset = s.offset + rec_len }) in
      let removed = name_len_at s.buf s.offset >>= λ name_len.
      let size = (name_len + 11) / 4 * 4 in
      let found =
        resync (suc (s.offset + rec_len)) s.buf (s.offset + size) (s.offset + rec_len)
        >>= λ offset'. some (record s' { offset = offset' }) in
      if rec_len == size then further else found in
      if flags.include_removed then removed else further

  unfoldable pub process_entries : ℕ → DirWalk W → Option (Result (Unit {0}) × DirWalk W)
  process_entries zero s = none
  process_entries (suc fuel) s =
      let called = call_func s >>= λ (r, s').
      let rest = next_entry s' >>= process_entries fuel in
      if r.abort then some (ok tt, s') else rest in
      let sound = skipped s >>= λ skip.
      let rest = next_entry s >>= process_entries fuel in if skip then rest else called in
      let round = rec_len_at s.buf s.offset >>= λ rec_len.
      (if ltb v.fs_blocksize (s.offset + rec_len)
        then some true
        else bad_lengths s.buf s.offset rec_len)
      >>= λ bad. if bad then some (err dir_corrupted, s) else sound in
      if ltb s.offset v.fs_blocksize then round else some (ok tt, s)

  abbrev pub walk_start : ℕ → List ℕ → W → DirWalk W
  walk_start entry buf w = record {
    offset = 0;
    next_real_entry = 0;
    entry = entry;
    changed = false;
    do_abort = false;
    buf = buf;
    world = w;
  }

  unfoldable pub process_dir_entry : ℕ → List ℕ → W → Option (Result (Unit {0}) × DirWalk W)
  process_dir_entry entry buf w = process_entries (suc v.fs_blocksize) (walk_start entry buf w)
