-- ===== src/Dirs/Check.antt =====
-- The check of a directory block when it is read or written, and what it lets through.
use cmfs.Prelude.{
  ℕ, zero, suc, ◌+◌, ◌-◌, ◌*◌, ◌%◌, ◌<◌, ◌≤◌, Bool, true, false, ◌||◌, not, ◌≡◌, refl, arith, none,
  some, List, [], ◌∷◌, ltb, ◌==◌, if◌then◌else◌, length, get_elem?, get_or, inl, inr, Bool-cases,
  get_elem?-beyond, get_elem?-get_or,
}
use cmfs.Err.{Result, ok, dir_corrupted, err}
use cmfs.Volume.{Volume}
use cmfs.Dirs.{
  le, rec_len_at, name_len_at, swap_loop, swap_dir_entries, header_size, DirFlags, DirFunc,
  process_dir_entry,
}
use cmfs.Dirs.Entries.{Dirent, IsEntry, Entries, Answer, visit}
use cmfs.Dirs.Block.{process_dir_entry-beyond}

pub le_total : (buf : List ℕ) (o n : ℕ) → o + n ≤ length buf → (x : ℕ) × (le buf o n ≡ some x)
unfolding le
le_total buf o zero h = (0, refl)
le_total buf o (suc n) h =
    let (x, e) = le_total buf (o + 1) n (omega arith) in
    (get_or buf o 0 + 256 * x, rw (get_elem?-get_or buf o 0 (omega arith), e) refl)

-- A length that is behind the buffer, or partly so.
rec_len_at-beyond : (buf : List ℕ) (o : ℕ) → length buf < o + 10 → rec_len_at buf o ≡ none
unfolding rec_len_at le
rec_len_at-beyond buf o h =
    let last : get_elem? buf (o + 8 + 1) ≡ none = get_elem?-beyond buf (o + 8 + 1) (omega arith) in
    ground arith

abbrev not_sound : ℕ → Bool
not_sound rec_len = ltb rec_len header_size || not (rec_len % 4 == 0)

long_enough : (rec_len : ℕ) → header_size ≤ (if not_sound rec_len then header_size else rec_len)
long_enough rec_len = ground arith

header :
    (buf : List ℕ) (p : ℕ)
    → p + header_size ≤ length buf
    → (name_len : ℕ) × (rec_len : ℕ) × (name_len_at buf p ≡ some name_len)
      × (rec_len_at buf p ≡ some rec_len)
unfolding name_len_at rec_len_at
header buf p h =
    let (rec_len, e) = le_total buf (p + 8) 2 (omega arith) in
    (get_or buf (p + 10) 0, rec_len, get_elem?-get_or buf (p + 10) 0 (omega arith), e)

few :
    (es : List Dirent) (buf : List ℕ) (o end bytes : ℕ)
    → Entries bytes buf o es end
    → o ≤ bytes
    → o + length es ≤ bytes
few [] buf o end bytes h le = omega arith
few (e ∷ es) buf o end bytes (is, rest) le =
    omega (arith, few es buf (o + e.rec_len) end bytes rest is.inside, is.holds_name)

swap_loop-Entries :
    (es : List Dirent) (fuel : ℕ) (buf : List ℕ) (p end bytes : ℕ)
    → Entries bytes buf p es end
    → bytes ≤ end + header_size
    → length es < fuel
    → swap_loop fuel buf p bytes true ≡ some true
unfolding swap_loop
swap_loop-Entries es zero buf p end bytes h near enough = absurd (omega arith)
swap_loop-Entries [] (suc fuel) buf p end bytes h near enough =
    let over : ltb (p + header_size) bytes ≡ false = ground arith in rw over refl
swap_loop-Entries (e ∷ es) (suc fuel) buf p end bytes (is, rest) near enough =
    let long : ltb e.rec_len header_size ≡ false = ground (arith, is.holds_name) in
    let whole : (e.rec_len % 4 == 0) ≡ true = ground (arith, is.aligned) in
    let fits : ltb e.rec_len (length e.name + header_size) ≡ false =
      ground (arith, is.holds_name) in
    elim (Bool-cases (ltb (p + header_size) bytes)) [
      | inr over ↦ rw over refl
      | inl more ↦
          rw (more, is.has_name_len, is.has_rec_len, long, whole, fits)
            (swap_loop-Entries es fuel buf (p + e.rec_len) end bytes rest near (omega arith))
    ]

-- Each round goes on by 12 bytes or more.
swap_loop_total :
    (fuel : ℕ) (buf : List ℕ) (p end : ℕ) (sound : Bool)
    → end ≤ length buf
    → end - p < fuel
    → (r : Bool) × (swap_loop fuel buf p end sound ≡ some r)
unfolding swap_loop
swap_loop_total zero buf p end sound fits enough = absurd (omega arith)
swap_loop_total (suc fuel) buf p end sound fits enough =
    elim (Bool-cases (ltb (p + header_size) end)) [
      | inr over ↦ (sound, rw over refl)
      | inl more ↦
          let lt : p + header_size < end = ground arith in
          let (name_len, rec_len, e, e') = header buf p (omega arith) in
          let rec_len' = if not_sound rec_len then header_size else rec_len in
          let on : header_size ≤ rec_len' = long_enough rec_len in
          rw (more, e, e') (swap_loop_total fuel buf (p + rec_len') end _ fits (omega arith))
    ]

-- `cmfs_swap_dir_entries_direction` ends and reads nothing outside a buffer of the length that it is
-- given or more, whatever the bytes are.
pub swap_dir_entries_total :
    (buf : List ℕ) (bytes : ℕ)
    → bytes ≤ length buf
    → (r : Result (Unit {0})) × (swap_dir_entries buf bytes ≡ some r)
unfolding swap_dir_entries
swap_dir_entries_total buf bytes fits =
    let (sound, e) = swap_loop_total (suc bytes) buf 0 bytes true fits (omega arith) in
    (if sound then ok tt else err dir_corrupted, rw e refl)

-- Bytes that are divided into entries are accepted, also where the last one ends up to 12 bytes
-- before the end.
pub swap_dir_entries-Entries :
    (buf : List ℕ) (bytes : ℕ) (es : List Dirent) (end : ℕ)
    → Entries bytes buf 0 es end
    → bytes ≤ end + header_size
    → swap_dir_entries buf bytes ≡ some (ok tt)
unfolding swap_dir_entries
swap_dir_entries-Entries buf bytes es end h near =
    rw
      (swap_loop-Entries es (suc bytes) buf 0 end bytes h near
        (omega (arith, few es buf 0 end bytes h (omega arith))))
      refl

-- A block whose entries end 1 to 9 bytes before its end is accepted when it is read. The iteration
-- then reads behind the buffer, where the caller's function leaves the buffer alone and does not stop
-- at one of the entries, and removed entries are not asked for.
pub short_block-reads_beyond :
    {W : Type 0} (v : Volume W) (flags : DirFlags) (func : DirFunc W) (dir blocknr : ℕ)
    (buf : List ℕ) (kept : flags.include_removed ≡ false) (answer : Answer W)
    (answers : (k o : ℕ) (e : Dirent) (w : W)
      → IsEntry v.fs_blocksize buf o e
      → func dir k blocknr o buf w
        ≡ some (record { changed = false; abort = (answer k e w).0 }, buf, (answer k e w).1))
    (es : List Dirent) (k end : ℕ) (w : W)
    → length buf ≡ v.fs_blocksize
    → Entries v.fs_blocksize buf 0 es end
    → end < v.fs_blocksize
    → v.fs_blocksize < end + 10
    → (visit flags answer es 0 k w).stopped ≡ false
    → (swap_dir_entries buf v.fs_blocksize ≡ some (ok tt))
      × (process_dir_entry v flags func dir blocknr k buf w ≡ none)
short_block-reads_beyond v flags func dir blocknr buf kept answer answers es k end w size h below
      near on =
    (
      swap_dir_entries-Entries buf v.fs_blocksize es end h (omega arith),
      process_dir_entry-beyond v flags func dir blocknr buf kept answer answers es k end w h below
          (rec_len_at-beyond buf end (omega arith)) on,
    )
