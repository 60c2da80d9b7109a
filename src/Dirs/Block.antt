-- ===== src/Dirs/Block.antt =====
-- What the iteration makes of a whole directory block, and of one whose entries go wrong.
use cmfs.Prelude.{
  ℕ, suc, ◌+◌, ◌-◌, ◌<◌, ◌≤◌, true, false, ◌≡◌, refl, ◌∙◌, arith, none, some, List, ltb,
  if◌then◌else◌, length, inl, inr, Bool-cases,
}
use cmfs.Err.{ok, dir_corrupted, err}
use cmfs.Volume.{Volume}
use cmfs.Dirs.{
  rec_len_at, bad_lengths, DirFlags, DirFunc, DirWalk, process_entries, process_dir_entry,
}
use cmfs.Dirs.Entries.{
  Dirent, IsEntry, Entries, Answer, Seen, visit, walk, outcome, process_entries-visit,
  after-Entries, visit-at,
}

module _ {W : Type 0} (v : Volume W) (flags : DirFlags) (func : DirFunc W) (dir blocknr : ℕ)
    (buf : List ℕ) (kept : flags.include_removed ≡ false) (answer : Answer W)
    (answers : (k o : ℕ) (e : Dirent) (w : W)
      → IsEntry v.fs_blocksize buf o e
      → func dir k blocknr o buf w
        ≡ some (record { changed = false; abort = (answer k e w).0 }, buf, (answer k e w).1)) where
  abbrev at_end : Seen W → DirWalk W
  at_end seen = record (walk v flags func dir blocknr buf kept seen.at seen.entry seen.world) {
    do_abort = seen.stopped;
  }

  -- The walk with all its fuel, behind the entries.
  behind :
      (es : List Dirent) (k end : ℕ) (w : W)
      → Entries v.fs_blocksize buf 0 es end
      → end ≤ v.fs_blocksize
      → process_dir_entry v flags func dir blocknr k buf w
        ≡ outcome v flags func dir blocknr buf kept answer answers
            (suc (v.fs_blocksize - length es))
            (visit flags answer es 0 k w)
  unfolding process_dir_entry
  behind es k end w h short =
      let few = after-Entries v flags func dir blocknr buf kept answer answers es 0 end h in
      let e : suc v.fs_blocksize ≡ length es + suc (v.fs_blocksize - length es) = omega arith in
      rw e (
        process_entries-visit v flags func dir blocknr buf kept answer answers es 0 k end
          (suc (v.fs_blocksize - length es)) w h)

  -- In a block that is divided into entries, with flags that do not ask for removed entries, a
  -- function that leaves the buffer alone is shown the entries that are not hidden, in order, until
  -- it stops; nothing is written.
  pub process_dir_entry-visit :
      (es : List Dirent) (k : ℕ) (w : W)
      → Entries v.fs_blocksize buf 0 es v.fs_blocksize
      → process_dir_entry v flags func dir blocknr k buf w
        ≡ some (ok tt, at_end (visit flags answer es 0 k w))
  unfolding process_entries outcome
  process_dir_entry-visit es k w h = elim (Bool-cases (visit flags answer es 0 k w).stopped) [
    | inl stop ↦ behind es k v.fs_blocksize w h (omega arith) ∙ rw stop refl
    | inr on ↦
        let at =
          visit-at v flags func dir blocknr buf kept answer answers es 0 k v.fs_blocksize w h on in
        let over : ltb v.fs_blocksize v.fs_blocksize ≡ false = ground arith in
        behind es k v.fs_blocksize w h (omega arith) ∙ rw (on, at, over) refl
  ]

  -- What follows the entries is cut off by the end of the block, or has lengths that cannot be.
  pub process_dir_entry-corrupt :
      (es : List Dirent) (k end rec_len : ℕ) (w : W)
      → Entries v.fs_blocksize buf 0 es end
      → end < v.fs_blocksize
      → rec_len_at buf end ≡ some rec_len
      → (if ltb v.fs_blocksize (end + rec_len) then some true else bad_lengths buf end rec_len)
        ≡ some true
      → (visit flags answer es 0 k w).stopped ≡ false
      → process_dir_entry v flags func dir blocknr k buf w
        ≡ some (err dir_corrupted, at_end (visit flags answer es 0 k w))
  unfolding process_entries outcome
  process_dir_entry-corrupt es k end rec_len w h inside len bad on =
      let at = visit-at v flags func dir blocknr buf kept answer answers es 0 k end w h on in
      let starts : ltb end v.fs_blocksize ≡ true = ground arith in
      behind es k end w h (omega arith) ∙ rw (on, at, starts, len, bad) refl

  -- An entry that starts so close to the end of the buffer that its length is behind it.
  pub process_dir_entry-beyond :
      (es : List Dirent) (k end : ℕ) (w : W)
      → Entries v.fs_blocksize buf 0 es end
      → end < v.fs_blocksize
      → rec_len_at buf end ≡ none
      → (visit flags answer es 0 k w).stopped ≡ false
      → process_dir_entry v flags func dir blocknr k buf w ≡ none
  unfolding process_entries outcome
  process_dir_entry-beyond es k end w h inside len on =
      let at = visit-at v flags func dir blocknr buf kept answer answers es 0 k end w h on in
      let starts : ltb end v.fs_blocksize ≡ true = ground arith in
      behind es k end w h (omega arith) ∙ rw (on, at, starts, len) refl
