-- ===== src/Volume/Iterate.antt =====
-- The iteration over the extents and the blocks of a file, of cmfs-tools/libcmfs/extents.c.
pub mod Files
pub mod Order
pub mod Trees
pub mod Whole
use cmfs.Prelude.{
  ℕ, zero, suc, ◌+◌, ◌-◌, ◌*◌, ◌%◌, ◌^◌, Bool, true, false, ◌&&◌, ◌||◌, not, Option, none, some,
  List, [], ◌∷◌, ltb, leb, ◌==◌, if◌then◌else◌,
}
use cmfs.Prelude.Bits.{has_bit}
use cmfs.Prelude.Fault.{◌>>=◌}
use cmfs.Err.{
  bad_blkno, corrupt_extent_block, inode_not_valid, inode_cannot_be_iterated, Err, Result, ok, err,
}
use cmfs.Extents.{
  Fs, ExtentRec, ExtentList, ExtentBlock, e_flags, e_leaf_blocks, rec_clusters, clusters_to_blocks,
}
use cmfs.Volume.{
  M, Dinode, Volume, in_range, read_inode, write_inode, read_extents, write_extent_block,
}

-- The bits `CMFS_EXTENT_CHANGED`, `_ABORT` and `_ERROR` of an answer, or those of `CMFS_BLOCK_`.
pub record Iret : Type 0 where
  pub changed : Bool
  pub abort : Bool
  pub error : Bool

abbrev pub no_bits : Iret
no_bits = record { changed = false; abort = false; error = false }

infixl 40 ◌∪◌
abbrev pub ◌∪◌ : Iret → Iret → Iret
a ∪ b = record {
  changed = a.changed || b.changed;
  abort = a.abort || b.abort;
  error = a.error || b.error;
}

abbrev pub stops : Iret → Bool
stops r = r.abort || r.error

abbrev pub with_error : Iret → Iret
with_error r = record r { error = true }

-- `struct extent_context`, with the device and the caller's data. `errcode` has no value at first.
pub record ExtentContext (W : Type 0) : Type 0 where
  pub ccount : ℕ
  pub errcode : Option (Option Err)
  pub last_eb_blkno : ℕ
  pub last_eb_cpos : ℕ
  pub world : W

-- How one record of a list is dealt with: it may be changed.
abbrev pub Step : Type 0 → Type 0
Step W = ℕ → ExtentRec → ExtentContext W → Option (Iret × ExtentRec × ExtentContext W)

-- A call `func(fs, rec, tree_depth, ccount, ref_blkno, ref_recno, priv_data)`.
abbrev pub ExtentFunc : Type 0 → Type 0
ExtentFunc W = ExtentRec → ℕ → ℕ → ℕ → ℕ → W → Option (Iret × ExtentRec × W)

-- The flags of `cmfs_extent_iterate_inode` that are looked at.
pub record IterateFlags : Type 0 where
  pub depth_traverse : Bool
  pub data_only : Bool

-- The loop over `n` records from record `i` on. `none` is a record beyond the array.
unfoldable pub iterate_recs :
    {W : Type 0}
    → Step W
    → ℕ
    → ℕ
    → List ExtentRec
    → Iret
    → ExtentContext W
    → Option (Iret × List ExtentRec × ExtentContext W)
iterate_recs step zero i recs iret c = some (iret, recs, c)
iterate_recs step (suc n) i [] iret c = none
iterate_recs step (suc n) i (rec ∷ recs) iret c = step i rec c >>= λ (r, rec', c').
    let rest = iterate_recs step n (i + 1) recs (iret ∪ r) c' >>= λ (r', recs', c'').
    some (r', rec' ∷ recs', c'') in
    if stops (iret ∪ r) then some (iret ∪ r, rec' ∷ recs, c') else rest

-- The index of the first of `n` records without clusters.
unfoldable pub first_empty : Fs → ℕ → ℕ → ℕ → List ExtentRec → Option (Option ℕ)
first_empty fs depth zero i recs = some none
first_empty fs depth (suc n) i [] = none
first_empty fs depth (suc n) i (rec ∷ recs) =
    let rest = first_empty fs depth n (i + 1) recs in
    if rec_clusters fs depth rec == 0 then some (some i) else rest

-- What follows the loop: a list that was changed ends before its first empty record.
abbrev pub shorten : ExtentList → Option ℕ → ExtentList
shorten el none = el
shorten el (some i) = record el { l_next_free_rec = i }

unfoldable pub after_recs :
    {W : Type 0}
    → Fs
    → ExtentList
    → Iret × List ExtentRec × ExtentContext W
    → Option (Iret × ExtentList × ExtentContext W)
after_recs fs el (iret, recs, c) =
    let el' = record el { l_recs = recs } in
    let shorter =
      first_empty fs el.l_tree_depth el.l_count 0 recs >>= λ e. some (iret, shorten el' e, c) in
    if iret.changed then shorter else some (iret, el', c)

module _ {W : Type 0} (v : Volume W) (flags : IterateFlags) (func : ExtentFunc W) where
  -- A call of `func` from within the iteration.
  abbrev pub call :
      ExtentRec → ℕ → ℕ → ℕ → ExtentContext W → Option (Iret × ExtentRec × ExtentContext W)
  call rec depth ref_blkno recno c =
      func rec depth c.ccount ref_blkno recno c.world >>= λ (r, rec', w).
      some (r, rec', record c { world = w })

  -- A record of a leaf. The leftmost one may be empty.
  unfoldable pub leaf_step : ℕ → Step W
  leaf_step ref_blkno i rec c =
      if (i == 0) && (e_leaf_blocks rec == 0)
      then some (no_bits, rec, c)
      else (call rec 0 ref_blkno i c >>= λ (r, rec', c').
          some (r, rec', record c' { ccount = (c'.ccount + rec_clusters v.fs 0 rec') % 2 ^ 32 }))

  -- The end of `extent_iterate_eb`.
  abbrev pub call_after :
      ℕ → ℕ → ℕ → Iret → ExtentRec → ExtentContext W → Option (Iret × ExtentRec × ExtentContext W)
  call_after depth ref_blkno recno iret rec c =
      if flags.depth_traverse && not flags.data_only && not (stops iret)
      then call rec depth ref_blkno recno c
      else some (iret, rec, c)

  -- Where the list of the block was changed, the block is written.
  abbrev pub written :
      Iret
      → ExtentContext W
      → Option (Result (Unit {0}) × W)
      → (Iret → ExtentContext W → Option (Iret × ExtentRec × ExtentContext W))
      → ExtentRec
      → Option (Iret × ExtentRec × ExtentContext W)
  written iret c none next rec = none
  written iret c (some (err e, w)) next rec =
      some (with_error iret, rec, record c { errcode = some (some e); world = w })
  written iret c (some (ok _, w)) next rec = next iret (record c { errcode = some none; world = w })

  -- What follows the iteration over the block's list.
  abbrev pub after_el :
      ℕ
      → ℕ
      → ℕ
      → Iret
      → ExtentRec
      → ExtentBlock
      → Iret × ExtentList × ExtentContext W
      → Option (Iret × ExtentRec × ExtentContext W)
  after_el depth ref_blkno recno iret rec eb (r, el, c) =
      let iret' = iret ∪ (record r { changed = false }) in
      let next = λ (i : Iret) (c' : ExtentContext W). call_after depth ref_blkno recno i rec c' in
      if r.changed
      then written iret' c (write_extent_block v rec.e_blkno (record eb { h_list = el }) c.world)
          next rec
      else next iret' c

  abbrev pub read :
      (ExtentList → ℕ → ExtentContext W → Option (Iret × ExtentList × ExtentContext W))
      → ℕ
      → ℕ
      → ℕ
      → Iret
      → ExtentRec
      → ExtentContext W
      → Option (Result ExtentBlock × W)
      → Option (Iret × ExtentRec × ExtentContext W)
  read inner tree_depth ref_blkno recno iret rec c none = none
  read inner tree_depth ref_blkno recno iret rec c (some (err e, w)) =
      some (with_error iret, rec, record c { errcode = some (some e); world = w })
  read inner tree_depth ref_blkno recno iret rec c (some (ok eb, w)) =
      let c' = record c { errcode = some none; world = w } in
      if not (eb.h_list.l_tree_depth == tree_depth) || not (eb.h_blkno == rec.e_blkno)
      then some (with_error iret, rec, record c' { errcode = some (some corrupt_extent_block) })
      else (inner eb.h_list rec.e_blkno c'
          >>= after_el (suc tree_depth) ref_blkno recno iret rec eb)

  -- `extent_iterate_eb` behind its first call. `inner` iterates over a list of depth `tree_depth`.
  unfoldable pub iterate_block :
      (ExtentList → ℕ → ExtentContext W → Option (Iret × ExtentList × ExtentContext W))
      → ℕ
      → ℕ
      → ℕ
      → Iret × ExtentRec × ExtentContext W
      → Option (Iret × ExtentRec × ExtentContext W)
  iterate_block inner tree_depth ref_blkno recno (iret, rec, c) =
      if (rec.e_blkno == 0) || iret.abort
      then some (iret, rec, c)
      else if not (in_range v.fs rec.e_blkno)
      then some (with_error iret, rec, record c { errcode = some (some bad_blkno) })
      else read inner tree_depth ref_blkno recno iret rec c (read_extents v rec.e_blkno c.world)

  unfoldable pub iterate_eb :
      (ExtentList → ℕ → ExtentContext W → Option (Iret × ExtentList × ExtentContext W))
      → ℕ
      → ℕ
      → Step W
  iterate_eb inner tree_depth ref_blkno recno rec c =
      (if not flags.depth_traverse && not flags.data_only
        then call rec (suc tree_depth) ref_blkno recno c
        else some (no_bits, rec, c))
      >>= iterate_block inner tree_depth ref_blkno recno

  -- The last leaf block that was met.
  unfoldable pub note_last : ℕ → ExtentRec → ExtentContext W → ExtentContext W
  note_last depth rec c =
      if not (rec.e_int_blocks == 0) && leb c.last_eb_cpos rec.e_cpos
      then record c {
        last_eb_blkno = if depth == 1 then rec.e_blkno else c.last_eb_blkno;
        last_eb_cpos = rec.e_cpos;
      }
      else c

  -- `extent_iterate_el` for a list of the given depth. A list that a block holds was checked to have
  -- the depth below that of the list that points to it.
  unfoldable pub iterate_el :
      ℕ → ExtentList → ℕ → ExtentContext W → Option (Iret × ExtentList × ExtentContext W)
  iterate_el zero el ref_blkno c =
      iterate_recs (leaf_step ref_blkno) el.l_next_free_rec 0 el.l_recs no_bits c
      >>= after_recs v.fs el
  iterate_el (suc d) el ref_blkno c =
      iterate_recs
        (λ i rec c'. iterate_eb (iterate_el d) d ref_blkno i rec c' >>= λ (r, rec', c'').
          some (r, rec', note_last (suc d) rec' c''))
        el.l_next_free_rec 0 el.l_recs no_bits c
      >>= after_recs v.fs el
