-- ===== src/Dirs/Found.antt =====
-- Looking a name up in a directory whose extents are in its inode.
use cmfs.Prelude.{
  ℕ, zero, true, false, ◌≡◌, refl, arith, Option, none, some, List, [], ◌∷◌, ◌++◌, ◌==◌,
  if◌then◌else◌, length, inl, inr, Bool-cases,
}
use cmfs.Err.{file_not_found, Result, ok, err}
use cmfs.Volume.{Volume, with_data, Dinode, is_dir}
use cmfs.Volume.Iterate.Order.{FileBlock, All, quiet}
use cmfs.Volume.Iterate.Order
use cmfs.Volume.Iterate.Trees.{file_blocks, leaf_blocks, blocks_of_rec}
use cmfs.Volume.Iterate.Whole.{
  IsFlat, IsInode, Reads, with_data-Reads, with_data-IsInode, read_inode-IsInode,
  check_directory-IsInode, block_iterate-visit,
}
use cmfs.Dirs.Lookups.{Lookup, no_flags, lookup_proc, lookup, looked_up}
use cmfs.Dirs.Blocks.{
  DirContext, process_dir_block, read_dir_block, iterate_dir, dir_iterate2, dir_iterate, xlate_func,
}
use cmfs.Dirs.Entries.{Dirent, Entries}
use cmfs.Dirs.Block.{process_dir_entry-visit}
use cmfs.Dirs.Check.{swap_dir_entries-Entries}
use cmfs.Dirs.Names.{
  NoNul, find_entry, find_entry-append, is_some, found, found-none, lookup_answer,
  lookup_proc-answer, visit-find,
}

unfoldable pub found_or_not : Option ℕ → Result ℕ
found_or_not none = err file_not_found
found_or_not (some i) = ok i

module _ {W : Type 0} (v : Volume W) (content : ℕ → List ℕ) (entries : ℕ → List Dirent)
    (reads : Reads v content) (name : List ℕ) (clean : NoNul name) (dir : ℕ) where
  -- A block of the directory is divided into its entries.
  abbrev pub IsDivided : FileBlock → Type 0
  IsDivided x =
      Entries v.fs_blocksize (content x.blkno) 0 (entries x.blkno) v.fs_blocksize
      × (length (content x.blkno) ≡ v.fs_blocksize)

  -- What `cmfs_process_dir_block` answers in a lookup.
  abbrev block_answer : Order.Answer ((W × Lookup) × DirContext)
  block_answer x ((w, ls), ctx) =
      let f = find_entry name (entries x.blkno) in
      (is_some f, ((w, found ls f), record { buf = content x.blkno; errcode = none }))

  process_dir_block-answer :
      (x : FileBlock) (s : (W × Lookup) × DirContext)
      → IsDivided x
      → process_dir_block
          (with_data v)
          no_flags
          (xlate_func (lookup_proc name (length name)))
          dir
          x.blkno
          x.bcount
          x.ext_flags
          s
        ≡ some (quiet (block_answer x s).0, (block_answer x s).1)
  unfolding process_dir_block read_dir_block
  process_dir_block-answer x ((w, ls), ctx) (es, size) =
      let (stopped, world) =
        visit-find name clean (entries x.blkno) 0 (if x.bcount == 0 then 1 else 3) w ls in
      rw
        (
          reads x.blkno w,
          swap_dir_entries-Entries (content x.blkno) v.fs_blocksize (entries x.blkno) v.fs_blocksize
              es (omega arith),
          process_dir_entry-visit (with_data v) no_flags
              (xlate_func (lookup_proc name (length name))) dir x.blkno (content x.blkno) refl
              (lookup_answer name clean)
              (λ k o e s is.
                lookup_proc-answer name clean k x.blkno o v.fs_blocksize (content x.blkno) e s is)
              (entries x.blkno) (if x.bcount == 0 then 1 else 3) (w, ls) es,
          stopped,
          world,
        )
        (elim (Bool-cases (is_some (find_entry name (entries x.blkno)))) [
          | inl f ↦ rw f refl
          | inr f ↦ rw f refl
        ])

  abbrev pub all_entries : List FileBlock → List Dirent
  all_entries [] = []
  all_entries (x ∷ xs) = entries x.blkno ++ all_entries xs

  -- What the visit of the blocks leaves.
  visit-find_entry :
      (xs : List FileBlock) (w : W) (ls : Lookup) (ctx : DirContext)
      → ctx.errcode ≡ none
      → (ctx' : DirContext) × ((Order.visit block_answer xs ((w, ls), ctx)).1
          ≡ ((w, found ls (find_entry name (all_entries xs))), ctx'))
        × (ctx'.errcode ≡ none)
  unfolding find_entry
  visit-find_entry [] w ls ctx good = (ctx, refl, good)
  visit-find_entry (x ∷ xs) w ls ctx good =
      rw (find_entry-append name (entries x.blkno) (all_entries xs))
        (elim (Bool-cases (is_some (find_entry name (entries x.blkno)))) [
          | inl f ↦ rw f (_, refl, refl)
          | inr f ↦
              rw (f, found-none ls (find_entry name (entries x.blkno)) f)
                (visit-find_entry xs w ls (record { buf = content x.blkno; errcode = none }) refl)
        ])

  -- The blocks of a file do not depend on the caller's data.
  same_blocks :
      (di : Dinode) (xs : List FileBlock)
      → file_blocks v content false di.i_size zero di.i_list ≡ some xs
      → file_blocks
          (with_data {P = DirContext} (with_data {P = Lookup} v))
          content
          false
          di.i_size
          zero
          di.i_list
        ≡ some xs
  unfolding file_blocks leaf_blocks blocks_of_rec
  same_blocks di xs e = e

  looked_up-found :
      (w : W) (o : Option ℕ)
      → looked_up v (some (ok tt, (w, found (record { inode = 0; found = false }) o)))
        ≡ some (found_or_not o, w)
  unfolding found_or_not
  looked_up-found w none = refl
  looked_up-found w (some i) = refl

  -- On a disk whose reads succeed, `cmfs_lookup` in a directory whose extents are in its inode, and
  -- whose blocks are divided into entries, returns the inode of the first entry in use that has the
  -- name, in the order of the blocks up to the size of the directory, or `CMFS_ET_FILE_NOT_FOUND`
  -- where there is none. The name has no NUL. Nothing is written.
  pub lookup-find_entry :
      (di : Dinode) (xs : List FileBlock) (w : W)
      → IsInode v content dir di
      → is_dir di ≡ true
      → IsFlat di
      → file_blocks v content false di.i_size zero di.i_list ≡ some xs
      → All IsDivided xs
      → lookup v dir name (length name) w
        ≡ some (found_or_not (find_entry name (all_entries xs)), w)
  unfolding lookup dir_iterate dir_iterate2 iterate_dir
  lookup-find_entry di xs w is of_dir flat blocks divided =
      let v₁ = with_data {P = Lookup} v in
      let reads₁ = with_data-Reads {P = Lookup} v content reads in
      let is₁ = with_data-IsInode {P = Lookup} v content dir di is in
      let ls : Lookup = record { inode = 0; found = false } in
      let ctx : DirContext = record { buf = []; errcode = none } in
      let (ctx', seen, good) = visit-find_entry xs w ls ctx refl in
      rw
        (
          read_inode-IsInode v content dir di w reads is,
          check_directory-IsInode v₁ content dir di (w, ls) reads₁ is₁ of_dir,
          read_inode-IsInode v₁ content dir di (w, ls) reads₁ is₁,
          block_iterate-visit (with_data {P = DirContext} v₁) content false
              (process_dir_block v₁ no_flags (xlate_func (lookup_proc name (length name))) dir)
              block_answer IsDivided process_dir_block-answer dir di xs ((w, ls), ctx)
              (with_data-Reads {P = DirContext} v₁ content reads₁)
              (with_data-IsInode {P = DirContext} v₁ content dir di is₁) flat
              (same_blocks di xs blocks) divided,
          seen,
          good,
        )
        (looked_up-found w (find_entry name (all_entries xs)))
