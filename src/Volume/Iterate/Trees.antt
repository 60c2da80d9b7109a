-- ===== src/Volume/Iterate/Trees.antt =====
-- The trees of extents of a file, and the order in which their blocks are shown.
use cmfs.Prelude.{
  ℕ, zero, suc, Bool, true, false, ◌&&◌, ◌||◌, not, ◌≡◌, refl, ◌∙◌, arith, Option, none, some, List,
  [], ltb, ◌==◌, if◌then◌else◌, inl, inr, Bool-cases,
}
use cmfs.Prelude.Fault.{◌>>=◌, >>=-eq-some, some_inj}
use cmfs.Err.{ok}
use cmfs.Extents.{
  ExtentRec, ExtentList, ExtentBlock, e_flags, e_leaf_blocks, rec_clusters, clusters_to_blocks,
  read_extent_block, read_extent_block_nocheck,
}
use cmfs.Volume.{Volume, in_range, read_extents}
use cmfs.Volume.Iterate.{
  Iret, ExtentContext, Step, after_recs, ExtentFunc, leaf_step, iterate_block, iterate_eb,
  iterate_el, note_last, IterateFlags,
}
use cmfs.Volume.Iterate.Files.{BlockFunc, block_iterate_func}
use cmfs.Volume.Iterate.Order.{
  FileBlock, Answer, All, visit, quiet, blocks_from, over_recs, if-some, Shows, iterate_recs-visit,
  iterate_blocks-visit,
}

module _ {W : Type 0} (v : Volume W) (content : ℕ → List ℕ) (append : Bool) (i_size : ℕ) where
  -- The blocks of a record of a leaf.
  unfoldable pub blocks_of_rec : ExtentRec → List FileBlock
  blocks_of_rec rec =
      blocks_from append v.fs_blocksize i_size (e_flags rec)
        (clusters_to_blocks v.fs (rec_clusters v.fs 0 rec)) rec.e_blkno
        (clusters_to_blocks v.fs rec.e_cpos)

  -- The leftmost record may be empty.
  unfoldable pub leaf_blocks : ℕ → ExtentRec → Option (List FileBlock)
  leaf_blocks i rec = some (if (i == 0) && (e_leaf_blocks rec == 0) then [] else blocks_of_rec rec)

  -- The list of the sound extent block at a place, which is to have this depth.
  unfoldable pub list_at : ℕ → ℕ → Option ExtentList
  list_at d blkno =
      let eb = v.as_extent_block (content blkno) in
      if in_range v.fs blkno
        && eb.has_signature
        && not (ltb eb.h_list.l_count eb.h_list.l_next_free_rec)
        && (eb.h_list.l_tree_depth == d)
        && (eb.h_blkno == blkno)
      then some eb.h_list
      else none

  -- The blocks of a tree of extents of this depth, from the left to the right.
  unfoldable pub file_blocks : ℕ → ExtentList → Option (List FileBlock)
  file_blocks zero el = over_recs leaf_blocks el.l_next_free_rec 0 el.l_recs
  file_blocks (suc d) el =
      over_recs
        (λ i rec.
          let child = list_at d rec.e_blkno >>= file_blocks d in
          if rec.e_blkno == 0 then some [] else child)
        el.l_next_free_rec 0 el.l_recs

  module _ (func : BlockFunc W) (answer : Answer W) (P : FileBlock → Type 0)
      (answers : (x : FileBlock) (w : W)
        → P x
        → func x.blkno x.bcount x.ext_flags w ≡ some (quiet (answer x w).0, (answer x w).1)) where
    abbrev pub of_data : IterateFlags
    of_data = record { depth_traverse = false; data_only = true }

    abbrev pub shown : ExtentFunc W
    shown = block_iterate_func v func append i_size

    leaf_step-visit :
        (K : ExtentContext W → Type 0)
        (keeps : (c : ExtentContext W) (n : ℕ) (w : W)
          → K c
          → K (record c { ccount = n; world = w }))
        (ref_blkno i : ℕ) (rec : ExtentRec) (c : ExtentContext W) (xs : List FileBlock)
        → K c
        → leaf_blocks i rec ≡ some xs
        → All P xs
        → Shows answer P K (leaf_step v of_data shown ref_blkno i rec c) rec c xs
    unfolding leaf_step leaf_blocks blocks_of_rec block_iterate_func
    leaf_step-visit K keeps ref_blkno i rec c xs k e ps =
        let p : (if (i == 0) && (e_leaf_blocks rec == 0) then [] else blocks_of_rec rec) ≡ xs =
          some_inj e in
        rw (← p) (elim (Bool-cases ((i == 0) && (e_leaf_blocks rec == 0))) [
          | inl empty ↦ rw empty (c, refl, refl, k)
          | inr full ↦
              let q : blocks_of_rec rec ≡ xs = rw full at p in
              let ps' : All P (blocks_of_rec rec) = rw q ps in
              rw
                (
                  full,
                  iterate_blocks-visit v func answer P answers append i_size (e_flags rec)
                      (clusters_to_blocks v.fs (rec_clusters v.fs 0 rec)) rec.e_blkno
                      (clusters_to_blocks v.fs rec.e_cpos) c.world ps',
                )
                (_, refl, refl, keeps c _ _ k)
        ])

    -- A list of records in a leaf, or in the inode.
    pub iterate_leaf-visit :
        (K : ExtentContext W → Type 0)
        (keeps : (c : ExtentContext W) (n : ℕ) (w : W)
          → K c
          → K (record c { ccount = n; world = w }))
        (el : ExtentList) (ref_blkno : ℕ) (c : ExtentContext W) (xs : List FileBlock)
        → K c
        → file_blocks zero el ≡ some xs
        → All P xs
        → (c' : ExtentContext W) × (iterate_el v of_data shown zero el ref_blkno c
            ≡ some (quiet (visit answer xs c.world).0, el, c'))
          × (c'.world ≡ (visit answer xs c.world).1)
          × K c'
    unfolding iterate_el file_blocks after_recs
    iterate_leaf-visit K keeps el ref_blkno c xs k e ps =
        let (c', run, w, k') =
          iterate_recs-visit answer P K (leaf_step v of_data shown ref_blkno) leaf_blocks
            (leaf_step-visit K keeps ref_blkno) el.l_next_free_rec 0 el.l_recs c xs k e ps in
        (c', rw run refl, w, k')

    module _ (reads : (b : ℕ) (w : W) → v.read_blocks b w ≡ some (ok (content b), w)) where
      -- A sound block below, and the iteration over its list.
      list_at-read :
          (d blkno : ℕ) (el : ExtentList) (w : W)
          → list_at d blkno ≡ some el
          → (eb : ExtentBlock) × (read_extents v blkno w ≡ some (ok eb, w))
            × (eb.h_list ≡ el)
            × (in_range v.fs blkno ≡ true)
            × ((eb.h_list.l_tree_depth == d) ≡ true)
            × ((eb.h_blkno == blkno) ≡ true)
      unfolding list_at read_extents read_extent_block read_extent_block_nocheck in_range
      list_at-read d blkno el w e =
          let eb = v.as_extent_block (content blkno) in
          let (sound, same) = if-some _ eb.h_list e in
          let range : (ltb blkno 2 || ltb v.fs.fs_blocks blkno) ≡ false = ground arith in
          let signed : eb.has_signature ≡ true = ground arith in
          let fits : ltb eb.h_list.l_count eb.h_list.l_next_free_rec ≡ false = ground arith in
          let deep : (eb.h_list.l_tree_depth == d) ≡ true = ground arith in
          let here : (eb.h_blkno == blkno) ≡ true = ground arith in
          (eb, rw (range, reads blkno w, signed, fits) refl, same, rw range refl, deep, here)

      abbrev Inner : Type 0
      Inner = ExtentList → ℕ → ExtentContext W → Option (Iret × ExtentList × ExtentContext W)

      -- The iteration over a list below shows the blocks of that list.
      abbrev ShowsList : ℕ → Inner → Type 0
      ShowsList d inner =
          (el : ExtentList) (ref_blkno : ℕ) (c : ExtentContext W) (xs : List FileBlock)
          → file_blocks d el ≡ some xs
          → All P xs
          → (c' : ExtentContext W) × (inner el ref_blkno c
              ≡ some (quiet (visit answer xs c.world).0, el, c'))
            × (c'.world ≡ (visit answer xs c.world).1)

      iterate_eb-visit :
          (d : ℕ) (inner : Inner)
          → ShowsList d inner
          → (ref_blkno recno : ℕ) (rec : ExtentRec) (c : ExtentContext W) (xs : List FileBlock)
          → (let child = list_at d rec.e_blkno >>= file_blocks d in
              if rec.e_blkno == 0 then some [] else child)
            ≡ some xs
          → All P xs
          → Shows answer P
              (λ _. Unit {0})
              (iterate_eb v of_data shown inner d ref_blkno recno rec c)
              rec
              c
              xs
      unfolding iterate_eb iterate_block
      iterate_eb-visit d inner shows ref_blkno recno rec c xs e ps =
          elim (Bool-cases (rec.e_blkno == 0)) [
            | inl absent ↦
                let p : [] ≡ xs = some_inj (rw absent at e) in rw (← p, absent) (c, refl, refl, tt)
            | inr placed ↦
                let e' : (list_at d rec.e_blkno >>= file_blocks d) ≡ some xs = rw placed at e in
                let (el, at, below) = >>=-eq-some (list_at d rec.e_blkno) _ e' in
                let (eb, read, same, range, deep, here) =
                  list_at-read d rec.e_blkno el c.world at in
                let (c', run, w) =
                  shows eb.h_list rec.e_blkno (record c { errcode = some none }) xs (rw same below)
                    ps in
                rw (placed, range, read, deep, here, run) (c', refl, w, tt)
          ]

      noted :
          (d : ℕ) (rec : ExtentRec) (c : ExtentContext W)
          → (note_last v of_data shown d rec c).world ≡ c.world
      unfolding note_last
      noted d rec c = ground arith

      -- `extent_iterate_el` of a sound tree of any depth, asked for data only, with the function of
      -- the iteration over blocks: the blocks of the tree are shown from the left to the right until
      -- the caller stops, and no list is changed.
      pub iterate_el-visit :
          (d : ℕ) (el : ExtentList) (ref_blkno : ℕ) (c : ExtentContext W) (xs : List FileBlock)
          → file_blocks d el ≡ some xs
          → All P xs
          → (c' : ExtentContext W) × (iterate_el v of_data shown d el ref_blkno c
              ≡ some (quiet (visit answer xs c.world).0, el, c'))
            × (c'.world ≡ (visit answer xs c.world).1)
      unfolding iterate_el file_blocks after_recs
      iterate_el-visit zero el ref_blkno c xs e ps =
          let (c', run, w, k) =
            iterate_leaf-visit (λ _. Unit {0}) (λ _ _ _ _. tt) el ref_blkno c xs tt e ps in
          (c', run, w)
      iterate_el-visit (suc d) el ref_blkno c xs e ps =
          let inner = iterate_el v of_data shown d in
          let step : Step W = λ i rec c₁.
            iterate_eb v of_data shown inner d ref_blkno i rec c₁ >>= λ (r, rec', c₂).
            some (r, rec', note_last v of_data shown (suc d) rec' c₂) in
          let (c', run, w, k) =
            iterate_recs-visit answer P (λ _. Unit {0}) step
              (λ i rec.
                let child = list_at d rec.e_blkno >>= file_blocks d in
                if rec.e_blkno == 0 then some [] else child)
              (λ i rec c₁ ys k e₁ ps₁.
                let (c₂, run, w, k₂) =
                  iterate_eb-visit d inner (iterate_el-visit d) ref_blkno i rec c₁ ys e₁ ps₁ in
                (
                  note_last v of_data shown (suc d) rec c₂,
                  rw run refl,
                  noted (suc d) rec c₂ ∙ w,
                  tt,
                ))
              el.l_next_free_rec 0 el.l_recs c xs tt e ps in
          (c', rw run refl, w)
