-- ===== src/Extents/Descent.antt =====
-- `cmfs_find_path` and `cmfs_tree_find_leaf`: the descent reaches the leaf that has the cluster.
use cmfs.Prelude.{
  ℕ, zero, suc, ◌+◌, ◌-◌, ◌%◌, ◌^◌, ◌<◌, ◌≤◌, false, ◌&&◌, ◌||◌, ◌≡◌, ◌≢◌, refl, sym, ◌∙◌, ap, inl,
  inr, arith, some, List, [], ◌∷◌, ltb, leb, ◌==◌, Bool-cases, get_elem?,
}
use cmfs.Err.{Result, ok, err}
use cmfs.Extents.{
  ExtentRec, ExtentList, ExtentBlock, Fs, rec_clusters, read_extent_block_nocheck,
  read_extent_block, child_from, checked, find_child, find_path_from, max_path_depth,
  tree_find_leaf,
}

-- The `n` first records lead to extent blocks that divide the clusters from `lo` to `hi` among
-- them, without a gap, where `P` says what a block below must be.
abbrev pub Tiles : Fs → ℕ → (ExtentList → ℕ → ℕ → Type 0) → ℕ → ℕ → ℕ → List ExtentRec → Type 0
Tiles fs depth P lo hi zero recs = lo ≡ hi
Tiles fs depth P lo hi (suc n) [] = ⊥
Tiles fs depth P lo hi (suc n) (rec ∷ recs) =
    (rec.e_cpos ≡ lo)
    × (lo + rec_clusters fs depth rec < 2 ^ 32)
    × (rec.e_blkno ≢ 0)
    × ((eb : ExtentBlock) × (read_extent_block fs rec.e_blkno ≡ ok eb)
        × P eb.h_list lo (lo + rec_clusters fs depth rec))
    × Tiles fs depth P (lo + rec_clusters fs depth rec) hi n recs

checked-again :
    (r : Result ExtentBlock) (eb : ExtentBlock) → checked r ≡ ok eb → checked (ok eb) ≡ ok eb
checked-again (err e) eb h = absurd (ground arith)
checked-again (ok eb') eb h =
    elim (Bool-cases (ltb eb'.h_list.l_count eb'.h_list.l_next_free_rec)) [
      | inl bad ↦ absurd (ground arith)
      | inr good ↦ let same : ok eb' ≡ ok eb = sym (rw good refl) ∙ h in ap checked (sym same) ∙ h
    ]

read-checked :
    (fs : Fs) (blkno : ℕ) (eb : ExtentBlock)
    → read_extent_block fs blkno ≡ ok eb
    → checked (read_extent_block fs blkno) ≡ ok eb
unfolding read_extent_block
read-checked fs blkno eb h = ap checked h ∙ checked-again (read_extent_block_nocheck fs blkno) eb h

-- The record that is gone down by leads to the block for the cluster.
record IsChild (fs : Fs) (P : ExtentList → ℕ → ℕ → Type 0) (recs : List ExtentRec) (cpos j : ℕ)
    : Type 0 where
  rec : ExtentRec
  at : get_elem? recs j ≡ some rec
  placed : rec.e_blkno ≢ 0
  eb : ExtentBlock
  reads : read_extent_block fs rec.e_blkno ≡ ok eb
  lo : ℕ
  hi : ℕ
  below : P eb.h_list lo hi
  low : lo ≤ cpos
  high : cpos < hi

child_from-IsChild :
    (fs : Fs) (depth : ℕ) (P : ExtentList → ℕ → ℕ → Type 0) (cpos i n : ℕ) (recs : List ExtentRec)
    (lo hi : ℕ)
    → Tiles fs depth P lo hi (suc n) recs
    → lo ≤ cpos
    → cpos < hi
    → (j : ℕ) × (child_from fs depth i n recs cpos ≡ some (i + j)) × IsChild fs P recs cpos j
unfolding child_from
child_from-IsChild fs depth P cpos i n [] lo hi tiles le lt = elim tiles [ ]
child_from-IsChild fs depth P cpos i zero (r ∷ recs) lo hi
      (starts, small, placed, (eb, reads, below), end) le lt =
    (
      0,
      ap (λ (t : ℕ). some t) (omega arith),
      record {
        rec = r;
        at = refl;
        placed = placed;
        eb = eb;
        reads = reads;
        lo = lo;
        hi = lo + rec_clusters fs depth r;
        below = below;
        low = le;
        high = omega (arith, end);
      },
    )
child_from-IsChild fs depth P cpos i (suc n) (r ∷ recs) lo hi
      (starts, small, placed, (eb, reads, below), rest) le lt =
    let c = rec_clusters fs depth r in
    let range : (r.e_cpos + c) % 2 ^ 32 ≡ lo + c = rw starts (omega arith) in
    elim (Bool-cases (leb r.e_cpos cpos && ltb cpos ((r.e_cpos + c) % 2 ^ 32))) [
      | inl hit ↦ (
        0,
        rw hit (ap (λ (t : ℕ). some t) (omega arith)),
        record {
          rec = r;
          at = refl;
          placed = placed;
          eb = eb;
          reads = reads;
          lo = lo;
          hi = lo + c;
          below = below;
          low = le;
          high = ground (arith, range);
        },
      )
      | inr miss ↦
          let (j, e, r') =
            child_from-IsChild fs depth P cpos (i + 1) n recs (lo + c) hi rest
              (ground (arith, range, starts)) lt in
          (
            suc j,
            rw miss (e ∙ ap (λ (t : ℕ). some t) (omega arith)),
            record {
              rec = r'.rec;
              at = r'.at;
              placed = r'.placed;
              eb = r'.eb;
              reads = r'.reads;
              lo = r'.lo;
              hi = r'.hi;
              below = r'.below;
              low = r'.low;
              high = r'.high;
            },
          )
    ]

suc-pred : (n : ℕ) → 0 < n → suc (n - 1) ≡ n
suc-pred n h = omega arith

module _ (L : ExtentList → ℕ → ℕ → Type 0) where
  -- A tree of the depth that its lists state, for the clusters from `lo` to `hi`, all of which are
  -- below 2^32. `L` says what the leaf for a range is.
  abbrev pub IsTree : ℕ → Fs → ExtentList → ℕ → ℕ → Type 0
  IsTree zero fs el lo hi = (el.l_tree_depth ≡ 0) × L el lo hi
  IsTree (suc d) fs el lo hi =
      (el.l_tree_depth ≡ suc d)
      × (0 < el.l_next_free_rec)
      × Tiles fs (suc d) (IsTree d fs) lo hi el.l_next_free_rec el.l_recs

  find_child_lem :
      (fs : Fs) (d : ℕ) (el : ExtentList) (lo hi cpos : ℕ)
      → IsTree (suc d) fs el lo hi
      → lo ≤ cpos
      → cpos < hi
      → (eb : ExtentBlock) × (lo' : ℕ) × (hi' : ℕ) × (find_child fs el cpos ≡ some (ok eb))
        × IsTree d fs eb.h_list lo' hi'
        × (lo' ≤ cpos)
        × (cpos < hi')
  unfolding find_child
  find_child_lem fs d el lo hi cpos (depth, some_recs, tiles) le lt =
      let pred = suc-pred el.l_next_free_rec some_recs in
      let (j, e, c) =
        child_from-IsChild fs (suc d) (IsTree d fs) cpos 0 (el.l_next_free_rec - 1) el.l_recs lo hi
          (rw pred tiles) le lt in
      let some_recs' : (el.l_next_free_rec == 0) ≡ false = ground arith in
      let placed : (c.rec.e_blkno == 0) ≡ false = ground (arith, c.placed) in
      let z : 0 + j ≡ j = omega arith in
      (
        c.eb,
        c.lo,
        c.hi,
        rw (some_recs', depth, e, z, c.at, placed)
            (ap some (read-checked fs c.rec.e_blkno c.eb c.reads)),
        c.below,
        c.low,
        c.high,
      )

  -- The path: a block for each level, the last of which is the leaf for the cluster.
  find_path_from_lem :
      (d room : ℕ) (fs : Fs) (el : ExtentList) (lo hi cpos : ℕ)
      → suc d ≤ room
      → IsTree (suc d) fs el lo hi
      → lo ≤ cpos
      → cpos < hi
      → (ebs : List ExtentBlock) × (leaf : ExtentBlock) × (lo' : ℕ) × (hi' : ℕ) × (find_path_from
            room fs el cpos
          ≡ some (ok ebs))
        × (get_elem? ebs d ≡ some leaf)
        × IsTree 0 fs leaf.h_list lo' hi'
        × (lo' ≤ cpos)
        × (cpos < hi')
  unfolding find_path_from
  find_path_from_lem d zero fs el lo hi cpos fit tree le lt = absurd (omega arith)
  find_path_from_lem zero (suc room) fs el lo hi cpos fit tree le lt =
      let (eb, lo', hi', e, leaf, le', lt') = find_child_lem fs 0 el lo hi cpos tree le lt in
      let deep : (el.l_tree_depth == 0) ≡ false = ground (arith, tree.0) in
      (
        eb ∷ [],
        eb,
        lo',
        hi',
        rw (deep, e) (rw (ends room fs eb.h_list cpos leaf.0) refl),
        refl,
        leaf,
        le',
        lt',
      )
    where
      ends :
          (room : ℕ) (fs : Fs) (el : ExtentList) (cpos : ℕ)
          → el.l_tree_depth ≡ 0
          → find_path_from room fs el cpos ≡ some (ok [])
      ends zero fs el cpos h = rw h refl
      ends (suc room) fs el cpos h = rw h refl
  find_path_from_lem (suc d) (suc room) fs el lo hi cpos fit tree le lt =
      let (eb, lo₁, hi₁, e, below, le₁, lt₁) = find_child_lem fs (suc d) el lo hi cpos tree le lt in
      let (ebs, leaf, lo', hi', e', at, below', le', lt') =
        find_path_from_lem d room fs eb.h_list lo₁ hi₁ cpos (omega arith) below le₁ lt₁ in
      let deep : (el.l_tree_depth == 0) ≡ false = ground (arith, tree.0) in
      (eb ∷ ebs, leaf, lo', hi', rw (deep, e) (rw e' refl), at, below', le', lt')

  -- In a tree of one to four levels of extent blocks, whose clusters lie below 2^32,
  -- `cmfs_tree_find_leaf` ends and returns the leaf of the range that has the cluster: whatever `L`
  -- says of each leaf and its range in the tree holds of it.
  pub tree_find_leaf-IsTree :
      (d : ℕ) (fs : Fs) (el : ExtentList) (lo hi cpos : ℕ)
      → suc d < max_path_depth
      → IsTree (suc d) fs el lo hi
      → lo ≤ cpos
      → cpos < hi
      → (leaf : ExtentBlock) × (lo' : ℕ) × (hi' : ℕ) × (tree_find_leaf fs el cpos ≡ some (ok leaf))
        × IsTree 0 fs leaf.h_list lo' hi'
        × (lo' ≤ cpos)
        × (cpos < hi')
  unfolding tree_find_leaf
  tree_find_leaf-IsTree d fs el lo hi cpos fit tree le lt =
      let (ebs, leaf, lo', hi', e, at, below', le', lt') =
        find_path_from_lem d 4 fs el lo hi cpos (omega arith) tree le lt in
      let sound : ((el.l_tree_depth == 0) || leb max_path_depth el.l_tree_depth) ≡ false =
        ground (arith, tree.0) in
      let pred : suc d - 1 ≡ d = omega arith in
      (leaf, lo', hi', rw (sound, e) (rw (tree.0, pred, at) refl), below', le', lt')
