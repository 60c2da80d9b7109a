-- ===== src/Extents/Map/Leaf.antt =====
-- `cmfs_get_clusters` on the extent list of a leaf: the run of clusters it answers for.
use cmfs.Prelude.{
  ℕ, ◌+◌, ◌-◌, ◌%◌, ◌^◌, ◌<◌, ◌≤◌, true, false, ◌&&◌, ◌≡◌, ◌≢◌, refl, ◌∙◌, ap, ◌⊎◌, inl, inr, arith,
  Option, none, some, ltb, leb, ◌==◌, Bool-cases, length, get_elem?, get_or, get_elem?-get_or,
}
use native.Mathlib.Nat.{div-le_self}
use cmfs.Err.{ok}
use cmfs.Extents.{
  ExtentRec, e_leaf_blocks, e_flags, ExtentList, Fs, blocks_to_clusters, rec_blocks, rec_clusters,
  covers,
}
use cmfs.Extents.Search.{
  no_rec, NotIn, Found, IsHoleIndex, search_extent_list-Found, search_for_hole_index-IsHoleIndex,
}
use cmfs.Extents.Map.{
  hole_end, figure_hole_clusters, Clusters, mapped, at_index, clusters_in_leaf, get_clusters,
}

abbrev pub rec_at : ExtentList → ℕ → ExtentRec
rec_at el i = get_or el.l_recs i no_rec

module _ (fs : Fs) (el : ExtentList) where
  -- The first cluster behind a record's.
  abbrev pub end_of : ℕ → ℕ
  end_of i = (rec_at el i).e_cpos + rec_clusters fs 0 (rec_at el i)

  -- The records of a leaf rise, do not overlap, and have a place on the disk.
  pub record IsLeaf : Type 0 where
    pub no_depth : el.l_tree_depth ≡ 0
    pub in_array : el.l_next_free_rec ≤ length el.l_recs
    pub rising : (i j : ℕ) → i < j → j < el.l_next_free_rec → end_of i ≤ (rec_at el j).e_cpos
    pub placed : (i : ℕ) → i < el.l_next_free_rec → (rec_at el i).e_blkno ≢ 0
    pub bounded : (i : ℕ) → i < el.l_next_free_rec → end_of i < 2 ^ 64
    pub on_disk :
        (i : ℕ)
        → i < el.l_next_free_rec
        → blocks_to_clusters fs (rec_at el i).e_blkno + rec_clusters fs 0 (rec_at el i) < 2 ^ 64

  -- Record `i` has the cluster.
  abbrev pub InRec : ℕ → ℕ → Type 0
  InRec v i = (i < el.l_next_free_rec) × ((rec_at el i).e_cpos ≤ v) × (v < end_of i)

  -- The cluster is as far into the record's clusters on the disk as it is into the record, and what
  -- is left of the record is the run.
  pub record IsMapped (v : ℕ) (c : Clusters) : Type 0 where
    pub index : ℕ
    pub has : InRec v index
    pub place :
        c.p_cluster
        ≡ blocks_to_clusters fs (rec_at el index).e_blkno + (v - (rec_at el index).e_cpos)
    pub run : v + c.num_clusters ≡ end_of index
    pub flags : c.extent_flags ≡ e_flags (rec_at el index)

  -- No record has a cluster of the run, and a record starts behind it or no number is left.
  pub record IsHole (v : ℕ) (c : Clusters) : Type 0 where
    pub zero_place : c.p_cluster ≡ 0
    pub unmapped : (w i : ℕ) → v ≤ w → w < v + c.num_clusters → InRec w i → ⊥
    pub maximal :
        ((i : ℕ) × (i < el.l_next_free_rec) × (v + c.num_clusters ≡ (rec_at el i).e_cpos))
        ⊎ (v + c.num_clusters ≡ 2 ^ 64 - 1)
    pub no_flags : c.extent_flags ≡ 0

  module _ (leaf : IsLeaf) where
    -- A leaf's record has fewer than 2^32 blocks.
    few_clusters : (rec : ExtentRec) → rec_clusters fs 0 rec < 2 ^ 32
    unfolding rec_clusters rec_blocks blocks_to_clusters e_leaf_blocks
    few_clusters rec = omega (
      arith,
      div-le_self (rec.e_int_blocks % 2 ^ 32) (2 ^ (fs.s_clustersize_bits - fs.s_blocksize_bits)),
    )

    covers-eq :
        (v i : ℕ)
        → i < el.l_next_free_rec
        → covers fs el.l_tree_depth (rec_at el i) v
          ≡ (leb (rec_at el i).e_cpos v && ltb v (end_of i))
    unfolding covers
    covers-eq v i lt =
        let small : end_of i % 2 ^ 64 ≡ end_of i = omega (arith, leaf.bounded i lt) in
        rw (leaf.no_depth, small) refl

    get_rec : (i : ℕ) → i < el.l_next_free_rec → get_elem? el.l_recs i ≡ some (rec_at el i)
    get_rec i lt = get_elem?-get_or el.l_recs i no_rec (omega (arith, leaf.in_array))

    mapped-IsMapped :
        (v i : ℕ)
        → InRec v i
        → (c : Clusters) × (mapped fs el (rec_at el i) v ≡ ok c) × IsMapped v c
    unfolding mapped
    mapped-IsMapped v i (lt, lo, hi) =
        let few = few_clusters (rec_at el i) in
        let placed : ((rec_at el i).e_blkno == 0) ≡ false = ground (arith, leaf.placed i lt) in
        let coff : (v - (rec_at el i).e_cpos) % 2 ^ 32 ≡ v - (rec_at el i).e_cpos = omega arith in
        let p = blocks_to_clusters fs (rec_at el i).e_blkno in
        let place : (p + (v - (rec_at el i).e_cpos)) % 2 ^ 64 ≡ p + (v - (rec_at el i).e_cpos) =
          omega (arith, leaf.on_disk i lt) in
        let c : Clusters = record {
          p_cluster = (p + (v - (rec_at el i).e_cpos) % 2 ^ 32) % 2 ^ 64;
          num_clusters =
              (rec_clusters fs 0 (rec_at el i) + 2 ^ 64 - (v - (rec_at el i).e_cpos) % 2 ^ 32)
              % 2 ^ 64;
          extent_flags = e_flags (rec_at el i);
        } in
        (
          c,
          rw (placed, leaf.no_depth) refl,
          record {
            index = i;
            has = (lt, lo, hi);
            place = ap (λ (t : ℕ). (p + t) % 2 ^ 64) coff ∙ place;
            run = omega (arith, coff, few);
            flags = refl;
          },
        )

    not_in :
        (v : ℕ)
        → NotIn (λ rec. covers fs el.l_tree_depth rec v) el.l_next_free_rec el.l_recs
        → (i : ℕ) → InRec v i
        → ⊥
    not_in v none_covers i (lt, lo, hi) =
        absurd (ground (arith, covers-eq v i lt, none_covers i lt))

    -- A cluster below all records from `j` on, and in no record, starts a run that ends at `j`.
    hole_run :
        (v j num : ℕ)
        → ((i : ℕ) → InRec v i → ⊥)
        → IsHoleIndex el.l_next_free_rec el.l_recs v j
        → (j < el.l_next_free_rec → v + num ≡ (rec_at el j).e_cpos)
        → (w i : ℕ) → v ≤ w
        → w < v + num
        → InRec w i
        → ⊥
    hole_run v j num out h ends w i le lt (i_lt, lo, hi) = elim (Bool-cases (ltb i j)) [
      | inl before ↦ out i (i_lt, h.before i (ground arith), omega arith)
      | inr after ↦ elim (Bool-cases (i == j)) [
        | inl same ↦
            let e : i ≡ j = ground arith in
            let j_lt : j < el.l_next_free_rec = rw e at i_lt in
            let lo' : (rec_at el j).e_cpos ≤ w = rw e at lo in absurd (omega (arith, ends j_lt))
        | inr above ↦
            let j_lt : j < i = ground arith in
            absurd (omega (arith, leaf.rising j i j_lt i_lt, ends (omega arith)))
      ]
    ]

    figure_hole_clusters-IsHole :
        (v : ℕ)
        → v < 2 ^ 64
        → ((i : ℕ) → InRec v i → ⊥)
        → (n : ℕ) × (figure_hole_clusters fs el none v ≡ some (ok n))
          × IsHole v (record { p_cluster = 0; num_clusters = n; extent_flags = 0 })
    unfolding figure_hole_clusters hole_end
    figure_hole_clusters-IsHole v fits out =
        let (j, e, h) = search_for_hole_index-IsHoleIndex el v leaf.in_array in
        elim (Bool-cases (j == el.l_next_free_rec)) [
          | inl at_end ↦
              let last : j ≡ el.l_next_free_rec = ground arith in
              (
                2 ^ 64 - 1 - v,
                rw (e, at_end) refl,
                record {
                  zero_place = refl;
                  unmapped = hole_run v j (2 ^ 64 - 1 - v) out h (λ lt. absurd (omega arith));
                  maximal = inr (omega arith);
                  no_flags = refl;
                },
              )
          | inr more ↦
              let j_lt : j < el.l_next_free_rec = ground (arith, h.inside) in
              let above = h.above j_lt in
              let ends : v + ((rec_at el j).e_cpos + 2 ^ 64 - v) % 2 ^ 64 ≡ (rec_at el j).e_cpos =
                omega (arith, leaf.bounded j j_lt) in
              (
                ((rec_at el j).e_cpos + 2 ^ 64 - v) % 2 ^ 64,
                rw (e, more, get_rec j j_lt) refl,
                record {
                  zero_place = refl;
                  unmapped =
                      hole_run v j (((rec_at el j).e_cpos + 2 ^ 64 - v) % 2 ^ 64) out h (λ _. ends);
                  maximal = inl (j, j_lt, ends);
                  no_flags = refl;
                },
              )
        ]

    -- `cmfs_get_clusters` of a file whose extents are in its inode, with records that rise
    -- without overlap, are placed on the disk and lie below the limits of their fields: for every
    -- cluster number of 64 bits it succeeds, either with the cluster on the disk, the flags of
    -- the record that has the cluster and the rest of that record, or with a hole that no record
    -- meets and that cannot be longer.
    pub get_clusters-cases :
        (v : ℕ)
        → v < 2 ^ 64
        → (c : Clusters) × (get_clusters fs el v ≡ some (ok c)) × (IsMapped v c ⊎ IsHole v c)
    unfolding get_clusters clusters_in_leaf
    get_clusters-cases v fits =
        let (o, e, found) = search_extent_list-Found fs el v leaf.in_array in
        let direct : (el.l_tree_depth == 0) ≡ true = rw leaf.no_depth refl in
        let (c, e', r) = answer o found in (c, rw (direct, e) e', r)
      where
        answer :
            (o : Option ℕ)
            → Found (λ rec. covers fs el.l_tree_depth rec v) el.l_next_free_rec el.l_recs o
            → (c : Clusters) × (at_index fs el none v o ≡ some (ok c)) × (IsMapped v c ⊎ IsHole v c)
        answer none out =
            let (n, e, r) = figure_hole_clusters-IsHole v fits (not_in v out) in
            (record { p_cluster = 0; num_clusters = n; extent_flags = 0 }, rw e refl, inr r)
        answer (some i) first =
            let has : InRec v i = (
              first.inside,
              ground (arith, covers-eq v i first.inside, first.here),
              ground (arith, covers-eq v i first.inside, first.here),
            ) in
            let (c, e, r) = mapped-IsMapped v i has in
            (c, rw (get_rec i first.inside, e) refl, inl r)
