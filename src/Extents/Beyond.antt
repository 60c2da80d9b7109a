-- ===== src/Extents/Beyond.antt =====
-- `__cmfs_find_path` on cluster numbers that do not fit its `uint32_t range`.
use cmfs.Prelude.{
  ℕ, zero, suc, ◌+◌, ◌-◌, ◌%◌, ◌^◌, ◌<◌, ◌≤◌, false, ◌&&◌, ◌≡◌, ◌≢◌, refl, ◌∙◌, ap, arith, some,
  List, [], ◌∷◌, ltb, leb, ◌==◌, length, get_elem?,
}
use cmfs.Extents.{
  ExtentRec, ExtentList, Fs, rec_clusters, read_extent_block, child_from, checked, find_child,
}

child_from-last :
    (fs : Fs) (depth i n : ℕ) (recs : List ExtentRec) (cpos : ℕ)
    → 2 ^ 32 ≤ cpos
    → n ≤ length recs
    → child_from fs depth i n recs cpos ≡ some (i + n)
unfolding child_from
child_from-last fs depth i zero recs cpos h long = ap (λ (t : ℕ). some t) (omega arith)
child_from-last fs depth i (suc n) [] cpos h long = absurd (omega arith)
child_from-last fs depth i (suc n) (r ∷ recs) cpos h long =
    let range : (r.e_cpos + rec_clusters fs depth r) % 2 ^ 32 < 2 ^ 32 = omega arith in
    let miss : (leb r.e_cpos cpos && ltb cpos ((r.e_cpos + rec_clusters fs depth r) % 2 ^ 32))
        ≡ false =
      ground (arith, range) in
    rw miss (
      child_from-last fs depth (i + 1) n recs cpos h (omega arith)
      ∙ ap (λ (t : ℕ). some t) (omega arith))

-- For a cluster number of 2^32 or more the descent goes down by the last record of a list,
-- whichever record has the cluster. The list's count of records is the index of that record and
-- one, the record lies in the array, and its block number is not 0.
pub find_child_last :
    (fs : Fs) (el : ExtentList) (n : ℕ) (rec : ExtentRec) (cpos : ℕ)
    → 2 ^ 32 ≤ cpos
    → el.l_next_free_rec ≡ suc n
    → get_elem? el.l_recs n ≡ some rec
    → n ≤ length el.l_recs
    → rec.e_blkno ≢ 0
    → find_child fs el cpos ≡ some (checked (read_extent_block fs rec.e_blkno))
unfolding find_child
find_child_last fs el n rec cpos h count last long placed =
    let some_recs : (suc n == 0) ≡ false = ground arith in
    let pred : suc n - 1 ≡ n = omega arith in
    let z : 0 + n ≡ n = omega arith in
    let placed' : (rec.e_blkno == 0) ≡ false = ground (arith, placed) in
    rw
      (
        count,
        some_recs,
        pred,
        child_from-last fs el.l_tree_depth 0 n el.l_recs cpos h long,
        z,
        last,
        placed',
      )
      refl
