-- ===== src/Extents/Search.antt =====
-- `cmfs_search_extent_list` and `cmfs_search_for_hole_index` are first-match searches.
use cmfs.Prelude.{
  ℕ, zero, suc, ◌+◌, ◌<◌, ◌≤◌, Bool, true, false, ◌≡◌, refl, ◌∙◌, ap, arith, Option, none, some,
  List, [], ◌∷◌, ltb, inl, inr, Bool-cases, length, get_or,
}
use cmfs.Extents.{
  ExtentRec, ExtentList, Fs, covers, search_recs, search_extent_list, hole_index_from,
  search_for_hole_index,
}

abbrev pub no_rec : ExtentRec
no_rec = record { e_cpos = 0; e_blkno = 0; e_int_blocks = 0 }

-- `i` is the first of the `n` records for which the test holds.
pub record IsFirst (test : ExtentRec → Bool) (n : ℕ) (recs : List ExtentRec) (i : ℕ) : Type 0 where
  pub inside : i < n
  pub here : test (get_or recs i no_rec) ≡ true
  pub before : (j : ℕ) → j < i → test (get_or recs j no_rec) ≡ false

abbrev pub NotIn : (ExtentRec → Bool) → ℕ → List ExtentRec → Type 0
NotIn test n recs = (j : ℕ) → j < n → test (get_or recs j no_rec) ≡ false

-- The answer of a search that gives -1 where nothing is found.
abbrev pub Found : (ExtentRec → Bool) → ℕ → List ExtentRec → Option ℕ → Type 0
Found test n recs none = NotIn test n recs
Found test n recs (some i) = IsFirst test n recs i

here-IsFirst :
    (test : ExtentRec → Bool) (n : ℕ) (rec : ExtentRec) (recs : List ExtentRec)
    → test rec ≡ true
    → IsFirst test (suc n) (rec ∷ recs) 0
here-IsFirst test n rec recs h = record {
  inside = omega arith;
  here = h;
  before = λ j lt. absurd (omega arith);
}

later-IsFirst :
    (test : ExtentRec → Bool) (n : ℕ) (rec : ExtentRec) (recs : List ExtentRec) (i : ℕ)
    → test rec ≡ false
    → IsFirst test n recs i
    → IsFirst test (suc n) (rec ∷ recs) (suc i)
later-IsFirst test n rec recs i h r = record {
  inside = omega (arith, r.inside);
  here = r.here;
  before = before;
}
  where
    before : (j : ℕ) → j < suc i → test (get_or (rec ∷ recs) j no_rec) ≡ false
    before zero lt = h
    before (suc j) lt = r.before j (omega arith)

later-NotIn :
    (test : ExtentRec → Bool) (n : ℕ) (rec : ExtentRec) (recs : List ExtentRec)
    → test rec ≡ false
    → NotIn test n recs
    → NotIn test (suc n) (rec ∷ recs)
later-NotIn test n rec recs h r zero lt = h
later-NotIn test n rec recs h r (suc j) lt = r j (omega arith)

-- What a search from record `i` on gives, in terms of places counted from there.
abbrev shift : ℕ → Option ℕ → Option ℕ
shift i none = none
shift i (some j) = some (i + j)

search_recs-Found :
    (fs : Fs) (depth i n : ℕ) (recs : List ExtentRec) (v : ℕ)
    → n ≤ length recs
    → (o : Option ℕ) × (search_recs fs depth i n recs v ≡ some (shift i o))
      × Found (λ rec. covers fs depth rec v) n recs o
unfolding search_recs
search_recs-Found fs depth i zero recs v h = (none, refl, λ j lt. absurd (omega arith))
search_recs-Found fs depth i (suc n) [] v h = absurd (omega arith)
search_recs-Found fs depth i (suc n) (rec ∷ recs) v h = elim (Bool-cases (covers fs depth rec v)) [
  | inl hit ↦
      let e : i + 0 ≡ i = omega arith in
      (some 0, rw (hit, e) refl, here-IsFirst (λ rec. covers fs depth rec v) n rec recs hit)
  | inr miss ↦
      let (o, e, r) = search_recs-Found fs depth (i + 1) n recs v (omega arith) in
      let (o', e', r') = next o r miss in (o', rw miss (e ∙ ap some e'), r')
]
  where
    next :
        (o : Option ℕ)
        → Found (λ rec. covers fs depth rec v) n recs o
        → covers fs depth rec v ≡ false
        → (o' : Option ℕ) × (shift (i + 1) o ≡ shift i o')
          × Found (λ rec. covers fs depth rec v) (suc n) (rec ∷ recs) o'
    next none r miss = (none, refl, later-NotIn (λ rec. covers fs depth rec v) n rec recs miss r)
    next (some j) r miss = (
      some (suc j),
      ap (λ (t : ℕ). some t) (omega arith),
      later-IsFirst (λ rec. covers fs depth rec v) n rec recs j miss r,
    )

-- `cmfs_search_extent_list` stays in the array and gives the first record that covers the cluster,
-- or -1 where none does, provided that the list's count of records does not exceed the array.
pub search_extent_list-Found :
    (fs : Fs) (el : ExtentList) (v : ℕ)
    → el.l_next_free_rec ≤ length el.l_recs
    → (o : Option ℕ) × (search_extent_list fs el v ≡ some o)
      × Found (λ rec. covers fs el.l_tree_depth rec v) el.l_next_free_rec el.l_recs o
unfolding search_extent_list
search_extent_list-Found fs el v h =
    let (o, e, r) = search_recs-Found fs el.l_tree_depth 0 el.l_next_free_rec el.l_recs v h in
    (o, e ∙ ap some (unshift o), r)
  where
    unshift : (o : Option ℕ) → shift 0 o ≡ o
    unshift none = refl
    unshift (some j) = ap (λ (t : ℕ). some t) (omega arith)

-- The first record that starts above the cluster, or the number of records.
pub record IsHoleIndex (n : ℕ) (recs : List ExtentRec) (v i : ℕ) : Type 0 where
  pub inside : i ≤ n
  pub above : i < n → v < (get_or recs i no_rec).e_cpos
  pub before : (j : ℕ) → j < i → (get_or recs j no_rec).e_cpos ≤ v

hole_index_from_lem :
    (i n : ℕ) (recs : List ExtentRec) (v : ℕ)
    → n ≤ length recs
    → (j : ℕ) × (hole_index_from i n recs v ≡ some (i + j)) × IsHoleIndex n recs v j
unfolding hole_index_from
hole_index_from_lem i zero recs v h = (
  0,
  ap (λ (t : ℕ). some t) (omega arith),
  record {
    inside = omega arith;
    above = λ lt. absurd (omega arith);
    before = λ j lt. absurd (omega arith);
  },
)
hole_index_from_lem i (suc n) [] v h = absurd (omega arith)
hole_index_from_lem i (suc n) (rec ∷ recs) v h = elim (Bool-cases (ltb v rec.e_cpos)) [
  | inl hit ↦ (
    0,
    rw hit (ap (λ (t : ℕ). some t) (omega arith)),
    record {
      inside = omega arith;
      above = λ _. ground arith;
      before = λ j lt. absurd (omega arith);
    },
  )
  | inr miss ↦
      let (j, e, r) = hole_index_from_lem (i + 1) n recs v (omega arith) in
      (
        suc j,
        rw miss (e ∙ ap (λ (t : ℕ). some t) (omega arith)),
        record {
          inside = omega (arith, r.inside);
          above = λ lt. r.above (omega arith);
          before = later j (ground arith) r.before;
        },
      )
]
  where
    later :
        (j : ℕ)
        → rec.e_cpos ≤ v
        → ((k : ℕ) → k < j → (get_or recs k no_rec).e_cpos ≤ v)
        → (k : ℕ) → k < suc j
        → (get_or (rec ∷ recs) k no_rec).e_cpos ≤ v
    later j le r zero lt = le
    later j le r (suc k) lt = r k (omega arith)

pub search_for_hole_index-IsHoleIndex :
    (el : ExtentList) (v : ℕ)
    → el.l_next_free_rec ≤ length el.l_recs
    → (i : ℕ) × (search_for_hole_index el v ≡ some i) × IsHoleIndex el.l_next_free_rec el.l_recs v i
unfolding search_for_hole_index
search_for_hole_index-IsHoleIndex el v h =
    let (i, e, r) = hole_index_from_lem 0 el.l_next_free_rec el.l_recs v h in
    (i, e ∙ ap (λ (t : ℕ). some t) (omega arith), r)
