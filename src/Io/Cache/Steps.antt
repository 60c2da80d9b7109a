-- ===== src/Io/Cache/Steps.antt =====
-- The invariant of the cache, and the operations on one cache block.
pub mod Free
pub mod Steal
pub mod Fill
use cmfs.Prelude.{
  ℕ, zero, suc, ◌+◌, ◌-◌, ◌^◌, ◌<◌, ◌≤◌, Bool, true, false, ◌&&◌, ◌||◌, not, ◌≡◌, ◌≢◌, refl, sym,
  ◌∙◌, ap, arith, Option, none, some, List, [], ◌∷◌, ◌++◌, ltb, ◌==◌, if◌then◌else◌, inl, inr,
  Bool-cases, length, get_elem?, get_or, set, length-set, get_elem?-get_or,
}
use cmfs.Prelude.Fault.{◌>>=◌}
use cmfs.Io.Tree.{inorder, search_tree}
use cmfs.Io.Tree.Laws.{IsSorted, find, search_tree-eq_find}
use cmfs.Io.Cache.{
  IoCacheBlock, IoCache, uint64_max, io_cache_lookup, list_del, io_cache_seen, io_cache_unsee,
  touch, set_buf,
}

abbrev pub no_block : IoCacheBlock
no_block = record { icb_blkno = uint64_max; icb_buf = [] }

abbrev pub icb_at : IoCache → ℕ → IoCacheBlock
icb_at ic i = get_or ic.icbs i no_block

abbrev pub member : ℕ → List ℕ → Bool
member i [] = false
member i (j ∷ js) = (i == j) || member i js

-- The entry of the tree for a block number.
abbrev pub cached : IoCache → ℕ → Option ℕ
cached ic k = find k (inorder ic.ic_lookup)

-- The invariant. `S` says which block numbers may be stale: for the others the cache holds `F`.
pub record IsCache (F : ℕ → List ℕ) (S : ℕ → Bool) (ic : IoCache) : Type 0 where
  pub sorted : IsSorted (inorder ic.ic_lookup)
  pub listed :
      (k i : ℕ)
      → cached ic k ≡ some i
      → (i < length ic.icbs) × ((icb_at ic i).icb_blkno ≡ k) × (k ≢ uint64_max)
  pub linked :
      (i : ℕ)
      → i < length ic.icbs
      → (icb_at ic i).icb_blkno ≢ uint64_max
      → cached ic (icb_at ic i).icb_blkno ≡ some i
  pub lru : (i : ℕ) → member i ic.ic_lru ≡ ltb i (length ic.icbs)
  pub fresh : (k i : ℕ) → cached ic k ≡ some i → S k ≡ false → (icb_at ic i).icb_buf ≡ F k

module _ {A : Type 0} where
  pub get_or-set_self :
      (xs : List A) (i : ℕ) (v d : A) → i < length xs → get_or (set xs i v) i d ≡ v
  get_or-set_self [] i v d h = absurd (omega arith)
  get_or-set_self (x ∷ xs) zero v d h = refl
  get_or-set_self (x ∷ xs) (suc i) v d h = get_or-set_self xs i v d (omega arith)

  pub get_or-set_other :
      (xs : List A) (i j : ℕ) (v d : A) → (j == i) ≡ false → get_or (set xs i v) j d ≡ get_or xs j d
  get_or-set_other [] i j v d h = refl
  get_or-set_other (x ∷ xs) zero zero v d h = absurd (ground arith)
  get_or-set_other (x ∷ xs) zero (suc j) v d h = refl
  get_or-set_other (x ∷ xs) (suc i) zero v d h = refl
  get_or-set_other (x ∷ xs) (suc i) (suc j) v d h = get_or-set_other xs i j v d (ground arith)

member-list_del : (i j : ℕ) (js : List ℕ) → member i (list_del j js) ≡ (member i js && not (i == j))
member-list_del i j [] = refl
member-list_del i j (k ∷ js) = ground (arith, member-list_del i j js)

member-append : (i : ℕ) (xs ys : List ℕ) → member i (xs ++ ys) ≡ (member i xs || member i ys)
member-append i [] ys = refl
member-append i (x ∷ xs) ys = ground (arith, member-append i xs ys)

module _ (F : ℕ → List ℕ) (S : ℕ → Bool) (ic : IoCache) (valid : IsCache F S ic) where
  pub io_cache_lookup-eq : (k : ℕ) → io_cache_lookup ic k ≡ cached ic k
  unfolding io_cache_lookup
  io_cache_lookup-eq k = search_tree-eq_find ic.ic_lookup k valid.sorted

  -- Only the order of the LRU list changes.
  with_lru :
      (js : List ℕ)
      → ((i : ℕ) → member i js ≡ member i ic.ic_lru)
      → IsCache F S (record ic { ic_lru = js })
  with_lru js h = record {
    sorted = valid.sorted;
    listed = valid.listed;
    linked = valid.linked;
    lru = λ i. h i ∙ valid.lru i;
    fresh = valid.fresh;
  }

  pub touch-IsCache :
      (nocache : Bool) (i : ℕ)
      → i < length ic.icbs
      → IsCache F S (touch nocache ic i)
        × ((k : ℕ) → cached (touch nocache ic i) k ≡ cached ic k)
        × ((touch nocache ic i).icbs ≡ ic.icbs)
  unfolding touch io_cache_seen io_cache_unsee
  touch-IsCache true i h = (
    with_lru _ (λ j. ground (arith, member-list_del j i ic.ic_lru, valid.lru i)),
    λ k. refl,
    refl,
  )
  touch-IsCache false i h = (
    with_lru _ (λ j.
        member-append j (list_del i ic.ic_lru) (i ∷ [])
        ∙ ground (arith, member-list_del j i ic.ic_lru, valid.lru i)),
    λ k. refl,
    refl,
  )

some_inj : (i j : ℕ) → some i ≡ some j → i ≡ j
some_inj i j h = cc

-- Two cache blocks have two block numbers.
other_block :
    (ic : IoCache) (k k' i j : ℕ)
    → cached ic k ≡ some i
    → cached ic k' ≡ some j
    → (j == i) ≡ false
    → (k' == k) ≡ false
other_block ic k k' i j h f o = elim (Bool-cases (k' == k)) [
  | inr n ↦ n
  | inl s ↦
      let same : k' ≡ k = ground arith in
      let e : j ≡ i = some_inj j i (sym f ∙ ap (cached ic) same ∙ h) in absurd (ground arith)
]

-- Filling a cache block that is listed makes its block number fresh.
pub set_buf-IsCache :
    (F : ℕ → List ℕ) (S S' : ℕ → Bool) (ic : IoCache) (k i : ℕ) (bytes : List ℕ)
    → IsCache F S' ic
    → cached ic k ≡ some i
    → bytes ≡ F k
    → ((j : ℕ) → (j == k) ≡ false → S j ≡ false → S' j ≡ false)
    → (ic' : IoCache) × (set_buf ic i bytes ≡ some ic')
      × IsCache F S ic'
      × (ic'.ic_lookup ≡ ic.ic_lookup)
      × (length ic'.icbs ≡ length ic.icbs)
unfolding set_buf
set_buf-IsCache F S S' ic k i bytes valid h e less =
    let (inside, is_k, _) = valid.listed k i h in
    let icb : IoCacheBlock = record (icb_at ic i) { icb_buf = bytes } in
    let here : (j : ℕ) → (j == i) ≡ true → get_or (set ic.icbs i icb) j no_block ≡ icb = λ j j_is_i.
      let same : j ≡ i = ground arith in rw same (get_or-set_self ic.icbs i icb no_block inside) in
    let blkno : (j : ℕ)
        → (get_or (set ic.icbs i icb) j no_block).icb_blkno ≡ (icb_at ic j).icb_blkno =
      λ j. elim (Bool-cases (j == i)) [
        | inl s ↦
            let same : j ≡ i = ground arith in
            ap (λ (b : IoCacheBlock). b.icb_blkno) (here j s) ∙ rw same refl
        | inr o ↦
            ap (λ (b : IoCacheBlock). b.icb_blkno) (get_or-set_other ic.icbs i j icb no_block o)
      ] in
    (
      record ic { icbs = set ic.icbs i icb },
      rw (get_elem?-get_or ic.icbs i no_block inside) refl,
      record {
        sorted = valid.sorted;
        listed = λ k' j f.
            let (a, b, c) = valid.listed k' j f in
            (rw (length-set ic.icbs i icb) a, blkno j ∙ b, c);
        linked = λ j a b.
            ap (cached ic) (blkno j)
            ∙ valid.linked j (rw (length-set ic.icbs i icb) at a) (λ z. b (blkno j ∙ z));
        lru = λ j. rw (length-set ic.icbs i icb) (valid.lru j);
        fresh = λ k' j f not_stale. elim (Bool-cases (j == i)) [
          | inl s ↦
              let same : j ≡ i = ground arith in
              let (_, is_k', _) = valid.listed k' j f in
              let k_same : k ≡ k' =
                sym is_k ∙ sym (ap (λ (t : ℕ). (icb_at ic t).icb_blkno) same) ∙ is_k' in
              ap (λ (b : IoCacheBlock). b.icb_buf) (here j s) ∙ e ∙ ap F k_same
          | inr o ↦
              let (_, is_k', _) = valid.listed k' j f in
              ap (λ (b : IoCacheBlock). b.icb_buf) (get_or-set_other ic.icbs i j icb no_block o)
              ∙ valid.fresh k' j f (less k' (other_block ic k k' i j h f o) not_stale)
        ];
      },
      refl,
      length-set ic.icbs i icb,
    )
