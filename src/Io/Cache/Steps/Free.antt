-- ===== src/Io/Cache/Steps/Free.antt =====
-- Taking a cache block out of the tree: `io_cache_disconnect` and `io_cache_pop_lru`.
use cmfs.Prelude.{
  ℕ, ◌+◌, ◌%◌, ◌^◌, ◌<◌, Bool, false, ◌≡◌, refl, sym, ◌∙◌, ap, arith, Option, none, some, List, [],
  ◌∷◌, ltb, ◌==◌, inl, inr, Bool-cases, length, get_elem?-get_or, get_or, set, length-set,
}
use cmfs.Io.Tree.{inorder, RbTree}
use cmfs.Io.Tree.Laws.{find}
use cmfs.Io.Tree.Laws.Erase.{but, without-IsSorted, find-without}
use cmfs.Io.Cache.{
  IoCacheBlock, IoCache, uint64_max, first_entry, set_blkno, io_cache_disconnect, io_cache_pop_lru,
}
use cmfs.Io.Cache.Steps.{
  no_block, icb_at, member, cached, IsCache, get_or-set_self, get_or-set_other,
}

-- The block number of each cache block once `i` has got `b`.
abbrev pub renumber : List IoCacheBlock → ℕ → ℕ → IoCacheBlock
renumber icbs i b = record (get_or icbs i no_block) { icb_blkno = b }

module _ (icbs : List IoCacheBlock) (i b : ℕ) (inside : i < length icbs) where
  abbrev icb : IoCacheBlock
  icb = renumber icbs i b

  pub number_here : get_or (set icbs i icb) i no_block ≡ icb
  number_here = get_or-set_self icbs i icb no_block inside

  pub bufs :
      (j : ℕ) → (get_or (set icbs i icb) j no_block).icb_buf ≡ (get_or icbs j no_block).icb_buf
  bufs j = elim (Bool-cases (j == i)) [
    | inl s ↦
        let same : j ≡ i = ground arith in
        rw same (ap (λ (t : IoCacheBlock). t.icb_buf) number_here)
    | inr o ↦ ap (λ (t : IoCacheBlock). t.icb_buf) (get_or-set_other icbs i j icb no_block o)
  ]

but-some : (c j : ℕ) (o : Option ℕ) → but c o ≡ some j → (o ≡ some j) × ((j == c) ≡ false)
but-some c j none h = absurd (ground arith)
but-some c j (some i) h = elim (Bool-cases (i == c)) [
  | inl e ↦ absurd (ground arith)
  | inr n ↦ let same : i ≡ j = ground arith in (ap some same, rw same at n)
]

but-other : (c j : ℕ) (o : Option ℕ) → o ≡ some j → (j == c) ≡ false → but c o ≡ some j
but-other c j o h n = rw h (rw n refl)

pub some_inj : (i j : ℕ) → some i ≡ some j → i ≡ j
some_inj i j h = cc

first_entry-inside :
    (n : ℕ) (js : List ℕ)
    → 0 < n
    → ((i : ℕ) → member i js ≡ ltb i n)
    → (i : ℕ) × (first_entry js ≡ some i) × (i < n)
first_entry-inside n [] pos h = absurd (ground (arith, h 0))
first_entry-inside n (j ∷ js) pos h = (j, refl, ground (arith, h j))

module _ (rb : RbTree) (F : ℕ → List ℕ) (S : ℕ → Bool) where
  -- What taking cache block `i` out of the tree leaves.
  pub record IsFree (ic : IoCache) (i : ℕ) (ic' : IoCache) : Type 0 where
    pub valid : IsCache F S ic'
    pub free : (icb_at ic' i).icb_blkno ≡ uint64_max
    pub size : length ic'.icbs ≡ length ic.icbs
    pub fewer : (k : ℕ) → cached ic k ≡ none → cached ic' k ≡ none

  disconnect-IsFree :
      (ic : IoCache) (i : ℕ)
      → IsCache F S ic
      → i < length ic.icbs
      → (ic' : IoCache) × (io_cache_disconnect rb ic i ≡ some ic') × IsFree ic i ic'
  unfolding io_cache_disconnect set_blkno
  disconnect-IsFree ic i valid inside = elim (Bool-cases ((icb_at ic i).icb_blkno == uint64_max)) [
    | inl done ↦ (
      ic,
      rw (get_elem?-get_or ic.icbs i no_block inside, done) refl,
      record { valid = valid; free = ground arith; size = refl; fewer = λ k h. h },
    )
    | inr is_linked ↦
        let new = renumber ic.icbs i uint64_max in
        let ic' : IoCache = record ic {
          ic_lookup = rb.rb_erase i ic.ic_lookup;
          icbs = set ic.icbs i new;
        } in
        let finds : (k : ℕ) → cached ic' k ≡ but i (cached ic k) = λ k.
          ap (find k) (rb.inorder-rb_erase i ic.ic_lookup)
          ∙ find-without k i (inorder ic.ic_lookup) valid.sorted in
        let other : (j : ℕ) → (j == i) ≡ false → icb_at ic' j ≡ icb_at ic j =
          λ j n. get_or-set_other ic.icbs i j new no_block n in
        (
          ic',
          rw (get_elem?-get_or ic.icbs i no_block inside, is_linked) refl,
          record {
            valid = record {
              sorted =
                  rw (rb.inorder-rb_erase i ic.ic_lookup)
                    (without-IsSorted i (inorder ic.ic_lookup) valid.sorted);
              listed = λ k j f.
                  let (g, n) = but-some i j (cached ic k) (sym (finds k) ∙ f) in
                  let (x, y, z) = valid.listed k j g in
                  (
                    rw (length-set ic.icbs i new) x,
                    ap (λ (t : IoCacheBlock). t.icb_blkno) (other j n) ∙ y,
                    z,
                  );
              linked = λ j x y. elim (Bool-cases (j == i)) [
                | inl s ↦
                    let same : j ≡ i = ground arith in
                    absurd (
                      y (
                        ap (λ (t : IoCacheBlock). t.icb_blkno)
                          (ap (icb_at ic') same ∙ number_here ic.icbs i uint64_max inside)))
                | inr n ↦
                    let e = ap (λ (t : IoCacheBlock). t.icb_blkno) (other j n) in
                    finds (icb_at ic' j).icb_blkno
                    ∙ but-other i j (cached ic (icb_at ic' j).icb_blkno)
                        (ap (cached ic) e
                          ∙ valid.linked j (rw (length-set ic.icbs i new) at x) (λ z. y (e ∙ z)))
                        n
              ];
              lru = λ j. rw (length-set ic.icbs i new) (valid.lru j);
              fresh = λ k j f not_stale.
                  let (g, n) = but-some i j (cached ic k) (sym (finds k) ∙ f) in
                  bufs ic.icbs i uint64_max inside j ∙ valid.fresh k j g not_stale;
            };
            free = ap (λ (t : IoCacheBlock). t.icb_blkno) (number_here ic.icbs i uint64_max inside);
            size = length-set ic.icbs i new;
            fewer = λ k h. finds k ∙ ap (but i) h;
          },
        )
  ]

  counted : (ic : IoCache) (n : ℕ) → IsCache F S ic → IsCache F S (record ic { ic_removes = n })
  counted ic n v = record {
    sorted = v.sorted;
    listed = v.listed;
    linked = v.linked;
    lru = v.lru;
    fresh = v.fresh;
  }

  pub pop_lru-IsFree :
      (ic : IoCache)
      → IsCache F S ic
      → 0 < length ic.icbs
      → (i : ℕ) × (ic' : IoCache) × (io_cache_pop_lru rb ic ≡ some (i, ic'))
        × (i < length ic.icbs)
        × IsFree ic i ic'
  unfolding io_cache_pop_lru
  pop_lru-IsFree ic valid pos =
      let (i, e, inside) = first_entry-inside (length ic.icbs) ic.ic_lru pos valid.lru in
      let (ic', e', r) = disconnect-IsFree ic i valid inside in
      let popped : IoCache = record ic' { ic_removes = (ic'.ic_removes + 1) % 2 ^ 32 } in
      (
        i,
        popped,
        rw (e, e') refl,
        inside,
        record {
          valid = counted ic' ((ic'.ic_removes + 1) % 2 ^ 32) r.valid;
          free = r.free;
          size = r.size;
          fewer = r.fewer;
        },
      )
