-- ===== src/Io/Cache/Steps/Steal.antt =====
-- "Steal the LRU buffer": a block number that is not cached gets a cache block.
use cmfs.Prelude.{
  ℕ, ◌+◌, ◌%◌, ◌^◌, ◌<◌, Bool, true, false, ◌||◌, ◌≡◌, ◌≢◌, refl, sym, ◌∙◌, ap, arith, Option, none,
  some, List, ◌==◌, if◌then◌else◌, inl, inr, Bool-cases, length, get_elem?-get_or, set, length-set,
  get_elem?-set_self,
}
use cmfs.Prelude.Fault.{◌>>=◌}
use cmfs.Io.Tree.{RbTree}
use cmfs.Io.Tree.Laws.{find}
use cmfs.Io.Tree.Laws.Link.{link_node-IsLinked}
use cmfs.Io.Cache.{IoCacheBlock, IoCache, uint64_max, set_blkno, io_cache_insert, steal}
use cmfs.Io.Cache.Steps.{no_block, icb_at, cached, IsCache, get_or-set_other}
use cmfs.Io.Cache.Steps.Free.{renumber, number_here, bufs, some_inj, pop_lru-IsFree}

same_number : (b : ℕ) → (b == b) ≡ true
same_number b = ground arith

not_absent :
    (ic : IoCache) (b : ℕ)
    → cached ic b ≡ none
    → (k j : ℕ) → cached ic k ≡ some j
    → (k == b) ≡ false
not_absent ic b absent k j g = elim (Bool-cases (k == b)) [
  | inr n ↦ n
  | inl s ↦
      let same : k ≡ b = ground arith in
      absurd (ground (arith, sym g ∙ ap (cached ic) same ∙ absent))
]

abbrev with_place : ℕ → IoCache → Option (ℕ × IoCache)
with_place i ic = some (i, ic)

assoc :
    (o : Option IoCache) (f : IoCache → Option IoCache) (i : ℕ) (ic : IoCache)
    → (o >>= f) ≡ some ic
    → (o >>= λ ic₁. f ic₁ >>= with_place i) ≡ with_place i ic
assoc none f i ic h = absurd (ground arith)
assoc (some a) f i ic h = rw h refl

module _ (rb : RbTree) (F : ℕ → List ℕ) (S : ℕ → Bool) where
  -- A free cache block gets a block number that is not cached.
  abbrev connect : IoCache → ℕ → ℕ → Option IoCache
  connect ic i b = set_blkno ic i b >>= λ ic'. io_cache_insert rb ic' i

  -- Stale at one block number more.
  abbrev pub or_stale : ℕ → ℕ → Bool
  or_stale b k = S k || (k == b)

  not_free :
      (ic : IoCache)
      → IsCache F S ic
      → (i : ℕ) → (icb_at ic i).icb_blkno ≡ uint64_max
      → (k j : ℕ) → cached ic k ≡ some j
      → (j == i) ≡ false
  not_free ic valid i free k j g = elim (Bool-cases (j == i)) [
    | inr n ↦ n
    | inl s ↦
        let same : j ≡ i = ground arith in
        let (_, y, z) = valid.listed k j g in
        absurd (z (sym y ∙ ap (λ (t : ℕ). (icb_at ic t).icb_blkno) same ∙ free))
  ]

  connect-IsCache :
      (ic : IoCache) (i b : ℕ)
      → IsCache F S ic
      → i < length ic.icbs
      → (icb_at ic i).icb_blkno ≡ uint64_max
      → cached ic b ≡ none
      → b ≢ uint64_max
      → (ic' : IoCache) × (connect ic i b ≡ some ic')
        × IsCache F (or_stale b) ic'
        × (cached ic' b ≡ some i)
        × (length ic'.icbs ≡ length ic.icbs)
  unfolding set_blkno io_cache_insert
  connect-IsCache ic i b valid inside free absent small =
      let new = renumber ic.icbs i b in
      let (t, linked, l) = link_node-IsLinked ic.ic_lookup b i valid.sorted absent in
      let ic' : IoCache = record ic {
        ic_lookup = rb.rb_insert_color t;
        icbs = set ic.icbs i new;
        ic_inserts = (ic.ic_inserts + 1) % 2 ^ 32;
      } in
      let finds : (k : ℕ) → cached ic' k ≡ (if k == b then some i else cached ic k) =
        λ k. ap (find k) (rb.inorder-rb_insert_color t) ∙ l.finds k in
      let here : (icb_at ic' i).icb_blkno ≡ b =
        ap (λ (t : IoCacheBlock). t.icb_blkno) (number_here ic.icbs i b inside) in
      let other : (j : ℕ) → (j == i) ≡ false → icb_at ic' j ≡ icb_at ic j =
        λ j n. get_or-set_other ic.icbs i j new no_block n in
      let not_i : (k j : ℕ) → cached ic k ≡ some j → (j == i) ≡ false =
        λ k j g. not_free ic valid i free k j g in
      let old : (k j : ℕ) → (k == b) ≡ false → cached ic' k ≡ some j → cached ic k ≡ some j =
        λ k j n f. sym (finds k ∙ rw n refl) ∙ f in
      (
        ic',
        rw
            (
              get_elem?-get_or ic.icbs i no_block inside,
              get_elem?-set_self ic.icbs i new inside,
              linked,
            )
            refl,
        record {
          sorted = rw (rb.inorder-rb_insert_color t) l.sorted;
          listed = λ k j f. elim (Bool-cases (k == b)) [
            | inl s ↦
                let same : k ≡ b = ground arith in
                let e : i ≡ j = some_inj i j (sym (finds k ∙ rw s refl) ∙ f) in
                (
                  rw (length-set ic.icbs i new) (ground arith),
                  ap (λ (t : ℕ). (icb_at ic' t).icb_blkno) (sym e) ∙ here ∙ sym same,
                  rw same small,
                )
            | inr n ↦
                let g = old k j n f in
                let (x, y, z) = valid.listed k j g in
                (
                  rw (length-set ic.icbs i new) x,
                  ap (λ (t : IoCacheBlock). t.icb_blkno) (other j (not_i k j g)) ∙ y,
                  z,
                )
          ];
          linked = λ j x y. elim (Bool-cases (j == i)) [
            | inl s ↦
                let same : j ≡ i = ground arith in
                let e : (icb_at ic' j).icb_blkno ≡ b =
                  ap (λ (t : ℕ). (icb_at ic' t).icb_blkno) same ∙ here in
                ap (cached ic') e ∙ finds b ∙ rw (same_number b) (ap some (sym same))
            | inr n ↦
                let e = ap (λ (t : IoCacheBlock). t.icb_blkno) (other j n) in
                let g = valid.linked j (rw (length-set ic.icbs i new) at x) (λ z. y (e ∙ z)) in
                ap (cached ic') e
                ∙ finds (icb_at ic j).icb_blkno
                ∙ rw (not_absent ic b absent (icb_at ic j).icb_blkno j g) g
          ];
          lru = λ j. rw (length-set ic.icbs i new) (valid.lru j);
          fresh = λ k j f not_stale.
              let g = old k j (ground arith) f in
              bufs ic.icbs i b inside j ∙ valid.fresh k j g (ground arith);
        },
        finds b ∙ rw (same_number b) refl,
        length-set ic.icbs i new,
      )

  -- Stealing neither fails an assertion nor loses another block, and the block number that gets
  -- the cache block is the only one that may become stale.
  pub steal-IsCache :
      (ic : IoCache) (b : ℕ)
      → IsCache F S ic
      → 0 < length ic.icbs
      → cached ic b ≡ none
      → b ≢ uint64_max
      → (i : ℕ) × (ic' : IoCache) × (steal rb ic b ≡ some (i, ic'))
        × IsCache F (or_stale b) ic'
        × (cached ic' b ≡ some i)
        × (length ic'.icbs ≡ length ic.icbs)
  unfolding steal
  steal-IsCache ic b valid pos absent small =
      let (i, popped, e, inside, r) = pop_lru-IsFree rb F S ic valid pos in
      let (ic', e', valid', found, size) =
        connect-IsCache popped i b r.valid (rw r.size inside) r.free (r.fewer b absent) small in
      (
        i,
        ic',
        rw e (assoc (set_blkno popped i b) (λ ic₁. io_cache_insert rb ic₁ i) i ic' e'),
        valid',
        found,
        size ∙ r.size,
      )
