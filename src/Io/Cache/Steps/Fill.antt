-- ===== src/Io/Cache/Steps/Fill.antt =====
-- A block of the loops that sync the cache.
use cmfs.Prelude.{
  ℕ, ◌<◌, Bool, true, false, ◌≡◌, ◌≢◌, refl, sym, ◌∙◌, ap, arith, none, some, List, ◌==◌, inl, inr,
  Bool-cases, Option-cases, length, get_elem?-get_or,
}
use cmfs.Io.Tree.{RbTree}
use cmfs.Io.Cache.{IoCache, uint64_max, touch, steal_filled, sync_block, update_block}
use cmfs.Io.Cache.Steps.{
  no_block, cached, IsCache, io_cache_lookup-eq, touch-IsCache, set_buf-IsCache,
}
use cmfs.Io.Cache.Steps.Steal.{or_stale, steal-IsCache}

-- Fewer stale block numbers, where those in question are not cached.
pub weaken :
    (F : ℕ → List ℕ) (S S' : ℕ → Bool) (ic : IoCache)
    → IsCache F S' ic
    → ((k i : ℕ) → cached ic k ≡ some i → S k ≡ false → S' k ≡ false)
    → IsCache F S ic
weaken F S S' ic v h = record {
  sorted = v.sorted;
  listed = v.listed;
  linked = v.linked;
  lru = v.lru;
  fresh = λ k i f s. v.fresh k i f (h k i f s);
}

not_cached :
    (ic : IoCache) (k b i : ℕ) → cached ic b ≡ none → cached ic k ≡ some i → (k == b) ≡ false
not_cached ic k b i absent f = elim (Bool-cases (k == b)) [
  | inr n ↦ n
  | inl s ↦
      let same : k ≡ b = ground arith in
      absurd (ground (arith, sym f ∙ ap (cached ic) same ∙ absent))
]

module _ (rb : RbTree) (F : ℕ → List ℕ) (S S' : ℕ → Bool) (b : ℕ)
    (less : (j : ℕ) → (j == b) ≡ false → S j ≡ false → S' j ≡ false) where
  steal_filled-IsCache :
      (nocache : Bool) (ic : IoCache) (bytes : List ℕ)
      → IsCache F S' ic
      → 0 < length ic.icbs
      → cached ic b ≡ none
      → b ≢ uint64_max
      → bytes ≡ F b
      → (ic' : IoCache) × (steal_filled rb nocache ic b bytes ≡ some ic')
        × IsCache F S ic'
        × (length ic'.icbs ≡ length ic.icbs)
  unfolding steal_filled
  steal_filled-IsCache nocache ic bytes valid pos absent small e =
      let (i, ic₁, stolen, v₁, found, size₁) = steal-IsCache rb F S' ic b valid pos absent small in
      let (ic₂, set, v₂, tree, size₂) =
        set_buf-IsCache F S (or_stale rb F S' b) ic₁ b i bytes v₁ found e
          (λ j n s. ground (arith, less j n s)) in
      let (inside, _, _) = v₁.listed b i found in
      let (v₃, _, size₃) = touch-IsCache F S ic₂ v₂ nocache i (rw size₂ inside) in
      (touch nocache ic₂ i, rw (stolen, set) refl, v₃, ap (λ t. length t) size₃ ∙ size₂ ∙ size₁)

  -- A block that was written. In a nocache call a block that is not cached stays so.
  pub update_block-IsCache :
      (nocache : Bool) (ic : IoCache) (bytes : List ℕ)
      → IsCache F S' ic
      → 0 < length ic.icbs
      → b ≢ uint64_max
      → bytes ≡ F b
      → (ic' : IoCache) × (update_block rb nocache b bytes ic ≡ some ic')
        × IsCache F S ic'
        × (length ic'.icbs ≡ length ic.icbs)
  unfolding update_block
  update_block-IsCache nocache ic bytes valid pos small e =
      let l = io_cache_lookup-eq F S' ic valid b in
      elim (Option-cases (cached ic b)) [
        | inr (i, found) ↦
            let (ic₂, set, v₂, tree, size₂) =
              set_buf-IsCache F S S' ic b i bytes valid found e less in
            let (inside, _, _) = valid.listed b i found in
            let (v₃, _, size₃) = touch-IsCache F S ic₂ v₂ nocache i (rw size₂ inside) in
            (
              touch nocache ic₂ i,
              rw (l, found, set, update_block) refl,
              v₃,
              ap (λ t. length t) size₃ ∙ size₂,
            )
        | inl absent ↦ elim (Bool-cases nocache) [
          | inl n ↦ (
            ic,
            rw (l, absent, n, update_block) refl,
            weaken F S S' ic valid (λ k i f s. less k (not_cached ic k b i absent f) s),
            refl,
          )
          | inr c ↦
              let (ic', done, v, size) =
                steal_filled-IsCache nocache ic bytes valid pos absent small e in
              (ic', rw (l, absent, c, update_block) (rw c at done), v, size)
        ]
      ]

module _ (rb : RbTree) (F : ℕ → List ℕ) (b : ℕ) (nocache : Bool) (ic : IoCache)
    (valid : IsCache F (λ _. false) ic) where
  -- A block that was counted as cached: its bytes are the cache's.
  pub sync_block-hit :
      (bytes : List ℕ) (i : ℕ)
      → cached ic b ≡ some i
      → (ic' : IoCache) × (sync_block rb nocache true b bytes ic ≡ some (F b, ic'))
        × IsCache F (λ _. false) ic'
        × (length ic'.icbs ≡ length ic.icbs)
        × ((k : ℕ) → cached ic' k ≡ cached ic k)
  unfolding sync_block
  sync_block-hit bytes i found =
      let l = io_cache_lookup-eq F (λ _. false) ic valid b in
      let (inside, _, _) = valid.listed b i found in
      let (v, same, size) = touch-IsCache F (λ _. false) ic valid nocache i inside in
      (
        touch nocache ic i,
        rw
            (
              l,
              found,
              sync_block,
              get_elem?-get_or ic.icbs i no_block inside,
              valid.fresh b i found refl,
            )
            refl,
        v,
        ap (λ t. length t) size,
        same,
      )

  -- A block that was read.
  pub sync_block-miss :
      (bytes : List ℕ)
      → 0 < length ic.icbs
      → b ≢ uint64_max
      → bytes ≡ F b
      → (ic' : IoCache) × (sync_block rb nocache false b bytes ic ≡ some (bytes, ic'))
        × IsCache F (λ _. false) ic'
        × (length ic'.icbs ≡ length ic.icbs)
  unfolding sync_block
  sync_block-miss bytes pos small e =
      let l = io_cache_lookup-eq F (λ _. false) ic valid b in
      elim (Option-cases (cached ic b)) [
        | inr (i, found) ↦
            let (inside, _, _) = valid.listed b i found in
            let (v, _, size) = touch-IsCache F (λ _. false) ic valid nocache i inside in
            (
              touch nocache ic i,
              rw (l, found, sync_block, get_elem?-get_or ic.icbs i no_block inside) refl,
              v,
              ap (λ t. length t) size,
            )
        | inl absent ↦ elim (Bool-cases nocache) [
          | inl n ↦ (ic, rw (l, absent, n, sync_block) refl, valid, refl)
          | inr c ↦
              let (ic', done, v, size) =
                steal_filled-IsCache rb F (λ _. false) (λ _. false) b (λ _ _ _. refl) nocache ic
                  bytes valid pos absent small e in
              (ic', rw (l, absent, c, sync_block) (rw (rw c at done) refl), v, size)
        ]
      ]
