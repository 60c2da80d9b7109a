-- ===== src/Io/Tree/Laws/Link.antt =====
-- `io_cache_insert` links a node for a block number that is not listed.
use cmfs.Prelude.{
  ℕ, ◌<◌, ◌≤◌, ◌≡◌, refl, sym, ◌∙◌, Option, none, some, [], ◌∷◌, ◌++◌, arith, ltb, ◌==◌,
  if◌then◌else◌, inl, inr, Bool-cases,
}
use cmfs.Io.Tree.{Tree, leaf, node, Entries, inorder, link_node}
use cmfs.Io.Tree.Laws.{
  All, IsSorted, find, IsSplit, split, joined, All-append, append-All, find-left, find-right,
  find-here,
}

-- `t'` is `t` with an entry more.
pub record IsLinked (es : Entries) (b c : ℕ) (t' : Tree) : Type 0 where
  pub sorted : IsSorted (inorder t')
  pub over : (a : ℕ) → a < b → All (λ f. a < f.0) es → All (λ f. a < f.0) (inorder t')
  pub under : (a : ℕ) → b < a → All (λ f. f.0 < a) es → All (λ f. f.0 < a) (inorder t')
  pub finds : (k : ℕ) → find k (inorder t') ≡ (if k == b then some c else find k es)

abbrev or_else : Option ℕ → Option ℕ → Option ℕ
or_else none o = o
or_else (some i) o = some i

find-append : (b : ℕ) (xs ys : Entries) → find b (xs ++ ys) ≡ or_else (find b xs) (find b ys)
find-append b [] ys = refl
find-append b ((k, i) ∷ xs) ys = ground (arith, find-append b xs ys)

find-below : (a b : ℕ) (es : Entries) → a ≤ b → All (λ f. f.0 < a) es → find b es ≡ none
find-below a b [] le h = refl
find-below a b ((k, i) ∷ es) le h = ground (arith, find-below a b es)

module _ (k i b c : ℕ) where
  finds-left :
      (xs xs' ys : Entries) (k' : ℕ)
      → find k' xs' ≡ (if k' == b then some c else find k' xs)
      → find k' (xs' ++ (k, i) ∷ ys) ≡ (if k' == b then some c else find k' (xs ++ (k, i) ∷ ys))
  finds-left xs xs' ys k' h =
      rw (find-append k' xs' ((k, i) ∷ ys), find-append k' xs ((k, i) ∷ ys), h) (ground arith)

  finds-right :
      (xs ys ys' : Entries) (k' : ℕ)
      → k < b
      → find b xs ≡ none
      → find k' ys' ≡ (if k' == b then some c else find k' ys)
      → find k' (xs ++ (k, i) ∷ ys') ≡ (if k' == b then some c else find k' (xs ++ (k, i) ∷ ys))
  finds-right xs ys ys' k' lt absent h = elim (Bool-cases (k' == b)) [
    | inl e ↦
        let e' : b ≡ k' = ground arith in
        rw (find-append k' xs ((k, i) ∷ ys'), h, e, ← e', absent) (ground arith)
    | inr n ↦ rw (find-append k' xs ((k, i) ∷ ys'), find-append k' xs ((k, i) ∷ ys), h, n) refl
  ]

  link-left :
      (l r t : Tree)
      → b < k
      → IsSplit (inorder l) k i (inorder r)
      → IsLinked (inorder l) b c t
      → IsLinked (inorder l ++ (k, i) ∷ inorder r) b c (node t k i r)
  link-left l r t lt s h = record {
    sorted = joined (inorder t) k i (inorder r) (record {
      left = h.sorted;
      below = h.under k lt s.below;
      above = s.above;
      right = s.right;
    });
    over = λ a ab all.
        let (x, y) = All-append (λ f. a < f.0) (inorder l) ((k, i) ∷ inorder r) all in
        append-All (λ f. a < f.0) (inorder t) ((k, i) ∷ inorder r) (h.over a ab x) y;
    under = λ a ba all.
        let (x, y) = All-append (λ f. f.0 < a) (inorder l) ((k, i) ∷ inorder r) all in
        append-All (λ f. f.0 < a) (inorder t) ((k, i) ∷ inorder r) (h.under a ba x) y;
    finds = λ k'. finds-left (inorder l) (inorder t) (inorder r) k' (h.finds k');
  }

  link-right :
      (l r t : Tree)
      → k < b
      → IsSplit (inorder l) k i (inorder r)
      → IsLinked (inorder r) b c t
      → IsLinked (inorder l ++ (k, i) ∷ inorder r) b c (node l k i t)
  link-right l r t lt s h = record {
    sorted =
        joined (inorder l) k i (inorder t) (record {
          left = s.left;
          below = s.below;
          above = h.over k lt s.above;
          right = h.sorted;
        });
    over = λ a ab all.
        let (x, y) = All-append (λ f. a < f.0) (inorder l) ((k, i) ∷ inorder r) all in
        append-All (λ f. a < f.0) (inorder l) ((k, i) ∷ inorder t) x (y.0, h.over a ab y.1);
    under = λ a ba all.
        let (x, y) = All-append (λ f. f.0 < a) (inorder l) ((k, i) ∷ inorder r) all in
        append-All (λ f. f.0 < a) (inorder l) ((k, i) ∷ inorder t) x (y.0, h.under a ba y.1);
    finds = λ k'.
        finds-right (inorder l) (inorder r) (inorder t) k' lt
          (find-below k b (inorder l) (omega arith) s.below) (h.finds k');
  }

some_ne_none : {i : ℕ} → some i ≡ none → ⊥
some_ne_none h = cc

-- A block number that is not listed is linked, without the assertion failing.
pub link_node-IsLinked :
    (t : Tree) (b c : ℕ)
    → IsSorted (inorder t)
    → find b (inorder t) ≡ none
    → (t' : Tree) × (link_node t b c ≡ some t') × IsLinked (inorder t) b c t'
unfolding link_node
link_node-IsLinked leaf b c h absent = (
  node leaf b c leaf,
  refl,
  record {
    sorted = (tt, tt);
    over = λ a ab _. (ab, tt);
    under = λ a ba _. (ba, tt);
    finds = λ k. ground arith;
  },
)
link_node-IsLinked (node l k i r) b c h absent =
    let s = split (inorder l) k i (inorder r) h in
    elim (Bool-cases (ltb b k)) [
      | inl lt ↦
          let in_left =
            sym (find-left k i (inorder r) b (inorder l) (ground arith) s.above) ∙ absent in
          let (t, e, linked) = link_node-IsLinked l b c s.left in_left in
          (node t k i r, rw (lt, e) refl, link-left k i b c l r t (ground arith) s linked)
      | inr ge ↦ elim (Bool-cases (ltb k b)) [
        | inl gt ↦
            let in_right =
              sym (find-right k i (inorder r) b (inorder l) (ground arith) s.below) ∙ absent in
            let (t, e, linked) = link_node-IsLinked r b c s.right in_right in
            (node l k i t, rw (ge, gt, e) refl, link-right k i b c l r t (ground arith) s linked)
        | inr le ↦
            let e : b ≡ k = ground arith in
            let there = find-here k i (inorder r) (inorder l) s.below in
            absurd (some_ne_none (sym there ∙ rw e at absent))
      ]
    ]
