-- ===== src/Io/Tree/Laws.antt =====
-- The search tree as a sorted list of entries.
pub mod Link
pub mod Erase
use cmfs.Prelude.{
  ℕ, zero, suc, ◌<◌, ◌≤◌, Bool, true, false, ◌≡◌, refl, sym, ◌∙◌, ap, Option, none, some, List, [],
  ◌∷◌, ◌++◌, arith, ltb, ◌==◌, if◌then◌else◌, inl, inr, Bool-cases,
}
use cmfs.Io.Tree.{Tree, leaf, node, Entries, inorder, search_tree, map_tree, link_node, without}

abbrev pub All : (ℕ × ℕ → Type 0) → Entries → Type 0
All P [] = Unit {0}
All P (e ∷ es) = P e × All P es

-- The keys rise.
abbrev pub IsSorted : Entries → Type 0
IsSorted [] = Unit {0}
IsSorted (e ∷ es) = All (λ f. e.0 < f.0) es × IsSorted es

-- The cache block that is listed for a block number.
abbrev pub find : ℕ → Entries → Option ℕ
find blkno [] = none
find blkno ((k, i) ∷ es) = if k == blkno then some i else find blkno es

pub All-append : (P : ℕ × ℕ → Type 0) (xs ys : Entries) → All P (xs ++ ys) → All P xs × All P ys
All-append P [] ys h = (tt, h)
All-append P (x ∷ xs) ys h = let (a, b) = All-append P xs ys h.1 in ((h.0, a), b)

pub append-All : (P : ℕ × ℕ → Type 0) (xs ys : Entries) → All P xs → All P ys → All P (xs ++ ys)
append-All P [] ys h k = k
append-All P (x ∷ xs) ys h k = (h.0, append-All P xs ys h.1 k)

All-mono : (a b : ℕ) (es : Entries) → a ≤ b → All (λ f. b < f.0) es → All (λ f. a < f.0) es
All-mono a b [] le h = tt
All-mono a b (e ∷ es) le h = (omega arith, All-mono a b es le h.1)

-- A list that is sorted round an entry.
pub record IsSplit (xs : Entries) (k i : ℕ) (ys : Entries) : Type 0 where
  pub left : IsSorted xs
  pub below : All (λ f. f.0 < k) xs
  pub above : All (λ f. k < f.0) ys
  pub right : IsSorted ys

pub split :
    (xs : Entries) (k i : ℕ) (ys : Entries) → IsSorted (xs ++ (k, i) ∷ ys) → IsSplit xs k i ys
split [] k i ys h = record { left = tt; below = tt; above = h.0; right = h.1 }
split (x ∷ xs) k i ys h =
    let r = split xs k i ys h.1 in
    let (a, b) = All-append (λ f. x.0 < f.0) xs ((k, i) ∷ ys) h.0 in
    record { left = (a, r.left); below = (b.0, r.below); above = r.above; right = r.right }

pub joined :
    (xs : Entries) (k i : ℕ) (ys : Entries) → IsSplit xs k i ys → IsSorted (xs ++ (k, i) ∷ ys)
joined [] k i ys s = (s.above, s.right)
joined (x ∷ xs) k i ys s =
    let rest : IsSplit xs k i ys = record {
      left = s.left.1;
      below = s.below.1;
      above = s.above;
      right = s.right;
    } in
    (
      append-All (λ f. x.0 < f.0) xs ((k, i) ∷ ys) s.left.0
          (s.below.0, All-mono x.0 k ys (omega arith) s.above),
      joined xs k i ys rest,
    )

pub find-above : (b : ℕ) (es : Entries) → All (λ f. b < f.0) es → find b es ≡ none
find-above b [] h = refl
find-above b ((k, i) ∷ es) h = ground (arith, find-above b es)

module _ (k i : ℕ) (ys : Entries) where
  find-left :
      (b : ℕ) (xs : Entries)
      → b < k
      → All (λ f. k < f.0) ys
      → find b (xs ++ (k, i) ∷ ys) ≡ find b xs
  find-left b [] lt h = ground (arith, find-above b ys (All-mono b k ys (omega arith) h))
  find-left b ((l, j) ∷ xs) lt h = ground (arith, find-left b xs lt h)

  find-here : (xs : Entries) → All (λ f. f.0 < k) xs → find k (xs ++ (k, i) ∷ ys) ≡ some i
  find-here [] h = ground arith
  find-here ((l, j) ∷ xs) h = ground (arith, find-here xs h.1)

  find-right :
      (b : ℕ) (xs : Entries)
      → k < b
      → All (λ f. f.0 < k) xs
      → find b (xs ++ (k, i) ∷ ys) ≡ find b ys
  find-right b [] lt h = ground arith
  find-right b ((l, j) ∷ xs) lt h = ground (arith, find-right b xs lt h.1)

-- The walk finds what is listed.
pub search_tree-eq_find :
    (t : Tree) (b : ℕ) → IsSorted (inorder t) → search_tree t b ≡ find b (inorder t)
unfolding search_tree
search_tree-eq_find leaf b h = refl
search_tree-eq_find (node l k i r) b h =
    let s = split (inorder l) k i (inorder r) h in
    elim (Bool-cases (ltb b k)) [
      | inl lt ↦ rw lt (
          search_tree-eq_find l b s.left
          ∙ sym (find-left k i (inorder r) b (inorder l) (ground arith) s.above))
      | inr ge ↦ elim (Bool-cases (ltb k b)) [
        | inl gt ↦
            rw (ge, gt)
              (search_tree-eq_find r b s.right
                ∙ sym (find-right k i (inorder r) b (inorder l) (ground arith) s.below))
        | inr le ↦
            let e : k ≡ b = ground arith in
            rw (ge, le, ← e) (sym (find-here k i (inorder r) (inorder l) s.below))
      ]
    ]
