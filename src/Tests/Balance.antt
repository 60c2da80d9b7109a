-- ===== src/Tests/Balance.antt =====
-- A balancing that does nothing.
use cmfs.Prelude.{◌≡◌, refl, ap, [], ◌∷◌}
use cmfs.Io.Tree.{Tree, leaf, node, Entries, inorder, without, RbTree}

-- A tree that leans to the right.
abbrev pub chain : Entries → Tree
chain [] = leaf
chain ((k, i) ∷ es) = node leaf k i (chain es)

pub inorder-chain : (es : Entries) → inorder (chain es) ≡ es
inorder-chain [] = refl
inorder-chain ((k, i) ∷ es) = ap (λ t. (k, i) ∷ t) (inorder-chain es)

-- Trees with no balance.
abbrev pub plain : RbTree
plain = record {
  rb_insert_color = λ t. t;
  rb_erase = λ i t. chain (without i (inorder t));
  inorder-rb_insert_color = λ t. refl;
  inorder-rb_erase = λ i t. inorder-chain (without i (inorder t));
}
