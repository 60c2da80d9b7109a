-- ===== src/Mkfs/Places.antt =====
-- A group in its place in the array: `alloc_from_bitmap` of cmfs-tools/mkfs.cmfs/mkfs.c.
use cmfs.Prelude.{
  ℕ, ◌<◌, ◌≡◌, sym, ap, ◌∙◌, inl, inr, arith, Option, none, some, List, ltb, ◌==◌, if◌then◌else◌,
  Bool-cases, length, get_elem?, set, length-set, get_elem?-set_self, get_elem?-set_ne,
  get_elem?-beyond,
}
use mathlib.Core.Path.{subst}
use cmfs.Prelude.Fault.{some_inj}
use cmfs.Mkfs.{GroupDesc, AllocGroup}
use cmfs.Mkfs.Groups.{IsGroup}
use cmfs.Mkfs.Search.{Leads, AreGroups}

pub inside_of : {A : Type 0} (xs : List A) (i : ℕ) (x : A) → get_elem? xs i ≡ some x → i < length xs
inside_of xs i x e = elim (Bool-cases (ltb i (length xs))) [
  | inl lt ↦ ground arith
  | inr out ↦
      let n = get_elem?-beyond xs i (ground arith) in
      let clash : none ≡ some x = sym n ∙ e in absurd cc
]

-- A group that keeps its chain and its link may take the place of another.
pub set-AreGroups :
    (groups : List AllocGroup) (k : ℕ) (g g' : AllocGroup)
    → AreGroups groups
    → get_elem? groups k ≡ some g
    → IsGroup g'.gd
    → g'.gd.bg_chain ≡ g.gd.bg_chain
    → g'.next ≡ g.next
    → AreGroups (set groups k g')
set-AreGroups groups k g g' is e group chain next = record {
  are = λ i x h. elim (Bool-cases (i == k)) [
    | inl same ↦ subst (λ (t : AllocGroup). IsGroup t.gd) (here i x h (ground arith)) group
    | inr other ↦ is.are i x (there i x h (ground arith))
  ];
  linked = λ i x h. rw (length-set groups k g') (elim (Bool-cases (i == k)) [
    | inl same ↦
        let z : i ≡ k = ground arith in
        subst (λ (t : AllocGroup). Leads (length groups) i t.next) (here i x h z)
          (subst (λ t. Leads (length groups) i t) (sym next)
            (is.linked i g (ap (get_elem? groups) z ∙ e)))
    | inr other ↦ is.linked i x (there i x h (ground arith))
  ]);
  chained = λ i x h. rw (length-set groups k g') (elim (Bool-cases (i == k)) [
    | inl same ↦
        let z : i ≡ k = ground arith in
        subst (λ (t : AllocGroup). t.gd.bg_chain < length groups) (here i x h z)
          (rw chain (is.chained k g e))
    | inr other ↦ is.chained i x (there i x h (ground arith))
  ]);
}
  where
    here : (i : ℕ) (x : AllocGroup) → get_elem? (set groups k g') i ≡ some x → i ≡ k → g' ≡ x
    here i x h z = some_inj (
        sym (get_elem?-set_self groups k g' (inside_of groups k g e))
        ∙ ap (get_elem? (set groups k g')) (sym z)
        ∙ h)

    there :
        (i : ℕ) (x : AllocGroup)
        → get_elem? (set groups k g') i ≡ some x
        → (i ≡ k → ⊥)
        → get_elem? groups i ≡ some x
    there i x h ne = sym (get_elem?-set_ne groups g' (λ z. ne (sym z))) ∙ h

abbrev pub gd_of : Option AllocGroup → Option GroupDesc
gd_of none = none
gd_of (some g) = some g.gd

-- Another group in a place shows there, and nowhere else.
pub gd_of-set :
    (groups : List AllocGroup) (k j : ℕ) (g g' : AllocGroup)
    → get_elem? groups k ≡ some g
    → gd_of (get_elem? (set groups k g') j)
      ≡ (if j == k then some g'.gd else gd_of (get_elem? groups j))
gd_of-set groups k j g g' e = elim (Bool-cases (j == k)) [
  | inl same ↦
      let z : j ≡ k = ground arith in
      rw same (
        ap (λ t. gd_of (get_elem? (set groups k g') t)) z
        ∙ ap gd_of (get_elem?-set_self groups k g' (inside_of groups k g e)))
  | inr other ↦ rw other (ap gd_of (get_elem?-set_ne groups g' (λ z. absurd (ground arith))))
]
