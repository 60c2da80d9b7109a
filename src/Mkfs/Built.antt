-- ===== src/Mkfs/Built.antt =====
-- The groups that mkfs sets up count their bits: cmfs-tools/mkfs.cmfs/mkfs.c.
use cmfs.Prelude.{
  ℕ, zero, suc, ◌+◌, ◌-◌, ◌*◌, ◌/◌, ◌%◌, ◌^◌, ◌<◌, ◌≤◌, false, ◌&&◌, ◌≡◌, refl, sym, ap, ◌∙◌, inl,
  inr, arith, none, some, List, [], ◌∷◌, ◌++◌, ltb, leb, ◌==◌, Bool-cases, length, get_elem?, set,
  get_or, replicate, length-replicate, get_elem?-set_self, get_elem?-set_ne,
}
use mathlib.Core.Path.{subst}
use cmfs.Prelude.Fault.{◌>>=◌, some_inj}
use cmfs.Prelude.Bits.{has_bit-zero}
use cmfs.Bitops.Find.{bit_at}
use cmfs.Bitops.Count.{count-clear}
use cmfs.Mkfs.{BitInfo, AllocGroup}
use cmfs.Mkfs.Marks.{set_bits-IsMarked, count-marked}
use cmfs.Mkfs.Groups.{IsGroup}
use cmfs.Mkfs.Setup.{new_group, initialize_alloc_group}

-- What holds of each group and its place.
abbrev pub Each : (ℕ → AllocGroup → Type 0) → List AllocGroup → Type 0
Each P groups = (k : ℕ) (g : AllocGroup) → get_elem? groups k ≡ some g → P k g

pub set-Each :
    (P : ℕ → AllocGroup → Type 0) (groups : List AllocGroup) (k : ℕ) (g : AllocGroup)
    → Each P groups
    → k < length groups
    → P k g
    → Each P (set groups k g)
set-Each P groups k g each lt here i x e = elim (Bool-cases (i == k)) [
  | inl same ↦
      let z : k ≡ i = ground arith in
      let is : g ≡ x =
        some_inj (sym (get_elem?-set_self groups k g lt) ∙ ap (get_elem? (set groups k g)) z ∙ e) in
      subst (λ (t : AllocGroup). P i t) is (subst (λ (t : ℕ). P t g) z here)
  | inr other ↦ each i x (sym (get_elem?-set_ne groups g (λ z. absurd (ground arith))) ∙ e)
]

pub append-Each :
    (P : ℕ → AllocGroup → Type 0) (groups : List AllocGroup) (g : AllocGroup)
    → Each P groups
    → P (length groups) g
    → Each P (groups ++ g ∷ [])
append-Each P [] g each here zero x e = subst (λ (t : AllocGroup). P 0 t) (some_inj e) here
append-Each P [] g each here (suc i) x e = cc
append-Each P (y ∷ groups) g each here zero x e = each zero x e
append-Each P (y ∷ groups) g each here (suc i) x e =
    append-Each (λ k. P (suc k)) groups g (λ k. each (suc k)) here i x e

module _ (blocksize : ℕ) (size : blocksize ≡ 4096) where
  zeros-bytes : (n i : ℕ) → ◌≡◌ {A = ℕ} (get_or (replicate n 0) i 0) 0
  zeros-bytes zero i = refl
  zeros-bytes (suc n) zero = refl
  zeros-bytes (suc n) (suc i) = zeros-bytes n i

  zeros-clear : (n i : ℕ) → bit_at (replicate n 0) i ≡ false
  zeros-clear n i = rw (zeros-bytes n (i / 8)) (has_bit-zero (i % 8))

  -- A new group, with its first bit taken.
  pub record IsNew (blkno chain bits : ℕ) (bi : BitInfo) (g : AllocGroup) (bi' : BitInfo)
      : Type 0 where
    pub group : IsGroup g.gd
    pub unlinked : g.next ≡ none
    pub at_chain : g.gd.bg_chain ≡ chain
    pub at_blkno : g.gd.bg_blkno ≡ blkno
    pub has_bits : g.gd.bg_bits ≡ bits
    pub free : g.gd.bg_free_bits_count + 1 ≡ bits
    pub total : bi'.total_bits ≡ (bi.total_bits + bits) % 2 ^ 32
    pub others : (j : ℕ) → 0 < j → bit_at g.gd.bg_bitmap j ≡ false

  pub initialize_alloc_group-IsNew :
      (blkno chain bits : ℕ) (bi : BitInfo)
      → 0 < bits
      → bits ≤ 32256
      → (g : AllocGroup) × (bi' : BitInfo) × (initialize_alloc_group blocksize 0 blkno chain bits 1
            bi
          ≡ some (g, bi'))
        × IsNew blkno chain bits bi g bi'
  unfolding initialize_alloc_group
  initialize_alloc_group-IsNew blkno chain bits bi some_bits few =
      let zeros : List ℕ = replicate (blocksize - 64) 0 in
      let len : length zeros ≡ blocksize - 64 = length-replicate (blocksize - 64) 0 in
      let (bitmap, e, marks) =
        set_bits-IsMarked 1 0 zeros (λ i. omega (arith, zeros-bytes (blocksize - 64) i))
          (omega (arith, len)) in
      let bits' : ℕ = bits * 1 % 2 ^ 16 in
      let same : bits' ≡ bits = omega arith in
      let made = new_group blocksize 0 blkno chain bits' bitmap bi in
      let more =
        count-marked 1 0 bits' zeros bitmap marks (omega arith)
          (λ j lt. zeros-clear (blocksize - 64) (0 + j)) in
      let none_set =
        count-clear (bit_at zeros) 0 bits' (λ j a lt. zeros-clear (blocksize - 64) j) in
      (
        made.0,
        made.1,
        ap (λ r. r >>= λ m. some (new_group blocksize 0 blkno chain bits' m bi)) e,
        record {
          group = record {
            bytes = marks.bytes;
            fits = omega (arith, marks.same_length, len);
            small = omega arith;
            counted = omega (arith, more, none_set);
          };
          unlinked = refl;
          at_chain = refl;
          at_blkno = refl;
          has_bits = same;
          free = omega arith;
          total = rw same refl;
          others = λ j pos.
              let out : (leb 0 j && ltb j (0 + 1)) ≡ false = ground arith in
              marks.reads j ∙ rw out (zeros-clear (blocksize - 64) j);
        },
      )
