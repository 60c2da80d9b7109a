-- ===== src/Mkfs/Marks.antt =====
-- The loops of cmfs-tools/mkfs.cmfs/mkfs.c that set the bits of a run, and the free bits that a group
-- counts.
use cmfs.Prelude.{
  ℕ, zero, suc, ◌+◌, ◌-◌, ◌*◌, ◌<◌, ◌≤◌, Bool, true, false, ◌&&◌, ◌≡◌, refl, sym, ap, ◌∙◌, arith,
  some, List, ltb, leb, if◌then◌else◌, length,
}
use cmfs.Bitops.Find.{bit_at, IsBytes}
use cmfs.Bitops.Update.{set_bit-IsUpdate}
use cmfs.Bitops.Count.{count, count-append, count-clear}
use cmfs.Mkfs.{set_bits}

-- `addr'` is `addr` with the `n` bits from `nr` on set, and no other bit changed.
pub record IsMarked (n nr : ℕ) (addr addr' : List ℕ) : Type 0 where
  pub same_length : length addr' ≡ length addr
  pub bytes : IsBytes addr'
  pub reads :
      (i : ℕ) → bit_at addr' i ≡ (if leb nr i && ltb i (nr + n) then true else bit_at addr i)

pub set_bits-IsMarked :
    (n nr : ℕ) (addr : List ℕ)
    → IsBytes addr
    → nr + n ≤ 8 * length addr
    → (addr' : List ℕ) × (set_bits n nr addr ≡ some addr') × IsMarked n nr addr addr'
unfolding set_bits
set_bits-IsMarked zero nr addr bytes fits = (
  addr,
  refl,
  record {
    same_length = refl;
    bytes = bytes;
    reads = λ i. let none : (leb nr i && ltb i (nr + 0)) ≡ false = ground arith in rw none refl;
  },
)
set_bits-IsMarked (suc n) nr addr bytes fits =
    let (addr₁, e, set) = set_bit-IsUpdate addr nr bytes (omega arith) in
    let (addr', e', is) =
      set_bits-IsMarked n (nr + 1) addr₁ set.bytes (omega (arith, set.same_length)) in
    (
      addr',
      rw e e',
      record {
        same_length = is.same_length ∙ set.same_length;
        bytes = is.bytes;
        reads = λ i. is.reads i ∙ ground (arith, set.reads i);
      },
    )

count_ext :
    (F G : ℕ → Bool) (lo n : ℕ)
    → ((j : ℕ) → lo ≤ j → j < lo + n → F j ≡ G j)
    → count F lo n ≡ count G lo n
count_ext F G lo zero h = refl
count_ext F G lo (suc n) h =
    rw
      (
        h lo (omega arith) (omega arith),
        count_ext F G (lo + 1) n (λ j a b. h j (omega arith) (omega arith)),
      )
      refl

pub count-set :
    (F : ℕ → Bool) (lo n : ℕ) → ((j : ℕ) → lo ≤ j → j < lo + n → F j ≡ true) → count F lo n ≡ n
count-set F lo zero h = refl
count-set F lo (suc n) h =
    rw (h lo (omega arith) (omega arith))
      (omega (arith, count-set F (lo + 1) n (λ j a b. h j (omega arith) (omega arith))))

-- The set bits before a run, in it and behind it.
count-parts :
    (H : ℕ → Bool) (n nr size : ℕ)
    → nr + n ≤ size
    → count H 0 size ≡ count H 0 nr + (count H nr n + count H (nr + n) (size - (nr + n)))
count-parts H n nr size fits =
    let e : size ≡ nr + (n + (size - (nr + n))) = omega arith in
    let z : 0 + nr ≡ nr = omega arith in
    ap (count H 0) e
    ∙ count-append H 0 nr (n + (size - (nr + n)))
    ∙ ap (λ t. count H 0 nr + count H t (n + (size - (nr + n)))) z
    ∙ ap (λ t. count H 0 nr + t) (count-append H nr n (size - (nr + n)))

-- Marking a free run among `size` bits adds its length to the bits that are set.
pub count-marked :
    (n nr size : ℕ) (addr addr' : List ℕ)
    → IsMarked n nr addr addr'
    → nr + n ≤ size
    → ((j : ℕ) → j < n → bit_at addr (nr + j) ≡ false)
    → count (bit_at addr') 0 size ≡ count (bit_at addr) 0 size + n
count-marked n nr size addr addr' is fits free =
    let F = bit_at addr' in
    let G = bit_at addr in
    let kept : (j : ℕ) → (leb nr j && ltb j (nr + n)) ≡ false → F j ≡ G j =
      λ j out. is.reads j ∙ rw out refl in
    let before : count F 0 nr ≡ count G 0 nr =
      count_ext F G 0 nr (λ j a b. kept j (ground arith)) in
    let run : count F nr n ≡ n = count-set F nr n (λ j a b.
      let in_run : (leb nr j && ltb j (nr + n)) ≡ true = ground arith in
      is.reads j ∙ rw in_run refl) in
    let clear : count G nr n ≡ 0 = count-clear G nr n (λ j a b.
      let e : nr + (j - nr) ≡ j = omega arith in ap G (sym e) ∙ free (j - nr) (omega arith)) in
    let rest : count F (nr + n) (size - (nr + n)) ≡ count G (nr + n) (size - (nr + n)) =
      count_ext F G (nr + n) (size - (nr + n)) (λ j a b. kept j (ground arith)) in
    omega
      (arith, count-parts F n nr size fits, count-parts G n nr size fits, before, run, clear, rest)
