-- ===== src/Bitops/Find/Range.antt =====
-- How far behind the end a search for a set bit may answer: cmfs-tools/libcmfs/bitops.c.
use cmfs.Prelude.{
  ℕ, zero, suc, ◌+◌, ◌-◌, ◌*◌, ◌/◌, ◌%◌, ◌<◌, ◌≤◌, bit_and, ◌≡◌, inl, inr, arith, Option, none,
  some, List, [], ◌∷◌, ltb, ◌==◌, if◌then◌else◌, Bool-cases, drop, get_elem?,
}
use cmfs.Prelude.Fault.{◌>>=◌, some_inj}
use cmfs.Bitops.{ffs, ffs_from, high_mask, last_mask, finish_set, scan, find_next_bit_set}

ffs_from-le : (w n : ℕ) → ffs_from w n ≤ w
unfolding ffs_from
ffs_from-le zero n = omega arith
ffs_from-le (suc w) n = ground (arith, ffs_from-le w (n / 2))

finish_set-le : (size res b : ℕ) → res < size → finish_set size res b ≤ size + 31
unfolding finish_set ffs
finish_set-le size res b lt = ground (arith, ffs_from-le 32 (bit_and b (last_mask size res)))

scan-le :
    (size res : ℕ) (p : List ℕ) (r : ℕ) → scan 0 finish_set size res p ≡ some r → r ≤ size + 31
unfolding scan
scan-le size res [] r h = elim (Bool-cases (ltb res size)) [
  | inl more ↦ absurd (ground arith)
  | inr over ↦ let e : size ≡ r = some_inj (rw over at h) in omega arith
]
scan-le size res (b ∷ p) r h = elim (Bool-cases (ltb res size)) [
  | inl more ↦ elim (Bool-cases (b == 0)) [
    | inl idle ↦ scan-le size (res + 8) p r (rw (more, idle) at h)
    | inr last ↦
        let e : finish_set size res b ≡ r = some_inj (rw (more, last) at h) in
        omega (arith, finish_set-le size res b (ground arith))
  ]
  | inr over ↦ let e : size ≡ r = some_inj (rw over at h) in omega arith
]

pub find_next_bit_set-le :
    (addr : List ℕ) (size offset r : ℕ)
    → offset ≤ size
    → find_next_bit_set addr size offset ≡ some r
    → r ≤ size + 31
unfolding find_next_bit_set ffs
find_next_bit_set-le addr size offset r inside h = elim (Bool-cases (size == 0)) [
  | inl empty ↦ let e : 0 ≡ r = some_inj (rw empty at h) in omega arith
  | inr some_left ↦ elim (Bool-cases (offset % 8 == 0)) [
    | inl whole ↦
        scan-le size (offset / 8 * 8) (drop (offset / 8) addr) r (rw (some_left, whole) at h)
    | inr part ↦ first_byte (get_elem? addr (offset / 8)) (rw (some_left, part) at h)
  ]
]
  where
    first_byte :
        (o : Option ℕ)
        → (o >>= λ b.
            let found = ffs (bit_and b (high_mask (offset % 8))) in
            if found == 0
            then scan 0 finish_set size (offset / 8 * 8 + 8) (drop (offset / 8 + 1) addr)
            else some (offset - offset % 8 + found - 1))
          ≡ some r
        → r ≤ size + 31
    first_byte none h = cc
    first_byte (some b) h =
        let d : ℕ = ffs_from 32 (bit_and b (high_mask (offset % 8))) in
        elim (Bool-cases (d == 0)) [
          | inl idle ↦
              scan-le size (offset / 8 * 8 + 8) (drop (offset / 8 + 1) addr) r (rw idle at h)
          | inr hit ↦
              let e : offset - offset % 8 + d - 1 ≡ r = some_inj (rw hit at h) in
              omega (arith, ffs_from-le 32 (bit_and b (high_mask (offset % 8))))
        ]
