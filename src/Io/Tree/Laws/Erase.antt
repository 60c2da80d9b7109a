-- ===== src/Io/Tree/Laws/Erase.antt =====
-- What `rb_erase` does to the listing.
use cmfs.Prelude.{
  ℕ, ◌<◌, ◌≡◌, refl, ◌∙◌, Option, none, some, [], ◌∷◌, arith, ◌==◌, if◌then◌else◌, inl, inr,
  Bool-cases,
}
use cmfs.Io.Tree.{Entries, without}
use cmfs.Io.Tree.Laws.{All, IsSorted, find, find-above}

without-All : (P : ℕ × ℕ → Type 0) (c : ℕ) (es : Entries) → All P es → All P (without c es)
without-All P c [] h = tt
without-All P c ((k, i) ∷ es) h = elim (Bool-cases (i == c)) [
  | inl e ↦ rw e (without-All P c es h.1)
  | inr n ↦ rw n (h.0, without-All P c es h.1)
]

pub without-IsSorted : (c : ℕ) (es : Entries) → IsSorted es → IsSorted (without c es)
without-IsSorted c [] h = tt
without-IsSorted c ((k, i) ∷ es) h = elim (Bool-cases (i == c)) [
  | inl e ↦ rw e (without-IsSorted c es h.1)
  | inr n ↦ rw n (without-All (λ f. k < f.0) c es h.0, without-IsSorted c es h.1)
]

-- A lookup that would give the erased block gives nothing.
abbrev pub but : ℕ → Option ℕ → Option ℕ
but c none = none
but c (some i) = if i == c then none else some i

pub find-without :
    (b c : ℕ) (es : Entries) → IsSorted es → find b (without c es) ≡ but c (find b es)
find-without b c [] h = refl
find-without b c ((k, i) ∷ es) h = elim (Bool-cases (i == c)) [
  | inr n ↦ rw n (ground (arith, find-without b c es h.1))
  | inl e ↦ elim (Bool-cases (k == b)) [
    | inr other ↦ rw (e, other) (find-without b c es h.1)
    | inl here ↦
        let k_is_b : k ≡ b = ground arith in
        rw (e, here, e) (find-without b c es h.1 ∙ rw (find-above b es (rw k_is_b at h.0)) refl)
  ]
]
