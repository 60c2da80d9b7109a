-- ===== src/Bitops/Find/Scan.antt =====
-- The loop over whole bytes of the two searches.
use cmfs.Prelude.{
  ℕ, suc, ◌+◌, ◌-◌, ◌*◌, ◌/◌, ◌%◌, ◌^◌, ◌<◌, ◌≤◌, Bool, true, false, not, ◌≡◌, refl, ◌∙◌, ap,
  Option, some, List, [], ◌∷◌, inl, inr, arith, ltb, ◌==◌, Bool-cases, length,
}
use cmfs.Prelude.Bits.{has_bit, has_bit-mask, has_bit-zero}
use cmfs.Bitops.{finish_set, finish_clear, scan}
use cmfs.Bitops.Find.Byte.{bit_at, IsBytes, Finds, finish_set-Finds, finish_clear-Finds}

-- The loop, for either byte that it skips and either way to finish.
module _ (idle : ℕ) (finish : ℕ → ℕ → ℕ → ℕ) (want : Bool → Bool)
    (skipped : (k : ℕ) → k < 8 → want (has_bit idle k) ≡ false)
    (finishes : (F : ℕ → Bool) (size res : ℕ)
      → res < size
      → (b : ℕ) → b < 2 ^ 8
      → (b == idle) ≡ false
      → ((k : ℕ) → k < 8 → F (res + k) ≡ want (has_bit b k))
      → Finds F size res (some (finish size res b)))
    (F : ℕ → Bool) (size : ℕ) where
  past_idle :
      (res b : ℕ) (o : Option ℕ)
      → (b == idle) ≡ true
      → ((k : ℕ) → k < 8 → F (res + k) ≡ want (has_bit b k))
      → Finds F size (res + 8) o
      → Finds F size res o
  past_idle res b o same reads r = record {
    found = r.found;
    returns = r.returns;
    clear = λ j lo hi below. elim (Bool-cases (ltb j (res + 8))) [
      | inl here ↦
          let e : res + (j - res) ≡ j = omega arith in
          let i : b ≡ idle = ground arith in
          rw e at (
            reads (j - res) (ground arith)
            ∙ ap (λ t. want (has_bit t (j - res))) i
            ∙ skipped (j - res) (ground arith))
      | inr later ↦ r.clear j (ground arith) hi below
    ];
    hit = λ h. (omega (arith, (r.hit h).0), (r.hit h).1);
  }

  past_end : (res : ℕ) → size ≤ res → Finds F size res (some size)
  past_end res h = record {
    found = size;
    returns = refl;
    clear = λ j lo hi below. absurd (omega arith);
    hit = λ lt. absurd (omega arith);
  }

  pub scan-Finds :
      (res : ℕ) (p : List ℕ)
      → IsBytes p
      → size ≤ res + 8 * length p
      → ((j : ℕ) → j < 8 * length p → F (res + j) ≡ want (bit_at p j))
      → Finds F size res (scan idle finish size res p)
  unfolding scan
  scan-Finds res [] bytes fits reads =
      let e : ltb res size ≡ false = ground arith in rw e (past_end res (omega arith))
  scan-Finds res (b ∷ p) bytes fits reads = elim (Bool-cases (ltb res size)) [
    | inr over ↦ rw over (past_end res (ground arith))
    | inl more ↦ elim (Bool-cases (b == idle)) [
      | inr stop ↦ rw (more, stop) (finishes F size res (ground arith) b (bytes 0) stop here)
      | inl same ↦
          rw (more, same)
            (past_idle res b _ same here
              (scan-Finds (res + 8) p (λ i. bytes (suc i)) (omega arith) beyond))
    ]
  ]
    where
      here : (k : ℕ) → k < 8 → F (res + k) ≡ want (has_bit b k)
      here k h =
          let q : k / 8 ≡ 0 = omega arith in
          let r : k % 8 ≡ k = omega arith in rw (q, r) at (reads k (omega arith))

      beyond : (j : ℕ) → j < 8 * length p → F (res + 8 + j) ≡ want (bit_at p j)
      beyond j h =
          let q : (8 + j) / 8 ≡ suc (j / 8) = omega arith in
          let r : (8 + j) % 8 ≡ j % 8 = omega arith in
          let e : res + (8 + j) ≡ res + 8 + j = omega arith in
          rw (q, r, e) at (reads (8 + j) (omega arith))

module _ (size res : ℕ) (p : List ℕ) (bytes : IsBytes p) (fits : size ≤ res + 8 * length p)
    (F : ℕ → Bool) where
  pub scan_set-Finds :
      ((j : ℕ) → j < 8 * length p → F (res + j) ≡ bit_at p j)
      → Finds F size res (scan 0 finish_set size res p)
  scan_set-Finds =
      scan-Finds 0 finish_set (λ b. b) (λ k _. has_bit-zero k)
        (λ F size res below b byte. finish_set-Finds F size res below b byte) F size res p bytes
        fits

  pub scan_clear-Finds :
      ((j : ℕ) → j < 8 * length p → F (res + j) ≡ not (bit_at p j))
      → Finds F size res (scan (2 ^ 8 - 1) finish_clear size res p)
  scan_clear-Finds =
      scan-Finds (2 ^ 8 - 1) finish_clear not (λ k h. ap not (has_bit-mask 8 k) ∙ ground arith)
        (λ F size res below b byte. finish_clear-Finds F size res below b byte) F size res p bytes
        fits
