-- ===== src/FileIo/Content.antt =====
-- The bytes of a file, block by block: what fileio.c of cmfs-tools/libcmfs is to read.
use cmfs.Prelude.{
  ℕ, zero, suc, ◌+◌, ◌*◌, ◌<◌, ◌≡◌, refl, sym, ap, ◌∙◌, arith, Option, none, some, List, [], ◌++◌,
  replicate,
}
use mathlib.Core.List.{append_assoc}

replicate-append : (m n : ℕ) (a : ℕ) → replicate (m + n) a ≡ replicate m a ++ replicate n a
replicate-append zero n a = let e : 0 + n ≡ n = omega arith in rw e refl
replicate-append (suc m) n a =
    let e : suc m + n ≡ suc (m + n) = omega arith in rw (e, replicate-append m n a) refl

-- A file as the blocks that hold its data, or none, and the bytes of the disk.
module _ (blocksize : ℕ) (place : ℕ → Option ℕ) (content : ℕ → List ℕ) where
  abbrev bytes_at : Option ℕ → List ℕ
  bytes_at none = replicate blocksize 0
  bytes_at (some p) = content p

  -- The bytes of `n` blocks of the file from block `b` on.
  abbrev pub file_bytes : ℕ → ℕ → List ℕ
  file_bytes b zero = []
  file_bytes b (suc n) = bytes_at (place b) ++ file_bytes (b + 1) n

  -- The bytes of `n` blocks of the disk.
  abbrev pub run : ℕ → ℕ → List ℕ
  run p zero = []
  run p (suc n) = content p ++ run (p + 1) n

  pub file_bytes-append :
      (b m n : ℕ) → file_bytes b (m + n) ≡ file_bytes b m ++ file_bytes (b + m) n
  file_bytes-append b zero n =
      let e : 0 + n ≡ n = omega arith in let e' : b + 0 ≡ b = omega arith in rw (e, e') refl
  file_bytes-append b (suc m) n =
      let e : suc m + n ≡ suc (m + n) = omega arith in
      let e' : b + suc m ≡ b + 1 + m = omega arith in
      rw (e, e', file_bytes-append (b + 1) m n)
        (sym (append_assoc (bytes_at (place b)) (file_bytes (b + 1) m) (file_bytes (b + 1 + m) n)))

  -- A hole of `n` blocks, and `n` blocks that lie together.
  pub zeros-file_bytes :
      (b n : ℕ)
      → ((j : ℕ) → j < n → place (b + j) ≡ none)
      → replicate (n * blocksize) 0 ≡ file_bytes b n
  zeros-file_bytes b zero h = let e : 0 * blocksize ≡ 0 = omega arith in rw e refl
  zeros-file_bytes b (suc n) h =
      let e : suc n * blocksize ≡ blocksize + n * blocksize = grind arith in
      let here : place b ≡ none = let z : b + 0 ≡ b = omega arith in rw (← z) (h 0 (omega arith)) in
      rw
        (
          e,
          replicate-append blocksize (n * blocksize) 0,
          here,
          zeros-file_bytes (b + 1) n (λ j lt.
              let s : b + 1 + j ≡ b + suc j = omega arith in rw s (h (suc j) (omega arith))),
        )
        refl

  pub run-file_bytes :
      (b p n : ℕ) → ((j : ℕ) → j < n → place (b + j) ≡ some (p + j)) → run p n ≡ file_bytes b n
  run-file_bytes b p zero h = refl
  run-file_bytes b p (suc n) h =
      let z : b + 0 ≡ b = omega arith in
      let z' : p + 0 ≡ p = omega arith in
      let here : place b ≡ some p =
        ap place (sym z) ∙ h 0 (omega arith) ∙ ap (λ (t : ℕ). some t) z' in
      rw here (
        ap (λ t. content p ++ t)
          (run-file_bytes (b + 1) (p + 1) n (λ j lt.
            let s : b + 1 + j ≡ b + suc j = omega arith in
            let s' : p + 1 + j ≡ p + suc j = omega arith in rw (s, s') (h (suc j) (omega arith)))))
