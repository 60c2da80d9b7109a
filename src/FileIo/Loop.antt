-- ===== src/FileIo/Loop.antt =====
-- The loop of a read: the bytes it puts into the buffer, run by run. fileio.c of
-- cmfs-tools/libcmfs.
use cmfs.Prelude.{
  ℕ, zero, suc, ◌+◌, ◌-◌, ◌*◌, ◌%◌, ◌^◌, ◌<◌, ◌≤◌, true, false, ◌||◌, ◌≡◌, ◌⊎◌, refl, sym, ap, ◌∙◌,
  arith, Option, none, some, List, ◌++◌, ltb, ◌==◌, if◌then◌else◌, inl, inr, Bool-cases,
}
use cmfs.Prelude.Bits.{has_bit}
use mathlib.Core.List.{append_assoc}
use native.Mathlib.Nat.{add-mul, mul-le-mul_right}
use cmfs.Err.{ok}
use cmfs.Extents.Map.{extent_map_get_blocks}
use cmfs.Volume.{M, Dinode, Volume}
use cmfs.FileIo.{FileRead, fill, after_fill, after_map, limit_got, read_wanted}
use cmfs.FileIo.Content.{file_bytes, run, file_bytes-append, zeros-file_bytes, run-file_bytes}

module _ {W : Type 0} (v : Volume W) (read_run : ℕ → ℕ → M W (List ℕ)) (inode : Dinode)
    (num_blocks : ℕ) (place : ℕ → Option ℕ) (content : ℕ → List ℕ) where
  -- What the extent map answers for a block: a run of blocks in a hole or without data, or of blocks
  -- that lie together on the disk.
  abbrev pub Answers : ℕ → ℕ × ℕ × ℕ → Type 0
  Answers b (p, contig, flags) =
      (extent_map_get_blocks v.fs inode.i_list b ≡ some (ok (p, contig, flags)))
      × (0 < contig)
      × (((((p == 0) || has_bit flags 0) ≡ true)
            × ((j : ℕ) → j < contig → b + j < num_blocks → place (b + j) ≡ none))
          ⊎ ((((p == 0) || has_bit flags 0) ≡ false)
              × ((j : ℕ) → j < contig → b + j < num_blocks → place (b + j) ≡ some (p + j))))

  module _ (size : v.fs_blocksize ≡ 2 ^ v.fs.s_blocksize_bits) (answer : ℕ → ℕ × ℕ × ℕ)
      (answers : (b : ℕ) → b < num_blocks → Answers b (answer b))
      (reads : (p n : ℕ) (w : W)
        → read_run p n w ≡ some (ok (run v.fs_blocksize place content p n), w)) where
    fill-file_bytes :
        (b n : ℕ) (a : ℕ × ℕ × ℕ) (w : W)
        → Answers b a
        → n ≤ a.1
        → b + n ≤ num_blocks
        → fill v read_run a n w ≡ some (ok (file_bytes v.fs_blocksize place content b n), w)
    fill-file_bytes b n (p, contig, flags) w (got, pos, inl (hole, h)) short inside =
        rw
          (
            hole,
            zeros-file_bytes v.fs_blocksize place content b n
                (λ j lt. h j (omega arith) (omega arith)),
          )
          refl
    fill-file_bytes b n (p, contig, flags) w (got, pos, inr (full, h)) short inside =
        rw
          (
            full,
            reads p n w,
            run-file_bytes v.fs_blocksize place content b p n
                (λ j lt. h j (omega arith) (omega arith)),
          )
          refl

    -- What follows a run of n blocks.
    after-file_bytes :
        (next : ℕ → ℕ → ℕ → List ℕ → W → Option (FileRead W)) (offset n wanted b got : ℕ)
        (out : List ℕ) (w : W)
        → 0 < n
        → n ≤ wanted
        → got + wanted * v.fs_blocksize < 2 ^ 32
        → ((n : ℕ)
            → 0 < n
            → n < wanted
            → next
                (wanted - n)
                (b + n)
                (got + n * v.fs_blocksize)
                (out ++ file_bytes v.fs_blocksize place content b n)
                w
              ≡ some (record {
                ret = ok tt;
                got =
                    limit_got v read_run inode.i_size offset
                      (got + n * v.fs_blocksize + (wanted - n) * v.fs_blocksize);
                out =
                    (out ++ file_bytes v.fs_blocksize place content b n)
                    ++ file_bytes v.fs_blocksize place content (b + n) (wanted - n);
                world = w;
              }))
        → after_fill v read_run next inode.i_size offset n wanted b got out
            (some (ok (file_bytes v.fs_blocksize place content b n), w))
          ≡ some (record {
            ret = ok tt;
            got = limit_got v read_run inode.i_size offset (got + wanted * v.fs_blocksize);
            out = out ++ file_bytes v.fs_blocksize place content b wanted;
            world = w;
          })
    after-file_bytes next offset n wanted b got out w some_n all_n fits on =
        let le : n * v.fs_blocksize ≤ wanted * v.fs_blocksize =
          mul-le-mul_right v.fs_blocksize all_n in
        let small : (got + n * v.fs_blocksize) % 2 ^ 32 ≡ got + n * v.fs_blocksize = omega arith in
        rw (← size, small)
          (elim (Bool-cases (wanted - n == 0)) [
            | inl over ↦ let e : n ≡ wanted = ground arith in rw (over, e) refl
            | inr still ↦
                let lt : n < wanted = ground arith in
                let e : n + (wanted - n) ≡ wanted = omega arith in
                let split : wanted * v.fs_blocksize
                    ≡ n * v.fs_blocksize + (wanted - n) * v.fs_blocksize =
                  ap (λ t. t * v.fs_blocksize) (sym e) ∙ add-mul n (wanted - n) v.fs_blocksize in
                let sum : got + n * v.fs_blocksize + (wanted - n) * v.fs_blocksize
                    ≡ got + wanted * v.fs_blocksize =
                  omega arith in
                let joined : (out ++ file_bytes v.fs_blocksize place content b n)
                      ++ file_bytes v.fs_blocksize place content (b + n) (wanted - n)
                    ≡ out ++ file_bytes v.fs_blocksize place content b wanted =
                  append_assoc out (file_bytes v.fs_blocksize place content b n)
                    (file_bytes v.fs_blocksize place content (b + n) (wanted - n))
                  ∙ ap (λ t. out ++ t)
                      (sym (file_bytes-append v.fs_blocksize place content b n (wanted - n))
                        ∙ ap (λ t. file_bytes v.fs_blocksize place content b t) e) in
                rw (still, on n some_n lt, sum, joined) refl
          ])

    -- A round of the loop, which reads n blocks and goes on with the others.
    round-file_bytes :
        (next : ℕ → ℕ → ℕ → List ℕ → W → Option (FileRead W)) (offset wanted b got : ℕ)
        (out : List ℕ) (w : W) (a : ℕ × ℕ × ℕ)
        → Answers b a
        → 0 < wanted
        → b + wanted ≤ num_blocks
        → got + wanted * v.fs_blocksize < 2 ^ 32
        → ((n : ℕ)
            → 0 < n
            → n < wanted
            → next
                (wanted - n)
                (b + n)
                (got + n * v.fs_blocksize)
                (out ++ file_bytes v.fs_blocksize place content b n)
                w
              ≡ some (record {
                ret = ok tt;
                got =
                    limit_got v read_run inode.i_size offset
                      (got + n * v.fs_blocksize + (wanted - n) * v.fs_blocksize);
                out =
                    (out ++ file_bytes v.fs_blocksize place content b n)
                    ++ file_bytes v.fs_blocksize place content (b + n) (wanted - n);
                world = w;
              }))
        → after_map v read_run next inode.i_size offset wanted b got out w
            (extent_map_get_blocks v.fs inode.i_list b)
          ≡ some (record {
            ret = ok tt;
            got = limit_got v read_run inode.i_size offset (got + wanted * v.fs_blocksize);
            out = out ++ file_bytes v.fs_blocksize place content b wanted;
            world = w;
          })
    round-file_bytes next offset wanted b got out w (p, contig, flags) (map, pos, places) more
          inside fits on =
        let n : ℕ = if ltb wanted contig then wanted else contig in
        let some_n : 0 < n = ground arith in
        let all_n : n ≤ wanted = ground arith in
        let short : n ≤ contig = ground arith in
        rw (map, fill-file_bytes b n (p, contig, flags) w (map, pos, places) short (omega arith))
          (after-file_bytes next offset n wanted b got out w some_n all_n fits on)

    -- The loop.
    pub read_wanted-file_bytes :
        (fuel offset wanted b got : ℕ) (out : List ℕ) (w : W)
        → 0 < wanted
        → wanted < fuel
        → b + wanted ≤ num_blocks
        → got + wanted * v.fs_blocksize < 2 ^ 32
        → read_wanted v read_run fuel inode offset wanted b got out w
          ≡ some (record {
            ret = ok tt;
            got = limit_got v read_run inode.i_size offset (got + wanted * v.fs_blocksize);
            out = out ++ file_bytes v.fs_blocksize place content b wanted;
            world = w;
          })
    unfolding read_wanted
    read_wanted-file_bytes zero offset wanted b got out w more enough inside fits =
        absurd (omega arith)
    read_wanted-file_bytes (suc fuel) offset wanted b got out w more enough inside fits =
        let wants : (wanted == 0) ≡ false = ground arith in
        rw wants (
          round-file_bytes (read_wanted v read_run fuel inode offset) offset wanted b got out w
            (answer b) (answers b (omega arith)) more inside fits
            (λ n some_n lt.
              let split : n * v.fs_blocksize + (wanted - n) * v.fs_blocksize
                  ≡ wanted * v.fs_blocksize =
                sym (add-mul n (wanted - n) v.fs_blocksize)
                ∙ ap (λ t. t * v.fs_blocksize) (omega arith) in
              read_wanted-file_bytes fuel offset (wanted - n) (b + n) (got + n * v.fs_blocksize)
                (out ++ file_bytes v.fs_blocksize place content b n) w (omega arith) (omega arith)
                (omega arith) (omega arith)))
