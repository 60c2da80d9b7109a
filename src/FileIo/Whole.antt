-- ===== src/FileIo/Whole.antt =====
-- A whole read of a file: fileio.c of cmfs-tools/libcmfs.
use cmfs.Prelude.{
  ℕ, zero, suc, ◌+◌, ◌-◌, ◌*◌, ◌/◌, ◌%◌, ◌^◌, ◌<◌, ◌≤◌, min, ◌≡◌, ◌⊎◌, refl, sym, ap, ◌∙◌, arith,
  Option, some, List, [], ltb, leb, inl, inr, Bool-cases,
}
use native.Mathlib.Nat.{one-le-pow}
use cmfs.Err.{ok}
use cmfs.Volume.{M, Dinode, Volume}
use cmfs.FileIo.{limit_got, read_wanted, file_read}
use cmfs.FileIo.Content.{file_bytes, run}
use cmfs.FileIo.Loop.{Answers, read_wanted-file_bytes}
use cmfs.FileIo.Size.{
  blocks_in, aligned_test, blocks_end, below-blocks, beyond-blocks, cut_blocks, all_blocks,
}

module _ {W : Type 0} (v : Volume W) (read_run : ℕ → ℕ → M W (List ℕ)) (inode : Dinode)
    (place : ℕ → Option ℕ) (content : ℕ → List ℕ) where
  limit_got-min :
      (size offset count got : ℕ)
      → offset ≤ size
      → size < 2 ^ 64
      → got ≤ count
      → count < 2 ^ 32
      → got + offset < 2 ^ 64
      → (got ≡ count) ⊎ (size ≤ got + offset)
      → limit_got v read_run size offset got ≡ min count (size - offset)
  unfolding limit_got
  limit_got-min size offset count got inside bound le small fits (inl all) = ground arith
  limit_got-min size offset count got inside bound le small fits (inr cut) = ground arith

  read_wanted-all :
      (num_blocks offset k b got : ℕ) (w : W) (answer : ℕ → ℕ × ℕ × ℕ)
      → v.fs_blocksize ≡ 2 ^ v.fs.s_blocksize_bits
      → ((j : ℕ) → j < num_blocks → Answers v read_run inode num_blocks place content j (answer j))
      → ((p n : ℕ) (u : W) → read_run p n u ≡ some (ok (run v.fs_blocksize place content p n), u))
      → b + k ≤ num_blocks
      → k * v.fs_blocksize < 2 ^ 32
      → (k ≡ 0 → got ≡ 0)
      → limit_got v read_run inode.i_size offset (k * v.fs_blocksize) ≡ got
      → read_wanted v read_run (suc k) inode offset k b 0 [] w
        ≡ some (record {
          ret = ok tt;
          got = got;
          out = file_bytes v.fs_blocksize place content b k;
          world = w;
        })
  unfolding read_wanted
  read_wanted-all num_blocks offset zero b got w answer size answers reads inside fits none_got
        limit =
      rw (none_got refl) refl
  read_wanted-all num_blocks offset (suc k) b got w answer size answers reads inside fits none_got
        limit =
      let z : 0 + suc k * v.fs_blocksize ≡ suc k * v.fs_blocksize = omega arith in
      read_wanted-file_bytes v read_run inode num_blocks place content size answer answers reads
        (suc (suc k)) offset (suc k) b 0 [] w (omega arith) (omega arith) inside (omega arith)
      ∙ rw (z, limit) refl

  -- The address of the buffer, the count and the offset are multiples of the block size, which is a
  -- power of two, and the numbers do not wrap round. For each block of the file the extent map has
  -- a run of at least one block, in a hole or without data, or together on the disk, and reads of
  -- the disk succeed. Then the read succeeds and puts the bytes of the blocks from the offset on into
  -- the buffer, zeros for those without data, as many as were asked for or up to the last block of
  -- the file, and `*got` is what was asked for or what the file has from the offset on.
  pub file_read-file_bytes :
      (ptr count offset got : ℕ) (w : W) (answer : ℕ → ℕ × ℕ × ℕ)
      → v.fs_blocksize ≡ 2 ^ v.fs.s_blocksize_bits
      → ((b : ℕ)
          → b < blocks_in inode.i_size v.fs_blocksize
          → Answers v read_run inode
              (blocks_in inode.i_size v.fs_blocksize)
              place
              content
              b
              (answer b))
      → ((p n : ℕ) (u : W) → read_run p n u ≡ some (ok (run v.fs_blocksize place content p n), u))
      → inode.i_size + v.fs_blocksize + count ≤ 2 ^ 64
      → count < 2 ^ 32
      → ptr % v.fs_blocksize ≡ 0
      → count % v.fs_blocksize ≡ 0
      → offset % v.fs_blocksize ≡ 0
      → file_read v read_run inode ptr count offset got w
        ≡ some (record {
          ret = ok tt;
          got = min count (inode.i_size - offset);
          out = file_bytes v.fs_blocksize place content (offset / v.fs_blocksize) (
              min
                (count / v.fs_blocksize)
                (blocks_in inode.i_size v.fs_blocksize - offset / v.fs_blocksize));
          world = w;
        })
  unfolding file_read
  file_read-file_bytes ptr count offset got w answer size answers reads bound small ptr_whole
        count_whole offset_whole =
      let m : ℕ = v.fs_blocksize in
      let nb : ℕ = blocks_in inode.i_size m in
      let some_m : 0 < m = rw size (one-le-pow v.fs.s_blocksize_bits 2 (omega arith)) in
      let nowrap : (inode.i_size + m - 1) % 2 ^ 64 ≡ inode.i_size + m - 1 = omega arith in
      rw
        (
          aligned_test v.fs.s_blocksize_bits m count size count_whole,
          aligned_test v.fs.s_blocksize_bits m offset size offset_whole,
          aligned_test v.fs.s_blocksize_bits m ptr size ptr_whole,
          ← size,
          nowrap,
        )
        (elim (Bool-cases (leb nb (offset / m))) [
          | inl beyond ↦
              let over =
                beyond-blocks inode.i_size offset count m some_m offset_whole count_whole
                  (ground arith) in
              let got_none : min count (inode.i_size - offset) ≡ 0 = omega arith in
              let blocks_none : min (count / m) (nb - offset / m) ≡ 0 = ground arith in
              rw (beyond, got_none, blocks_none) refl
          | inr within ↦ elim (Bool-cases (ltb nb (offset / m + count / m))) [
            | inl cut ↦
                let inside =
                  below-blocks inode.i_size offset count m some_m offset_whole count_whole
                    (ground arith) in
                let c =
                  cut_blocks inode.i_size offset count m some_m offset_whole count_whole
                    (ground arith) (ground arith) in
                let e : min (count / m) (nb - offset / m) ≡ nb - offset / m = ground arith in
                rw (within, cut, e)
                  (read_wanted-all nb offset (nb - offset / m) (offset / m)
                    (min count (inode.i_size - offset)) w answer size answers reads (ground arith)
                    (omega (arith, c)) (λ nothing. absurd (ground arith))
                    (limit_got-min inode.i_size offset count ((nb - offset / m) * m) (omega arith)
                      (omega arith) (omega (arith, c)) small
                      (omega (
                        arith,
                        c,
                        blocks_end inode.i_size offset count m some_m offset_whole count_whole,
                      ))
                      (inr (
                        omega (
                          arith,
                          c,
                          blocks_end inode.i_size offset count m some_m offset_whole count_whole,
                        )))))
            | inr all ↦
                let inside =
                  below-blocks inode.i_size offset count m some_m offset_whole count_whole
                    (ground arith) in
                let c =
                  all_blocks inode.i_size offset count m some_m offset_whole count_whole
                    (ground arith) in
                let e : min (count / m) (nb - offset / m) ≡ count / m = ground arith in
                rw (within, all, e)
                  (read_wanted-all nb offset (count / m) (offset / m)
                    (min count (inode.i_size - offset)) w answer size answers reads (ground arith)
                    (omega (arith, c))
                    (λ nothing.
                      let zc : 0 * m ≡ 0 = omega arith in
                      let c0 : count ≡ 0 = sym c.0 ∙ ap (λ t. t * m) nothing ∙ zc in omega arith)
                    (limit_got-min inode.i_size offset count (count / m * m) (omega arith)
                      (omega arith) (omega (arith, c)) small
                      (omega (
                        arith,
                        c,
                        blocks_end inode.i_size offset count m some_m offset_whole count_whole,
                      ))
                      (inl c.0)))
          ]
        ])
