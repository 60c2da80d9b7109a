-- ===== src/Tests/Files.antt =====
-- A file of three blocks with a hole in the middle, and a read of its last two blocks.
use cmfs.Prelude.{
  ℕ, ◌^◌, ◌<◌, ◌≡◌, refl, arith, inl, inr, Option, none, some, List, [], ◌∷◌, ◌++◌, ◌==◌,
  if◌then◌else◌, replicate,
}
use cmfs.Prelude.Bits.{has_bit}
use native.Mathlib.Decide.{ℕ_discrete}
use cmfs.Err.{ok}
use cmfs.Extents.{blocks_to_clusters, clusters_to_blocks}
use cmfs.Extents.Map.{extent_map_get_blocks, get_clusters}
use cmfs.Volume.{M, Dinode, Volume}
use cmfs.FileIo.{file_read, read_wanted}
use cmfs.FileIo.Stuck.{read_hole-stuck}
use cmfs.FileIo.Content.{run}
use cmfs.FileIo.Loop.{Answers}
use cmfs.FileIo.Whole.{file_read-file_bytes}
use cmfs.Tests.Volumes.{volume, file_inode}

abbrev sparse_inode : Dinode
sparse_inode = record file_inode {
  i_size = 150;
  i_list = record {
    l_tree_depth = 0;
    l_count = 2;
    l_next_free_rec = 2;
    l_recs =
        (record { e_cpos = 0; e_blkno = 5; e_int_blocks = 1 })
        ∷ (record { e_cpos = 2; e_blkno = 20; e_int_blocks = 1 })
        ∷ [];
  };
}

abbrev place : ℕ → Option ℕ
place b = if b == 0 then some 5 else if b == 2 then some 20 else none

abbrev bytes_of : ℕ → List ℕ
bytes_of p = replicate 64 p

abbrev read_run : ℕ → ℕ → M (Unit {0}) (List ℕ)
read_run p n w = some (ok (run 64 place bytes_of p n), w)

abbrev answer : ℕ → ℕ × ℕ × ℕ
answer b = if b == 0 then (5, 1, 0) else if b == 2 then (20, 1, 0) else (0, 1, 0)

first_answer : extent_map_get_blocks volume.fs sparse_inode.i_list 0 ≡ some (ok (5, 1, 0))
unfolding extent_map_get_blocks
first_answer = refl

hole_answer : extent_map_get_blocks volume.fs sparse_inode.i_list 1 ≡ some (ok (0, 1, 0))
unfolding extent_map_get_blocks
hole_answer = refl

last_answer : extent_map_get_blocks volume.fs sparse_inode.i_list 2 ≡ some (ok (20, 1, 0))
unfolding extent_map_get_blocks
last_answer = refl

-- Where the tests of the example stand for one block, only j = 0 is asked about.
answers : (b : ℕ) → b < 3 → Answers volume read_run sparse_inode 3 place bytes_of b (answer b)
unfolding has_bit
answers b lt = elim (ℕ_discrete b 0) [
  | yes first ↦
      let a0 : Answers volume read_run sparse_inode 3 place bytes_of 0 (answer 0) = (
        first_answer,
        omega arith,
        inr (refl, λ j small inside. let z : j ≡ 0 = omega arith in rw z refl),
      ) in
      rw first a0
  | no later ↦ elim (ℕ_discrete b 1) [
    | yes second ↦
        let a1 : Answers volume read_run sparse_inode 3 place bytes_of 1 (answer 1) = (
          hole_answer,
          omega arith,
          inl (refl, λ j small inside. let z : j ≡ 0 = omega arith in rw z refl),
        ) in
        rw second a1
    | no third ↦
        let a2 : Answers volume read_run sparse_inode 3 place bytes_of 2 (answer 2) = (
          last_answer,
          omega arith,
          inr (refl, λ j small inside. let z : j ≡ 0 = omega arith in rw z refl),
        ) in
        let e : b ≡ 2 = omega arith in rw e a2
  ]
]

file_read-file_bytes_example :
    file_read volume read_run sparse_inode 4096 128 64 7 tt
    ≡ some (record {
      ret = ok tt;
      got = 86;
      out = replicate 64 0 ++ replicate 64 20 ++ [];
      world = tt;
    })
file_read-file_bytes_example =
    file_read-file_bytes volume read_run sparse_inode place bytes_of 4096 128 64 7 tt answer refl
      answers (λ p n u. refl) (omega arith) (omega arith) refl refl refl

-- Clusters of 256 blocks of 4096 bytes, and a file that starts with a hole of 2^24 clusters.
abbrev large_volume : Volume (Unit {0})
large_volume = record volume {
  fs = record {
    s_clustersize_bits = 20;
    s_blocksize_bits = 12;
    fs_blocks = 2 ^ 40;
    fs_clustersize = 2 ^ 20;
    read_blocks = volume.fs.read_blocks;
  };
  fs_blocksize = 4096;
}

abbrev holed_inode : Dinode
holed_inode = record file_inode {
  i_size = 17592186048512;
  i_list = record {
    l_tree_depth = 0;
    l_count = 2;
    l_next_free_rec = 1;
    l_recs = (record { e_cpos = 2 ^ 24; e_blkno = 2560; e_int_blocks = 256 }) ∷ [];
  };
}

large_hole :
    get_clusters large_volume.fs holed_inode.i_list (blocks_to_clusters large_volume.fs 0)
    ≡ some (ok (record { p_cluster = 0; num_clusters = 2 ^ 24; extent_flags = 0 }))
unfolding get_clusters blocks_to_clusters
large_hole = refl

cut_off : clusters_to_blocks large_volume.fs (2 ^ 24) ≡ 0
unfolding clusters_to_blocks
cut_off = refl

read_hole-stuck_example : read_wanted large_volume read_run 1000000 holed_inode 0 2 0 0 [] tt ≡ none
unfolding clusters_to_blocks
read_hole-stuck_example =
    read_hole-stuck large_volume read_run holed_inode 1000000 0 2 0 0 (2 ^ 24) [] tt (omega arith)
      large_hole cut_off refl
