-- ===== src/FileIo/Stuck.antt =====
-- A read that does not go on: fileio.c of cmfs-tools/libcmfs.
use cmfs.Prelude.{
  ℕ, zero, suc, ◌+◌, ◌-◌, ◌*◌, ◌%◌, ◌^◌, ◌<◌, bit_and, false, ◌≡◌, refl, arith, none, some, List,
  [], ◌++◌, ltb, ◌==◌, if◌then◌else◌,
}
use cmfs.Err.{ok}
use cmfs.Extents.{blocks_to_clusters, clusters_to_blocks}
use cmfs.Extents.Map.{get_clusters, extent_map_get_blocks}
use cmfs.Volume.{M, Dinode, Volume}
use cmfs.FileIo.{read_wanted}

module _ {W : Type 0} (v : Volume W) (read_run : ℕ → ℕ → M W (List ℕ)) (inode : Dinode) where
  -- Where the extent map answers for a block with a hole of no block at all.
  read_wanted-stuck :
      (fuel offset wanted b got flags : ℕ) (out : List ℕ) (w : W)
      → 0 < wanted
      → extent_map_get_blocks v.fs inode.i_list b ≡ some (ok (0, 0, flags))
      → read_wanted v read_run fuel inode offset wanted b got out w ≡ none
  unfolding read_wanted
  read_wanted-stuck zero offset wanted b got flags out w more map = refl
  read_wanted-stuck (suc fuel) offset wanted b got flags out w more map =
      let wants : (wanted == 0) ≡ false = ground arith in
      let n : (if ltb wanted 0 then wanted else 0) ≡ 0 = ground arith in
      let same : wanted - 0 ≡ wanted = omega arith in
      let here : b + 0 ≡ b = omega arith in
      let nothing : 0 * v.fs_blocksize ≡ 0 = omega arith in
      rw (wants, map, n, nothing, same, here, wants)
        (read_wanted-stuck fuel offset wanted b ((got + 0 * 2 ^ v.fs.s_blocksize_bits) % 2 ^ 32)
          flags (out ++ []) w more map)

  -- At the first block of a cluster where the file has a hole whose number of blocks is cut off to 0,
  -- and with blocks still wanted, the loop returns with no fuel, so it does not end, whatever was
  -- read before.
  pub read_hole-stuck :
      (fuel offset wanted b got clusters : ℕ) (out : List ℕ) (w : W)
      → 0 < wanted
      → get_clusters v.fs inode.i_list (blocks_to_clusters v.fs b)
        ≡ some (ok (record { p_cluster = 0; num_clusters = clusters; extent_flags = 0 }))
      → clusters_to_blocks v.fs clusters ≡ 0
      → bit_and b (clusters_to_blocks v.fs 1 - 1) ≡ 0
      → read_wanted v read_run fuel inode offset wanted b got out w ≡ none
  unfolding extent_map_get_blocks
  read_hole-stuck fuel offset wanted b got clusters out w more hole cut first =
      read_wanted-stuck fuel offset wanted b got 0 out w more (rw (hole, cut, first) refl)
