-- ===== src/Tests/Formatting.antt =====
-- A bitmap of two groups, and a small volume that is sized.
use cmfs.Prelude.{
  ℕ, zero, suc, ◌^◌, ◌<◌, ◌≤◌, true, false, ◌≡◌, ◌⊎◌, refl, arith, inl, none, some, List, [], ◌∷◌,
  get_elem?, replicate, length, get_or, ◌++◌, if◌then◌else◌,
}
use mathlib.Core.Path.{subst}
use cmfs.Prelude.Fault.{some_inj}
use cmfs.Prelude.Bits.{has_bit}
use cmfs.Err.{ok}
use cmfs.Feature.{no_options}
use cmfs.Bitops.Find.{bit_at, IsBytes}
use cmfs.Mkfs.{
  BitInfo, GroupDesc, AllocGroup, AllocBitmap, Allocated, Taken, find_clear_bits, alloc_from_group,
  alloc_from_bitmap,
}
use cmfs.Mkfs.Run.{ends}
use cmfs.Mkfs.Sizes.{State, get_valid_size, fill_defaults}
use cmfs.Mkfs.Runs.{IsFirstRun, find_clear_bits-IsFirstRun}
use cmfs.Mkfs.Groups.{IsGroup, IsShortRun, alloc_from_group-stuck}
use cmfs.Mkfs.OneBit.{IsTaken, alloc_from_group-IsTaken}
use cmfs.Mkfs.Search.{AreGroups, Leads}
use cmfs.Mkfs.Bitmaps.{AreFull, IsAllocated, alloc_from_bitmap-IsAllocated}
use cmfs.Mkfs.Defaults.{IsLargest, get_valid_size-IsLargest}
use cmfs.Mkfs.Volume.{IsSized, fill_defaults-IsSized}
use cmfs.Mkfs.Uuid.{is_dash, translate_uuid, translate_uuid-dashes}
use cmfs.Mkfs.Setup.{initialize_bitmap, with_first}
use cmfs.Mkfs.{take_from_bitmap}
use cmfs.Mkfs.Twice.{initialize_bitmap-twice}
use cmfs.Mkfs.Divided.{IsDivided, initialize_bitmap-IsDivided}

-- A cluster size between 4096 bytes and 32 MB.
get_valid_size_example :
    (r : ℕ) × (get_valid_size 10000 4096 (2 ^ 25) ≡ some r) × IsLargest 4096 10000 r
get_valid_size_example =
    get_valid_size-IsLargest 10000 4096 (2 ^ 25) (omega arith) (omega arith) (omega arith)
      (omega arith)

-- The bits 0 and 3 are set.
abbrev one_byte : List ℕ
one_byte = 9 ∷ []

one_byte-IsBytes : IsBytes one_byte
one_byte-IsBytes zero = omega arith
one_byte-IsBytes (suc i) = omega arith

find_clear_bits_example :
    (r : ℕ) × (find_clear_bits one_byte 8 3 0 ≡ some r)
    × IsFirstRun one_byte 8 3 0 one_byte-IsBytes
        (omega arith)
        (omega arith)
        (omega arith)
        (omega arith)
        r
find_clear_bits_example =
    find_clear_bits-IsFirstRun one_byte 8 3 0 one_byte-IsBytes (omega arith) (omega arith)
      (omega arith) (omega arith) (omega arith)

abbrev desc : ℕ → ℕ → GroupDesc
desc chain blkno = record {
  bg_size = 4032;
  bg_bits = 8;
  bg_free_bits_count = 6;
  bg_chain = chain;
  bg_next_group = 0;
  bg_parent_dinode = 0;
  bg_blkno = blkno;
  bg_bitmap = one_byte;
}

desc-IsGroup : (chain blkno : ℕ) → IsGroup (desc chain blkno)
unfolding has_bit
desc-IsGroup chain blkno = record {
  bytes = one_byte-IsBytes;
  fits = omega arith;
  small = omega arith;
  counted = refl;
}

abbrev info : BitInfo
info = record { used_bits = 4; total_bits = 16 }

short_run : IsShortRun (desc 0 3) (desc-IsGroup 0 3) 3 1 3
unfolding has_bit
short_run = record {
  full = full;
  free = free;
  end = refl;
  some_free = omega arith;
  inside = omega arith;
  short = omega arith;
}
  where
    full : (j : ℕ) → j < 1 → bit_at one_byte j ≡ true
    full zero lt = refl
    full (suc j) lt = absurd (omega arith)

    free : (j : ℕ) → 1 ≤ j → j < 3 → bit_at one_byte j ≡ false
    free zero some_bit lt = absurd (omega arith)
    free (suc zero) some_bit lt = refl
    free (suc (suc zero)) some_bit lt = refl
    free (suc (suc (suc j))) some_bit lt = absurd (omega arith)

alloc_from_group-stuck_example : alloc_from_group 100 3 (desc 0 3) info ≡ none
alloc_from_group-stuck_example =
    alloc_from_group-stuck (desc 0 3) (desc-IsGroup 0 3) 100 3 1 3 info short_run

alloc_from_group-IsTaken_example :
    (b : ℕ) × (t : Taken) × (alloc_from_group 2 1 (desc 0 3) info ≡ some (some t))
    × IsTaken (desc 0 3) (desc-IsGroup 0 3) info b t
alloc_from_group-IsTaken_example =
    alloc_from_group-IsTaken (desc 0 3) (desc-IsGroup 0 3) 1 info (omega arith)

abbrev group_at : ℕ → ℕ → AllocGroup
group_at chain blkno = record {
  gd = desc chain blkno;
  chain_free = 6;
  chain_total = 8;
  next = none;
}

abbrev bitmap : AllocBitmap
bitmap = record {
  groups = group_at 0 3 ∷ group_at 1 8 ∷ [];
  unit = 4096;
  unit_bits = 12;
  num_chains = 2;
  bi = info;
}

groups-AreGroups : AreGroups bitmap.groups
groups-AreGroups = record { are = are; linked = linked; chained = chained }
  where
    are : (i : ℕ) (g : AllocGroup) → get_elem? bitmap.groups i ≡ some g → IsGroup g.gd
    are zero g e = subst (λ (t : AllocGroup). IsGroup t.gd) (some_inj e) (desc-IsGroup 0 3)
    are (suc zero) g e = subst (λ (t : AllocGroup). IsGroup t.gd) (some_inj e) (desc-IsGroup 1 8)
    are (suc (suc i)) g e = absurd cc

    linked : (i : ℕ) (g : AllocGroup) → get_elem? bitmap.groups i ≡ some g → Leads 2 i g.next
    linked zero g e = subst (λ (t : AllocGroup). Leads 2 0 t.next) (some_inj e) tt
    linked (suc zero) g e = subst (λ (t : AllocGroup). Leads 2 1 t.next) (some_inj e) tt
    linked (suc (suc i)) g e = absurd cc

    chained : (i : ℕ) (g : AllocGroup) → get_elem? bitmap.groups i ≡ some g → g.gd.bg_chain < 2
    chained zero g e = subst (λ (t : AllocGroup). t.gd.bg_chain < 2) (some_inj e) (omega arith)
    chained (suc zero) g e =
        subst (λ (t : AllocGroup). t.gd.bg_chain < 2) (some_inj e) (omega arith)
    chained (suc (suc i)) g e = absurd cc

alloc_from_bitmap_example :
    ((alloc_from_bitmap 3 12 12 3 bitmap ≡ some none) × AreFull 3 12 12 3 bitmap groups-AreGroups)
    ⊎ ((i : ℕ) × (b : ℕ) × (gd : GroupDesc) × (gd' : GroupDesc) × (r : Allocated)
        × (alloc_from_bitmap 3 12 12 3 bitmap ≡ some (some r))
        × IsAllocated 3 12 12 3 bitmap i b gd gd' r)
alloc_from_bitmap_example =
    alloc_from_bitmap-IsAllocated 3 12 12 3 bitmap groups-AreGroups (omega arith) (omega arith)

abbrev state : State
state = record {
  blocksize = 4096;
  blocksize_bits = 0;
  cluster_size = 8192;
  cluster_size_bits = 0;
  specified_size_in_blocks = 0;
  volume_size_in_bytes = 0;
  volume_size_in_clusters = 0;
  volume_size_in_blocks = 1001;
  pagesize_bits = 0;
  journal_size_in_bytes = 0;
  extent_alloc_size_in_clusters = 0;
  initial_slots = 0;
  inline_data = false;
  vol_label = [];
  uuid = [];
  nr_cluster_groups = 0;
  global_cpg = 0;
  tail_group_bits = 0;
  first_cluster_group = 0;
  first_cluster_group_blkno = 0;
  feature_flags = no_options;
}

fill_defaults_example :
    (s : State) × (fill_defaults (2 ^ 12) (ok 512) (ok 1001) state ≡ ends s) × IsSized 1 1001 s
unfolding has_bit
fill_defaults_example =
    fill_defaults-IsSized 12 512 (ok 512) (ok 1001) state 1 1001 (omega arith) (omega arith) refl
      (omega arith) refl (inl refl) (omega arith) refl (omega arith) (omega arith) (inl refl)

-- 25 clusters of two blocks, in groups of ten.
abbrev sized : State
sized = record state {
  blocksize_bits = 12;
  cluster_size_bits = 13;
  volume_size_in_bytes = 204800;
  volume_size_in_clusters = 25;
  volume_size_in_blocks = 50;
  nr_cluster_groups = 3;
  global_cpg = 10;
  tail_group_bits = 5;
}

sized-IsSized : IsSized 1 51 sized
sized-IsSized = record {
  block_bits = refl;
  cluster_bits = refl;
  cluster = refl;
  clusters = omega arith;
  whole = refl;
  in_bytes = refl;
  fits = omega arith;
  nearly = omega arith;
  divided = refl;
  tail = omega arith;
  tail_fits = omega arith;
  group_fits = omega arith;
}

initialize_bitmap_example :
    (made : AllocBitmap) × (initialize_bitmap sized 13 ≡ ends (with_first sized 1, made))
    × IsDivided sized 20 made
initialize_bitmap_example =
    initialize_bitmap-IsDivided sized 1 51 13 sized-IsSized (omega arith) refl (omega arith)
      (omega arith)

-- Thirty-two digits with a NUL, and the 37 bytes on the stack.
abbrev digits : List ℕ
digits = replicate 32 49 ++ 0 ∷ []

translate_uuid_example :
    ((length digits < 36) × (translate_uuid digits (replicate 37 0) ≡ none))
    ⊎ ((36 ≤ length digits)
        × ((r : List ℕ × List ℕ) × (translate_uuid digits (replicate 37 0) ≡ some r)
            × ((k : ℕ) → get_or r.1 k 0 ≡ (if is_dash k then 45 else get_or (replicate 37 0) k 0))))
translate_uuid_example = translate_uuid-dashes digits (replicate 37 0) (omega arith)

initialize_bitmap-twice_example :
    (made : AllocBitmap) × (r : Allocated) × (r' : Allocated) × (initialize_bitmap sized 13
      ≡ ends (with_first sized 1, made))
    × (take_from_bitmap 4 12 13 1 made 1 1 ≡ some r)
    × (take_from_bitmap 4 12 13 1 r.bitmap 2 1 ≡ some r')
    × (r'.start ≡ r.start)
initialize_bitmap-twice_example =
    initialize_bitmap-twice sized 1 51 13 4 12 13 1 2 sized-IsSized (omega arith) refl (omega arith)
      (omega arith) (omega arith) (omega arith) (λ e. absurd (omega arith)) (omega arith)
      (omega arith)
