-- ===== src/Mkfs/Volume.antt =====
-- `fill_defaults` of cmfs-tools/mkfs.cmfs/mkfs.c cuts the volume to whole clusters and groups.
use cmfs.Prelude.{
  true, false, ℕ, ◌+◌, ◌-◌, ◌*◌, ◌/◌, ◌%◌, ◌^◌, ◌<◌, ◌≤◌, false, ◌≡◌, ◌⊎◌, refl, sym, ap, ◌∙◌, inl,
  inr, arith, some, leb, ◌==◌, if◌then◌else◌,
}
use cmfs.Prelude.Bits.{has_bit}
use mathlib.Core.Path.{subst}
use native.Mathlib.Nat.{one-le-pow, div-mul-le_self, div-le_self, lt-div-mul-add}
use cmfs.Err.{Result}
use cmfs.Open.Checks.{block_times}
use cmfs.Extents.Groups.{calc_cluster_groups, calc_cluster_groups-divides}
use cmfs.Mkfs.Run.{Run, ends, require, ◌>>=◌}
use cmfs.Mkfs.Sizes.{
  State, get_bits, figure_journal_size, sector, volume_blocks, whole_volume, with_groups,
  with_defaults, size_volume, fill_defaults, default_clustersize,
}
use cmfs.Mkfs.Defaults.{get_bits-pow}
use cmfs.Mkfs.Endings.{figure_journal_size-ends, whole_clusters}

-- The volume is cut to whole clusters of 2^j blocks, and these are divided into groups.
pub record IsSized (j blocks : ℕ) (s : State) : Type 0 where
  pub block_bits : s.blocksize_bits ≡ 12
  pub cluster_bits : s.cluster_size_bits ≡ 12 + j
  pub cluster : s.cluster_size ≡ 4096 * 2 ^ j
  pub clusters : 0 < s.volume_size_in_clusters
  pub whole : s.volume_size_in_blocks ≡ s.volume_size_in_clusters * 2 ^ j
  pub in_bytes : s.volume_size_in_bytes ≡ s.volume_size_in_clusters * s.cluster_size
  pub fits : s.volume_size_in_blocks ≤ blocks
  pub nearly : blocks < s.volume_size_in_blocks + 2 ^ j
  pub divided :
      (s.nr_cluster_groups - 1) * s.global_cpg + s.tail_group_bits ≡ s.volume_size_in_clusters
  pub tail : 0 < s.tail_group_bits
  pub tail_fits : s.tail_group_bits ≤ s.global_cpg
  pub group_fits : s.global_cpg ≤ 32256

-- A run that ends with a volume that is sized.
abbrev Sizes : ℕ → ℕ → Run State → Type 0
Sizes j blocks r = (s : State) × (r ≡ ends s) × IsSized j blocks s

with_journal :
    (v : State) (pagesize_bits size journal j blocks : ℕ)
    → IsSized j blocks v
    → figure_journal_size size v ≡ ends journal
    → Sizes j blocks
        (figure_journal_size size v >>= λ journal. ends (with_defaults v pagesize_bits journal))
with_journal v pagesize_bits size journal j blocks is e = (
  with_defaults v pagesize_bits journal,
  rw e refl,
  record {
    block_bits = is.block_bits;
    cluster_bits = is.cluster_bits;
    cluster = is.cluster;
    clusters = is.clusters;
    whole = is.whole;
    in_bytes = is.in_bytes;
    fits = is.fits;
    nearly = is.nearly;
    divided = is.divided;
    tail = is.tail;
    tail_fits = is.tail_fits;
    group_fits = is.group_fits;
  },
)

-- No journal is asked for, or it is smaller than the volume in whole clusters.
abbrev pub HasRoom : State → ℕ → ℕ → Type 0
HasRoom s j blocks =
    (has_bit s.feature_flags.opt_compat 1 ≡ false)
    ⊎ (s.journal_size_in_bytes / 2 ^ 12 % 2 ^ 32 < blocks / 2 ^ j * 2 ^ j)

size_volume-Sizes :
    (pagesize_bits blocks j : ℕ) (s : State)
    → j ≤ 13
    → blocks < 2 ^ 32
    → 2 ^ j ≤ blocks
    → HasRoom s j blocks
    → Sizes j blocks (size_volume pagesize_bits blocks 4096 (4096 * 2 ^ j) s)
unfolding size_volume
size_volume-Sizes pagesize_bits blocks j s small few some_clusters has_room =
    let cluster_bits : get_bits (4096 * 2 ^ j) ≡ ends (12 + j) =
      ap get_bits (sym (block_times j)) ∙ get_bits-pow (12 + j) (omega arith) (omega arith) in
    let c : ℕ = blocks / 2 ^ j in
    let (clusters, bytes, in_blocks, pos) = whole_clusters j blocks few some_clusters in
    let below = div-mul-le_self blocks (2 ^ j) in
    let above : blocks < c * 2 ^ j + 2 ^ j = lt-div-mul-add (one-le-pow j 2 (omega arith)) in
    let c_few : c < 2 ^ 32 = omega (arith, div-le_self blocks (2 ^ j)) in
    let (cgs, e, divided, tail, tail_fits, group_fits) =
      calc_cluster_groups-divides c 4096 (omega arith) (omega arith) pos c_few in
    let v : State = with_groups (whole_volume s blocks 4096 12 (4096 * 2 ^ j) (12 + j)) cgs in
    let counted : calc_cluster_groups v.volume_size_in_clusters 4096 ≡ some cgs =
      ap (λ t. calc_cluster_groups t 4096) clusters ∙ e in
    let whole : v.volume_size_in_bytes ≡ c * (4096 * 2 ^ j) =
      ap (λ t. t * 2 ^ (12 + j) % 2 ^ 64) clusters ∙ bytes in
    let all : v.volume_size_in_blocks ≡ c * 2 ^ j = ap (λ t. t / 2 ^ 12) whole ∙ in_blocks in
    let is : IsSized j blocks v = record {
      block_bits = refl;
      cluster_bits = refl;
      cluster = refl;
      clusters = omega (arith, clusters, pos);
      whole = all ∙ ap (λ t. t * 2 ^ j) (sym clusters);
      in_bytes = whole ∙ ap (λ t. t * (4096 * 2 ^ j)) (sym clusters);
      fits = omega (arith, all, below);
      nearly = omega (arith, all, above);
      divided = divided ∙ sym clusters;
      tail = tail;
      tail_fits = tail_fits;
      group_fits = group_fits;
    } in
    let (journal, fits) = figure_journal_size-ends s.journal_size_in_bytes v refl (
      subst
        (λ (t : ℕ).
          (has_bit s.feature_flags.opt_compat 1 ≡ false)
          ⊎ (s.journal_size_in_bytes / 2 ^ 12 % 2 ^ 32 < t))
        (sym all) has_room) in
    rw (cluster_bits, counted)
      (with_journal v pagesize_bits s.journal_size_in_bytes journal j blocks is fits)

bind_at :
    {A : Type 0} (j blocks : ℕ) (r : Run A) (f : A → Run State) (a : A)
    → r ≡ ends a
    → Sizes j blocks (f a)
    → Sizes j blocks (r >>= f)
bind_at j blocks r f a e sized = rw e sized

default_or :
    (j size : ℕ)
    → (size ≡ 4096 * 2 ^ j) ⊎ ((size ≡ 0) × (j ≡ 8))
    → (if size == 0 then default_clustersize else size) ≡ 4096 * 2 ^ j
default_or j size (inl e) =
    let pos : 0 < 2 ^ j = one-le-pow j 2 (omega arith) in
    let n : (size == 0) ≡ false = ground arith in rw n e
default_or j size (inr (e, eight)) = rw (e, eight) refl

-- On pages of 2^p bytes, with blocks of 4096 bytes, sectors that are not larger, a cluster size of 2^j
-- blocks up to 32 MB, or none and 2^8 by default, a volume of less than 2^32 blocks that has a cluster,
-- and no journal or one smaller than the volume: `fill_defaults` ends with a volume of as many whole
-- clusters as it has, in bytes, blocks and clusters, that are divided into groups whose bits fit a
-- block.
pub fill_defaults-IsSized :
    (p sector_size : ℕ) (sectsize device : Result ℕ) (s : State) (j blocks : ℕ)
    → 0 < p
    → p < 32
    → sector sectsize ≡ ends sector_size
    → sector_size ≤ 4096
    → s.blocksize ≡ 4096
    → (s.cluster_size ≡ 4096 * 2 ^ j) ⊎ ((s.cluster_size ≡ 0) × (j ≡ 8))
    → j ≤ 13
    → volume_blocks s device ≡ ends blocks
    → blocks < 2 ^ 32
    → 2 ^ j ≤ blocks
    → HasRoom s j blocks
    → (s' : State) × (fill_defaults (2 ^ p) sectsize device s ≡ ends s') × IsSized j blocks s'
unfolding fill_defaults
fill_defaults-IsSized p sector_size sectsize device s j blocks pos p_few is_sector sector_fits size
      cluster small volume few some_clusters has_room =
    let fits : leb sector_size s.blocksize ≡ true = ground arith in
    bind_at j blocks (get_bits (2 ^ p)) _ p (get_bits-pow p pos p_few) (
      bind_at j blocks (sector sectsize) _ sector_size is_sector (
        rw fits (
          bind_at j blocks (volume_blocks s device) _ blocks volume (
            subst
              (λ (t : ℕ).
                Sizes j blocks (require (t == 4096) >>= λ is_4096. size_volume p blocks t chosen s))
              (sym size)
              (subst (λ (t : ℕ). Sizes j blocks (size_volume p blocks 4096 t s)) (sym is_chosen)
                (size_volume-Sizes p blocks j s small few some_clusters has_room))))))
  where
    chosen : ℕ
    chosen = if s.cluster_size == 0 then default_clustersize else s.cluster_size

    is_chosen : chosen ≡ 4096 * 2 ^ j
    is_chosen = default_or j s.cluster_size cluster
