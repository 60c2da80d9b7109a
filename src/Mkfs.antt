-- ===== src/Mkfs.antt =====
-- cmfs-tools/mkfs.cmfs/mkfs.c: how blocks and clusters are handed out when a volume is formatted.
pub mod Run
pub mod Uuid
pub mod Sizes
pub mod Defaults
pub mod Endings
pub mod Volume
pub mod Runs
pub mod Marks
pub mod Groups
pub mod OneBit
pub mod Search
pub mod Setup
pub mod Built
pub mod Growth
pub mod Divided
pub mod Places
pub mod Bitmaps
pub mod Twice
use cmfs.Prelude.{
  ℕ, zero, suc, ◌+◌, ◌-◌, ◌*◌, ◌/◌, ◌%◌, ◌^◌, Bool, true, false, ◌&&◌, ◌||◌, not, Option, none,
  some, List, [], ◌∷◌, ltb, leb, ◌==◌, if◌then◌else◌, get_elem?, set, length,
}
use cmfs.Prelude.Fault.{◌>>=◌}
use cmfs.Bitops.{set_bit, find_next_bit_set, find_next_bit_clear, find_first_bit_clear}

-- `-1` as a `uint32_t`.
abbrev pub no_bit : ℕ
no_bit = 2 ^ 32 - 1

-- The loop of `find_clear_bits`, on fuel; `bits` is `num_bits`.
unfoldable pub clear_loop : ℕ → List ℕ → ℕ → ℕ → ℕ → ℕ → ℕ → Option ℕ
unfolding find_next_bit_clear
clear_loop zero buf size bits off count first_zero = none
clear_loop (suc fuel) buf size bits off count first_zero =
    let round = find_next_bit_clear buf size off >>= λ next_zero.
    let skips = not (next_zero == off) in
    let off' = (if skips then next_zero + 1 else off + 1) % 2 ^ 32 in
    let first_zero' = if skips || (count == 0) then next_zero else first_zero in
    let count' = if skips then 1 else (count + 1) % 2 ^ 32 in
    let rest = clear_loop fuel buf size bits off' count' first_zero' in
    if leb size next_zero then some no_bit else if count' == bits then some first_zero' else rest in
    if leb bits ((size + 2 ^ 32 - off + count) % 2 ^ 32) then round else some no_bit

-- What follows the label `bail`.
abbrev pub bail : ℕ → ℕ → ℕ
bail size first_zero =
    if not (first_zero == no_bit) && leb size first_zero then no_bit else first_zero

-- Each round moves `off` on. The answer is `no_bit` if there is no such run.
unfoldable pub find_clear_bits : List ℕ → ℕ → ℕ → ℕ → Option ℕ
unfolding clear_loop
find_clear_bits buf size bits offset =
    clear_loop (suc size) buf size bits offset 0 no_bit >>= λ first_zero.
    some (bail size first_zero)

-- The loops that set `n` bits from `nr` on.
unfoldable pub set_bits : ℕ → ℕ → List ℕ → Option (List ℕ)
unfolding set_bit
set_bits zero nr addr = some addr
set_bits (suc n) nr addr = set_bit nr addr >>= λ r. set_bits n (nr + 1) r.1

-- `struct BitInfo` of the inode that owns the bits.
pub record BitInfo : Type 0 where
  pub used_bits : ℕ
  pub total_bits : ℕ

-- `struct cmfs_group_desc`, without its signature and generation.
pub record GroupDesc : Type 0 where
  pub bg_size : ℕ
  pub bg_bits : ℕ
  pub bg_free_bits_count : ℕ
  pub bg_chain : ℕ
  pub bg_next_group : ℕ
  pub bg_parent_dinode : ℕ
  pub bg_blkno : ℕ
  pub bg_bitmap : List ℕ

-- `struct _AllocGroup`. `next` is the place of the next group in the array of groups.
pub record AllocGroup : Type 0 where
  pub gd : GroupDesc
  pub chain_free : ℕ
  pub chain_total : ℕ
  pub next : Option ℕ

-- `struct _AllocBitmap`, with the bit info of its record; `valid_bits` is never read.
pub record AllocBitmap : Type 0 where
  pub groups : List AllocGroup
  pub unit : ℕ
  pub unit_bits : ℕ
  pub num_chains : ℕ
  pub bi : BitInfo

-- The loop of `alloc_from_group`, on fuel: the first bit of the free run that is taken, and `none`
-- inside for the call of `exit`.
unfoldable pub group_loop : ℕ → GroupDesc → ℕ → ℕ → Option (Option ℕ)
unfolding find_next_bit_set
group_loop zero gd count start_bit = none
group_loop (suc fuel) gd count start_bit =
    let round = find_next_bit_set gd.bg_bitmap gd.bg_bits start_bit >>= λ found.
    let end_bit = found % 2 ^ 16 in
    let rest = group_loop fuel gd count end_bit in
    if leb (start_bit + count) end_bit then some (some start_bit) else rest in
    if ltb start_bit gd.bg_bits then round else some none

-- What the bits are taken from, after the call, and `*start_blkno`.
pub record Taken : Type 0 where
  pub gd : GroupDesc
  pub bi : BitInfo
  pub start_blkno : ℕ

abbrev pub take_bits : GroupDesc → BitInfo → ℕ → ℕ → List ℕ → Taken
take_bits gd bi count start_bit bitmap = record {
  gd = record gd {
    bg_bitmap = bitmap;
    bg_free_bits_count = (gd.bg_free_bits_count + 2 ^ 16 - count) % 2 ^ 16;
  };
  bi = record bi { used_bits = (bi.used_bits + count) % 2 ^ 32 };
  start_blkno = (gd.bg_blkno + start_bit) % 2 ^ 64;
}

abbrev pub taken_at : GroupDesc → BitInfo → ℕ → Option ℕ → Option (Option Taken)
taken_at gd bi count none = some none
taken_at gd bi count (some start_bit) = set_bits count start_bit gd.bg_bitmap >>= λ bitmap.
    some (some (take_bits gd bi count start_bit bitmap))

unfoldable pub alloc_from_group : ℕ → ℕ → GroupDesc → BitInfo → Option (Option Taken)
unfolding group_loop find_first_bit_clear set_bits
alloc_from_group fuel count gd bi = find_first_bit_clear gd.bg_bitmap gd.bg_bits >>= λ first.
    group_loop fuel gd count (first % 2 ^ 16) >>= λ start. taken_at gd bi count start

-- The walk along a chain of `alloc_from_bitmap`, on fuel, from the place of a group: the place of
-- the first group that has enough free bits, with the bit where a run of them starts, or `no_bit`.
unfoldable pub chain_walk : ℕ → List AllocGroup → ℕ → Option ℕ → Option (Option (ℕ × ℕ))
unfolding find_clear_bits
chain_walk zero groups bits place = none
chain_walk (suc fuel) groups bits none = some none
chain_walk (suc fuel) groups bits (some i) = get_elem? groups i >>= λ group.
    let here = find_clear_bits group.gd.bg_bitmap group.gd.bg_bits (bits % 2 ^ 32) 0 >>= λ start.
    some (some (i, start)) in
    let on = chain_walk fuel groups bits group.next in
    if leb bits group.gd.bg_free_bits_count then here else on

abbrev pub is_found : Option (ℕ × ℕ) → Bool
is_found none = false
is_found (some (i, start)) = not (start == no_bit)

-- The loop over `n` chains from chain `i` on; `none` inside is that nothing was found.
unfoldable pub find_group : ℕ → List AllocGroup → ℕ → ℕ → Option (Option (ℕ × ℕ))
unfolding chain_walk
find_group zero groups bits i = some none
find_group (suc n) groups bits i =
    let rest = find_group n groups bits (i + 1) in
    chain_walk (suc (length groups)) groups bits (some i) >>= λ found.
    if is_found found then some found else rest

-- `*start`, `*num` and the bitmap after the call.
pub record Allocated : Type 0 where
  pub start : ℕ
  pub num : ℕ
  pub bitmap : AllocBitmap

abbrev pub first_bit : ℕ → ℕ → ℕ → GroupDesc → ℕ → ℕ
first_bit first_cluster_group_blkno blocksize_bits cluster_size_bits gd start_bit =
    if gd.bg_blkno == first_cluster_group_blkno
    then start_bit
    else (start_bit + gd.bg_blkno * 2 ^ blocksize_bits % 2 ^ 64 / 2 ^ cluster_size_bits) % 2 ^ 64

-- `chain_free` of the group at the head of the chain.
abbrev pub chain_less : List AllocGroup → ℕ → ℕ → Option (List AllocGroup)
chain_less groups chain bits = get_elem? groups chain >>= λ head. some (
    set groups chain
      (record head { chain_free = (head.chain_free + 2 ^ 32 - bits % 2 ^ 32) % 2 ^ 32 }))

unfoldable pub take_from_bitmap : ℕ → ℕ → ℕ → ℕ → AllocBitmap → ℕ → ℕ → Option Allocated
unfolding set_bits
take_from_bitmap fcg bb cb bits bitmap i start_bit = get_elem? bitmap.groups i >>= λ group.
    set_bits bits start_bit group.gd.bg_bitmap >>= λ marked.
    let gd = record group.gd {
      bg_free_bits_count = (group.gd.bg_free_bits_count + 2 ^ 16 - bits % 2 ^ 16) % 2 ^ 16;
      bg_bitmap = marked;
    } in
    chain_less (set bitmap.groups i (record group { gd = gd })) group.gd.bg_chain bits >>= λ groups.
    some (record {
      start = first_bit fcg bb cb group.gd start_bit * 2 ^ bitmap.unit_bits % 2 ^ 64;
      num = bits * 2 ^ bitmap.unit_bits % 2 ^ 64;
      bitmap = record bitmap {
        groups = groups;
        bi = record bitmap.bi { used_bits = (bitmap.bi.used_bits + bits) % 2 ^ 32 };
      };
    })

abbrev pub after_search : ℕ → ℕ → ℕ → ℕ → AllocBitmap → Option (ℕ × ℕ) → Option (Option Allocated)
after_search fcg bb cb bits bitmap none = some none
after_search fcg bb cb bits bitmap (some (i, start_bit)) =
    take_from_bitmap fcg bb cb bits bitmap i start_bit >>= λ r. some (some r)

-- `fcg`, `bb` and `cb` are `first_cluster_group_blkno`, `blocksize_bits` and `cluster_size_bits` of
-- the state. `none` inside is the call of `exit` where nothing was found.
unfoldable pub alloc_from_bitmap : ℕ → ℕ → ℕ → ℕ → AllocBitmap → Option (Option Allocated)
unfolding find_group take_from_bitmap
alloc_from_bitmap fcg bb cb bits bitmap =
    find_group bitmap.num_chains bitmap.groups bits 0 >>= λ found.
    after_search fcg bb cb bits bitmap found

-- `num_bits` is a `uint32_t`.
unfoldable pub alloc_bytes_from_bitmap : ℕ → ℕ → ℕ → ℕ → AllocBitmap → Option (Option Allocated)
unfolding alloc_from_bitmap
alloc_bytes_from_bitmap fcg bb cb bytes bitmap =
    alloc_from_bitmap fcg bb cb ((bytes + bitmap.unit - 1) % 2 ^ 64 / 2 ^ bitmap.unit_bits % 2 ^ 32)
      bitmap
