-- ===== src/Bitops.antt =====
-- cmfs-tools/libcmfs/bitops.c: bitmaps in memory, as lists of bytes. A read or a write outside the
-- buffer is `none`. Bit numbers, sizes and offsets are the nonnegative `int`s.
pub mod Update
pub mod Ffs
pub mod Find
pub mod Count
use cmfs.Prelude.{
  ℕ, zero, suc, ◌+◌, ◌-◌, ◌*◌, ◌/◌, ◌%◌, ◌^◌, bit_and, bit_or, Bool, true, false, not, Option, none,
  some, List, [], ◌∷◌, ltb, leb, ◌==◌, if◌then◌else◌, get_elem?, set, drop,
}
use cmfs.Prelude.Fault.{◌>>=◌}

-- `ffs`: one more than the number of the lowest set bit of a 32-bit word, and 0 if there is none.
pub ffs_from : ℕ → ℕ → ℕ
ffs_from zero n = 0
ffs_from (suc w) n =
    let rest = ffs_from w (n / 2) in if n % 2 == 1 then 1 else if rest == 0 then 0 else rest + 1

unfoldable pub ffs : ℕ → ℕ
ffs n = ffs_from 32 n

-- `addr` after the call, beside the value that the bit had.
unfoldable pub set_bit : ℕ → List ℕ → Option (Bool × List ℕ)
set_bit nr addr = do
  b ← get_elem? addr (nr / 2 ^ 3)
  let mask = 2 ^ (nr % 8)
  some (not (bit_and mask b == 0), set addr (nr / 2 ^ 3) (bit_or b mask))

-- `~mask` is stored into an unsigned char.
unfoldable pub clear_bit : ℕ → List ℕ → Option (Bool × List ℕ)
clear_bit nr addr = do
  b ← get_elem? addr (nr / 2 ^ 3)
  let mask = 2 ^ (nr % 8)
  some (not (bit_and mask b == 0), set addr (nr / 2 ^ 3) (bit_and b (2 ^ 8 - 1 - mask)))

unfoldable pub test_bit : ℕ → List ℕ → Option Bool
test_bit nr addr = do
  b ← get_elem? addr (nr / 2 ^ 3)
  let mask = 2 ^ (nr % 8)
  some (not (bit_and mask b == 0))

-- `mask >>= 8 - (size - res)` where the last byte is partial; `mask` starts as 0xff.
abbrev pub last_mask : ℕ → ℕ → ℕ
last_mask size res = if ltb size (res + 8) then (2 ^ 8 - 1) / 2 ^ (8 - (size - res)) else 2 ^ 8 - 1

-- What follows the loop of `cmfs_find_next_bit_set`, with `*p` read as `b` and `res < size`.
pub finish_set : ℕ → ℕ → ℕ → ℕ
finish_set size res b =
    let d0 = ffs (bit_and b (last_mask size res)) in if d0 == 0 then size else res + d0 - 1

-- The same for `cmfs_find_next_bit_clear`: the complement is taken in 32 bits.
pub finish_clear : ℕ → ℕ → ℕ → ℕ
finish_clear size res b =
    let d0 = ffs (2 ^ 32 - 1 - bit_and b (last_mask size res)) in
    if d0 == 0 then size else res + d0 - 1

-- The loop over whole bytes, from `p` at bit `res`, and what follows it. The two functions differ
-- in the byte that is skipped and in what is done with the byte that ends the loop.
pub scan : ℕ → (ℕ → ℕ → ℕ → ℕ) → ℕ → ℕ → List ℕ → Option ℕ
scan idle finish size res [] = if ltb res size then none else some size
scan idle finish size res (b ∷ p) =
    let rest = scan idle finish size (res + 8) p in
    if ltb res size then (if b == idle then rest else some (finish size res b)) else some size

-- The bits of the first byte from `bit` on, where `offset` is inside a byte.
abbrev pub high_mask : ℕ → ℕ
high_mask bit = 2 ^ 32 - 1 - (2 ^ bit - 1)

unfoldable pub find_next_bit_set : List ℕ → ℕ → ℕ → Option ℕ
unfolding scan finish_set
find_next_bit_set addr size offset =
    let bit = offset % 8 in
    let res = offset / 2 ^ 3 in
    if size == 0
    then some 0
    else if bit == 0
    then scan 0 finish_set size (res * 2 ^ 3) (drop res addr)
    else do
      b ← get_elem? addr res
      let found = ffs (bit_and b (high_mask bit))
      if found == 0
          then scan 0 finish_set size (res * 2 ^ 3 + 8) (drop (res + 1) addr)
          else some (offset - offset % 8 + found - 1)

unfoldable pub find_next_bit_clear : List ℕ → ℕ → ℕ → Option ℕ
unfolding scan finish_clear
find_next_bit_clear addr size offset =
    let bit = offset % 8 in
    let res = offset / 2 ^ 3 in
    if size == 0
    then some 0
    else if bit == 0
    then scan (2 ^ 8 - 1) finish_clear size (res * 2 ^ 3) (drop res addr)
    else do
      b ← get_elem? addr res
      let found = ffs (bit_and (bit_and (2 ^ 32 - 1 - b) (high_mask bit)) (2 ^ 8 - 1))
      if found == 0
          then scan (2 ^ 8 - 1) finish_clear size (res * 2 ^ 3 + 8) (drop (res + 1) addr)
          else some (offset - offset % 8 + found - 1)

unfoldable pub find_first_bit_set : List ℕ → ℕ → Option ℕ
unfolding find_next_bit_set
find_first_bit_set addr size = find_next_bit_set addr size 0

unfoldable pub find_first_bit_clear : List ℕ → ℕ → Option ℕ
unfolding find_next_bit_clear
find_first_bit_clear addr size = find_next_bit_clear addr size 0

-- The `while (1)` of `cmfs_get_bits_set`, on fuel; the outer `none` is that the fuel ran out.
pub count_set : ℕ → List ℕ → ℕ → ℕ → ℕ → Option (Option ℕ)
count_set zero addr size offset set_bits = none
count_set (suc fuel) addr size offset set_bits = elim (find_next_bit_set addr size offset) [
  | none ↦ some none
  | some found ↦ elim (ltb found size) [
    | true ↦ count_set fuel addr size (found + 1) (set_bits + 1)
    | false ↦ some (some set_bits)
  ]
]

-- Each round moves `offset` past a bit below `size`.
unfoldable pub get_bits_set : List ℕ → ℕ → ℕ → Option (Option ℕ)
unfolding count_set find_next_bit_set
get_bits_set addr size offset = count_set (size + 1 - offset) addr size offset 0
