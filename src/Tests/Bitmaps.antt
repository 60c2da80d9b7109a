-- ===== src/Tests/Bitmaps.antt =====
-- Bitmaps of two bytes.
use cmfs.Prelude.{ℕ, zero, suc, not, true, ◌≡◌, arith, some, List, [], ◌∷◌}
use cmfs.Bitops.{set_bit, test_bit, find_next_bit_set, find_next_bit_clear, get_bits_set}
use cmfs.Bitops.Find.{bit_at, IsBytes, Finds, find_next_bit-Finds}
use cmfs.Bitops.Update.{IsUpdate, test_bit-eq, set_bit-IsUpdate}
use cmfs.Bitops.Count.{count, get_bits_set-eq}

abbrev two_bytes : List ℕ
two_bytes = 6 ∷ 129 ∷ []

two_bytes-IsBytes : IsBytes two_bytes
two_bytes-IsBytes zero = omega arith
two_bytes-IsBytes (suc zero) = omega arith
two_bytes-IsBytes (suc (suc i)) = omega arith

find_next_bit-Finds_example :
    Finds (bit_at two_bytes) 16 3 (find_next_bit_set two_bytes 16 3)
    × Finds (λ j. not (bit_at two_bytes j)) 16 3 (find_next_bit_clear two_bytes 16 3)
find_next_bit-Finds_example =
    find_next_bit-Finds two_bytes 16 3 two_bytes-IsBytes (omega arith) (omega arith)

test_bit_example : test_bit 15 two_bytes ≡ some (bit_at two_bytes 15)
test_bit_example = test_bit-eq two_bytes 15 two_bytes-IsBytes (omega arith)

count_example : get_bits_set two_bytes 16 2 ≡ some (some (count (bit_at two_bytes) 2 14))
count_example = get_bits_set-eq two_bytes 16 two_bytes-IsBytes (omega arith) 2 (omega arith)

set_bit_example :
    (addr' : List ℕ) × (set_bit 9 two_bytes ≡ some (bit_at two_bytes 9, addr'))
    × IsUpdate 9 true two_bytes addr'
set_bit_example = set_bit-IsUpdate two_bytes 9 two_bytes-IsBytes (omega arith)
