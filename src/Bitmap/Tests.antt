-- ===== src/Bitmap/Tests.antt =====
-- A map of 32 bits with bits 4 to 11 set, and the theorems at it.
use ion_os.Base.{ℕ, ◌+◌, ◌≤◌, ◌≡◌, ◌↔◌, refl, true, false, arith, ◌==◌, if◌then◌else◌, npos}
use ion_os.Base.Bits.{test_bit, shifted_bit}
use ion_os.Bitmap.{Bitmap, get, find_range, scan_byte}
use ion_os.Bitmap.Cells.{IsBytes}
use ion_os.Bitmap.Runs.{AllIs}
use ion_os.Bitmap.FindRange.{find_range-AllIs}
use ion_os.Bitmap.Complete.{find_range-npos_iff}

abbrev sample : Bitmap
sample = record { bytes = λ i. if i == 0 then 0xf0 else if i == 1 then 0x0f else 0; size = 32 }

sample-IsBytes : IsBytes sample
sample-IsBytes = record { byte = λ i. ground arith }

find_range_runs : find_range sample true 8 ≡ 4
unfolding find_range scan_byte shifted_bit
find_range_runs = refl

find_range_fails : find_range sample true 9 ≡ npos
unfolding find_range scan_byte shifted_bit
find_range_fails = refl

-- A byte of 1 is taken for a byte of ones when clear bits are sought: bits 1 to 7 are missed.
find_clear_misses :
    (find_range (record { bytes = λ i. 1; size = 8 }) false 3 ≡ npos)
    × (get (record { bytes = λ i. 1; size = 8 }) 3 ≡ false)
unfolding find_range scan_byte shifted_bit get test_bit
find_clear_misses = (refl, refl)

find_range-AllIs_example :
    AllIs sample true (find_range sample true 8) (find_range sample true 8 + 8)
    × (find_range sample true 8 + 8 ≤ 32)
find_range-AllIs_example =
    find_range-AllIs sample true 8 sample-IsBytes (rw find_range_runs (omega arith))

find_range-npos_iff_example :
    (find_range sample true 9 ≡ npos) ↔ ((s : ℕ) → s + 9 ≤ 32 → ¬ AllIs sample true s (s + 9))
find_range-npos_iff_example =
    find_range-npos_iff sample 9 sample-IsBytes (omega arith) (omega arith)
