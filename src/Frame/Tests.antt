-- ===== src/Frame/Tests.antt =====
-- A map of 64 frames of which frame 4 is free and frame 5 is not, and a memory map.
use ion_os.Base.{
  ℕ, ◌+◌, ◌/◌, ◌%◌, ◌<◌, ◌≤◌, ◌≡◌, ◌≢◌, refl, true, false, arith, ◌==◌, if◌then◌else◌, npos, List,
  [], ◌∷◌, some,
}
use ion_os.Base.Bits.{test_bit-empty, test_bit, shifted_bit}
use ion_os.Bitmap.{Bitmap, get, find_range, scan_byte}
use ion_os.Frame.{
  Region, alloc_frames, free_frames, init_with, bitmap_bytes, get_memory_size, bitmap_address,
}
use ion_os.Frame.Alloc.{IsFrames, alloc_frames-marks, free_frames-takes_used, alloc_frames-le}
use ion_os.Frame.Init.{init_with_lem}

abbrev sample : Bitmap
sample = record { bytes = λ i. if i == 0 then 0x10 else if i == 1 then 0x0f else 0; size = 64 }

sample-IsFrames : IsFrames sample
sample-IsFrames = record { bytes = record { byte = λ i. ground arith }; small = omega arith }

sample-first : find_range sample true 1 ≡ 4
unfolding find_range scan_byte shifted_bit
sample-first = refl

hit : find_range sample true 1 ≢ npos
hit = rw sample-first (omega arith)

after_four : get sample (find_range sample true 1 + 1) ≡ false
unfolding get test_bit
after_four = rw sample-first refl

abbrev used : Bitmap
used = record { bytes = λ i. 0; size = 64 }

used-IsFrames : IsFrames used
used-IsFrames = record { bytes = record { byte = λ i. omega arith }; small = omega arith }

alloc_frames-marks_example :
    ((alloc_frames sample 1).0 ≡ 16384)
    × ((get sample 4 ≡ true) × ((i : ℕ) → i < 4 → get sample i ≡ false))
    × (get (alloc_frames sample 1).1 4 ≡ false)
unfolding find_range scan_byte shifted_bit
alloc_frames-marks_example =
    alloc_frames-marks sample sample-IsFrames 1 4 (omega arith) (omega arith) hit

used-clear : (j : ℕ) → j < 64 → get used j ≡ false
unfolding get
used-clear j h = test_bit-empty (j % 8) (omega arith)

-- Two frames from frame 4: freeing them makes frame 5 free, which was in use.
free_frames-takes_used_example :
    let (addr, after) = alloc_frames sample 2 in get (free_frames after addr 2) 5 ≡ true
unfolding find_range scan_byte shifted_bit
free_frames-takes_used_example =
    free_frames-takes_used sample sample-IsFrames 2 (omega arith) (omega arith) hit after_four

-- 64 frames make a map of 8 bytes; the map of 64 bits here is that of 512 frames.
alloc_frames-le_example : (alloc_frames sample 1).0 ≤ 2097152 / 8
alloc_frames-le_example =
    alloc_frames-le sample sample-IsFrames 2097152 1 sample_size (omega arith) (omega arith)
  where
    sample_size : 64 ≡ bitmap_bytes 2097152
    sample_size = unfold bitmap_bytes in refl

-- 1 MiB from address 0 in use, then 1 MiB usable.
abbrev memory_map : List Region
memory_map =
    record { base = 0; length = 1048576; usable = false }
    ∷ record { base = 1048576; length = 1048576; usable = true }
    ∷ []

memory_size_runs : get_memory_size memory_map ≡ some 2097152
unfolding get_memory_size
memory_size_runs = refl

init_with_lem_example : get (init_with memory_map (λ a. 255) 0 2097152) 5 ≡ false
unfolding bitmap_bytes bitmap_address
init_with_lem_example =
    init_with_lem memory_map (λ a. 255) 0 2097152 5 (λ a. omega arith) (omega arith)
