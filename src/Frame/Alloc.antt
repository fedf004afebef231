-- ===== src/Frame/Alloc.antt =====
-- kernel/src/mm/frame.cpp: `alloc_frames` and `free_frames`.
use ion_os.Base.{
  ℕ, ◌+◌, ◌*◌, ◌/◌, ◌%◌, ◌^◌, ◌<◌, ◌≤◌, ◌≡◌, ◌≢◌, refl, ◌∙◌, sym, true, false, not, arith, ◌==◌,
  ltb, if◌then◌else◌, inl, inr, npos, page_size, Bool-cases,
}
use mathlib.Core.Bool.{false≢true}
use ion_os.Bitmap.{Bitmap, get, find_range, set_range}
use ion_os.Bitmap.Cells.{IsBytes}
use ion_os.Bitmap.SetRange.{within, get-set_range, set_range-IsBytes, size-set_range}
use ion_os.Bitmap.FindRange.{find_range-AllIs}
use ion_os.Bitmap.First.{find_range-first}
use ion_os.Bitmap.Complete.{find_range-npos_iff}
use ion_os.Frame.{alloc_frames, free_frames, bitmap_bytes}

-- The address does not depend on the number of frames asked for: the search is for one frame.
pub alloc_frames-ignores_count :
    (b : Bitmap) (count : ℕ) → count ≢ 0 → (alloc_frames b count).0 ≡ (alloc_frames b 1).0
unfolding alloc_frames
alloc_frames-ignores_count b count ne = ground arith

-- A bitmap of bytes that covers fewer than 2 ^ 51 frames, as 64-bit addresses allow.
pub record IsFrames (b : Bitmap) : Type 0 where
  pub bytes : IsBytes b
  pub small : b.size < 2 ^ 51

module _ (b : Bitmap) (v : IsFrames b) where
  -- the frame that the search finds
  abbrev pub first : ℕ
  first = find_range b true 1

  pub first-lt : first ≢ npos → (first < b.size) × (get b first ≡ true)
  first-lt ne =
      let range = find_range-AllIs b true 1 v.bytes ne in
      (omega (arith, range.1), range.0 first (omega arith) (omega arith))

  pub alloc_frames-eq :
      (count : ℕ)
      → count ≢ 0
      → count < 2 ^ 51
      → first ≢ npos
      → alloc_frames b count ≡ (first * page_size, set_range b first (first + count) false)
  unfolding alloc_frames
  alloc_frames-eq count nonzero fits hit =
      let some_frames : not (count == 0) ≡ true = ground arith in
      let address : first * page_size % 2 ^ 64 ≡ first * page_size =
        omega (arith, first-lt hit, v.small) in
      let end : (first + count) % 2 ^ 64 ≡ first + count = omega (arith, first-lt hit, v.small) in
      let go_on : (first == npos) ≡ false = ground arith in rw (some_frames, go_on, address, end)

  -- If the search finds a frame, `alloc_frames` returns the address of the first free frame, marks
  -- it and the `count - 1` frames behind it used, and changes no other.
  pub alloc_frames-marks :
      (count j : ℕ)
      → count ≢ 0
      → count < 2 ^ 51
      → first ≢ npos
      → ((alloc_frames b count).0 ≡ first * page_size)
        × ((get b first ≡ true) × ((i : ℕ) → i < first → get b i ≡ false))
        × (get (alloc_frames b count).1 j
            ≡ (if within first (first + count) j then false else get b j))
  alloc_frames-marks count j nonzero fits hit =
      let range = first-lt hit in
      let in_map : ltb first b.size ≡ true = ground (arith, range) in
      rw (alloc_frames-eq count nonzero fits hit) (
        refl,
        (range.1, find_range-first b v.bytes hit),
        ground (arith, in_map, get-set_range b first (first + count) false v.bytes j),
      )

  -- With no free frame in the map, `alloc_frames` returns 0 and changes nothing.
  pub alloc_frames-full :
      (count : ℕ)
      → count ≢ 0
      → ((j : ℕ) → j < b.size → get b j ≡ false)
      → alloc_frames b count ≡ (0, b)
  unfolding alloc_frames
  alloc_frames-full count nonzero used =
      let some_frames : not (count == 0) ≡ true = ground arith in
      let none =
        (find_range-npos_iff b 1 v.bytes (omega arith) (omega (arith, v.small))).1 (λ s p all.
          false≢true (sym (used s (omega arith)) ∙ all s (omega arith) (omega arith))) in
      rw (some_frames, none)

  -- A frame that is allocated and freed again leaves every bit as it was.
  pub free_frames-alloc_frames :
      (j : ℕ)
      → first ≢ npos
      → let (addr, after) = alloc_frames b 1 in get (free_frames after addr 1) j ≡ get b j
  unfolding free_frames
  free_frames-alloc_frames j hit =
      let range = first-lt hit in
      let frame : first * page_size / page_size ≡ first = omega arith in
      let end : (first + 1) % 2 ^ 64 ≡ first + 1 = omega (arith, range, v.small) in
      rw (alloc_frames-eq 1 (omega arith) (omega arith) hit, frame, end)
        (ground (
          arith,
          range,
          size-set_range b first (first + 1) false v.bytes,
          get-set_range b first (first + 1) false v.bytes j,
          get-set_range (set_range b first (first + 1) false) first (first + 1) true
              (set_range-IsBytes b first (first + 1) false v.bytes) j,
        ))

  -- When the frame behind the found one is in use, an allocation of two or more frames hands it
  -- out as well, and freeing the allocation marks that frame free.
  pub free_frames-takes_used :
      (count : ℕ)
      → 2 ≤ count
      → count < 2 ^ 51
      → first ≢ npos
      → get b (first + 1) ≡ false
      → let (addr, after) = alloc_frames b count in
        get (free_frames after addr count) (first + 1) ≡ true
  unfolding free_frames
  free_frames-takes_used count two fits hit used =
      let range = first-lt hit in
      let frame : first * page_size / page_size ≡ first = omega arith in
      let end : (first + count) % 2 ^ 64 ≡ first + count = omega (arith, range, v.small) in
      rw (alloc_frames-eq count (omega arith) fits hit, frame, end)
        (ground (
          arith,
          range,
          size-set_range b first (first + count) false v.bytes,
          get-set_range (set_range b first (first + count) false) first (first + count) true
              (set_range-IsBytes b first (first + count) false v.bytes) (first + 1),
        ))

  -- With a map of the size that `init` gives it for `memory_size` bytes of memory, no address
  -- past the first eighth of the memory is ever returned.
  pub alloc_frames-le :
      (memory_size count : ℕ)
      → b.size ≡ bitmap_bytes memory_size
      → count ≢ 0
      → count < 2 ^ 51
      → (alloc_frames b count).0 ≤ memory_size / 8
  unfolding bitmap_bytes alloc_frames
  alloc_frames-le memory_size count size nonzero fits =
      elim (Bool-cases (find_range b (not (count == 0)) 1 == npos)) [
        | inl missing ↦ rw missing (omega arith)
        | inr hit ↦
            let some_frames : not (count == 0) ≡ true = ground arith in
            let found : first ≢ npos = ground (arith, rw some_frames at hit) in
            rw hit (rw some_frames (omega (arith, first-lt found)))
      ]
