-- ===== src/Frame/One.antt =====
-- kernel/src/mm/frame.cpp: an allocation of one frame, while the map has a free one.
use ion_os.Base.{
  ℕ, zero, suc, ◌+◌, ◌*◌, ◌/◌, ◌%◌, ◌^◌, ◌<◌, ◌≤◌, ◌≡◌, ◌≢◌, true, false, ◌&&◌, arith, ◌==◌, ltb,
  if◌then◌else◌, inl, inr, to_size, npos, page_size, Bool-cases,
}
use ion_os.Bitmap.{Bitmap, get, set_range}
use ion_os.Bitmap.Cells.{IsBytes}
use ion_os.Bitmap.SetRange.{get-set_range, set_range-IsBytes, size-set_range}
use ion_os.Bitmap.Complete.{find_range-npos_iff}
use ion_os.Frame.{alloc_frames, free_frames}
use ion_os.Frame.Alloc.{IsFrames, first, first-lt, alloc_frames-eq}

-- The free frames below `n`.
unfoldable pub free_below : Bitmap → ℕ → ℕ
free_below b zero = 0
free_below b (suc n) = to_size (get b n) + free_below b n

-- The free frames that a search can meet: those of the map's whole bytes.
abbrev pub spare : Bitmap → ℕ
spare b = free_below b (b.size / 8 * 8)

some_free : (b : Bitmap) (n : ℕ) → 1 ≤ free_below b n → (f : ℕ) × (f < n) × (get b f ≡ true)
unfolding free_below
some_free b zero some = absurd (omega arith)
some_free b (suc n) some = elim (Bool-cases (get b n)) [
  | inl free ↦ (n, omega arith, free)
  | inr used ↦
      let (f, lt, free) = some_free b n (omega (arith, (rw used at some))) in
      (f, omega (arith, lt), free)
]

-- One free frame less.
free_below-take :
    (b b' : Bitmap) (f n : ℕ)
    → ((j : ℕ) → get b' j ≡ (if j == f then false else get b j))
    → free_below b n ≤ free_below b' n + (if ltb f n then 1 else 0)
unfolding free_below
free_below-take b b' f zero same = omega arith
free_below-take b b' f (suc n) same = ground (arith, same n, free_below-take b b' f n same)

-- What one allocation does: it takes `frame` out of the free frames of `b`.
pub record Taken (b : Bitmap) (frame : ℕ) (b' : Bitmap) : Type 0 where
  pub in_map : frame < b.size
  pub was_free : get b frame ≡ true
  pub others : (j : ℕ) → get b' j ≡ (if j == frame then false else get b j)
  pub same_size : b'.size ≡ b.size
  pub is_frames : IsFrames b'
  pub left : spare b ≤ spare b' + 1

module _ (b : Bitmap) (v : IsFrames b) (some : 1 ≤ spare b) where
  pub first-≢ : first b v ≢ npos
  first-≢ none =
      let (f, lt, free) = some_free b (b.size / 8 * 8) some in
      (find_range-npos_iff b 1 v.bytes (omega arith) (omega (arith, v.small))).0 none f
        (omega (arith, lt)) (λ j low high. let same : j ≡ f = omega arith in rw same free)

  -- the bits behind the allocation
  taken-others :
      (j : ℕ)
      → get (set_range b (first b v) (first b v + 1) false) j
        ≡ (if j == first b v then false else get b j)
  taken-others j =
      let range = first-lt b v first-≢ in
      ground (arith, range, get-set_range b (first b v) (first b v + 1) false v.bytes j)

  taken : Taken b (first b v) (set_range b (first b v) (first b v + 1) false)
  taken =
      let range = first-lt b v first-≢ in
      let after = set_range b (first b v) (first b v + 1) false in
      let size : after.size ≡ b.size = size-set_range b (first b v) (first b v + 1) false v.bytes in
      let fewer = free_below-take b after (first b v) (b.size / 8 * 8) taken-others in
      record {
        in_map = range.0;
        was_free = range.1;
        others = taken-others;
        same_size = size;
        is_frames = record {
          bytes = set_range-IsBytes b (first b v) (first b v + 1) false v.bytes;
          small = omega (arith, size, v.small);
        };
        left = rw size (ground (arith, fewer));
      }

  pub alloc_frames-one :
      (f : ℕ) × (b' : Bitmap) × (alloc_frames b 1 ≡ (f * page_size, b')) × Taken b f b'
  alloc_frames-one =
      (first b v, _, alloc_frames-eq b v 1 (omega arith) (omega arith) first-≢, taken)

-- A frame that is given back, by any address in it.
module _ (b : Bitmap) (addr : ℕ) (bytes : IsBytes b) (small : addr < 2 ^ 64) where
  pub free_frames-IsBytes : IsBytes (free_frames b addr 1)
  unfolding free_frames
  free_frames-IsBytes = set_range-IsBytes b _ _ true bytes

  pub size-free_frames : (free_frames b addr 1).size ≡ b.size
  unfolding free_frames
  size-free_frames = size-set_range b _ _ true bytes

  pub get-free_frames :
      (j : ℕ)
      → get (free_frames b addr 1) j
        ≡ (if (j == addr / page_size) && ltb j b.size then true else get b j)
  unfolding free_frames
  get-free_frames j =
      let f = addr / page_size in
      let end : (f + 1) % 2 ^ 64 ≡ f + 1 = omega arith in
      rw end (ground (arith, get-set_range b f (f + 1) true bytes j))
