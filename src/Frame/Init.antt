-- ===== src/Frame/Init.antt =====
-- kernel/src/mm/frame.cpp: which frames are free after `init`.
use ion_os.Base.{
  ℕ, ◌+◌, ◌-◌, ◌*◌, ◌/◌, ◌<◌, ◌≡◌, refl, ◌∙◌, Bool, true, false, ◌&&◌, ◌||◌, not, arith, ltb,
  if◌then◌else◌, page_size, List, [], ◌∷◌, add_size,
}
use ion_os.Bitmap
use ion_os.Bitmap.{Bitmap, get}
use ion_os.Bitmap.Cells.{IsBytes, get-init, init-IsBytes, size-init}
use ion_os.Bitmap.SetRange.{within, get-set_range, set_range-IsBytes, size-set_range}
use ion_os.Frame.{Region, add_regions, bitmap_address, bitmap_bytes, init_with}

-- The frames of a usable region. A region that begins past the map's size is left out.
abbrev pub in_region : ℕ → Region → ℕ → Bool
in_region size r j =
    r.usable
    && (ltb (r.base / page_size) size
        && within (r.base / page_size) (r.base / page_size + r.length / page_size) j)

abbrev pub in_usable : ℕ → List Region → ℕ → Bool
in_usable size [] j = false
in_usable size (r ∷ rest) j = in_region size r j || in_usable size rest j

abbrev marked : Bitmap → Region → Bitmap
marked b r =
    if r.usable
    then Bitmap.set_range b (r.base / page_size) (r.base / page_size + r.length / page_size) true
    else b

module _ (b : Bitmap) (r : Region) (h : IsBytes b) where
  marked-IsBytes : IsBytes (marked b r)
  marked-IsBytes = record {
    byte = λ k. ground (
      arith,
      h.byte k,
      (set_range-IsBytes b (r.base / page_size) (r.base / page_size + r.length / page_size) true
            h).byte
          k,
    );
  }

  size-marked : (marked b r).size ≡ b.size
  size-marked = ground (
    arith,
    size-set_range b (r.base / page_size) (r.base / page_size + r.length / page_size) true h,
  )

  get-marked : (j : ℕ) → get (marked b r) j ≡ (in_region b.size r j || get b j)
  get-marked j = ground (
    arith,
    get-set_range b (r.base / page_size) (r.base / page_size + r.length / page_size) true h j,
  )

add_regions-IsBytes : (b : Bitmap) (rs : List Region) → IsBytes b → IsBytes (add_regions b rs)
unfolding add_regions
add_regions-IsBytes b [] h = h
add_regions-IsBytes b (r ∷ rs) h = add_regions-IsBytes (marked b r) rs (marked-IsBytes b r h)

size-add_regions : (b : Bitmap) (rs : List Region) → IsBytes b → (add_regions b rs).size ≡ b.size
unfolding add_regions
size-add_regions b [] h = refl
size-add_regions b (r ∷ rs) h =
    size-add_regions (marked b r) rs (marked-IsBytes b r h) ∙ size-marked b r h

get-add_regions :
    (b : Bitmap) (rs : List Region) (j : ℕ)
    → IsBytes b
    → get (add_regions b rs) j ≡ (in_usable b.size rs j || get b j)
unfolding add_regions
get-add_regions b [] j h = refl
get-add_regions b (r ∷ rs) j h = ground (
  arith,
  get-add_regions (marked b r) rs j (marked-IsBytes b r h),
  size-marked b r h,
  get-marked b r h j,
)

-- The map has as many bits as it should have bytes, an eighth of the memory's frames. Of the frames
-- whose bits `init` clears, which are those in the whole bytes of these bits, frame `j` is free after
-- it exactly when it lies in a usable region that begins within the map and is not one of the frames
-- that hold the map itself.
pub init_with_lem :
    (memory_map : List Region) (ram : ℕ → ℕ) (offset memory_size j : ℕ)
    → ((a : ℕ) → ram a < 256)
    → j < bitmap_bytes memory_size / 8 * 8
    → let size = bitmap_bytes memory_size in
      let start = bitmap_address memory_map size / page_size in
      let own = ltb start size && within start (start + (size + page_size - 1) / page_size) j in
      get (init_with memory_map ram offset memory_size) j ≡ (in_usable size memory_map j && not own)
unfolding init_with
init_with_lem memory_map ram offset memory_size j ram_bytes in_map =
    let size = bitmap_bytes memory_size in
    let address = bitmap_address memory_map size in
    let memory = λ (i : ℕ). ram (add_size (add_size address offset) i) in
    let bytes = init-IsBytes memory size (λ i. ram_bytes _) in
    let fresh = Bitmap.init memory size in
    let start = address / page_size in
    ground (
      arith,
      size-init memory size,
      get-init memory size j in_map,
      get-add_regions fresh memory_map j bytes,
      size-add_regions fresh memory_map bytes,
      get-set_range (add_regions fresh memory_map) start
          (start + (size + page_size - 1) / page_size) false
          (add_regions-IsBytes fresh memory_map bytes) j,
    )
