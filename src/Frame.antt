-- ===== src/Frame.antt =====
-- kernel/src/mm/frame.cpp: the physical frame allocator, a bitmap in which a set bit is a free
-- frame. The boot loader's memory map is a parameter, a list of its entries.
pub mod Init
pub mod Alloc
pub mod One
mod Tests
use ion_os.Base.{
  ℕ, suc, ◌+◌, ◌-◌, ◌*◌, ◌/◌, ◌%◌, ◌^◌, Bool, true, false, ◌&&◌, not, Option, none, some, List, [],
  ◌∷◌, leb, ◌==◌, if◌then◌else◌, to_size, npos, add_size, page_size,
}
use mathlib.Core.List.{reverse}
use ion_os.Bitmap
use ion_os.Bitmap.{Bitmap}

-- limine_memmap_entry; `usable` is type == LIMINE_MEMMAP_USABLE.
pub record Region : Type 0 where
  pub base : ℕ
  pub length : ℕ
  pub usable : Bool

-- The loop of `get_memory_size` over the entries from the last down; with no usable entry it
-- runs off the table, `none`.
pub last_usable : List Region → Option ℕ
last_usable [] = none
last_usable (region ∷ rest) =
    if region.usable then some (add_size region.base region.length) else last_usable rest

pub get_memory_size : List Region → Option ℕ
unfolding last_usable
get_memory_size memory_map = last_usable (reverse memory_map)

-- The first usable region that holds `bitmap_size` bytes, else 0.
pub bitmap_address : List Region → ℕ → ℕ
bitmap_address [] bitmap_size = 0
bitmap_address (region ∷ rest) bitmap_size =
    if region.usable && leb bitmap_size region.length
    then region.base
    else bitmap_address rest bitmap_size

-- The loop of `init` that marks the frames of the usable regions free.
pub add_regions : Bitmap → List Region → Bitmap
add_regions b [] = b
add_regions b (region ∷ rest) =
    let start_frame = region.base / page_size in
    let frame_count = region.length / page_size in
    add_regions
      (if region.usable then Bitmap.set_range b start_frame (start_frame + frame_count) true else b)
      rest

-- (memory_size / PAGE_SIZE + 7) / 8
pub bitmap_bytes : ℕ → ℕ
bitmap_bytes memory_size = (memory_size / page_size + 7) / 8

-- `ram` is the byte at each virtual address, `offset` is hhdm::physical_memory_offset.
pub init_with : List Region → (ℕ → ℕ) → ℕ → ℕ → Bitmap
unfolding bitmap_bytes
init_with memory_map ram offset memory_size =
    let bitmap_size = bitmap_bytes memory_size in
    let address = bitmap_address memory_map bitmap_size in
    let fresh = Bitmap.init (λ i. ram (add_size (add_size address offset) i)) bitmap_size in
    let start = address / page_size in
    let count = (bitmap_size + page_size - 1) / page_size in
    Bitmap.set_range (add_regions fresh memory_map) start (start + count) false

pub init : List Region → (ℕ → ℕ) → ℕ → Option Bitmap
unfolding init_with get_memory_size
init memory_map ram offset = elim (get_memory_size memory_map) [
  | none ↦ none
  | some memory_size ↦ some (init_with memory_map ram offset memory_size)
]

-- `find_range(count, true)`: the arguments convert to the parameters (bool value, size_t length).
pub alloc_frames : Bitmap → ℕ → ℕ × Bitmap
alloc_frames b count =
    let frame_index = Bitmap.find_range b (not (count == 0)) (to_size true) in
    if frame_index == npos then (0, b) else (
      frame_index * page_size % 2 ^ 64,
      Bitmap.set_range b frame_index (add_size frame_index count) false,
    )

pub free_frames : Bitmap → ℕ → ℕ → Bitmap
free_frames b addr count =
    let frame_index = addr / page_size in
    Bitmap.set_range b frame_index (add_size frame_index count) true
