-- ===== src/Block.antt =====
-- kernel/src/include/mm/alloc/block.hpp: blocks with boundary tags. The block at `ptr` has its
-- head word at ptr - 8 and its tail word at ptr + size, each the size with three flags in the low
-- bits; the next block's pointer is ptr + size + 16. The masks of the source are written as
-- quotients and remainders. A call of the functions takes a pointer that is not null.
pub mod Tags
pub mod Merge
mod Tests
use ion_os.Base.{
  ℕ, ◌+◌, ◌-◌, ◌*◌, ◌/◌, ◌%◌, ◌^◌, Bool, true, false, not, ◌&&◌, ◌==◌, if◌then◌else◌, add_size,
  sub_size,
}
use ion_os.Memory.{Memory, store, null}

-- PADDING, PADDING_4k and PADDING_16k
abbrev pub padding : ℕ → ℕ
padding size = add_size size 15 / 16 * 16

abbrev pub padding_4k : ℕ → ℕ
padding_4k size = add_size size 4095 / 4096 * 4096

abbrev pub padding_16k : ℕ → ℕ
padding_16k size = add_size size 16383 / 16384 * 16384

abbrev pub size_4k : ℕ
size_4k = 4096

abbrev pub size_2m : ℕ
size_2m = 2 * 1024 * 1024

-- word & FREE_FLAG, word & AREA_FLAG, word & SIZE_FLAG, word & ~FLAG_BITS
abbrev pub free_flag : ℕ → Bool
free_flag word = word % 2 == 1

abbrev pub area_flag : ℕ → Bool
area_flag word = word / 2 % 2 == 1

abbrev pub size_flag : ℕ → Bool
size_flag word = word / 4 % 2 == 1

abbrev pub size_bits : ℕ → ℕ
size_bits word = word / 8 * 8

-- word | FREE_FLAG, word & ~FREE_FLAG, word | SIZE_FLAG, word & ~SIZE_FLAG
abbrev pub with_free : ℕ → ℕ
with_free word = word / 2 * 2 + 1

abbrev pub without_free : ℕ → ℕ
without_free word = word / 2 * 2

abbrev pub with_size : ℕ → ℕ
with_size word = word / 8 * 8 + 4 + word % 4

abbrev pub without_size : ℕ → ℕ
without_size word = word / 8 * 8 + word % 4

abbrev pub blk_prevtail : Memory → ℕ → ℕ
blk_prevtail m ptr = m (ptr - 16)

abbrev pub blk_head : Memory → ℕ → ℕ
blk_head m ptr = m (ptr - 8)

abbrev pub blk_tail : Memory → ℕ → ℕ → ℕ
blk_tail m ptr size = m (ptr + size)

abbrev pub blk_nexthead : Memory → ℕ → ℕ → ℕ
blk_nexthead m ptr size = m (ptr + size + 8)

abbrev pub blk_noprev : Memory → ℕ → Bool
blk_noprev m ptr = area_flag (blk_prevtail m ptr)

abbrev pub blk_nonext : Memory → ℕ → ℕ → Bool
blk_nonext m ptr size = area_flag (blk_nexthead m ptr size)

abbrev pub blk_freed : Memory → ℕ → Bool
blk_freed m ptr = free_flag (blk_head m ptr)

abbrev pub blk_size : Memory → ℕ → ℕ
blk_size m ptr = size_bits (blk_head m ptr)

-- Both tags of a block are changed, the head first.
unfoldable pub retag : (ℕ → ℕ) → Memory → ℕ → ℕ → Memory
unfolding store
retag change m ptr size =
    let m' = store m (ptr - 8) (change (blk_head m ptr)) in
    store m' (ptr + size) (change (blk_tail m' ptr size))

abbrev pub blk_setalloced : Memory → ℕ → ℕ → Memory
blk_setalloced m ptr size = retag (λ w. without_free w) m ptr size

abbrev pub blk_setfreed : Memory → ℕ → ℕ → Memory
blk_setfreed m ptr size = retag (λ w. with_free w) m ptr size

abbrev pub blk_setsize : Memory → ℕ → ℕ → Memory
blk_setsize m ptr size = retag (λ w. size) m ptr size

abbrev pub blk_area_is_2m : Memory → ℕ → Bool
blk_area_is_2m m ptr = size_flag (blk_head m ptr)

abbrev pub blk_set_area_4k : Memory → ℕ → ℕ → Memory
blk_set_area_4k m ptr size = retag (λ w. without_size w) m ptr size

abbrev pub blk_set_area_2m : Memory → ℕ → ℕ → Memory
blk_set_area_2m m ptr size = retag (λ w. with_size w) m ptr size

unfoldable pub blk_areaptr : Memory → ℕ → ℕ
blk_areaptr m ptr =
    if blk_area_is_2m m ptr then ptr / size_2m * size_2m else ptr / size_4k * size_4k

unfoldable pub blk_poolptr : Memory → ℕ → ℕ
unfolding blk_areaptr
blk_poolptr m ptr = size_bits (m (blk_areaptr m ptr))

unfoldable pub blk_prev : Memory → ℕ → ℕ
blk_prev m ptr = if blk_noprev m ptr then null else ptr - 16 - size_bits (blk_prevtail m ptr)

unfoldable pub blk_next : Memory → ℕ → ℕ
blk_next m ptr = if blk_nonext m ptr (blk_size m ptr) then null else ptr + blk_size m ptr + 16

-- The callback takes a block off the free lists of its owner, the state `S`.
abbrev pub Detach : Type 0 → Type 0
Detach S = ℕ → S → Memory → S × Memory

module _ {S : Type 0} (detach : Detach S) where
  unfoldable pub blk_mergeprev : ℕ → S → Memory → ℕ × S × Memory
  unfolding blk_prev
  blk_mergeprev ptr s m =
      let prev = blk_prev m ptr in
      let size = add_size (add_size (blk_size m ptr) (blk_size m prev)) 16 in
      let (s', m') = detach prev s m in (prev, s', blk_setsize m' prev size)

  unfoldable pub blk_mergenext : ℕ → S → Memory → ℕ × S × Memory
  unfolding blk_next
  blk_mergenext ptr s m =
      let next = blk_next m ptr in
      let size = add_size (add_size (blk_size m ptr) (blk_size m next)) 16 in
      let (s', m') = detach next s m in (ptr, s', blk_setsize m' ptr size)

  -- The three steps of `blk_trymerge`.
  unfoldable pub merge_next : ℕ → S → Memory → ℕ × S × Memory
  merge_next ptr s m =
      let size = blk_size m ptr in
      if not (blk_nonext m ptr size) && free_flag (blk_nexthead m ptr size)
      then blk_mergenext ptr s m
      else (ptr, s, m)

  unfoldable pub merge_prev : ℕ → S → Memory → ℕ × S × Memory
  merge_prev ptr s m =
      if not (blk_noprev m ptr) && free_flag (blk_prevtail m ptr)
      then blk_mergeprev ptr s m
      else (ptr, s, m)

  unfoldable pub blk_trymerge : ℕ → S → Memory → ℕ × S × Memory
  unfolding merge_next merge_prev
  blk_trymerge ptr s m =
      let is_2m = blk_area_is_2m m ptr in
      let (ptr', s', m') = merge_next ptr s m in
      let (ptr'', s'', m'') = merge_prev ptr' s' m' in
      (ptr'', s'', (if is_2m then blk_set_area_2m m'' ptr'' (blk_size m'' ptr'') else m''))

-- blk_setsize, and blk_set_area_2M if the block lies in a 2M area
unfoldable pub set_sized : Bool → Memory → ℕ → ℕ → Memory
unfolding retag
set_sized is_2m m ptr size =
    let m' = blk_setsize m ptr size in if is_2m then blk_set_area_2m m' ptr size else m'

-- The second block's pointer, and the memory.
unfoldable pub blk_split : ℕ → ℕ → Memory → ℕ × Memory
blk_split ptr size m =
    let is_2m = blk_area_is_2m m ptr in
    let oldsize = blk_size m ptr in
    let first = set_sized is_2m m ptr size in
    let offset = add_size size 16 in
    (ptr + offset, set_sized is_2m first (ptr + offset) (sub_size oldsize offset))
