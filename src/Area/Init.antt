-- ===== src/Area/Init.antt =====
-- kernel/src/include/mm/alloc/area.hpp: what the two functions leave in memory.
use ion_os.Base.{
  ℕ, ◌+◌, ◌-◌, ◌*◌, ◌/◌, ◌%◌, ◌^◌, ◌<◌, ◌≤◌, ◌≡◌, ◌≢◌, true, false, ◌||◌, ◌==◌, ltb, if◌then◌else◌,
  arith,
}
use ion_os.Memory.{Memory, store}
use ion_os.Block.{size_bits, area_flag, with_free, with_size, without_size, size_2m, retag}
use ion_os.Block.Tags.{IsTag, Block, retag-read}
use ion_os.Area.{area_word, close_area, allocarea_init, allocarea_reinit}

-- The word of both tags of the only block.
abbrev init_tag : ℕ → ℕ
init_tag size = if size == size_2m then size - 32 + 5 else size - 32 + 1

close_area-read :
    (addr size word a : ℕ) (m : Memory)
    → close_area addr size word m a
      ≡ (if a == addr || a == addr + (size / 8 - 1) * 8 then word else m a)
unfolding close_area store
close_area-read addr size word a m = ground arith

module _ (addr size pdata : ℕ) (m : Memory) (large : 32 ≤ size) (small : size < 2 ^ 64)
    (mult : size % 8 ≡ 0) where
  -- the memory before the last step
  abbrev closed : Memory
  closed = close_area addr size (area_word pdata size) m

  abbrev sized : Memory
  sized = retag (λ w. size - 32) closed (addr + 16) (size - 32)

  abbrev freed : Memory
  freed = retag (λ w. with_free w) sized (addr + 16) (size - 32)

  allocarea_init-eq : allocarea_init addr size pdata m ≡ (
      if size == size_2m
      then retag (λ w. with_size w) freed (addr + 16) (size - 32)
      else retag (λ w. without_size w) freed (addr + 16) (size - 32))
  unfolding allocarea_init
  allocarea_init-eq = let rest : (size + 2 ^ 64 - 32) % 2 ^ 64 ≡ size - 32 = omega arith in rw rest

  pub allocarea_init-read :
      (a : ℕ)
      → allocarea_init addr size pdata m a ≡ (
          if a == addr || a == addr + size - 8
          then area_word pdata size
          else if a == addr + 8 || a == addr + size - 16
          then init_tag size
          else m a)
  allocarea_init-read a = rw allocarea_init-eq (
      ground (
        arith,
        retag-read (λ w. with_size w) freed (addr + 16) (size - 32) a,
        retag-read (λ w. without_size w) freed (addr + 16) (size - 32) a,
        retag-read (λ w. with_free w) sized (addr + 16) (size - 32) a,
        retag-read (λ w. size - 32) closed (addr + 16) (size - 32) a,
        close_area-read addr size (area_word pdata size) a m,
      ))

  init_tag-IsTag : IsTag (init_tag size) (size - 32) true (size == size_2m)
  init_tag-IsTag = ground arith

  -- `allocarea_init` makes one free block of the whole area less 32 bytes, flagged 2M exactly for
  -- a 2M area, between two words with the area flag that carry the (aligned) struct address; it
  -- writes no other word.
  pub allocarea_init-Block :
      pdata % 8 ≡ 0
      → let m' = allocarea_init addr size pdata m in
        Block m' (addr + 16) (size - 32) true (size == size_2m)
        × ((area_flag (m' addr) ≡ true) × (area_flag (m' (addr + size - 8)) ≡ true))
        × (size_bits (m' addr) ≡ pdata)
        × ((a : ℕ)
            → a ≢ addr
            → a ≢ addr + 8
            → a ≢ addr + size - 16
            → a ≢ addr + size - 8
            → m' a ≡ m a)
  allocarea_init-Block aligned =
      let m' = allocarea_init addr size pdata m in
      let read = allocarea_init-read in
      let head : m' (addr + 16 - 8) ≡ init_tag size = ground (arith, read (addr + 16 - 8)) in
      let tail : m' (addr + 16 + (size - 32)) ≡ init_tag size =
        ground (arith, read (addr + 16 + (size - 32))) in
      let front : m' addr ≡ area_word pdata size = ground (arith, read addr) in
      let back : m' (addr + size - 8) ≡ area_word pdata size =
        ground (arith, read (addr + size - 8)) in
      (
        record { head = rw head init_tag-IsTag; tail = rw tail init_tag-IsTag },
        (rw front (ground arith), rw back (ground arith)),
        rw front (ground arith),
        λ a p q r s. ground (arith, read a),
      )

-- Growing an area whose sizes are multiples of 16 by more than 16 bytes destroys its end: the
-- tail of the new block, its size, is written over the closing word, so the area flag is gone; the
-- block's head is the first word behind the old area.
pub allocarea_reinit-overwrites :
    (addr oldsize newsize : ℕ) (m : Memory)
    → oldsize % 16 ≡ 0
    → newsize % 16 ≡ 0
    → oldsize + 16 < newsize
    → newsize < 2 ^ 64
    → let (blk, m') = allocarea_reinit addr oldsize newsize m in
      (blk - 8 ≡ addr + oldsize)
      × (m' (addr + newsize - 8) ≡ newsize - oldsize - 16)
      × (area_flag (m' (addr + newsize - 8)) ≡ false)
unfolding allocarea_reinit
allocarea_reinit-overwrites addr oldsize newsize m old new grows small =
    let size : ((newsize + 2 ^ 64 - oldsize) % 2 ^ 64 + 2 ^ 64 - 16) % 2 ^ 64
        ≡ newsize - oldsize - 16 =
      omega arith in
    let differ : (newsize == oldsize) ≡ false = ground arith in
    let more : ltb newsize oldsize ≡ false = ground arith in
    let closed = close_area addr newsize (area_word (size_bits (m addr)) newsize) m in
    let blk = addr + oldsize + 8 in
    let last : retag (λ w. newsize - oldsize - 16) closed blk (newsize - oldsize - 16)
          (addr + newsize - 8)
        ≡ newsize - oldsize - 16 =
      ground (
        arith,
        retag-read (λ w. newsize - oldsize - 16) closed blk (newsize - oldsize - 16)
            (addr + newsize - 8),
      ) in
    rw (differ, more, size) (omega arith, last, rw last (ground arith))
