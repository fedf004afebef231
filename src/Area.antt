-- ===== src/Area.antt =====
-- kernel/src/include/mm/alloc/area.hpp: an area begins and ends with a word that carries the area
-- flag and, with several areas, the address of the area's struct.
pub mod Init
mod Tests
use ion_os.Base.{
  ℕ, ◌+◌, ◌-◌, ◌*◌, ◌/◌, ◌%◌, Bool, true, false, ◌==◌, ltb, if◌then◌else◌, add_size, sub_size,
}
use ion_os.Memory.{Memory, store, null}
use ion_os.Block.{
  size_flag, size_bits, with_size, size_2m, size_4k, blk_setsize, blk_setfreed, blk_set_area_2m,
  blk_set_area_4k, retag,
}

-- word | AREA_FLAG
abbrev pub with_area : ℕ → ℕ
with_area word = word / 4 * 4 + 2 + word % 2

abbrev pub allocarea_size : Memory → ℕ → ℕ
allocarea_size m ptr = if size_flag (m ptr) then size_2m else size_4k

-- pdata | AREA_FLAG | size_flag
abbrev pub area_word : ℕ → ℕ → ℕ
area_word pdata size = if size == size_2m then with_size (with_area pdata) else with_area pdata

-- ptr[0] = ptr[len - 1] = data
unfoldable pub close_area : ℕ → ℕ → ℕ → Memory → Memory
unfolding store
close_area addr size word m = store (store m (addr + (size / 8 - 1) * 8) word) addr word

unfoldable pub allocarea_init : ℕ → ℕ → ℕ → Memory → Memory
unfolding close_area retag
allocarea_init addr size pdata m =
    let closed = close_area addr size (area_word pdata size) m in
    let ptr = addr + 16 in
    let rest = sub_size size 32 in
    let freed = blk_setfreed (blk_setsize closed ptr rest) ptr rest in
    if size == size_2m then blk_set_area_2m freed ptr rest else blk_set_area_4k freed ptr rest

-- The new block's pointer, or null, and the memory.
unfoldable pub allocarea_reinit : ℕ → ℕ → ℕ → Memory → ℕ × Memory
unfolding close_area retag
allocarea_reinit addr oldsize newsize m =
    let closed = close_area addr newsize (area_word (size_bits (m addr)) newsize) m in
    let blk = addr + oldsize + 8 in
    if newsize == oldsize
    then (null, m)
    else if ltb newsize oldsize
    then (null, closed)
    else (blk, blk_setsize closed blk (sub_size (sub_size newsize oldsize) 16))
