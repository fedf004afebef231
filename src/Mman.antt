-- ===== src/Mman.antt =====
-- kernel/src/mm/heap/mman.cpp: the allocator over several areas, each with its own pool struct in
-- its first block, and large blocks beside them. A pool struct is three words of the memory: the
-- area's address, the bytes in use, and the next pool struct; `main` is the address of the first,
-- which lies in the manager's own struct. `fuel` bounds the list walks, and `fresh` is the address
-- that `malloc` returns for the descriptor of a large block.
pub mod Calls
pub mod Init
pub mod Like
pub mod Pools
pub mod Release
mod Tests
use ion_os.Base.{
  ℕ, zero, suc, ◌+◌, ◌-◌, ◌*◌, ◌/◌, ◌%◌, ◌^◌, Bool, true, false, not, ◌&&◌, ◌||◌, ◌==◌, ltb, leb,
  if◌then◌else◌, Option, none, some, List, [], ◌∷◌, add_size, sub_size, bit_and,
}
use ion_os.Memory.{Memory, store, null}
use ion_os.Machine.{Run, done, fault, out_of_fuel, and_then, bounded}
use ion_os.Block.{
  padding, size_4k, size_2m, blk_size, blk_setfreed, blk_setalloced, blk_freed, blk_next,
  blk_trymerge, blk_mergenext, blk_split, blk_poolptr, Detach,
}
use ion_os.Freelist.{
  Freelists, freelists_size2id, freelist_detach, freelists_detach, freelist_put, freelists_put,
  freelist_match, freelists_match, freelist_aligned_match, freelists_aligned_match, padding_up,
}
use ion_os.Area.{allocarea_init, allocarea_size}
use ion_os.LargeBlk.{Delmem, delmem, large_blk_alloc, large_blk_free}
use ion_os.Pool.Calls.{request, copy_words}

-- struct mman
pub record Manager : Type 0 where
  pub main : ℕ
  pub size : ℕ
  pub alloced_size : ℕ
  pub cb_reqmem : Option (ℕ → ℕ → ℕ)
  pub cb_delmem : Bool
  pub large_blk : ℕ
  pub freed : Freelists
  pub large : Freelists

-- The manager, the memory, and the calls of `cb_delmem`, newest first.
pub record State : Type 0 where
  pub man : Manager
  pub memory : Memory
  pub released : List Delmem

-- The fields of a pool struct.
abbrev pub pool_ptr : Memory → ℕ → ℕ
pool_ptr m pool = m pool

abbrev pub pool_alloced : Memory → ℕ → ℕ
pool_alloced m pool = m (pool + 8)

abbrev pub pool_next : Memory → ℕ → ℕ
pool_next m pool = m (pool + 16)

unfoldable pub set_pool : ℕ → (ptr alloced next : ℕ) → Memory → Memory
unfolding store
set_pool pool ptr alloced next m =
    store (store (store m pool ptr) (pool + 8) alloced) (pool + 16) next

-- _detach
unfoldable pub detach : Detach Manager
detach ptr man m = elim (freelists_size2id (blk_size m ptr)) [
  | none ↦
      let (list, m') = freelist_detach man.large_blk ptr m in (record man { large_blk = list }, m')
  | some id ↦
      let (lists, m') = freelists_detach man.freed id ptr m in (record man { freed = lists }, m')
]

-- The state that `mman_init` makes of an area that it accepts.
unfoldable pub fresh_state : ℕ → ℕ → State → State
fresh_state ptr size s =
    let main = s.man.main in
    let m = allocarea_init ptr size main (set_pool main ptr 0 null s.memory) in
    record s {
      man = record {
        main = main;
        size = size;
        alloced_size = 0;
        cb_reqmem = none;
        cb_delmem = false;
        large_blk = ptr + 16;
        freed = λ id. null;
        large = λ id. null;
      };
      memory = freelist_put null (ptr + 16) m;
    }

unfoldable pub mman_init : ℕ → ℕ → State → Bool × State
mman_init ptr size s =
    if ptr == null || size == 0
    then (false, s)
    else if not (size == size_2m) && not (size == size_4k)
    then (false, s)
    else (true, fresh_state ptr size s)

abbrev pub mman_alloced_size : Option Manager → ℕ
mman_alloced_size none = 0
mman_alloced_size (some man) = man.alloced_size

abbrev pub mman_total_size : Option Manager → ℕ
mman_total_size none = 0
mman_total_size (some man) = man.size

unfoldable pub mman_setcb : Option (ℕ → ℕ → ℕ) → Bool → State → State
mman_setcb reqmem del s = record s { man = record (s.man) { cb_reqmem = reqmem; cb_delmem = del } }

-- The size of the area that a request for `size` bytes asks for; `none` if it is too large.
unfoldable pub area_for : ℕ → Option ℕ
area_for size =
    let need = add_size size 56 in
    if ltb size_2m need then none else some (if ltb size_4k need then size_2m else size_4k)

-- The part of `mman_reqmem` behind the callback: the area `mem` of `size` bytes joins.
unfoldable pub add_area : ℕ → ℕ → State → State
unfolding set_pool
add_area mem size s =
    let pool = mem + 16 in
    let man = s.man in
    let (ptr, m) = blk_split pool (padding 24) (allocarea_init mem size pool s.memory) in
    let tagged = blk_setalloced m pool (blk_size m pool) in
    let freed = blk_setfreed tagged ptr (blk_size tagged ptr) in
    let linked = set_pool pool mem 0 (pool_next freed man.main) freed in
    let m' = store linked (man.main + 16) pool in
    record s {
      man = record man { size = add_size man.size size; large_blk = ptr };
      memory = freelist_put man.large_blk ptr m';
    }

unfoldable pub mman_reqmem : ℕ → State → Bool × State
mman_reqmem size s = elim s.man.cb_reqmem [
  | none ↦ (false, s)
  | some reqmem ↦ elim (area_for size) [
    | none ↦ (false, s)
    | some area ↦
        let mem = reqmem null area in
        if mem == null then (false, s) else (true, add_area mem area s)
  ]
]

unfoldable pub do_free : ℕ → State → State
do_free ptr s =
    let m = blk_setfreed s.memory ptr (blk_size s.memory ptr) in
    let (puted, lists, m') = freelists_put s.man.freed ptr m in
    if puted then record s { man = record (s.man) { freed = lists }; memory = m' } else record s {
      man = record (s.man) { large_blk = ptr };
      memory = freelist_put s.man.large_blk ptr m';
    }

unfoldable pub try_split_and_free : ℕ → ℕ → State → Bool × State
try_split_and_free ptr size s =
    let (new_ptr, m) = blk_split ptr size s.memory in
    if leb (add_size size 64) (blk_size s.memory ptr)
    then (true, do_free new_ptr (record s { memory = m }))
    else (false, s)

-- pool->alloced_size += size; man->alloced_size += size
unfoldable pub charge : ℕ → ℕ → State → State
unfolding store
charge pool size s = record s {
  man = record (s.man) { alloced_size = add_size s.man.alloced_size size };
  memory = store s.memory (pool + 8) (add_size (pool_alloced s.memory pool) size);
}

-- The same with `-=`.
unfoldable pub discharge : ℕ → ℕ → State → State
unfolding store
discharge pool size s = record s {
  man = record (s.man) { alloced_size = sub_size s.man.alloced_size size };
  memory = store s.memory (pool + 8) (sub_size (pool_alloced s.memory pool) size);
}

-- The end of the two allocation functions, from `try_split_and_free` on.
unfoldable pub hand_out : ℕ → ℕ → State → ℕ × State
unfolding charge
hand_out ptr size s =
    let s' = (try_split_and_free ptr size s).1 in
    let size' = blk_size s'.memory ptr in
    let m = blk_setalloced s'.memory ptr size' in
    (ptr, charge (blk_poolptr m ptr) size' (record s' { memory = m }))

-- The block in front of the first aligned address is split off and freed.
unfoldable pub align_block : ℕ → ℕ → State → ℕ × State
align_block ptr align s =
    let offset = sub_size (padding_up ptr align) ptr in
    let (new_ptr, m) = blk_split ptr (sub_size offset 16) s.memory in
    if offset == 0 then (ptr, s) else (new_ptr, do_free ptr (record s { memory = m }))
