-- ===== src/Pool.antt =====
-- kernel/src/mm/heap/pool.cpp: one pool of blocks in one area, the kernel's heap. A state is the
-- pool's struct, the memory, and the calls of `cb_delmem`, newest first. The callback `cb_reqmem`
-- is an argument of the model in the struct's field; of `cb_delmem` only the call shows.
pub mod Alloc
pub mod Allocate
pub mod Calls
pub mod HandOut
pub mod Inv
pub mod DoFree
pub mod Keep
pub mod Layout
pub mod Split
pub mod Start
pub mod Init
mod Tests
use ion_os.Base.{
  ℕ, zero, suc, ◌+◌, ◌-◌, ◌*◌, ◌/◌, ◌%◌, ◌^◌, Bool, true, false, not, ◌&&◌, ◌||◌, ◌==◌, ltb, leb,
  if◌then◌else◌, Option, none, some, List, [], ◌∷◌, add_size, sub_size, bit_and,
}
use ion_os.Memory.{Memory, store, null}
use ion_os.Machine.{Run, done, fault}
use ion_os.Machine.{Run, done, fault, out_of_fuel, and_then, bounded}
use ion_os.Block.{
  padding, padding_16k, blk_size, blk_setfreed, blk_setalloced, blk_freed, blk_next, blk_trymerge,
  blk_mergenext, blk_split, Detach,
}
use ion_os.Freelist.{
  Freelists, freelists_size2id, freelist_detach, freelists_detach, freelist_put, freelists_put,
  freelist_match, freelists_match, freelist_aligned_match, freelists_aligned_match, padding_up,
}
use ion_os.Area.{allocarea_init, allocarea_reinit}
use ion_os.LargeBlk.{Delmem, delmem}

-- struct mpool
pub record Mpool : Type 0 where
  pub ptr : ℕ
  pub size : ℕ
  pub alloced_size : ℕ
  pub cb_reqmem : Option (ℕ → ℕ → ℕ)
  pub cb_delmem : Bool
  pub large_blk : ℕ
  pub freed : Freelists

pub record Heap : Type 0 where
  pub pool : Mpool
  pub memory : Memory
  pub released : List Delmem

-- _detach
unfoldable pub detach : Detach Mpool
detach ptr pool m = elim (freelists_size2id (blk_size m ptr)) [
  | none ↦
      let (list, m') = freelist_detach pool.large_blk ptr m in
      (record pool { large_blk = list }, m')
  | some id ↦
      let (lists, m') = freelists_detach pool.freed id ptr m in (record pool { freed = lists }, m')
]

-- The state of a pool that `mpool_init` accepts; its address is not null.
unfoldable pub fresh_heap : ℕ → ℕ → Heap → Heap
fresh_heap ptr size h =
    let m = allocarea_init ptr size null h.memory in
    record h {
      pool = record {
        ptr = ptr;
        size = size;
        alloced_size = 0;
        cb_reqmem = none;
        cb_delmem = false;
        large_blk = ptr + 16;
        freed = λ id. null;
      };
      memory = freelist_put null (ptr + 16) m;
    }

unfoldable pub mpool_init : ℕ → ℕ → Heap → Bool × Heap
unfolding fresh_heap
mpool_init ptr size h =
    if ptr == null || size == 0
    then (false, h)
    else if not (bit_and size 15 == 0)
    then (false, h)
    else (true, fresh_heap ptr size h)

-- `*pool = (struct mpool){}` after the callback.
unfoldable pub mpool_deinit : Heap → Heap
mpool_deinit h = record h {
  pool = record {
    ptr = null;
    size = 0;
    alloced_size = 0;
    cb_reqmem = none;
    cb_delmem = false;
    large_blk = null;
    freed = λ id. null;
  };
  released = if h.pool.cb_delmem then delmem h.pool.ptr h.pool.size ∷ h.released else h.released;
}

abbrev pub mpool_alloced_size : Option Mpool → ℕ
mpool_alloced_size none = 0
mpool_alloced_size (some pool) = pool.alloced_size

abbrev pub mpool_total_size : Option Mpool → ℕ
mpool_total_size none = 0
mpool_total_size (some pool) = pool.size

unfoldable pub mpool_setcb : Option (ℕ → ℕ → ℕ) → Bool → Heap → Heap
mpool_setcb reqmem del h = record h {
  pool = record (h.pool) { cb_reqmem = reqmem; cb_delmem = del };
}

-- The part of `mpool_reqmem` behind its checks: the area grows by `memsize`. For an area that does
-- not grow allocarea_reinit returns null, and the block at it is read.
unfoldable pub extend : ℕ → Heap → Run Heap Bool
extend memsize h =
    let (blk, m) =
      allocarea_reinit h.pool.ptr h.pool.size (add_size h.pool.size memsize) h.memory in
    let grown = record (h.pool) { size = add_size h.pool.size memsize } in
    let (ptr, pool, m') = blk_trymerge detach blk grown m in
    let m'' = blk_setfreed m' ptr (blk_size m' ptr) in
    if blk == null
    then fault
    else done true (record h {
      pool = record pool { large_blk = ptr };
      memory = freelist_put pool.large_blk ptr m'';
    })

unfoldable pub mpool_reqmem : ℕ → Heap → Run Heap Bool
mpool_reqmem size h = elim h.pool.cb_reqmem [
  | none ↦ done false h
  | some reqmem ↦
      let memsize = padding_16k size in
      let mem = reqmem (h.pool.ptr + h.pool.size) memsize in
      if mem == null
      then done false h
      else if not (mem == h.pool.ptr)
      then done false (record h {
        released = if h.pool.cb_delmem then delmem mem memsize ∷ h.released else h.released;
      })
      else extend memsize h
]

-- A block is marked free and put on the list of its class, or on the large list.
unfoldable pub do_free : ℕ → Heap → Heap
do_free ptr h =
    let m = blk_setfreed h.memory ptr (blk_size h.memory ptr) in
    let (puted, lists, m') = freelists_put h.pool.freed ptr m in
    if puted then record h { pool = record (h.pool) { freed = lists }; memory = m' } else record h {
      pool = record (h.pool) { large_blk = ptr };
      memory = freelist_put h.pool.large_blk ptr m';
    }

unfoldable pub try_split_and_free : ℕ → ℕ → Heap → Bool × Heap
try_split_and_free ptr size h =
    let (new_ptr, m) = blk_split ptr size h.memory in
    if leb (add_size size 64) (blk_size h.memory ptr)
    then (true, do_free new_ptr (record h { memory = m }))
    else (false, h)

-- The end of the two allocation functions, from `try_split_and_free` on.
unfoldable pub hand_out : ℕ → ℕ → Heap → ℕ × Heap
hand_out ptr size h =
    let h' = (try_split_and_free ptr size h).1 in
    let size' = blk_size h'.memory ptr in
    (
      ptr,
      record h' {
        pool = record (h'.pool) { alloced_size = add_size h'.pool.alloced_size size' };
        memory = blk_setalloced h'.memory ptr size';
      },
    )
