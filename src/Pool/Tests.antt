-- ===== src/Pool/Tests.antt =====
-- A pool of 4096 bytes at 8192, and the theorems at it.
use ion_os.Base.{
  Option, ℕ, ◌+◌, ◌≡◌, ◌≤◌, ◌<◌, refl, false, arith, none, [], add_size, ◌⊎◌, some, Bool, List,
}
use ion_os.Memory.{null}
use ion_os.Block.{blk_size}
use ion_os.Block.Tags.{Block}
use ion_os.Pool.Calls.{mpool_alloc, request}
use ion_os.Pool.{fresh_heap, Heap, mpool_init}
use ion_os.Base.Lists.{length}
use ion_os.Machine.{done}
use ion_os.Freelist.{fits, freelists_size2id}
use ion_os.Freelist.Match.{NoneFits}
use ion_os.Freelist.Groups.{NoneFrom}
use ion_os.Pool.Inv.{IsPool, Among}
use ion_os.Pool.Start.{only_block, mpool_init-IsPool}
use ion_os.Pool.Layout.{ClearOf}
use ion_os.Pool.Allocate.{mpool_alloc-IsPool}
use ion_os.Pool.Alloc.{kept_of, mpool_alloc-Block}

abbrev empty_heap : Heap
empty_heap = record {
  pool = record {
    ptr = 0;
    size = 0;
    alloced_size = 0;
    cb_reqmem = none;
    cb_delmem = false;
    large_blk = 0;
    freed = λ id. 0;
  };
  memory = λ a. 0;
  released = [];
}

-- The pool once `freelist_match` took the block out of the large list.
abbrev matched : Heap
matched =
    let h = (mpool_init 8192 4096 empty_heap).1 in
    record h { pool = record (h.pool) { large_blk = null } }

abbrev ready : Heap
ready = (mpool_init 8192 4096 empty_heap).1

mpool_init-IsPool_example : IsPool ready (only_block 8208)
mpool_init-IsPool_example =
    mpool_init-IsPool 8192 4096 empty_heap (omega arith) (omega arith) (omega arith) refl

ready-enough : (l : Option ℕ) → length (only_block 8208 l) < 2
ready-enough none = omega arith
ready-enough (some id) = omega arith

ready-alone : ready.pool.cb_reqmem ≡ none
unfolding mpool_init fresh_heap
ready-alone = refl

mpool_alloc-Block_example :
    ((NoneFrom
          (fits (request 100) ready.memory)
          (λ id. only_block 8208 (some id))
          (freelists_size2id (request 100))
        × NoneFits (fits (request 100) ready.memory) (only_block 8208 none))
      × (mpool_alloc 2 100 ready ≡ done null ready))
    ⊎ ((l : Option ℕ) × (x : ℕ) × (after : Heap) × (big : Bool) × Among x (only_block 8208 l)
        × (mpool_alloc 2 100 ready ≡ done x after)
        × Block after.memory x (kept_of 100 (blk_size ready.memory x)) false big
        × ((request 100 ≤ kept_of 100 (blk_size ready.memory x))
            × (kept_of 100 (blk_size ready.memory x) < request 100 + 64))
        × (after.pool.alloced_size
            ≡ add_size ready.pool.alloced_size (kept_of 100 (blk_size ready.memory x))))
mpool_alloc-Block_example =
    mpool_alloc-Block 2 100 ready (only_block 8208) mpool_init-IsPool_example ready-enough
      ready-alone

mpool_alloc-IsPool_example :
    (mpool_alloc 2 100 ready ≡ done null ready)
    ⊎ ((x : ℕ) × (after : Heap) × (nodes' : Option ℕ → List ℕ) × (mpool_alloc 2 100 ready
          ≡ done x after)
        × IsPool after nodes'
        × ClearOf after.memory nodes' x (kept_of 100 (blk_size ready.memory x)))
mpool_alloc-IsPool_example =
    mpool_alloc-IsPool 2 100 ready (only_block 8208) mpool_init-IsPool_example ready-enough
      ready-alone
