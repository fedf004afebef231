-- ===== src/KernelHeap/Tests.antt =====
-- A pool of 4096 bytes at 8192, and `calloc` of five elements of 8 bytes from it.
use ion_os.Base.{ℕ, ◌+◌, ◌*◌, ◌<◌, ◌≤◌, ◌≡◌, ◌⊎◌, refl, arith, false, none, []}
use ion_os.Memory.{null}
use ion_os.Machine.{done}
use ion_os.Pool.{Heap, fresh_heap, hand_out}
use ion_os.Pool.Calls.{mpool_alloc, match_any, match_large}
use ion_os.Freelist.{
  freelists_match, freelists_size2id, walk, freelist_match, freelist_put, freelist_detach,
}
use ion_os.Area.{allocarea_init}
use ion_os.KernelHeap.{malloc, calloc}
use ion_os.KernelHeap.Calloc.{calloc-malloc}

abbrev pool_4k : Heap
pool_4k = fresh_heap 8192 4096 (record {
  pool = record {
    ptr = 0;
    size = 0;
    alloced_size = 0;
    cb_reqmem = none;
    cb_delmem = false;
    large_blk = 0;
    freed = λ id. 0;
  };
  memory = λ a. 7;
  released = [];
})

-- What `malloc` of 40 bytes leaves: 48 bytes at the front of the block.
abbrev after_malloc : Heap
after_malloc =
    (hand_out 8208 48 (record pool_4k { pool = record (pool_4k.pool) { large_blk = null } })).1

malloc_runs : malloc 4 40 pool_4k ≡ done 8208 after_malloc
unfolding malloc mpool_alloc match_any freelists_match freelists_size2id walk fresh_heap match_large
    freelist_match freelist_put allocarea_init hand_out freelist_detach
malloc_runs = refl

calloc-malloc_example :
    (h'' : Heap) × (calloc 4 5 8 pool_4k ≡ done 8208 h'')
    × ((i : ℕ) → i < 5 → h''.memory (8208 + i * 8) ≡ 0)
    × ((a : ℕ) → (a < 8208) ⊎ (8248 ≤ a) → h''.memory a ≡ after_malloc.memory a)
calloc-malloc_example =
    calloc-malloc 4 5 8 pool_4k 8208 after_malloc (omega arith) (omega arith) malloc_runs
