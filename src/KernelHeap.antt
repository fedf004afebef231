-- ===== src/KernelHeap.antt =====
-- kernel/src/mm/heap/heap.cpp: the C allocation functions on the kernel's pool. Each holds the
-- pool's lock for the one pool operation it does, so a call is that operation; `fuel` bounds the
-- list walks.
pub mod Calloc
mod Tests
use ion_os.Base.{
  ℕ, zero, suc, ◌+◌, ◌*◌, ◌/◌, ◌%◌, ◌^◌, Bool, true, false, ◌==◌, leb, if◌then◌else◌, Option, none,
  some, page_size,
}
use ion_os.Memory.{Memory, store, null}
use ion_os.Machine.{Run, done, fault, out_of_fuel, and_then}
use ion_os.Pool.{Heap, mpool_init}
use ion_os.Pool.Calls.{mpool_alloc, mpool_aligned_alloc, mpool_free, mpool_msize, mpool_realloc}

-- memset(ptr, 0, size): whole words, then the low bytes of the next.
unfoldable pub clear_words : (words ptr : ℕ) → Memory → Memory
unfolding store
clear_words zero ptr m = m
clear_words (suc words) ptr m = clear_words words (ptr + 8) (store m ptr 0)

unfoldable pub clear_bytes : (ptr size : ℕ) → Memory → Memory
unfolding clear_words
clear_bytes ptr size m =
    let m' = clear_words (size / 8) ptr m in
    let last = ptr + size / 8 * 8 in
    let unit = 2 ^ (8 * (size % 8)) in
    if size % 8 == 0 then m' else store m' last (m' last / unit * unit)

unfoldable pub free : ℕ → Heap → Heap
free ptr h = mpool_free ptr h

unfoldable pub malloc_usable_size : ℕ → Heap → ℕ
malloc_usable_size ptr h = mpool_msize ptr h

module _ (fuel : ℕ) where
  unfoldable pub malloc : ℕ → Heap → Run Heap ℕ
  malloc size h = mpool_alloc fuel size h

  unfoldable pub xmalloc : ℕ → Heap → Run Heap ℕ
  unfolding malloc
  xmalloc size h = malloc size h

  -- __builtin_mul_overflow tests for a product of 2 ^ 64 or more.
  unfoldable pub calloc : (n size : ℕ) → Heap → Run Heap ℕ
  unfolding malloc clear_bytes
  calloc n size h =
      let cleared = and_then (malloc (n * size) h) λ ptr h'.
        if ptr == null
        then done null h'
        else done ptr (record h' { memory = clear_bytes ptr (n * size) h'.memory }) in
      if leb (2 ^ 64) (n * size) then done null h else cleared

  unfoldable pub realloc : (ptr newsize : ℕ) → Heap → Run Heap ℕ
  realloc ptr newsize h = mpool_realloc fuel ptr newsize h

  unfoldable pub reallocarray : (ptr n size : ℕ) → Heap → Run Heap ℕ
  unfolding realloc
  reallocarray ptr n size h = realloc ptr (n * size % 2 ^ 64) h

  unfoldable pub aligned_alloc : (align size : ℕ) → Heap → Run Heap ℕ
  aligned_alloc align size h = mpool_aligned_alloc fuel size align h

  unfoldable pub memalign : (align size : ℕ) → Heap → Run Heap ℕ
  memalign align size h = mpool_aligned_alloc fuel size align h

  -- The result and, for 0, the pointer written to `memptr`.
  unfoldable pub posix_memalign : (alignment size : ℕ) → Heap → Run Heap (ℕ × Option ℕ)
  posix_memalign alignment size h =
      and_then (mpool_aligned_alloc fuel size alignment h)
        λ ptr h'. if ptr == null then done (1, none) h' else done (0, some ptr) h'

  unfoldable pub valloc : ℕ → Heap → Run Heap ℕ
  valloc size h = mpool_aligned_alloc fuel size page_size h

  unfoldable pub pvalloc : ℕ → Heap → Run Heap ℕ
  pvalloc size h = mpool_aligned_alloc fuel size page_size h
