-- ===== src/Pool/Calls.antt =====
-- kernel/src/mm/heap/pool.cpp: the allocation functions of a pool.
use ion_os.Base.{
  ℕ, zero, suc, ◌+◌, ◌/◌, not, ◌&&◌, ◌==◌, ltb, leb, if◌then◌else◌, add_size, sub_size, bit_and,
}
use ion_os.Memory.{Memory, store, null}
use ion_os.Machine.{Run, done, fault, and_then, bounded}
use ion_os.Block.{padding, blk_size, blk_freed, blk_next, blk_trymerge, blk_mergenext, blk_split}
use ion_os.Freelist.{
  freelist_match, freelists_match, freelist_aligned_match, freelists_aligned_match, padding_up,
}
use ion_os.Pool.{Heap, detach, mpool_reqmem, do_free, try_split_and_free, hand_out}

-- size == 0 ? 2 * sizeof(size_t) : PADDING(size)
abbrev pub request : ℕ → ℕ
request size = if size == 0 then 16 else padding size

module _ (fuel : ℕ) where
  -- freelist_match(&pool->large_blk, size)
  unfoldable pub match_large : ℕ → Heap → Run Heap ℕ
  match_large size h =
      bounded (freelist_match fuel h.pool.large_blk size h.memory) λ (ptr, list, m).
        done ptr (record h { pool = record (h.pool) { large_blk = list }; memory = m })

  -- freelists_match(pool->freed, size) ?: freelist_match(&pool->large_blk, size)
  unfoldable pub match_any : ℕ → Heap → Run Heap ℕ
  match_any size h = bounded (freelists_match fuel h.pool.freed size h.memory) λ (ptr, lists, m).
      let h' = record h { pool = record (h.pool) { freed = lists }; memory = m } in
      if ptr == null then match_large size h' else done ptr h'

  unfoldable pub mpool_alloc : ℕ → Heap → Run Heap ℕ
  mpool_alloc size h =
      let size' = request size in
      and_then (match_any size' h) λ ptr h'.
        let retry : Run Heap ℕ = and_then (mpool_reqmem size' h') λ more h''.
          let again =
            and_then (match_large size' h'')
              λ p k. if p == null then fault else (let (q, k') = hand_out p size' k in done q k') in
          if more then again else done null h'' in
        let (q, k) = hand_out ptr size' h' in if ptr == null then retry else done q k

  unfoldable pub aligned_large : ℕ → ℕ → Heap → Run Heap ℕ
  aligned_large size align h =
      bounded (freelist_aligned_match fuel h.pool.large_blk size align h.memory) λ (ptr, list, m).
        done ptr (record h { pool = record (h.pool) { large_blk = list }; memory = m })

  unfoldable pub aligned_any : ℕ → ℕ → Heap → Run Heap ℕ
  aligned_any size align h =
      bounded (freelists_aligned_match fuel h.pool.freed size align h.memory) λ (ptr, lists, m).
        let h' = record h { pool = record (h.pool) { freed = lists }; memory = m } in
        if ptr == null then aligned_large size align h' else done ptr h'

  -- The block in front of the first aligned address is split off and freed.
  unfoldable pub align_block : ℕ → ℕ → Heap → ℕ × Heap
  align_block ptr align h =
      let offset = sub_size (padding_up ptr align) ptr in
      let (new_ptr, m) = blk_split ptr (sub_size offset 16) h.memory in
      if offset == 0 then (ptr, h) else (new_ptr, do_free ptr (record h { memory = m }))

  unfoldable pub mpool_aligned_alloc : ℕ → ℕ → Heap → Run Heap ℕ
  mpool_aligned_alloc size align h =
      let size' = request size in
      let cut : ℕ → Heap → Run Heap ℕ = λ p k.
        let (p', k') = align_block p align k in let (q, k'') = hand_out p' size' k' in done q k'' in
      let whole = and_then (aligned_any size' align h) λ ptr h'.
        let retry : Run Heap ℕ = and_then (mpool_reqmem (add_size size' align) h') λ more h''.
          let again =
            and_then (aligned_large size' align h'') λ p k. if p == null then fault else cut p k in
          if more then again else done null h'' in
        let found = cut ptr h' in if ptr == null then retry else found in
      if not (bit_and align (sub_size align 1) == 0)
      then done null h
      else if ltb align 16
      then mpool_alloc size h
      else whole

unfoldable pub mpool_free : ℕ → Heap → Heap
mpool_free ptr h =
    let alloced = sub_size h.pool.alloced_size (blk_size h.memory ptr) in
    let pool = record (h.pool) { alloced_size = alloced } in
    let (ptr', pool', m) = blk_trymerge detach ptr pool h.memory in
    if ptr == null then h else do_free ptr' (record h { pool = pool'; memory = m })

unfoldable pub mpool_msize : ℕ → Heap → ℕ
mpool_msize ptr h = if ptr == null then 0 else blk_size h.memory ptr

-- memcpy of `n` words; block sizes are multiples of the word size.
unfoldable pub copy_words : ℕ → (dst src : ℕ) → Memory → Memory
copy_words zero dst src m = m
copy_words (suc n) dst src m = copy_words n (dst + 8) (src + 8) (store m dst (m src))

-- The end of the realloc functions: the contents move to a new block. `memcpy` to null faults.
unfoldable pub move_to : ℕ → ℕ → ℕ → Heap → Run Heap ℕ
unfolding copy_words
move_to ptr size new_ptr h =
    let moved = record h { memory = copy_words (size / 8) new_ptr ptr h.memory } in
    let result = done new_ptr (mpool_free ptr moved) in
    if new_ptr == null && not (size == 0) then fault else result

-- The two realloc functions behind their first checks, with the function that allocates.
unfoldable pub resize : (ℕ → Heap → Run Heap ℕ) → ℕ → ℕ → Heap → Run Heap ℕ
resize alloc ptr newsize h =
    let m = h.memory in
    let size = blk_size m ptr in
    let next = blk_next m ptr in
    let total_size = add_size (add_size size 16) (blk_size m next) in
    let shrunk = done ptr (try_split_and_free ptr newsize h).1 in
    let (_, pool, m') = blk_mergenext detach ptr h.pool m in
    let grown =
      done ptr (try_split_and_free ptr newsize (record h { pool = pool; memory = m' })).1 in
    let moved = and_then (alloc newsize h) λ new_ptr h'. move_to ptr size new_ptr h' in
    if leb newsize size
    then shrunk
    else if not (next == null) && (blk_freed m next && leb newsize total_size)
    then grown
    else moved

unfoldable pub mpool_realloc : ℕ → ℕ → ℕ → Heap → Run Heap ℕ
mpool_realloc fuel ptr newsize h =
    if ptr == null
    then mpool_alloc fuel newsize h
    else resize (mpool_alloc fuel) ptr (request newsize) h

unfoldable pub mpool_aligned_realloc : ℕ → ℕ → ℕ → ℕ → Heap → Run Heap ℕ
mpool_aligned_realloc fuel ptr newsize align h =
    if ptr == null
    then mpool_aligned_alloc fuel newsize align h
    else if not (bit_and align (sub_size align 1) == 0)
    then done null h
    else if ltb align 16
    then mpool_realloc fuel ptr newsize h
    else resize (λ n k. mpool_aligned_alloc fuel n align k) ptr (request newsize) h
