-- ===== src/Mman/Calls.antt =====
-- kernel/src/mm/heap/mman.cpp: the allocation functions of a manager.
use ion_os.Base.{
  ℕ, ◌-◌, ◌*◌, ◌/◌, ◌%◌, not, ◌&&◌, ◌||◌, ◌==◌, ltb, leb, if◌then◌else◌, none, some, add_size,
  sub_size, bit_and,
}
use ion_os.Memory.{null}
use ion_os.Machine.{Run, done, fault, and_then, bounded}
use ion_os.Block.{size_4k, blk_size, blk_freed, blk_next, blk_mergenext}
use ion_os.Freelist.{
  freelist_match, freelists_match, freelist_aligned_match, freelists_aligned_match,
}
use ion_os.LargeBlk.{large_blk_alloc}
use ion_os.Pool.Calls.{request, copy_words}
use ion_os.Mman.{State, detach, mman_reqmem, try_split_and_free, hand_out, align_block}
use ion_os.Mman.Release.{called, free_large, mman_free}

module _ (fuel : ℕ) where
  -- freelist_match(&man->large_blk, size)
  unfoldable pub match_large : ℕ → State → Run State ℕ
  match_large size s = bounded (freelist_match fuel s.man.large_blk size s.memory) λ (ptr, list, m).
      done ptr (record s { man = record (s.man) { large_blk = list }; memory = m })

  -- freelists_match(man->freed, size) ?: freelist_match(&man->large_blk, size)
  unfoldable pub match_any : ℕ → State → Run State ℕ
  match_any size s = bounded (freelists_match fuel s.man.freed size s.memory) λ (ptr, lists, m).
      let s' = record s { man = record (s.man) { freed = lists }; memory = m } in
      if ptr == null then match_large size s' else done ptr s'

  unfoldable pub aligned_large : ℕ → ℕ → State → Run State ℕ
  aligned_large size align s =
      bounded (freelist_aligned_match fuel s.man.large_blk size align s.memory) λ (ptr, list, m).
        done ptr (record s { man = record (s.man) { large_blk = list }; memory = m })

  unfoldable pub aligned_any : ℕ → ℕ → State → Run State ℕ
  aligned_any size align s =
      bounded (freelists_aligned_match fuel s.man.freed size align s.memory) λ (ptr, lists, m).
        let s' = record s { man = record (s.man) { freed = lists }; memory = m } in
        if ptr == null then aligned_large size align s' else done ptr s'

-- large_blk_alloc(size, man->large, man->cb_reqmem, man->cb_delmem); `fresh` is what its `malloc`
-- returns. A null callback is called without a test.
unfoldable pub alloc_large : ℕ → ℕ → State → Run State ℕ
alloc_large fresh size s = elim s.man.cb_reqmem [
  | none ↦ fault
  | some reqmem ↦
      let (ptr, blks, m, call) = large_blk_alloc reqmem fresh size s.man.large s.memory in
      let s' = record s { man = record (s.man) { large = blks }; memory = m } in
      elim call [
        | none ↦ done ptr s'
        | some d ↦ if s.man.cb_delmem then done ptr (called (some d) s') else fault
      ]
]

-- ALLOC_LARGE_BLK_SIZE
abbrev pub alloc_large_blk_size : ℕ
alloc_large_blk_size = 16384

-- What the two allocation functions do with a found block; a null one is read through.
abbrev pub or_fault : ℕ → Run State ℕ → Run State ℕ
or_fault ptr run = if ptr == null then fault else run

module _ (fuel fresh : ℕ) where
  unfoldable pub mman_alloc : ℕ → State → Run State ℕ
  mman_alloc size s =
      let size' = request size in
      let cut : ℕ → State → Run State ℕ = λ p k. let (q, k') = hand_out p size' k in done q k' in
      let searched = and_then (match_any fuel size' s) λ ptr s'.
        let (more, s'') = mman_reqmem size' s' in
        let again = and_then (match_large fuel size' s'') λ p k. or_fault p (cut p k) in
        let found = cut ptr s' in
        if ptr == null then (if more then again else done null s'') else found in
      if leb alloc_large_blk_size size' then alloc_large fresh size' s else searched

  -- A large block at an address that is not aligned is freed again.
  unfoldable pub aligned_or_freed : ℕ → ℕ → State → Run State ℕ
  aligned_or_freed align ptr s =
      let freed = and_then (free_large fuel ptr s) λ r s'. done null s' in
      if ptr % align == 0 then done ptr s else freed

  unfoldable pub mman_aligned_alloc : ℕ → ℕ → State → Run State ℕ
  mman_aligned_alloc size align s =
      let size' = request size in
      let cut : ℕ → State → Run State ℕ = λ p k.
        let (p', k') = align_block p align k in let (q, k'') = hand_out p' size' k' in done q k'' in
      let large = and_then (alloc_large fresh size' s) λ ptr s'. aligned_or_freed align ptr s' in
      let searched = and_then (aligned_any fuel size' align s) λ ptr s'.
        let (more, s'') = mman_reqmem (add_size size' align) s' in
        let again = and_then (aligned_large fuel size' align s'') λ p k. or_fault p (cut p k) in
        let found = cut ptr s' in
        if ptr == null then (if more then again else done null s'') else found in
      let whole =
        if leb alloc_large_blk_size size' || leb alloc_large_blk_size align
        then large
        else searched in
      if not (bit_and align (sub_size align 1) == 0)
      then done null s
      else if ltb align 16
      then mman_alloc size s
      else whole

abbrev pub mman_msize : ℕ → State → ℕ
mman_msize ptr s = if ptr == null then 0 else blk_size s.memory ptr

-- The end of the realloc functions: the contents move to a new block. `memcpy` to null faults.
unfoldable pub move_to : ℕ → (ptr size new_ptr : ℕ) → State → Run State ℕ
unfolding copy_words
move_to fuel ptr size new_ptr s =
    let moved = record s { memory = copy_words (size / 8) new_ptr ptr s.memory } in
    let result = and_then (mman_free fuel ptr moved) λ r s'. done new_ptr s' in
    if new_ptr == null && not (size == 0) then fault else result

-- The two realloc functions behind their first checks, with the function that allocates.
unfoldable pub resize : ℕ → (ℕ → State → Run State ℕ) → ℕ → ℕ → State → Run State ℕ
resize fuel alloc ptr newsize s =
    let m = s.memory in
    let size = blk_size m ptr in
    let next = blk_next m ptr in
    let total_size = add_size (add_size size 16) (blk_size m next) in
    let on_page = ptr % size_4k == 0 in
    let shrunk = if on_page then done ptr s else done ptr (try_split_and_free ptr newsize s).1 in
    let (_, man, m') = blk_mergenext detach ptr s.man m in
    let merged = record s { man = man; memory = m' } in
    let grown = done ptr (try_split_and_free ptr newsize merged).1 in
    let moved = and_then (alloc newsize s) λ new_ptr s'. move_to fuel ptr size new_ptr s' in
    let fits_next = not (next == null) && (blk_freed m next && leb newsize total_size) in
    if leb newsize size && not (on_page && leb (2 * size_4k) (size - newsize))
    then shrunk
    else if not on_page && fits_next
    then grown
    else moved

unfoldable pub mman_realloc : (fuel fresh : ℕ) → ℕ → ℕ → State → Run State ℕ
mman_realloc fuel fresh ptr newsize s =
    if ptr == null
    then mman_alloc fuel fresh newsize s
    else resize fuel (mman_alloc fuel fresh) ptr (request newsize) s

unfoldable pub mman_aligned_realloc :
    (fuel fresh : ℕ) → (ptr newsize align : ℕ) → State → Run State ℕ
mman_aligned_realloc fuel fresh ptr newsize align s =
    if ptr == null
    then mman_aligned_alloc fuel fresh newsize align s
    else if not (bit_and align (sub_size align 1) == 0)
    then done null s
    else if ltb align 16
    then mman_realloc fuel fresh ptr newsize s
    else resize fuel (λ n k. mman_aligned_alloc fuel fresh n align k) ptr (request newsize) s
