-- ===== src/LargeBlk.antt =====
-- kernel/src/include/mm/alloc/large-blk.hpp: blocks too large for an area, each with a descriptor
-- from `malloc` in one of 16 lists: its list node, then the block's address and size. The address
-- that `malloc` returns and the callbacks are arguments; a call of `cb_delmem` is an output.
pub mod Lists
mod Tests
use ion_os.Base.{
  ℕ, ◌+◌, ◌*◌, ◌/◌, ◌%◌, Bool, true, false, ◌==◌, if◌then◌else◌, Option, none, some, bit_or,
}
use ion_os.Memory.{Memory, store, null}
use ion_os.Block.{padding_4k, size_4k}
use ion_os.Freelist.{Freelists, set_list, walk, freelist_put, freelist_detach}

abbrev pub largeblklist_num : ℕ
largeblklist_num = 16

-- The fields `ptr` and `size` of a descriptor.
abbrev pub ptr_of : Memory → ℕ → ℕ
ptr_of m blk = m (blk + 16)

abbrev pub size_of : Memory → ℕ → ℕ
size_of m blk = m (blk + 24)

unfoldable pub set_fields : ℕ → ℕ → ℕ → Memory → Memory
unfolding store
set_fields blk ptr size m = store (store m (blk + 16) ptr) (blk + 24) size

-- The number of a pointer's list.
unfoldable pub large_blk_blokp : ℕ → ℕ
large_blk_blokp ptr =
    bit_or (ptr / size_4k) (ptr / size_4k / largeblklist_num / 2) % largeblklist_num

-- `fresh` is what `malloc` returns. The result is the descriptor or null.
unfoldable pub large_blk_put : ℕ → Freelists → ℕ → ℕ → Memory → ℕ × Freelists × Memory
unfolding set_fields freelist_put
large_blk_put fresh blks ptr size m =
    let id = large_blk_blokp ptr in
    if fresh == null
    then (null, blks, m)
    else (fresh, set_list blks id fresh, freelist_put (blks id) fresh (set_fields fresh ptr size m))

unfoldable pub large_blk_find : ℕ → Freelists → ℕ → Memory → Option ℕ
large_blk_find fuel blks ptr m =
    walk (λ blk. ptr_of m blk == ptr) fuel m (blks (large_blk_blokp ptr))

-- A call of cb_delmem.
pub record Delmem : Type 0 where
  pub ptr : ℕ
  pub size : ℕ

abbrev pub delmem : ℕ → ℕ → Delmem
delmem p n = record { ptr = p; size = n }

-- The block's address or null, the lists, the memory, and the call of `delmem` if there is one.
unfoldable pub large_blk_alloc :
    (ℕ → ℕ → ℕ) → ℕ → ℕ → Freelists → Memory → ℕ × Freelists × Memory × Option Delmem
unfolding large_blk_put
large_blk_alloc reqmem fresh size blks m =
    let padded = padding_4k size in
    let ptr = reqmem null padded in
    let (blk, blks', m') = large_blk_put fresh blks ptr padded m in
    if ptr == null
    then (null, blks, m, none)
    else if blk == null
    then (null, blks', m', some (delmem ptr padded))
    else (ptr, blks', store (store (set_fields blk ptr padded m') (blk + 8) null) blk null, none)

-- Whether a block was freed, the lists, the memory, and the call of `delmem`; `none` means that
-- the fuel ran out.
unfoldable pub large_blk_free :
    ℕ → Freelists → ℕ → Memory → Option (Bool × Freelists × Memory × Option Delmem)
unfolding freelist_detach
large_blk_free fuel blks ptr m = elim (large_blk_find fuel blks ptr m) [
  | none ↦ none
  | some blk ↦
      let id = large_blk_blokp ptr in
      let (list, m') = freelist_detach (blks id) blk m in
      if blk == null
      then some (false, blks, m, none)
      else some (true, set_list blks id list, m', some (delmem (ptr_of m' blk) (size_of m' blk)))
]
