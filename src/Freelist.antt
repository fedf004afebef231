-- ===== src/Freelist.antt =====
-- kernel/src/include/mm/alloc/freelist.hpp: doubly linked lists of free blocks. The node of a
-- block lies in its first two words: `next` at ptr, `prev` at ptr + 8. A loop over a list takes
-- fuel; `none` means that it ran out, and `fuel` nodes can be visited.
pub mod Groups
pub mod List
pub mod Put
pub mod Detach
pub mod Match
pub mod Classes
mod Tests
use ion_os.Base.{
  ℕ, zero, suc, ◌+◌, ◌-◌, ◌*◌, ◌/◌, ◌%◌, ◌^◌, Bool, true, false, not, ◌&&◌, ◌==◌, ltb, leb,
  if◌then◌else◌, Option, none, some, add_size, sub_size,
}
use ion_os.Memory.{Memory, store, null}
use ion_os.Block.{blk_size}

abbrev pub freelist_num : ℕ
freelist_num = 8

abbrev pub freelist_maxblksize : ℕ
freelist_maxblksize = 16384

-- The number of binary digits, by fuel.
unfoldable pub digits_of : ℕ → ℕ → ℕ
digits_of zero n = 0
digits_of (suc fuel) n = let rest = digits_of fuel (n / 2) in if n == 0 then 0 else rest + 1

-- __builtin_clz of an unsigned int that is not 0
unfoldable pub clz : ℕ → ℕ
unfolding digits_of
clz n = 32 - digits_of 32 (n % 2 ^ 32)

-- The list for blocks of a size; `none` is the result -1.
unfoldable pub freelists_size2id : ℕ → Option ℕ
unfolding clz
freelists_size2id size =
    if ltb size 64
    then some 0
    else if ltb size 256
    then some 1
    else if leb freelist_maxblksize size
    then none
    else some (32 - 9 - clz size + 2)

abbrev pub next_of : Memory → ℕ → ℕ
next_of m ptr = m ptr

abbrev pub prev_of : Memory → ℕ → ℕ
prev_of m ptr = m (ptr + 8)

-- if (ptr->next) ptr->next->prev = ptr->prev; if (ptr->prev) ptr->prev->next = ptr->next;
unfoldable pub unlink : ℕ → Memory → Memory
unfolding store
unlink ptr m =
    let m' = if next_of m ptr == null then m else store m (next_of m ptr + 8) (prev_of m ptr) in
    if prev_of m' ptr == null then m' else store m' (prev_of m' ptr) (next_of m' ptr)

-- The new first node, and the memory.
unfoldable pub freelist_detach : ℕ → ℕ → Memory → ℕ × Memory
freelist_detach list ptr m = if list == ptr then (next_of m ptr, m) else (list, unlink ptr m)

-- The first nodes of the lists of a group.
abbrev pub Freelists : Type 0
Freelists = ℕ → ℕ

abbrev pub set_list : Freelists → ℕ → ℕ → Freelists
set_list lists id list i = if i == id then list else lists i

unfoldable pub freelists_detach : Freelists → ℕ → ℕ → Memory → Freelists × Memory
freelists_detach lists id ptr m =
    if lists id == ptr then (set_list lists id (next_of m ptr), m) else (lists, unlink ptr m)

-- The loop of the four match functions over one list: the first node that passes the test, or
-- null at the end of the list.
unfoldable pub walk : (ℕ → Bool) → ℕ → Memory → ℕ → Option ℕ
walk test zero m list = none
walk test (suc fuel) m list =
    let rest = walk test fuel m (next_of m list) in
    if list == null then some null else if test list then some list else rest

-- tgt_size >= size
abbrev pub fits : ℕ → Memory → ℕ → Bool
fits size m list = leb size (blk_size m list)

-- PADDING_DOWN and PADDING_UP
abbrev pub padding_down : ℕ → ℕ → ℕ
padding_down size to = size / to * to

abbrev pub padding_up : ℕ → ℕ → ℕ
padding_up size to = padding_down (sub_size (add_size size to) 1) to

-- x <= y for the two 64-bit words read as longs
abbrev pub signed_leb : ℕ → ℕ → Bool
signed_leb x y = leb (add_size x (2 ^ 63)) (add_size y (2 ^ 63))

-- (long)blk_size(ptr) - (long)(PADDING_UP(ptr, align) - (size_t)ptr), its 64 bits
abbrev pub aligned_size_of : Memory → (ptr align : ℕ) → ℕ
aligned_size_of m ptr align = sub_size (blk_size m ptr) (sub_size (padding_up ptr align) ptr)

-- aligned_size_of(list, align) >= (long)size
abbrev pub aligned_fits : ℕ → ℕ → Memory → ℕ → Bool
aligned_fits size align m list = signed_leb size (aligned_size_of m list align)

module _ (fuel : ℕ) where
  -- The found node (or null), the new first node, and the memory.
  unfoldable pub match_where : (Memory → ℕ → Bool) → ℕ → Memory → Option (ℕ × ℕ × Memory)
  match_where test list m = elim (walk (test m) fuel m list) [
    | none ↦ none
    | some ptr ↦
        if ptr == null
        then some (null, list, m)
        else (let (list', m') = freelist_detach list ptr m in some (ptr, list', m'))
  ]

  unfoldable pub freelist_match : ℕ → ℕ → Memory → Option (ℕ × ℕ × Memory)
  unfolding match_where
  freelist_match list size m = match_where (fits size) list m

  unfoldable pub freelist_aligned_match : ℕ → ℕ → ℕ → Memory → Option (ℕ × ℕ × Memory)
  unfolding match_where
  freelist_aligned_match list size align m = match_where (aligned_fits size align) list m

  -- The loop over the lists from `id` on, in `left` rounds.
  unfoldable pub match_lists :
      (Memory → ℕ → Bool) → ℕ → Freelists → ℕ → Memory → Option (ℕ × Freelists × Memory)
  match_lists test zero lists id m = some (null, lists, m)
  match_lists test (suc left) lists id m =
      let rest = match_lists test left lists (id + 1) m in
      elim (walk (test m) fuel m (lists id)) [
        | none ↦ none
        | some ptr ↦
            if ptr == null
            then rest
            else (let (lists', m') = freelists_detach lists id ptr m in some (ptr, lists', m'))
      ]

  -- From the list of the size's class on; null if the size has no class.
  unfoldable pub lists_from :
      (Memory → ℕ → Bool) → Freelists → ℕ → Memory → Option (ℕ × Freelists × Memory)
  unfolding match_lists
  lists_from test lists size m = elim (freelists_size2id size) [
    | none ↦ some (null, lists, m)
    | some id ↦ match_lists test (freelist_num - id) lists id m
  ]

  unfoldable pub freelists_match : Freelists → ℕ → Memory → Option (ℕ × Freelists × Memory)
  unfolding lists_from
  freelists_match lists size m = lists_from (fits size) lists size m

  unfoldable pub freelists_aligned_match :
      Freelists → ℕ → ℕ → Memory → Option (ℕ × Freelists × Memory)
  unfolding lists_from
  freelists_aligned_match lists size align m = lists_from (aligned_fits size align) lists size m

-- The new first node is `ptr`.
unfoldable pub freelist_put : ℕ → ℕ → Memory → Memory
unfolding store
freelist_put list ptr m =
    let m' = store (store m ptr list) (ptr + 8) null in
    if next_of m' ptr == null then m' else store m' (next_of m' ptr + 8) ptr

unfoldable pub freelists_put : Freelists → ℕ → Memory → Bool × Freelists × Memory
unfolding freelist_put
freelists_put lists ptr m = elim (freelists_size2id (blk_size m ptr)) [
  | none ↦ (false, lists, m)
  | some id ↦ (true, set_list lists id ptr, freelist_put (lists id) ptr m)
]
