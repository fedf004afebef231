-- ===== src/Mman/Like.antt =====
-- kernel/src/mm/heap/mman.cpp: the parts that repeat those of pool.cpp with the manager's fields.
use ion_os.Base.{
  ℕ, ◌+◌, ◌-◌, ◌*◌, ◌/◌, ◌%◌, ◌^◌, ◌<◌, ◌≤◌, ◌≡◌, ◌⊎◌, inl, inr, refl, ◌∙◌, sym, subst, Bool, true,
  false, leb, if◌then◌else◌, arith, Bool-cases, none, add_size, ap, [],
}
use ion_os.Memory.{Memory, store, null}
use ion_os.Block.{
  without_free, blk_size, size_bits, blk_split, blk_setalloced, blk_setfreed, blk_poolptr,
  blk_areaptr, size_4k, size_2m,
}
use ion_os.Block.Tags.{Block, Block-of_same, retag-read, blk_setalloced-Block}
use ion_os.Freelist.{freelists_put}
use ion_os.Pool.{Heap}
use ion_os.Pool
use ion_os.Pool.HandOut.{NoHead, HeadsOutside, try_split_and_free-Block, try_split_and_free-frame}
use ion_os.Mman.{State, do_free, try_split_and_free, hand_out, charge, pool_alloced}

-- The manager's free lists as those of a pool.
abbrev pub as_heap : State → Heap
as_heap s = record {
  pool = record {
    ptr = null;
    size = s.man.size;
    alloced_size = s.man.alloced_size;
    cb_reqmem = none;
    cb_delmem = false;
    large_blk = s.man.large_blk;
    freed = s.man.freed;
  };
  memory = s.memory;
  released = [];
}

-- On the free lists and the memory, `do_free` does what the pool's does.
as_heap-do_free : (ptr : ℕ) (s : State) → as_heap (do_free ptr s) ≡ Pool.do_free ptr (as_heap s)
unfolding do_free Pool.do_free
as_heap-do_free ptr s =
    elim (Bool-cases
      (freelists_put s.man.freed ptr (blk_setfreed s.memory ptr (blk_size s.memory ptr))).0) [
        | inl puted ↦ rw puted refl
        | inr unput ↦ rw unput refl
      ]

-- On the free lists and the memory, `try_split_and_free` does what the pool's does, and it answers
-- the same.
pub as_heap-try_split_and_free :
    (ptr size : ℕ) (s : State)
    → let (cut, s') = try_split_and_free ptr size s in
      (cut, as_heap s') ≡ Pool.try_split_and_free ptr size (as_heap s)
unfolding try_split_and_free Pool.try_split_and_free
as_heap-try_split_and_free ptr size s =
    elim (Bool-cases (leb (add_size size 64) (blk_size s.memory ptr))) [
      | inl cut ↦ rw cut (
          ap (λ h. (true, h))
            (as_heap-do_free (blk_split ptr size s.memory).0
              (record s { memory = (blk_split ptr size s.memory).1 })))
      | inr whole ↦ rw whole refl
    ]

-- The address of the area that a block lies in.
abbrev pub area_of : ℕ → Bool → ℕ
area_of ptr big = if big then ptr / size_2m * size_2m else ptr / size_4k * size_4k

-- A block of `old` bytes behind its area's first word, a request that it can hold, and a pool
-- struct that the word names, away from the block; the lists begin elsewhere.
module _ (ptr size old : ℕ) (free big : Bool) (s : State) (low : 16 ≤ ptr) (mult : size % 8 ≡ 0)
    (holds : size ≤ old) (small : old < 2 ^ 63) (b : Block s.memory ptr old free big)
    (out : HeadsOutside (as_heap s) (ptr - 8) (ptr + old + 8)) (front : area_of ptr big < ptr - 8)
    (no_head : NoHead (as_heap s) (area_of ptr big)) (pool : ℕ)
    (named : size_bits (s.memory (area_of ptr big)) ≡ pool)
    (away : (pool + 8 < ptr - 8) ⊎ (ptr + old < pool + 8))
    (apart : NoHead (as_heap s) (pool + 8)) where
  abbrev kept : ℕ
  kept = if leb (size + 64) old then size else old

  abbrev cut_state : State
  cut_state = (try_split_and_free ptr size s).1

  same_memory : cut_state.memory ≡ (Pool.try_split_and_free ptr size (as_heap s)).1.memory
  same_memory = ap (λ r. r.1.memory) (as_heap-try_split_and_free ptr size s)

  same_count : cut_state.man.alloced_size ≡ s.man.alloced_size
  same_count =
      ap (λ r. r.1.pool.alloced_size) (as_heap-try_split_and_free ptr size s)
      ∙ (try_split_and_free-Block ptr size old free big (as_heap s) (omega arith) mult holds small b
          out).2

  cut_Block : (f : Bool) × Block cut_state.memory ptr kept f big
  cut_Block =
      let cut =
        try_split_and_free-Block ptr size old free big (as_heap s) (omega arith) mult holds small b
          out in
      (cut.0, subst (λ m. Block m ptr kept cut.0 big) (sym same_memory) (cut.1))

  same_word :
      (a : ℕ)
      → (a < ptr - 8) ⊎ (ptr + old < a)
      → NoHead (as_heap s) a
      → cut_state.memory a ≡ s.memory a
  same_word a beside heads =
      ap (λ m. m a) same_memory
      ∙ try_split_and_free-frame ptr size old free big (as_heap s) (omega arith) mult holds small b
          out a beside heads

  abbrev tagged : Memory
  tagged = blk_setalloced cut_state.memory ptr kept

  tagged-Block : Block tagged ptr kept false big
  tagged-Block =
      blk_setalloced-Block cut_state.memory ptr kept (cut_Block.0) big (omega arith) (cut_Block.1)

  tagged_beside :
      (a : ℕ) → (a < ptr - 8) ⊎ (ptr + old < a) → NoHead (as_heap s) a → tagged a ≡ s.memory a
  tagged_beside a beside heads =
      let word = retag-read (λ w. without_free w) cut_state.memory ptr kept a (omega arith) in
      let same = same_word a beside heads in ground arith

  poolptr_is : blk_poolptr tagged ptr ≡ pool
  unfolding blk_poolptr blk_areaptr
  poolptr_is =
      rw (tagged-Block.head.big_is, tagged_beside (area_of ptr big) (inl front) no_head) named

  -- The end of an allocation hands out the found block, marked in use, with the bytes asked for and
  -- fewer than 64 more, and adds its size to the counts of the manager and of the pool struct that
  -- the area's first word names.
  pub hand_out-charges :
      let (p, after) = hand_out ptr size s in
      (p ≡ ptr)
      × Block after.memory ptr kept false big
      × ((size ≤ kept) × (kept < size + 64))
      × (pool_alloced after.memory pool ≡ add_size (pool_alloced s.memory pool) kept)
      × (after.man.alloced_size ≡ add_size s.man.alloced_size kept)
  unfolding hand_out charge store
  hand_out-charges =
      let bits : blk_size cut_state.memory ptr ≡ kept = cut_Block.1.head.bits in
      let count : tagged (pool + 8) ≡ s.memory (pool + 8) = tagged_beside (pool + 8) away apart in
      rw (bits, poolptr_is)
        (
          refl,
          Block-of_same tagged _ ptr kept false big (ground arith) (ground arith) tagged-Block,
          (ground arith, ground arith),
          ground arith,
          rw same_count refl,
        )
