-- ===== src/LargeBlk/Lists.antt =====
-- kernel/src/include/mm/alloc/large-blk.hpp: what `large_blk_alloc` leaves in the lists.
use ion_os.Base.{ℕ, suc, ◌+◌, ◌≡◌, ◌≢◌, refl, true, false, ◌==◌, if◌then◌else◌, none, some, arith}
use ion_os.Memory.{Memory, store, null}
use ion_os.Block.{padding_4k}
use ion_os.Freelist.{Freelists, set_list, walk, freelist_put}
use ion_os.LargeBlk.{
  ptr_of, size_of, set_fields, large_blk_blokp, large_blk_find, large_blk_alloc, large_blk_free,
  delmem,
}

-- A list of the one descriptor `blk` of the block at `ptr`.
record IsAlone (m : Memory) (blk ptr size : ℕ) : Type 0 where
  next : m blk ≡ null
  ptr_is : ptr_of m blk ≡ ptr
  size_is : size_of m blk ≡ size

walk-alone :
    (fuel blk ptr size q : ℕ) (m : Memory)
    → blk ≢ null
    → IsAlone m blk ptr size
    → walk (λ b. ptr_of m b == q) (suc (suc fuel)) m blk ≡ some (if ptr == q then blk else null)
unfolding walk
walk-alone fuel blk ptr size q m ne alone = ground (arith, alone.next, alone.ptr_is)

module _ (reqmem : ℕ → ℕ → ℕ) (fresh size : ℕ) (blks : Freelists) (m : Memory)
    (got : reqmem null (padding_4k size) ≢ null) (node : fresh ≢ null) where
  abbrev block : ℕ
  block = reqmem null (padding_4k size)

  abbrev lists : Freelists
  lists = set_list blks (large_blk_blokp block) fresh

  abbrev put : Memory
  put =
      freelist_put (blks (large_blk_blokp block)) fresh (set_fields fresh block (padding_4k size) m)

  abbrev after : Memory
  after = store (store (set_fields fresh block (padding_4k size) put) (fresh + 8) null) fresh null

  large_blk_alloc-eq : large_blk_alloc reqmem fresh size blks m ≡ (block, lists, after, none)
  unfolding large_blk_alloc
  large_blk_alloc-eq =
      let some_node : (fresh == null) ≡ false = ground arith in
      let some_block : (block == null) ≡ false = ground arith in
      rw (some_node, some_block, some_node)

  after-IsAlone : IsAlone after fresh block (padding_4k size)
  unfolding store set_fields
  after-IsAlone = record { next = ground arith; ptr_is = ground arith; size_is = ground arith }

  find-after :
      (fuel q : ℕ)
      → large_blk_blokp q ≡ large_blk_blokp block
      → large_blk_find (suc (suc fuel)) lists q after ≡ some (if block == q then fresh else null)
  unfolding large_blk_find
  find-after fuel q same =
      let here : lists (large_blk_blokp q) ≡ fresh = ground arith in
      rw here (walk-alone fuel fresh block (padding_4k size) q after node after-IsAlone)

  free-miss :
      (fuel q : ℕ)
      → large_blk_blokp q ≡ large_blk_blokp block
      → q ≢ block
      → large_blk_free (suc (suc fuel)) lists q after ≡ some (false, lists, after, none)
  unfolding large_blk_free
  free-miss fuel q same other =
      let miss : (block == q) ≡ false = ground arith in
      rw (find-after fuel q same, large_blk_free, miss)

  free-hit :
      (fuel : ℕ)
      → large_blk_free (suc (suc fuel)) lists block after
        ≡ some (
          true,
          set_list lists (large_blk_blokp block) null,
          after,
          some (delmem block (padding_4k size)),
        )
  unfolding large_blk_free
  free-hit fuel =
      let hit : (block == block) ≡ true = ground arith in
      let some_node : (fresh == null) ≡ false = ground arith in
      let head : (lists (large_blk_blokp block) == fresh) ≡ true = ground arith in
      rw (find-after fuel block refl, large_blk_free, hit, some_node, head)
        (rw (after-IsAlone.next, after-IsAlone.ptr_is, after-IsAlone.size_is))

  -- After a successful allocation no block that was in the same list before can be freed: the
  -- descriptor is put in front of the list and its links are cleared, so the list ends behind it,
  -- and `large_blk_free` of any other pointer of the list finds nothing.
  pub large_blk_alloc-forgets :
      (fuel q : ℕ)
      → large_blk_blokp q ≡ large_blk_blokp block
      → q ≢ block
      → let (_, blks', m', _) = large_blk_alloc reqmem fresh size blks m in
        large_blk_free (suc (suc fuel)) blks' q m' ≡ some (false, blks', m', none)
  large_blk_alloc-forgets fuel q same other = rw large_blk_alloc-eq (free-miss fuel q same other)

  -- The block allocated last is found and freed: `delmem` gets its address and its size, padded to
  -- 4096 bytes, and its list is empty.
  pub large_blk_free-large_blk_alloc :
      (fuel : ℕ)
      → let (ptr, blks', m', _) = large_blk_alloc reqmem fresh size blks m in
        large_blk_free (suc (suc fuel)) blks' ptr m'
        ≡ some (
          true,
          set_list blks' (large_blk_blokp ptr) null,
          m',
          some (delmem ptr (padding_4k size)),
        )
  large_blk_free-large_blk_alloc fuel = rw large_blk_alloc-eq (free-hit fuel)
