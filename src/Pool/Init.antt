-- ===== src/Pool/Init.antt =====
-- kernel/src/mm/heap/pool.cpp: `mpool_init`.
use ion_os.Base.{
  ℕ, ◌+◌, ◌-◌, ◌%◌, ◌^◌, ◌<◌, ◌≤◌, ◌≡◌, ◌≢◌, ◌↔◌, refl, true, false, ◌||◌, ◌==◌, bit_and, arith, [],
  ◌∷◌,
}
use ion_os.Base.Masks.{bit_and_fifteen}
use ion_os.Memory.{null}
use ion_os.Block.{area_flag, size_2m}
use ion_os.Block.Tags.{Block, Block-of_same}
use ion_os.Freelist.{freelist_put}
use ion_os.Freelist.List.{DList}
use ion_os.Freelist.Put.{freelist_put-DList}
use ion_os.Area.{allocarea_init}
use ion_os.Area.Init.{allocarea_init-Block}
use ion_os.Pool.{Heap, mpool_init, fresh_heap}

-- `mpool_init` accepts an area exactly when its address is not null and its size is a positive
-- multiple of 16; else it returns false and changes nothing.
pub mpool_init_iff :
    (ptr size : ℕ) (h : Heap)
    → (((mpool_init ptr size h).0 ≡ true) ↔ ((ptr ≢ null) × (size ≢ 0) × (size % 16 ≡ 0)))
      × ((mpool_init ptr size h).0 ≡ false → (mpool_init ptr size h).1 ≡ h)
unfolding mpool_init
mpool_init_iff ptr size h =
    rw bit_and_fifteen ((λ e. ground arith, λ e. ground arith), λ e. ground arith)

module _ (ptr size : ℕ) (h : Heap) (ne : ptr ≢ null) (large : 48 ≤ size) (small : size < 2 ^ 64)
    (mult : size % 16 ≡ 0) where
  mpool_init-eq : mpool_init ptr size h ≡ (true, fresh_heap ptr size h)
  unfolding mpool_init
  mpool_init-eq =
      let some_area : (ptr == null || size == 0) ≡ false = ground arith in
      let aligned : (bit_and size 15 == 0) ≡ true = ground (arith, bit_and_fifteen size) in
      rw (some_area, aligned)

  -- For an accepted size of at least 48 bytes the pool holds one free block, of the whole area
  -- less 32 bytes, alone on the large list; the eight small lists are empty.
  pub mpool_init-Block :
      let (accepted, h') = mpool_init ptr size h in
      (accepted ≡ true)
      × Block h'.memory (ptr + 16) (size - 32) true (size == size_2m)
      × ((area_flag (h'.memory ptr) ≡ true) × (area_flag (h'.memory (ptr + size - 8)) ≡ true))
      × DList h'.memory h'.pool.large_blk ((ptr + 16) ∷ [])
      × ((id : ℕ) → h'.pool.freed id ≡ null)
      × (h'.pool.alloced_size ≡ 0)
  unfolding fresh_heap
  mpool_init-Block =
      let m = allocarea_init ptr size null h.memory in
      let m' = freelist_put null (ptr + 16) m in
      let area =
        allocarea_init-Block ptr size null h.memory (omega arith) small (omega arith) refl in
      let put = freelist_put-DList m null (ptr + 16) [] (omega arith) refl (tt, tt) in
      let head : m' (ptr + 16 - 8) ≡ m (ptr + 16 - 8) =
        put.1 (ptr + 16 - 8) (omega arith, omega arith, tt) in
      let tail : m' (ptr + 16 + (size - 32)) ≡ m (ptr + 16 + (size - 32)) =
        put.1 (ptr + 16 + (size - 32)) (omega arith, omega arith, tt) in
      let front : m' ptr ≡ m ptr = put.1 ptr (omega arith, omega arith, tt) in
      let back : m' (ptr + size - 8) ≡ m (ptr + size - 8) =
        put.1 (ptr + size - 8) (omega arith, omega arith, tt) in
      rw mpool_init-eq (
        refl,
        Block-of_same m m' (ptr + 16) (size - 32) true (size == size_2m) head tail area.0,
        (rw front (area.1.0), rw back (area.1.1)),
        put.0,
        λ id. refl,
        refl,
      )
