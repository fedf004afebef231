-- ===== src/Mman/Init.antt =====
-- kernel/src/mm/heap/mman.cpp: `mman_init`.
use ion_os.Base.{
  ℕ, ◌+◌, ◌-◌, ◌*◌, ◌/◌, ◌%◌, ◌≤◌, ◌≡◌, ◌≢◌, ◌⊎◌, ◌↔◌, refl, true, false, not, ◌||◌, ◌&&◌, ◌==◌,
  if◌then◌else◌, arith, [], ◌∷◌,
}
use ion_os.Memory.{Memory, store, null}
use ion_os.Block.{size_2m, size_4k, blk_poolptr, blk_areaptr}
use ion_os.Block.Tags.{Block, Block-of_same}
use ion_os.Freelist.{freelist_put}
use ion_os.Freelist.List.{DList}
use ion_os.Freelist.Put.{freelist_put-DList}
use ion_os.Area.{allocarea_init}
use ion_os.Area.Init.{allocarea_init-Block}
use ion_os.Mman.{State, mman_init, fresh_state, set_pool, pool_ptr, pool_alloced}
use ion_os.Mman.Pools.{Pools}

-- `mman_init` accepts an area exactly when its address is not null and it has 4 KiB or 2 MiB; else
-- it returns false and changes nothing.
pub mman_init_iff :
    (ptr size : ℕ) (s : State)
    → (((mman_init ptr size s).0 ≡ true) ↔ ((ptr ≢ null) × ((size ≡ size_4k) ⊎ (size ≡ size_2m))))
      × ((mman_init ptr size s).0 ≡ false → (mman_init ptr size s).1 ≡ s)
unfolding mman_init
mman_init_iff ptr size s = ((λ e. ground arith, λ e. ground arith), λ e. ground arith)

module _ (ptr size : ℕ) (s : State) (ne : ptr ≢ null) (page : (size ≡ size_4k) ⊎ (size ≡ size_2m))
    (aligned : ptr % size ≡ 0) (some_main : s.man.main ≢ null) (mult : s.man.main % 8 ≡ 0)
    (apart : (s.man.main + 24 ≤ ptr) ⊎ (ptr + size ≤ s.man.main)) where
  abbrev main : ℕ
  main = s.man.main

  abbrev m : Memory
  m = allocarea_init ptr size main (set_pool main ptr 0 null s.memory)

  abbrev m' : Memory
  m' = freelist_put null (ptr + 16) m

  mman_init-eq : mman_init ptr size s ≡ (true, fresh_state ptr size s)
  unfolding mman_init
  mman_init-eq =
      let some_area : (ptr == null || size == 0) ≡ false = ground arith in
      let fits : (not (size == size_2m) && not (size == size_4k)) ≡ false = ground arith in
      rw (some_area, fits) refl

  -- An accepted area, aligned to its size, holds one free block of all but 32 bytes, alone on the
  -- large list. The block's pool struct is the manager's own, alone in the list of structs, with
  -- the area's address and no bytes in use.
  pub mman_init-Block :
      let (accepted, s') = mman_init ptr size s in
      (accepted ≡ true)
      × Block s'.memory (ptr + 16) (size - 32) true (size == size_2m)
      × DList s'.memory s'.man.large_blk ((ptr + 16) ∷ [])
      × (blk_poolptr s'.memory (ptr + 16) ≡ main)
      × Pools s'.memory main (main ∷ [])
      × ((pool_ptr s'.memory main ≡ ptr) × (pool_alloced s'.memory main ≡ 0))
  unfolding fresh_state set_pool store blk_poolptr blk_areaptr
  mman_init-Block =
      let area =
        allocarea_init-Block ptr size main (set_pool main ptr 0 null s.memory) (ground arith)
          (ground arith) (ground arith) mult in
      let put = freelist_put-DList m null (ptr + 16) [] (omega arith) refl (tt, tt) in
      let head : m' (ptr + 16 - 8) ≡ m (ptr + 16 - 8) =
        put.1 (ptr + 16 - 8) (omega arith, omega arith, tt) in
      let tail : m' (ptr + 16 + (size - 32)) ≡ m (ptr + 16 + (size - 32)) =
        put.1 (ptr + 16 + (size - 32)) (ground arith, ground arith, tt) in
      let block =
        Block-of_same m m' (ptr + 16) (size - 32) true (size == size_2m) head tail (area.0) in
      let front : m' ptr ≡ m ptr = put.1 ptr (omega arith, omega arith, tt) in
      let field : (a : ℕ) → (a ≡ main) ⊎ ((a ≡ main + 8) ⊎ (a ≡ main + 16)) → m' a ≡ m a =
        λ a e. put.1 a (ground arith, ground arith, tt) in
      let area_is : (if size == size_2m
            then (ptr + 16) / size_2m * size_2m
            else (ptr + 16) / size_4k * size_4k)
          ≡ ptr =
        ground arith in
      rw mman_init-eq (
        refl,
        block,
        put.0,
        rw (block.head.big_is, area_is, front) (area.2),
        (refl, some_main, ground (arith, field (main + 16), area.3 (main + 16))),
        (
          ground (arith, field main, area.3 main),
          ground (arith, field (main + 8), area.3 (main + 8)),
        ),
      )
