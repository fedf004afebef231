-- ===== src/Mman/Tests.antt =====
-- A manager whose struct is at 512 with an area of 4096 bytes at 8192, and the theorems at it.
use ion_os.Base.{
  ℕ, ◌+◌, ◌≡◌, ◌≤◌, ◌<◌, inl, refl, true, false, arith, none, some, if◌then◌else◌, leb, [], ◌∷◌,
  add_size,
}
use ion_os.Base.Lists.{length}
use ion_os.Memory.{Memory, null, store}
use ion_os.Machine.{done, fault, and_then}
use ion_os.Block.{blk_poolptr, blk_split, set_sized}
use ion_os.Block.Tags.{Block}
use ion_os.Freelist.List.{DList}
use ion_os.Freelist.{
  freelist_put, freelists_match, freelists_size2id, walk, freelist_match, freelist_detach,
}
use ion_os.Area.{allocarea_init}
use ion_os.Mman.{
  fresh_state, mman_reqmem, add_area, charge, area_for, State, mman_init, hand_out, mman_setcb,
  pool_ptr, pool_alloced, try_split_and_free,
}
use ion_os.Mman.Calls.{match_any, match_large, mman_alloc}
use ion_os.Mman.Release.{mman_deinit, mman_delmem}
use ion_os.Mman.Init.{mman_init-Block}
use ion_os.Mman.Like.{hand_out-charges}
use ion_os.Mman.Pools.{Pools, mman_deinit-fault, mman_delmem-Pools}

abbrev empty_state : State
empty_state = record {
  man = record {
    main = 512;
    size = 0;
    alloced_size = 0;
    cb_reqmem = none;
    cb_delmem = false;
    large_blk = 0;
    freed = λ id. 0;
    large = λ id. 0;
  };
  memory = λ a. 0;
  released = [];
}

fresh-Block :
    let (accepted, s') = mman_init 8192 4096 empty_state in
    (accepted ≡ true)
    × Block s'.memory 8208 4064 true false
    × DList s'.memory s'.man.large_blk (8208 ∷ [])
    × (blk_poolptr s'.memory 8208 ≡ 512)
    × Pools s'.memory 512 (512 ∷ [])
    × ((pool_ptr s'.memory 512 ≡ 8192) × (pool_alloced s'.memory 512 ≡ 0))
fresh-Block =
    mman_init-Block 8192 4096 empty_state (omega arith) (inl refl) (omega arith) (omega arith)
      (omega arith) (inl (omega arith))

-- Three pool structs, at 512, 8208 and 12304.
abbrev three_pools : Memory
three_pools = store (store (λ a. 0) 528 8208) 8224 12304

abbrev with_pools : State
with_pools = record empty_state {
  man = record (empty_state.man) { cb_delmem = true };
  memory = three_pools;
}

three_pools-Pools : Pools three_pools 512 (512 ∷ 8208 ∷ 12304 ∷ [])
unfolding store
three_pools-Pools = (refl, omega arith, (refl, omega arith, (refl, omega arith, refl)))

mman_deinit-fault_example : mman_deinit 3 with_pools ≡ fault
mman_deinit-fault_example =
    mman_deinit-fault 3 with_pools (8208 ∷ 12304 ∷ []) refl (three_pools-Pools.2) (omega arith)

mman_delmem-Pools_example :
    (s' : State) × (mman_delmem 3 8208 with_pools ≡ done true s')
    × Pools s'.memory s'.man.main (512 ∷ 12304 ∷ [])
    × (length s'.released ≡ 1)
    × (s'.man.large_blk ≡ 0)
    × ((id : ℕ) → s'.man.freed id ≡ 0)
mman_delmem-Pools_example =
    mman_delmem-Pools 3 with_pools 512 8208 [] (12304 ∷ []) refl three_pools-Pools
      ((omega arith, (omega arith, tt)), ((omega arith, tt), (tt, tt))) (omega arith)

-- The manager once `freelist_match` took the block out of the large list.
abbrev matched : State
matched =
    let s = (mman_init 8192 4096 empty_state).1 in
    record s { man = record (s.man) { large_blk = null } }

hand_out-charges_example :
    let (p, after) = hand_out 8208 128 matched in
    let kept : ℕ = if leb (128 + 64) 4064 then 128 else 4064 in
    (p ≡ 8208)
    × Block after.memory 8208 kept false false
    × ((128 ≤ kept) × (kept < 128 + 64))
    × (pool_alloced after.memory 512 ≡ add_size (pool_alloced matched.memory 512) kept)
    × (after.man.alloced_size ≡ add_size matched.man.alloced_size kept)
unfolding mman_init fresh_state freelist_put allocarea_init store
hand_out-charges_example =
    hand_out-charges 8208 128 4064 true false matched (omega arith) (omega arith) (omega arith)
      (omega arith) (fresh-Block.1) (λ id. inl refl, inl refl) (omega arith)
      (λ id. inl refl, inl refl) 512 refl (inl (omega arith)) (λ id. inl refl, inl refl)

-- With the first area full, a request of 4032 bytes gets an area of 4 KiB, whose free block has
-- 4016 bytes: the second search finds nothing, and its null result is used as a block.
abbrev granting : State
granting = mman_setcb (some (λ ptr size. 65536)) false (mman_init 8192 4096 empty_state).1

second_alloc-fault : and_then (mman_alloc 4 0 4032 granting) (λ p s. mman_alloc 4 0 4032 s) ≡ fault
unfolding mman_setcb mman_init fresh_state freelist_put allocarea_init store mman_alloc match_any
    match_large mman_reqmem add_area hand_out charge try_split_and_free area_for freelists_match
    freelists_size2id walk freelist_match freelist_detach blk_split set_sized
second_alloc-fault = refl
