-- ===== src/Pool/Start.antt =====
-- kernel/src/mm/heap/pool.cpp: the pool that `mpool_init` makes.
use ion_os.Base.{
  ℕ, ◌+◌, ◌-◌, ◌%◌, ◌^◌, ◌<◌, ◌≤◌, ◌≡◌, ◌≢◌, inl, inr, refl, sym, ◌∙◌, true, Option, some, none,
  List, [], ◌∷◌, arith, ◌==◌,
}
use ion_os.Memory.{Memory, null}
use ion_os.Block.{blk_size, size_2m}
use ion_os.Block.Tags.{Block}
use ion_os.Pool.{Heap, mpool_init}
use ion_os.Pool.Init.{mpool_init-Block}
use ion_os.Freelist.List.{DList, Separate}
use ion_os.Pool.Inv.{IsPool, Among, Elsewhere, head_of}

-- The lists of a pool with one block.
abbrev pub only_block : ℕ → Option ℕ → List ℕ
only_block x none = x ∷ []
only_block x (some id) = []

-- After `mpool_init` of an area of at least 48 bytes, a multiple of 16 below 2 ^ 63, the pool is
-- well-formed, with the area's one block on the large list.
pub mpool_init-IsPool :
    (ptr size : ℕ) (h : Heap)
    → ptr ≢ null
    → 48 ≤ size
    → size < 2 ^ 63
    → size % 16 ≡ 0
    → IsPool (mpool_init ptr size h).1 (only_block (ptr + 16))
mpool_init-IsPool ptr size h ne large small mult =
    let start = mpool_init-Block ptr size h ne large (omega arith) mult in
    let m = (mpool_init ptr size h).1.memory in
    let bits : blk_size m (ptr + 16) ≡ size - 32 = start.1.head.bits in
    record {
      chained = λ l.
          elim l as (λ l. DList m (head_of (mpool_init ptr size h).1 l) (only_block (ptr + 16) l)) [
            | none ↦ start.3
            | some id ↦ start.4 id
          ];
      separate = λ l. elim l as (λ l. Separate (only_block (ptr + 16) l)) [
        | none ↦ (tt, tt)
        | some id ↦ tt
      ];
      large_enough = λ l x a. large_enough_at m l x a bits;
      blocks = λ l x a. (size == size_2m, block_at m l x a bits (start.1));
      elsewhere = λ l l' x y a b. elsewhere_at m l l' x y a b;
    }
  where
    large_enough_at :
        (m : Memory) (l : Option ℕ) (x : ℕ)
        → Among x (only_block (ptr + 16) l)
        → blk_size m (ptr + 16) ≡ size - 32
        → (8 ≤ x) × (16 ≤ blk_size m x) × (blk_size m x < 2 ^ 63)
    large_enough_at m none x (inl e) bits =
        rw e (omega arith, omega (arith, bits), omega (arith, bits))
    large_enough_at m none x (inr a) bits = absurd a
    large_enough_at m (some id) x a bits = absurd a

    block_at :
        (m : Memory) (l : Option ℕ) (x : ℕ)
        → Among x (only_block (ptr + 16) l)
        → blk_size m (ptr + 16) ≡ size - 32
        → Block m (ptr + 16) (size - 32) true (size == size_2m)
        → Block m x (blk_size m x) true (size == size_2m)
    block_at m none x (inl e) bits b = rw (e, bits) b
    block_at m none x (inr a) bits b = absurd a
    block_at m (some id) x a bits b = absurd a

    elsewhere_at :
        (m : Memory) (l l' : Option ℕ) (x y : ℕ)
        → Among x (only_block (ptr + 16) l)
        → Among y (only_block (ptr + 16) l')
        → Elsewhere m l l' x y
    elsewhere_at m none none x y (inl e) (inl e') = inl (e ∙ sym e', refl)
    elsewhere_at m none none x y (inr a) b = absurd a
    elsewhere_at m none none x y (inl e) (inr b) = absurd b
    elsewhere_at m (some id) l' x y a b = absurd a
    elsewhere_at m none (some id) x y a b = absurd b
