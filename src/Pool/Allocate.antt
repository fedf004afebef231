-- ===== src/Pool/Allocate.antt =====
-- kernel/src/mm/heap/pool.cpp: `mpool_alloc` keeps a pool well-formed.
use ion_os.Base.{ℕ, ◌<◌, ◌≡◌, ◌⊎◌, inl, inr, refl, ap, true, false, Option, none, List, arith, ◌==◌}
use ion_os.Base.Lists.{length}
use ion_os.Memory.{null}
use ion_os.Machine.{done}
use ion_os.Block.{blk_size}
use ion_os.Pool.{Heap, mpool_reqmem, hand_out}
use ion_os.Pool.Calls.{mpool_alloc, request}
use ion_os.Pool.Inv.{IsPool}
use ion_os.Pool.HandOut.{hand_out-Block}
use ion_os.Pool.Alloc.{match_any-Took, padding_lem, kept_of}
use ion_os.Pool.Layout.{ClearOf}
use ion_os.Pool.Split.{hand_out-IsPool}

-- In a well-formed pool without a callback to request memory, with fuel for every list,
-- `mpool_alloc` either returns null and changes nothing, or returns a block and leaves a
-- well-formed pool, none of whose listed blocks meets the block that was returned.
pub mpool_alloc-IsPool :
    (fuel size : ℕ) (h : Heap) (nodes : Option ℕ → List ℕ)
    → IsPool h nodes
    → ((l : Option ℕ) → length (nodes l) < fuel)
    → h.pool.cb_reqmem ≡ none
    → (mpool_alloc fuel size h ≡ done null h)
      ⊎ ((x : ℕ) × (after : Heap) × (nodes' : Option ℕ → List ℕ) × (mpool_alloc fuel size h
            ≡ done x after)
          × IsPool after nodes'
          × ClearOf after.memory nodes' x (kept_of size (blk_size h.memory x)))
unfolding mpool_alloc mpool_reqmem
mpool_alloc-IsPool fuel size h nodes inv enough alone =
    elim (match_any-Took fuel (request size) h nodes inv enough) [
      | inl nothing ↦ inl (rw (nothing.1, alone, mpool_alloc) refl)
      | inr t ↦
          let room = inv.large_enough (t.l) (t.x) (t.listed) in
          let padded = padding_lem size in
          let not_null : (t.x == null) ≡ false = ground arith in
          let out =
            hand_out-Block (t.x) (request size) (blk_size h.memory t.x) true (t.big) (t.after)
              (room.0) (padded.0) (t.holds) (room.2) (t.block) (t.outside) in
          let (nodes', inv', clear') =
            hand_out-IsPool (t.x) (request size) (blk_size h.memory t.x) true (t.big) (t.after)
              (t.left) (t.pool) (room.0) (padded.0) (t.holds) (room.2) (t.block) (t.clear)
              (t.outside) in
          inr (
            t.x,
            (hand_out t.x (request size) t.after).1,
            nodes',
            rw (t.returns, not_null, mpool_alloc)
                (ap (λ p. done p (hand_out t.x (request size) t.after).1) (out.0)),
            inv',
            clear',
          )
    ]
