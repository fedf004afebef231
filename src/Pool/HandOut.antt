-- ===== src/Pool/HandOut.antt =====
-- kernel/src/mm/heap/pool.cpp: `do_free`, `try_split_and_free` and the end of the allocations.
use ion_os.Base.{
  ◌∙◌, ℕ, ◌+◌, ◌-◌, ◌%◌, ◌^◌, ◌<◌, ◌≤◌, ◌≡◌, ◌≢◌, ◌⊎◌, inl, inr, refl, Bool, false, leb,
  if◌then◌else◌, arith, Bool-cases, Option-cases, add_size,
}
use ion_os.Memory.{Memory, null}
use ion_os.Block.{blk_size, with_free, blk_split, blk_setfreed}
use ion_os.Block.Tags.{Block, Block-of_same, retag-read, blk_split-Block, blk_setalloced-Block}
use ion_os.Freelist.{freelists_size2id, freelists_put}
use ion_os.Freelist.Put.{freelist_put-read}
use ion_os.Pool.{Heap, do_free, try_split_and_free, hand_out}

-- `a` is not the `prev` word of the first node of a list.
abbrev pub NoHead : Heap → ℕ → Type 0
NoHead h a =
    ((id : ℕ) → (h.pool.freed id ≡ null) ⊎ (a ≢ h.pool.freed id + 8))
    × ((h.pool.large_blk ≡ null) ⊎ (a ≢ h.pool.large_blk + 8))

-- `a` is no word that `do_free` of `ptr` writes for the block itself.
abbrev pub NotOf : ℕ → ℕ → ℕ → Type 0
NotOf ptr size a = (a ≢ ptr - 8) × (a ≢ ptr + size) × (a ≢ ptr) × (a ≢ ptr + 8)

module _ (ptr : ℕ) (h : Heap) (low : 8 ≤ ptr) where
  abbrev tagged : Memory
  tagged = blk_setfreed h.memory ptr (blk_size h.memory ptr)

  freelists_put-frame :
      (a : ℕ)
      → NotOf ptr (blk_size h.memory ptr) a
      → NoHead h a
      → (freelists_put h.pool.freed ptr tagged).2 a ≡ h.memory a
  unfolding freelists_put
  freelists_put-frame a out heads =
      let plain = retag-read (λ w. with_free w) h.memory ptr (blk_size h.memory ptr) a low in
      elim (Option-cases (freelists_size2id (blk_size tagged ptr))) [
        | inl none_id ↦ rw (none_id, freelists_put) (ground (arith, plain))
        | inr (id, e) ↦
            rw (e, freelists_put)
              (ground (arith, plain, heads.0 id, freelist_put-read tagged (h.pool.freed id) ptr a))
      ]

  -- `do_free` writes only to the tags and the node of the block and to the first nodes' `prev`.
  pub do_free-frame :
      (a : ℕ)
      → NotOf ptr (blk_size h.memory ptr) a
      → NoHead h a
      → (do_free ptr h).memory a ≡ h.memory a
  unfolding do_free
  do_free-frame a out heads =
      let small = freelists_put-frame a out heads in
      let large =
        freelist_put-read (freelists_put h.pool.freed ptr tagged).2 h.pool.large_blk ptr a in
      elim (Bool-cases (freelists_put h.pool.freed ptr tagged).0) [
        | inl puted ↦ rw (puted, do_free) small
        | inr unput ↦ rw (unput, do_free) (ground (arith, large, small, heads.1))
      ]

  pub alloced_size-do_free : (do_free ptr h).pool.alloced_size ≡ h.pool.alloced_size
  unfolding do_free
  alloced_size-do_free = elim (Bool-cases (freelists_put h.pool.freed ptr tagged).0) [
    | inl puted ↦ rw (puted, do_free)
    | inr unput ↦ rw (unput, do_free)
  ]

-- The words [lo, hi) hold no `prev` of a first node.
abbrev pub HeadsOutside : Heap → ℕ → ℕ → Type 0
HeadsOutside h lo hi =
    ((id : ℕ) → (h.pool.freed id ≡ null) ⊎ (h.pool.freed id + 16 ≤ lo) ⊎ (hi ≤ h.pool.freed id))
    × ((h.pool.large_blk ≡ null) ⊎ (h.pool.large_blk + 16 ≤ lo) ⊎ (hi ≤ h.pool.large_blk))

NoHead-of_outside : (h : Heap) (lo hi a : ℕ) → HeadsOutside h lo hi → lo ≤ a → a < hi → NoHead h a
NoHead-of_outside h lo hi a out le lt = (λ id. ground (arith, out.0 id), ground (arith, out.1))

-- A block of `old` bytes in a pool whose lists begin elsewhere, and a request that it can hold.
module _ (ptr size old : ℕ) (free big : Bool) (h : Heap) (low : 8 ≤ ptr) (mult : size % 8 ≡ 0)
    (holds : size ≤ old) (small : old < 2 ^ 63) (b : Block h.memory ptr old free big)
    (out : HeadsOutside h (ptr - 8) (ptr + old + 8)) where
  abbrev split : ℕ × Memory
  split = blk_split ptr size h.memory

  -- If 64 bytes or more are left over, the block is cut to the request; else it stays whole.
  pub try_split_and_free-Block :
      let kept = if leb (size + 64) old then size else old in
      let after = (try_split_and_free ptr size h).1 in
      (f : Bool) × Block after.memory ptr kept f big
      × (after.pool.alloced_size ≡ h.pool.alloced_size)
  unfolding try_split_and_free
  try_split_and_free-Block =
      let sum : (size + 64) % 2 ^ 64 ≡ size + 64 = omega arith in
      elim (Bool-cases (leb (size + 64) old)) [
        | inl cut ↦
            let halves =
              blk_split-Block h.memory ptr size old free big low mult (ground arith) (omega arith)
                b in
            let h' = record h { memory = split.1 } in
            let rest = (rw halves.0 at halves.2) in
            let out' : HeadsOutside h' (ptr - 8) (ptr + old + 8) = out in
            let bits : blk_size split.1 split.0 ≡ old - size - 16 = halves.2.head.bits in
            let head =
              do_free-frame split.0 h' (rw (halves.0) (omega arith)) (ptr - 8)
                (rw (bits, halves.0) (ground arith))
                (NoHead-of_outside h' (ptr - 8) (ptr + old + 8) (ptr - 8) out' (omega arith)
                  (omega arith)) in
            let tail =
              do_free-frame split.0 h' (rw (halves.0) (omega arith)) (ptr + size)
                (rw (bits, halves.0) (ground arith))
                (NoHead-of_outside h' (ptr - 8) (ptr + old + 8) (ptr + size) out' (omega arith)
                  (ground arith)) in
            rw (b.head.bits, sum, cut)
              (
                false,
                Block-of_same split.1 _ ptr size false big head tail halves.1,
                alloced_size-do_free split.0 h' (rw (halves.0) (omega arith)),
              )
        | inr whole ↦ rw (b.head.bits, sum, whole) (free, b, refl)
      ]

  -- No word beside the block and the first nodes changes.
  pub try_split_and_free-frame :
      (a : ℕ)
      → (a < ptr - 8) ⊎ (ptr + old < a)
      → NoHead h a
      → (try_split_and_free ptr size h).1.memory a ≡ h.memory a
  unfolding try_split_and_free
  try_split_and_free-frame a beside heads =
      let sum : (size + 64) % 2 ^ 64 ≡ size + 64 = omega arith in
      elim (Bool-cases (leb (size + 64) old)) [
        | inl cut ↦
            let halves =
              blk_split-Block h.memory ptr size old free big low mult (ground arith) (omega arith)
                b in
            let h' = record h { memory = split.1 } in
            let bits : blk_size split.1 split.0 ≡ old - size - 16 = halves.2.head.bits in
            let same : split.1 a ≡ h.memory a =
              halves.3 a (ground arith) (ground arith) (ground arith) (ground arith) in
            let freed : (do_free split.0 h').memory a ≡ split.1 a =
              do_free-frame split.0 h' (rw (halves.0) (omega arith)) a
                (rw (bits, halves.0) (ground arith)) heads in
            rw (b.head.bits, sum, cut) (freed ∙ same)
        | inr whole ↦ rw (b.head.bits, sum, whole) refl
      ]

  -- The end of an allocation hands out the found block, marked in use, with the bytes asked for and
  -- fewer than 64 more, and adds its size to the pool's count. What is left over is freed.
  pub hand_out-Block :
      let (p, after) = hand_out ptr size h in
      let kept = if leb (size + 64) old then size else old in
      (p ≡ ptr)
      × Block after.memory ptr kept false big
      × ((size ≤ kept) × (kept < size + 64))
      × (after.pool.alloced_size ≡ add_size h.pool.alloced_size kept)
  unfolding hand_out
  hand_out-Block =
      let kept = if leb (size + 64) old then size else old in
      let cut = try_split_and_free-Block in
      let after = (try_split_and_free ptr size h).1 in
      let bits : blk_size after.memory ptr ≡ kept = cut.1.head.bits in
      (
        refl,
        rw bits (blk_setalloced-Block after.memory ptr kept cut.0 big low cut.1),
        (ground arith, ground arith),
        rw (bits, cut.2) refl,
      )
