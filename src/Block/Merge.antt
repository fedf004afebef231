-- ===== src/Block/Merge.antt =====
-- kernel/src/include/mm/alloc/block.hpp: merging neighbours, with any `detach` callback.
use ion_os.Base.{
  ℕ, ◌+◌, ◌-◌, ◌%◌, ◌^◌, ◌<◌, ◌≤◌, ◌≡◌, ◌≢◌, refl, subst, Bool, ◌||◌, false, ◌==◌, if◌then◌else◌,
  arith,
}
use ion_os.Memory.{Memory, store}
use ion_os.Block.{
  area_flag, size_bits, retag, blk_setsize, blk_mergenext, blk_mergeprev, Detach, blk_split,
}
use ion_os.Block.Tags.{IsTag, Block, Block-of_tags, blk_next-eq, blk_prev-eq, blk_split-Block}

blk_setsize-read :
    (m : Memory) (ptr size a : ℕ)
    → blk_setsize m ptr size a ≡ (if a == ptr - 8 || a == ptr + size then size else m a)
unfolding retag store
blk_setsize-read m ptr size a = ground arith

blk_setsize-Block :
    (m : Memory) (ptr size : ℕ) → size % 8 ≡ 0 → Block (blk_setsize m ptr size) ptr size false false
blk_setsize-Block m ptr size mult =
    Block-of_tags _ ptr size false mult (ground (arith, blk_setsize-read m ptr size (ptr - 8)))
      (ground (arith, blk_setsize-read m ptr size (ptr + size)))

-- Two blocks side by side, of `size` and `next_size` bytes, and a callback.
module _ {S : Type 0} (detach : Detach S) (s : S) (m : Memory) (ptr size next_size : ℕ)
    (free big next_free next_big : Bool) (b : Block m ptr size free big)
    (n : Block m (ptr + size + 16) next_size next_free next_big)
    (small : size + next_size + 16 < 2 ^ 64) where
  mult : (size + next_size + 16) % 8 ≡ 0
  mult = omega (arith, b.head.bits, n.head.bits)

  inner : area_flag (m (ptr + size + 8)) ≡ false
  inner = subst (λ a. area_flag (m a) ≡ false) (omega arith) n.head.no_area

  next_bits : size_bits (m (ptr + size + 16 - 8)) ≡ next_size
  next_bits = n.head.bits

  no_wrap : (((size + next_size) % 2 ^ 64) + 16) % 2 ^ 64 ≡ size + next_size + 16
  no_wrap = omega arith

  blk_mergenext-eq : blk_mergenext detach ptr s m ≡ (
    ptr,
    (detach (ptr + size + 16) s m).0,
    blk_setsize (detach (ptr + size + 16) s m).1 ptr (size + next_size + 16),
  )
  unfolding blk_mergenext
  blk_mergenext-eq =
      rw (blk_next-eq m ptr size free big b.head inner, b.head.bits, n.head.bits, no_wrap)

  -- `blk_mergenext` asks the callback to detach the block behind, and leaves one block of the two
  -- sizes and the two words between, with every flag clear, the 2M flag too. Beside its two tags
  -- no word differs from what the callback left.
  pub blk_mergenext-Block :
      let (first, s', m') = blk_mergenext detach ptr s m in
      let (s'', left) = detach (ptr + size + 16) s m in
      (first ≡ ptr)
      × (s' ≡ s'')
      × Block m' ptr (size + next_size + 16) false false
      × ((a : ℕ) → a ≢ ptr - 8 → a ≢ ptr + (size + next_size + 16) → m' a ≡ left a)
  blk_mergenext-Block = rw blk_mergenext-eq (
    refl,
    refl,
    blk_setsize-Block _ ptr (size + next_size + 16) mult,
    λ a p q.
        ground
          (arith, blk_setsize-read (detach (ptr + size + 16) s m).1 ptr (size + next_size + 16) a),
  )

  tail_behind : IsTag (m (ptr + size + 16 - 16)) size free big
  tail_behind = subst (λ a. IsTag (m a) size free big) (omega arith) b.tail

  blk_mergeprev-eq :
      blk_mergeprev detach (ptr + size + 16) s m
      ≡ (ptr, (detach ptr s m).0, blk_setsize (detach ptr s m).1 ptr (size + next_size + 16))
  unfolding blk_mergeprev
  blk_mergeprev-eq =
      let back : ptr + size + 16 - 16 - size ≡ ptr = omega arith in
      let sum : (((next_size + size) % 2 ^ 64) + 16) % 2 ^ 64 ≡ size + next_size + 16 =
        omega arith in
      rw (
        blk_prev-eq m (ptr + size + 16) size free big tail_behind,
        back,
        b.head.bits,
        n.head.bits,
        sum,
      )

  -- `blk_mergeprev` of the second block detaches the first, and gives the same block.
  pub blk_mergeprev-Block :
      let (first, s', m') = blk_mergeprev detach (ptr + size + 16) s m in
      let (s'', left) = detach ptr s m in
      (first ≡ ptr)
      × (s' ≡ s'')
      × Block m' ptr (size + next_size + 16) false false
      × ((a : ℕ) → a ≢ ptr - 8 → a ≢ ptr + (size + next_size + 16) → m' a ≡ left a)
  blk_mergeprev-Block = rw blk_mergeprev-eq (
    refl,
    refl,
    blk_setsize-Block _ ptr (size + next_size + 16) mult,
    λ a p q. ground (arith, blk_setsize-read (detach ptr s m).1 ptr (size + next_size + 16) a),
  )

-- Splitting a block and merging the halves gives back a block at the same place of the same size,
-- marked in use, whose 2M flag is clear even if the block had it.
pub blk_mergenext-blk_split :
    {S : Type 0} (detach : Detach S) (s : S) (m : Memory) (ptr size old : ℕ) (free big : Bool)
    → 8 ≤ ptr
    → size % 8 ≡ 0
    → size + 16 ≤ old
    → old < 2 ^ 64
    → Block m ptr old free big
    → let (second, m') = blk_split ptr size m in
      let (first, s', m'') = blk_mergenext detach ptr s m' in
      (first ≡ ptr) × Block m'' ptr old false false
blk_mergenext-blk_split detach s m ptr size old free big low mult fits small b =
    let halves = blk_split-Block m ptr size old free big low mult fits small b in
    let m' = (blk_split ptr size m).1 in
    let n = rw halves.0 at halves.2 in
    let merged =
      blk_mergenext-Block detach s m' ptr size (old - size - 16) false big false big halves.1 n
        (omega arith) in
    let whole : size + (old - size - 16) + 16 ≡ old = omega arith in
    (merged.0, rw whole at merged.2)
