-- ===== src/Block/Tags.antt =====
-- kernel/src/include/mm/alloc/block.hpp: the two tags of a block, and how the operations set them.
use ion_os.Base.{
  ℕ, ◌+◌, ◌-◌, ◌%◌, ◌^◌, ◌<◌, ◌≤◌, ◌≡◌, ◌≢◌, sym, subst, Bool, ◌||◌, true, false, ◌==◌,
  if◌then◌else◌, arith,
}
use ion_os.Memory.{Memory, store}
use ion_os.Block.{
  free_flag, area_flag, size_flag, size_bits, with_free, without_free, retag, blk_setalloced,
  blk_setfreed, set_sized, blk_split, blk_next, blk_prev,
}

-- A tag of a block: size, free flag and 2M flag; never the area flag.
pub record IsTag (w size : ℕ) (free big : Bool) : Type 0 where
  pub bits : size_bits w ≡ size
  pub free_is : free_flag w ≡ free
  pub big_is : size_flag w ≡ big
  pub no_area : area_flag w ≡ false

-- A block: two tags that agree.
pub record Block (m : Memory) (ptr size : ℕ) (free big : Bool) : Type 0 where
  pub head : IsTag (m (ptr - 8)) size free big
  pub tail : IsTag (m (ptr + size)) size free big

-- The word that both tags hold after a block's size is set: every flag is clear but the 2M flag.
abbrev pub tag : ℕ → Bool → ℕ
tag size big = if big then size + 4 else size

pub tag-IsTag : (size : ℕ) (big : Bool) → size % 8 ≡ 0 → IsTag (tag size big) size false big
tag-IsTag size big h = ground arith

pub Block-of_tags :
    (m : Memory) (ptr size : ℕ) (big : Bool)
    → size % 8 ≡ 0
    → m (ptr - 8) ≡ tag size big
    → m (ptr + size) ≡ tag size big
    → Block m ptr size false big
Block-of_tags m ptr size big mult h t = record {
  head = subst (λ w. IsTag w size false big) (sym h) (tag-IsTag size big mult);
  tail = subst (λ w. IsTag w size false big) (sym t) (tag-IsTag size big mult);
}

-- A block is what its two tags are.
pub Block-of_same :
    (m m' : Memory) (ptr size : ℕ) (free big : Bool)
    → m' (ptr - 8) ≡ m (ptr - 8)
    → m' (ptr + size) ≡ m (ptr + size)
    → Block m ptr size free big
    → Block m' ptr size free big
Block-of_same m m' ptr size free big h t b = record { head = rw h (b.head); tail = rw t (b.tail) }

pub retag-read :
    (change : ℕ → ℕ) (m : Memory) (ptr size a : ℕ)
    → 8 ≤ ptr
    → retag change m ptr size a ≡ (if a == ptr - 8 || a == ptr + size then change (m a) else m a)
unfolding retag store
retag-read change m ptr size a low = ground arith

pub set_sized-read :
    (big : Bool) (m : Memory) (ptr size a : ℕ)
    → 8 ≤ ptr
    → size % 8 ≡ 0
    → set_sized big m ptr size a ≡ (if a == ptr - 8 || a == ptr + size then tag size big else m a)
unfolding set_sized store
set_sized-read big m ptr size a low mult = ground arith

module _ (m : Memory) (ptr size old : ℕ) (free big : Bool) (low : 8 ≤ ptr) (mult : size % 8 ≡ 0)
    (fits : size + 16 ≤ old) (small : old < 2 ^ 64) (b : Block m ptr old free big) where
  blk_split-eq : blk_split ptr size m ≡ (
    ptr + (size + 16),
    set_sized big (set_sized big m ptr size) (ptr + (size + 16)) (old - size - 16),
  )
  unfolding blk_split
  blk_split-eq =
      let offset : (size + 16) % 2 ^ 64 ≡ size + 16 = omega arith in
      let rest : (old + 2 ^ 64 - (size + 16)) % 2 ^ 64 ≡ old - size - 16 = omega arith in
      rw (b.head.big_is, b.head.bits, offset, rest)

  -- The memory after `blk_split`, word by word.
  pub blk_split-read :
      (a : ℕ)
      → (blk_split ptr size m).1 a ≡ (
          if a == ptr - 8 || a == ptr + size
          then tag size big
          else if a == ptr + size + 8 || a == ptr + old
          then tag (old - size - 16) big
          else m a)
  blk_split-read a = rw blk_split-eq (
      ground (
        arith,
        set_sized-read big (set_sized big m ptr size) (ptr + (size + 16)) (old - size - 16) a
            (omega arith) (omega (arith, b.head.bits)),
        set_sized-read big m ptr size a low mult,
      ))

-- `blk_split` makes two blocks of a block of `old` bytes: `size` bytes at the pointer and the
-- rest, less the two words between, behind them. Both are marked in use, both keep the 2M flag,
-- and no other word changes.
pub blk_split-Block :
    (m : Memory) (ptr size old : ℕ) (free big : Bool)
    → 8 ≤ ptr
    → size % 8 ≡ 0
    → size + 16 ≤ old
    → old < 2 ^ 64
    → Block m ptr old free big
    → let (second, m') = blk_split ptr size m in
      (second ≡ ptr + size + 16)
      × Block m' ptr size false big
      × Block m' second (old - size - 16) false big
      × ((a : ℕ) → a ≢ ptr - 8 → a ≢ ptr + size → a ≢ ptr + size + 8 → a ≢ ptr + old → m' a ≡ m a)
blk_split-Block m ptr size old free big low mult fits small b =
    let read = blk_split-read m ptr size old free big low mult fits small b in
    let rest : (old - size - 16) % 8 ≡ 0 = omega (arith, b.head.bits) in
    let second : (blk_split ptr size m).0 ≡ ptr + size + 16 =
      rw (blk_split-eq m ptr size old free big low mult fits small b) (omega arith) in
    let m' = (blk_split ptr size m).1 in
    (
      second,
      Block-of_tags m' ptr size big mult (ground (arith, read (ptr - 8)))
          (ground (arith, read (ptr + size))),
      rw second (
          Block-of_tags m' (ptr + size + 16) (old - size - 16) big rest
            (ground (arith, read (ptr + size + 16 - 8)))
            (ground (arith, read (ptr + size + 16 + (old - size - 16))))),
      λ a p q r s. ground (arith, read a),
    )

module _ (m : Memory) (ptr size : ℕ) (free big : Bool) where
  pub blk_next-eq :
      IsTag (m (ptr - 8)) size free big
      → area_flag (m (ptr + size + 8)) ≡ false
      → blk_next m ptr ≡ ptr + size + 16
  unfolding blk_next
  blk_next-eq t inner = rw (t.bits, inner)

  pub blk_prev-eq : IsTag (m (ptr - 16)) size free big → blk_prev m ptr ≡ ptr - 16 - size
  unfolding blk_prev
  blk_prev-eq t = rw (t.no_area, t.bits)

  -- From a block to the block behind it and back: `blk_next` goes over the size and the two tags,
  -- and `blk_prev` returns by the tail that it finds in front of the head.
  pub blk_prev-blk_next :
      Block m ptr size free big
      → area_flag (m (ptr + size + 8)) ≡ false
      → (blk_next m ptr ≡ ptr + size + 16) × (blk_prev m (blk_next m ptr) ≡ ptr)
  blk_prev-blk_next b inner =
      let next = blk_next-eq b.head inner in
      let back : ptr + size + 16 - 16 ≡ ptr + size = omega arith in
      (next, rw next (ground (arith, blk_prev_behind (rw back b.tail))))
    where
      blk_prev_behind :
          IsTag (m (ptr + size + 16 - 16)) size free big → blk_prev m (ptr + size + 16) ≡ ptr
      blk_prev_behind t = unfold blk_prev in rw (t.no_area, t.bits) (omega arith)

without_free-IsTag :
    (w size : ℕ) (free big : Bool) → IsTag w size free big → IsTag (without_free w) size false big
without_free-IsTag w size free big t = ground (arith, t.bits, t.big_is, t.no_area)

with_free-IsTag :
    (w size : ℕ) (free big : Bool) → IsTag w size free big → IsTag (with_free w) size true big
with_free-IsTag w size free big t = ground (arith, t.bits, t.big_is, t.no_area)

module _ (m : Memory) (ptr size : ℕ) (free big : Bool) (low : 8 ≤ ptr)
    (b : Block m ptr size free big) where
  pub blk_setalloced-Block : Block (blk_setalloced m ptr size) ptr size false big
  blk_setalloced-Block =
      let m' = blk_setalloced m ptr size in
      let read = λ (a : ℕ). retag-read (λ w. without_free w) m ptr size a low in
      let head : m' (ptr - 8) ≡ without_free (m (ptr - 8)) = ground (arith, read (ptr - 8)) in
      let tail : m' (ptr + size) ≡ without_free (m (ptr + size)) =
        ground (arith, read (ptr + size)) in
      record {
        head = rw head (without_free-IsTag _ size free big b.head);
        tail = rw tail (without_free-IsTag _ size free big b.tail);
      }

  pub blk_setfreed-Block : Block (blk_setfreed m ptr size) ptr size true big
  blk_setfreed-Block =
      let m' = blk_setfreed m ptr size in
      let read = λ (a : ℕ). retag-read (λ w. with_free w) m ptr size a low in
      let head : m' (ptr - 8) ≡ with_free (m (ptr - 8)) = ground (arith, read (ptr - 8)) in
      let tail : m' (ptr + size) ≡ with_free (m (ptr + size)) = ground (arith, read (ptr + size)) in
      record {
        head = rw head (with_free-IsTag _ size free big b.head);
        tail = rw tail (with_free-IsTag _ size free big b.tail);
      }
