-- ===== src/Pool/Split.antt =====
-- kernel/src/mm/heap/pool.cpp: cutting a block and handing it out keep a pool well-formed.
use ion_os.Base.{
  ℕ, ◌+◌, ◌-◌, ◌%◌, ◌^◌, ◌<◌, ◌≤◌, ◌≡◌, ◌≢◌, ◌⊎◌, inl, inr, refl, ap, Bool, true, false, Option,
  some, none, List, ◌∷◌, arith, leb, if◌then◌else◌, Bool-cases,
}
use ion_os.Memory.{Memory}
use ion_os.Block.{blk_size, size_bits, blk_split, blk_setalloced, without_free}
use ion_os.Block.Tags.{Block, retag-read, blk_split-Block}
use ion_os.Freelist.{freelists_size2id}
use ion_os.Freelist.List.{DList-Same}
use ion_os.Pool.{Heap, do_free, try_split_and_free, hand_out}
use ion_os.Pool.Inv.{IsPool, head_of}
use ion_os.Pool.HandOut.{HeadsOutside, try_split_and_free-Block}
use ion_os.Pool.Keep.{Same-of_all}
use ion_os.Pool.Layout.{
  update, Among-cons, IsPool-Layout, Layout-IsPool, SameTags, Layout-SameTags, ClearOf,
}
use ion_os.Pool.DoFree.{do_free-IsPool, do_free-sizes}

-- A write into the block at `r`, with its tags, which meets no listed block.
module _ (h h' : Heap) (nodes : Option ℕ → List ℕ) (inv : IsPool h nodes) (r size : ℕ) (low : 8 ≤ r)
    (clear : ClearOf h.memory nodes r size)
    (frame : (a : ℕ) → (a < r - 8) ⊎ (r + size < a) → h'.memory a ≡ h.memory a)
    (heads : (l : Option ℕ) → head_of h' l ≡ head_of h l) where
  inside-SameTags : SameTags h.memory h'.memory nodes
  inside-SameTags l y a =
      let apart = clear l y a in
      let room = inv.large_enough l y a in
      (frame (y - 8) (ground arith), frame (y + blk_size h.memory y) (ground arith))

  pub inside-IsPool : IsPool h' nodes
  inside-IsPool =
      Layout-IsPool h' nodes
        (λ l. rw (heads l) (
          DList-Same h.memory h'.memory (head_of h l) (nodes l)
            (Same-of_all h.memory h'.memory (nodes l) λ y a.
              let apart = clear l y a in
              let room = inv.large_enough l y a in
              (frame y (ground arith), frame (y + 8) (ground arith)))
            (inv.chained l)))
        inv.separate
        (Layout-SameTags h.memory h'.memory nodes nodes (λ l y a. a) inside-SameTags
          (IsPool-Layout h nodes inv))

  pub inside-ClearOf : ClearOf h'.memory nodes r size
  inside-ClearOf l y a =
      let same : blk_size h'.memory y ≡ blk_size h.memory y =
        ap (λ w. size_bits w) ((inside-SameTags l y a).0) in
      rw same (clear l y a)

-- The count and the words of memory are no heads of lists.
counted_heads :
    (h : Heap) (count : ℕ) (m : Memory) (l : Option ℕ)
    → head_of (record h { pool = record (h.pool) { alloced_size = count }; memory = m }) l
      ≡ head_of h l
counted_heads h count m none = refl
counted_heads h count m (some id) = refl

-- A well-formed pool and a block beside it of which `size` bytes are wanted.
module _ (x size old : ℕ) (free big : Bool) (h : Heap) (nodes : Option ℕ → List ℕ)
    (inv : IsPool h nodes) (low : 8 ≤ x) (mult : size % 8 ≡ 0) (holds : size ≤ old)
    (small : old < 2 ^ 63) (b : Block h.memory x old free big)
    (clear : ClearOf h.memory nodes x old) where
  abbrev kept : ℕ
  kept = if leb (size + 64) old then size else old

  -- The block is cut: the rest stands at `r`.
  module _ (cut : leb (size + 64) old ≡ true) where
    abbrev r : ℕ
    r = (blk_split x size h.memory).0

    abbrev halved : Heap
    halved = record h { memory = (blk_split x size h.memory).1 }

    room : size + 64 ≤ old
    room = ground arith

    halves :
        (r ≡ x + size + 16)
        × Block halved.memory x size false big
        × Block halved.memory r (old - size - 16) false big
        × ((a : ℕ)
            → a ≢ x - 8
            → a ≢ x + size
            → a ≢ x + size + 8
            → a ≢ x + old
            → halved.memory a ≡ h.memory a)
    halves =
        blk_split-Block h.memory x size old free big low mult (omega (arith, room)) (omega arith) b

    halved-frame : (a : ℕ) → (a < x - 8) ⊎ (x + old < a) → halved.memory a ≡ h.memory a
    halved-frame a out =
        halves.3 a (ground (arith, room)) (ground (arith, room)) (ground (arith, room))
          (ground (arith, room))

    halved-heads : (l : Option ℕ) → head_of halved l ≡ head_of h l
    halved-heads none = refl
    halved-heads (some id) = refl

    halved-IsPool : IsPool halved nodes
    halved-IsPool = inside-IsPool h halved nodes inv x old low clear halved-frame halved-heads

    halved-ClearOf : ClearOf halved.memory nodes x old
    halved-ClearOf = inside-ClearOf h halved nodes inv x old low clear halved-frame halved-heads

    rest_bits : blk_size halved.memory r ≡ old - size - 16
    rest_bits = halves.2.head.bits

    rest-ClearOf : ClearOf halved.memory nodes r (blk_size halved.memory r)
    rest-ClearOf l y a =
        let apart = halved-ClearOf l y a in rw (rest_bits, halves.0) (ground (arith, room))

    rest_room : (8 ≤ r) × (16 ≤ blk_size halved.memory r) × (blk_size halved.memory r < 2 ^ 63)
    rest_room = rw (rest_bits, halves.0) (omega arith, omega (arith, room), omega (arith, room))

    abbrev after : Heap
    after = do_free r halved

    abbrev grown : Option ℕ → List ℕ
    grown = let l = freelists_size2id (blk_size halved.memory r) in update nodes l (r ∷ nodes l)

    after-IsPool : IsPool after grown
    after-IsPool =
        do_free-IsPool halved nodes halved-IsPool r false big rest_room (rw rest_bits halves.2)
          rest-ClearOf

    after-ClearOf : ClearOf after.memory grown x size
    after-ClearOf l' y a =
        let l = freelists_size2id (blk_size halved.memory r) in
        elim (Among-cons nodes l l' r y a) [
          | inl (here, _) ↦ inr (omega (arith, here, halves.0))
          | inr old' ↦
              let same : blk_size after.memory y ≡ blk_size halved.memory y =
                do_free-sizes halved nodes halved-IsPool r false big rest_room
                  (rw rest_bits halves.2) rest-ClearOf l' y old' in
              let apart = halved-ClearOf l' y old' in rw same (ground (arith, room))
        ]

  -- The rest of a block that is cut joins a list, and what is kept meets no listed block.
  pub try_split_and_free-IsPool :
      (nodes' : Option ℕ → List ℕ) × IsPool (try_split_and_free x size h).1 nodes'
      × ClearOf (try_split_and_free x size h).1.memory nodes' x kept
  unfolding try_split_and_free
  try_split_and_free-IsPool =
      let sum : (size + 64) % 2 ^ 64 ≡ size + 64 = omega arith in
      elim (Bool-cases (leb (size + 64) old)) [
        | inr whole ↦ rw (b.head.bits, sum, whole) (nodes, inv, clear)
        | inl cut ↦ rw (b.head.bits, sum, cut) (grown cut, after-IsPool cut, after-ClearOf cut)
      ]

  -- Handing out a block that meets no listed one keeps the pool well-formed, and no listed block
  -- meets what is handed out.
  pub hand_out-IsPool :
      HeadsOutside h (x - 8) (x + old + 8)
      → (nodes' : Option ℕ → List ℕ) × IsPool (hand_out x size h).1 nodes'
        × ClearOf (hand_out x size h).1.memory nodes' x kept
  unfolding hand_out
  hand_out-IsPool outside =
      let cut = try_split_and_free-Block x size old free big h low mult holds small b outside in
      let (nodes', inv', clear') = try_split_and_free-IsPool in
      let split = (try_split_and_free x size h).1 in
      let bits : blk_size split.memory x ≡ kept = cut.1.head.bits in
      let frame : (a : ℕ)
          → (a < x - 8) ⊎ (x + kept < a)
          → blk_setalloced split.memory x kept a ≡ split.memory a =
        λ a out. ground (arith, retag-read (λ w. without_free w) split.memory x kept a low) in
      let done' : Heap = record split {
        pool = record (split.pool) { alloced_size = (split.pool.alloced_size + kept) % 2 ^ 64 };
        memory = blk_setalloced split.memory x kept;
      } in
      rw bits (
        nodes',
        inside-IsPool split done' nodes' inv' x kept low clear' frame
            (counted_heads split ((split.pool.alloced_size + kept) % 2 ^ 64) done'.memory),
        inside-ClearOf split done' nodes' inv' x kept low clear' frame
            (counted_heads split ((split.pool.alloced_size + kept) % 2 ^ 64) done'.memory),
      )
