-- ===== src/Pool/DoFree.antt =====
-- kernel/src/mm/heap/pool.cpp: `do_free` of a well-formed pool.
use ion_os.Base.{
  ℕ, ◌+◌, ◌-◌, ◌^◌, ◌<◌, ◌≤◌, ◌≡◌, ◌≢◌, ◌⊎◌, inl, inr, refl, ◌∙◌, subst, ap, Bool, true, false,
  Option, some, none, List, ◌∷◌, arith, ◌==◌, Bool-cases, Option-cases,
}
use ion_os.Memory.{Memory}
use ion_os.Block.{blk_size, size_bits, blk_setfreed, with_free}
use ion_os.Block.Tags.{Block, Block-of_same, retag-read, blk_setfreed-Block}
use ion_os.Freelist.{freelists_size2id, freelists_put, freelist_put, set_list}
use ion_os.Freelist.List.{DList, DList-Same, Separate, Beside, Apart}
use ion_os.Freelist.Put.{freelist_put-DList}
use ion_os.Pool.{Heap, do_free}
use ion_os.Pool.Inv.{IsPool, Among, head_of, Beside-of_all}
use ion_os.Pool.Layout.{
  update, same_list-cases, Layout, IsPool-Layout, Layout-IsPool, SameTags, Layout-SameTags, ClearOf,
  Layout-cons,
}
use ion_os.Pool.Keep.{Same-of_all, AllApart-of_all, tag-Beside, word-Beside}

-- A well-formed pool and a block, in use or not, that meets no listed one.
module _ (h : Heap) (nodes : Option ℕ → List ℕ) (inv : IsPool h nodes) (r : ℕ) (free big : Bool)
    (room : (8 ≤ r) × (16 ≤ blk_size h.memory r) × (blk_size h.memory r < 2 ^ 63))
    (b : Block h.memory r (blk_size h.memory r) free big)
    (clear : ClearOf h.memory nodes r (blk_size h.memory r)) where
  abbrev size : ℕ
  size = blk_size h.memory r

  abbrev tagged : Memory
  tagged = blk_setfreed h.memory r size

  abbrev h1 : Heap
  h1 = record h { memory = tagged }

  -- The list that the block goes to.
  abbrev l : Option ℕ
  l = freelists_size2id size

  tagged-Block : Block tagged r size true big
  tagged-Block = blk_setfreed-Block h.memory r size free big (room.0) b

  tagged_beside : (a : ℕ) → a ≢ r - 8 → a ≢ r + size → tagged a ≡ h.memory a
  tagged_beside a p q = ground (arith, retag-read (λ w. with_free w) h.memory r size a (room.0))

  tagged-SameTags : SameTags h.memory tagged nodes
  tagged-SameTags l' y a =
      let apart = clear l' y a in
      let room' = inv.large_enough l' y a in
      (
        tagged_beside (y - 8) (ground arith) (ground arith),
        tagged_beside (y + blk_size h.memory y) (ground arith) (ground arith),
      )

  tagged-IsPool : IsPool h1 nodes
  tagged-IsPool =
      Layout-IsPool h1 nodes
        (λ l'.
          DList-Same h.memory tagged (head_of h1 l') (nodes l')
            (Same-of_all h.memory tagged (nodes l') λ y a.
              let apart = clear l' y a in
              let room' = inv.large_enough l' y a in
              (
                tagged_beside y (ground arith) (ground arith),
                tagged_beside (y + 8) (ground arith) (ground arith),
              ))
            (same_chain l'))
        inv.separate
        (Layout-SameTags h.memory tagged nodes nodes (λ l' y a. a) tagged-SameTags
          (IsPool-Layout h nodes inv))
    where
      same_chain : (l' : Option ℕ) → DList h.memory (head_of h1 l') (nodes l')
      same_chain none = inv.chained none
      same_chain (some id) = inv.chained (some id)

  -- What `do_free` does: the block becomes the first of its list.
  do_free-eq :
      ((do_free r h).memory ≡ freelist_put (head_of h1 l) r tagged)
      × (head_of (do_free r h) l ≡ r)
      × ((l' : Option ℕ) → l ≢ l' → head_of (do_free r h) l' ≡ head_of h1 l')
      × ((do_free r h).pool.cb_reqmem ≡ h.pool.cb_reqmem)
  unfolding do_free freelists_put
  do_free-eq =
      let bits : blk_size tagged r ≡ size = tagged-Block.head.bits in
      elim (Option-cases (freelists_size2id size)) [
        | inl large ↦
            let put : freelists_put h.pool.freed r tagged ≡ (false, h.pool.freed, tagged) =
              rw (bits, large, freelists_put) refl in
            rw (put, large, do_free) (refl, refl, λ l' ne. other_large l' ne, refl)
        | inr (id, small) ↦
            let put : freelists_put h.pool.freed r tagged
                ≡ (true, set_list h.pool.freed id r, freelist_put (h.pool.freed id) r tagged) =
              rw (bits, small, freelists_put) refl in
            rw (put, small, do_free) (refl, ground arith, λ l' ne. other_small id l' ne, refl)
      ]
    where
      other_large :
          (l' : Option ℕ)
          → none ≢ l'
          → head_of (record h { pool = record (h.pool) { large_blk = r } }) l' ≡ head_of h1 l'
      other_large none ne = absurd (ne refl)
      other_large (some i) ne = refl

      other_small :
          (id : ℕ) (l' : Option ℕ)
          → some id ≢ l'
          → head_of (record h { pool = record (h.pool) { freed = set_list h.pool.freed id r } }) l'
            ≡ head_of h1 l'
      other_small id none ne = refl
      other_small id (some i) ne =
          let differ : (i == id) ≡ false = elim (Bool-cases (i == id)) [
            | inl e ↦ absurd (ne (ap (λ k. some k) (ground arith)))
            | inr e ↦ e
          ] in
          rw differ refl

  new_Separate : Separate (r ∷ nodes l)
  new_Separate = (
    AllApart-of_all r (nodes l) (λ y a.
        let apart = clear l y a in
        let room' = inv.large_enough l y a in let away : Apart r y = ground arith in away),
    inv.separate l,
  )

  abbrev put :
      DList (freelist_put (head_of h1 l) r tagged) r (r ∷ nodes l)
      × ((a : ℕ) → Beside a (r ∷ nodes l) → freelist_put (head_of h1 l) r tagged a ≡ tagged a)
  put =
      freelist_put-DList tagged (head_of h1 l) r (nodes l) (omega (arith, room.0))
        (tagged-IsPool.chained l) new_Separate

  abbrev after : Heap
  after = do_free r h

  after_beside : (a : ℕ) → Beside a (r ∷ nodes l) → after.memory a ≡ tagged a
  after_beside a beside = rw (do_free-eq.0) (put.1 a beside)

  after-SameTags : SameTags tagged after.memory nodes
  after-SameTags l' y a =
      let old = inv.large_enough l' y a in
      let apart = clear l' y a in
      let bits : blk_size tagged y ≡ blk_size h.memory y =
        ap (λ w. size_bits w) ((tagged-SameTags l' y a).0) in
      let head = tag-Beside h1 nodes tagged-IsPool l l' y (y - 8) a (inl refl) in
      let tail = tag-Beside h1 nodes tagged-IsPool l l' y (y + blk_size tagged y) a (inr refl) in
      (
        after_beside (y - 8) (ground arith, ground arith, head),
        after_beside (y + blk_size tagged y) (rw bits (ground arith), rw bits (ground arith), tail),
      )

  chains : (l' : Option ℕ) → DList after.memory (head_of after l') (update nodes l (r ∷ nodes l) l')
  chains l' = elim (same_list-cases l l') [
    | inl (e, t) ↦ rw t (
        subst (λ k. DList after.memory (head_of after k) (r ∷ nodes l)) e
          (rw (do_free-eq.1) (rw (do_free-eq.0) (put.0))))
    | inr (ne, t) ↦
        rw (t, do_free-eq.2 l' ne)
          (DList-Same tagged after.memory (head_of h1 l') (nodes l')
            (Same-of_all tagged after.memory (nodes l') λ y a.
              let apart = clear l' y a in
              let old = inv.large_enough l' y a in
              (
                after_beside y (
                  ground arith,
                  ground arith,
                  word-Beside h1 nodes tagged-IsPool l l' y y ne a (inl refl),
                ),
                after_beside (y + 8) (
                  ground arith,
                  ground arith,
                  word-Beside h1 nodes tagged-IsPool l l' y (y + 8) ne a (inr refl),
                ),
              ))
            (tagged-IsPool.chained l'))
  ]

  new-Beside : (a : ℕ) → (a ≡ r - 8) ⊎ (a ≡ r + size) → Beside a (r ∷ nodes l)
  new-Beside a at_tag = (
    ground arith,
    ground arith,
    Beside-of_all a (nodes l) λ y among.
        let apart = clear l y among in
        let old = inv.large_enough l y among in (ground arith, ground arith),
  )

  new-Block : Block after.memory r size true big
  new-Block =
      Block-of_same tagged after.memory r size true big
        (after_beside (r - 8) (new-Beside (r - 8) (inl refl)))
        (after_beside (r + size) (new-Beside (r + size) (inr refl))) tagged-Block

  new_size : blk_size after.memory r ≡ size
  new_size = new-Block.head.bits

  separates : (l' : Option ℕ) → Separate (update nodes l (r ∷ nodes l) l')
  separates l' = elim (same_list-cases l l') [
    | inl (e, t) ↦ rw t new_Separate
    | inr (ne, t) ↦ rw t (inv.separate l')
  ]

  after-Layout : Layout after.memory nodes
  after-Layout =
      Layout-SameTags tagged after.memory nodes nodes (λ l' y a. a) after-SameTags
        (IsPool-Layout h1 nodes tagged-IsPool)

  -- Tags of listed blocks are as they were, so their sizes are.
  pub do_free-sizes :
      (l' : Option ℕ) (y : ℕ) → Among y (nodes l') → blk_size after.memory y ≡ blk_size h.memory y
  do_free-sizes l' y a =
      ap (λ w. size_bits w) ((after-SameTags l' y a).0 ∙ (tagged-SameTags l' y a).0)

  -- `do_free` of a block that meets no listed one keeps the pool well-formed: the block is the
  -- first of the list of its size class, and the other lists are as they were.
  pub do_free-IsPool : IsPool (do_free r h) (update nodes l (r ∷ nodes l))
  do_free-IsPool = Layout-IsPool after (update nodes l (r ∷ nodes l)) chains separates (
      Layout-cons after.memory nodes l r big (rw new_size room) (rw new_size new-Block)
        (λ l' y a. rw (new_size, do_free-sizes l' y a) (clear l' y a)) after-Layout)
