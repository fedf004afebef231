-- ===== src/Pool/Inv.antt =====
-- kernel/src/mm/heap/pool.cpp: what a well-formed pool is, and what taking a block out of one of
-- its lists leaves.
use ion_os.Base.{
  ℕ, ◌+◌, ◌-◌, ◌^◌, ◌<◌, ◌≤◌, ◌≡◌, ◌≢◌, ◌⊎◌, inl, inr, refl, sym, subst, Bool, true, Option, some,
  none, List, [], ◌∷◌, ◌++◌, arith,
}
use ion_os.Memory.{Memory, null}
use ion_os.Block.{blk_size}
use ion_os.Block.Tags.{Block, Block-of_same}
use ion_os.Freelist.List.{DList, Separate, AllApart, AllApart-append, Beside}
use ion_os.Pool.{Heap}
use ion_os.Pool.HandOut.{HeadsOutside}

abbrev pub Among : ℕ → List ℕ → Type 0
Among y [] = ⊥
Among y (x ∷ xs) = (y ≡ x) ⊎ Among y xs

-- The lists of a pool: `none` names the large list, `some id` a small one.
abbrev pub head_of : Heap → Option ℕ → ℕ
head_of h none = h.pool.large_blk
head_of h (some id) = h.pool.freed id

-- Two blocks with their tags do not meet.
abbrev pub Clear : (x size y size' : ℕ) → Type 0
Clear x size y size' = (y + size' + 16 ≤ x) ⊎ (x + size + 16 ≤ y)

-- Two listed blocks are one block of one list, or do not meet.
abbrev pub Elsewhere : Memory → (l l' : Option ℕ) (x y : ℕ) → Type 0
Elsewhere m l l' x y = ((x ≡ y) × (l ≡ l')) ⊎ Clear x (blk_size m x) y (blk_size m y)

-- The nodes of the lists are well linked, each is a free block of at least 16 bytes, and no two
-- blocks meet.
pub record IsPool (h : Heap) (nodes : Option ℕ → List ℕ) : Type 0 where
  pub chained : (l : Option ℕ) → DList h.memory (head_of h l) (nodes l)
  pub separate : (l : Option ℕ) → Separate (nodes l)
  pub large_enough :
      (l : Option ℕ) (x : ℕ)
      → Among x (nodes l)
      → (8 ≤ x) × (16 ≤ blk_size h.memory x) × (blk_size h.memory x < 2 ^ 63)
  pub blocks :
      (l : Option ℕ) (x : ℕ)
      → Among x (nodes l)
      → (big : Bool) × Block h.memory x (blk_size h.memory x) true big
  pub elsewhere :
      (l l' : Option ℕ) (x y : ℕ)
      → Among x (nodes l)
      → Among y (nodes l')
      → Elsewhere h.memory l l' x y

pub Among-middle : (x : ℕ) (pre post : List ℕ) → Among x (pre ++ x ∷ post)
Among-middle x [] post = inl refl
Among-middle x (y ∷ pre) post = inr (Among-middle x pre post)

pub Among-rest : (x y : ℕ) (pre post : List ℕ) → Among y (pre ++ post) → Among y (pre ++ x ∷ post)
Among-rest x y [] post a = inr a
Among-rest x y (z ∷ pre) post (inl e) = inl e
Among-rest x y (z ∷ pre) post (inr a) = inr (Among-rest x y pre post a)

AllApart-ne : (x y : ℕ) (xs : List ℕ) → AllApart x xs → Among y xs → x ≢ y
AllApart-ne x y [] apart a = absurd a
AllApart-ne x y (z ∷ xs) apart (inl e) = ground arith
AllApart-ne x y (z ∷ xs) apart (inr a) = AllApart-ne x y xs apart.1 a

-- A node that was taken out is none of the rest.
pub Separate-ne :
    (x y : ℕ) (pre post : List ℕ) → Separate (pre ++ x ∷ post) → Among y (pre ++ post) → x ≢ y
Separate-ne x y [] post s a = AllApart-ne x y post s.0 a
Separate-ne x y (z ∷ pre) post s (inl e) =
    let apart = (AllApart-append z pre (x ∷ post) s.0).1.0 in ground arith
Separate-ne x y (z ∷ pre) post s (inr a) = Separate-ne x y pre post s.1 a

-- A list starts at one of its nodes.
pub DList-first : (m : Memory) (p : ℕ) (xs : List ℕ) → DList m p xs → (p ≡ null) ⊎ Among p xs
DList-first m p [] d = inl d
DList-first m p (x ∷ xs) d = inr (inl d.0)

pub Beside-of_all :
    (a : ℕ) (xs : List ℕ) → ((y : ℕ) → Among y xs → (a ≢ y) × (a ≢ y + 8)) → Beside a xs
Beside-of_all a [] all = tt
Beside-of_all a (x ∷ xs) all =
    let here = all x (inl refl) in
    (here.0, here.1, Beside-of_all a xs (λ y among. all y (inr among)))

-- A heap whose list `l` lost the node `x` and is otherwise that of a well-formed pool.
module _ (h h' : Heap) (nodes : Option ℕ → List ℕ) (inv : IsPool h nodes) (l : Option ℕ) (x : ℕ)
    (pre post : List ℕ) (parts : nodes l ≡ pre ++ x ∷ post)
    (rest : DList h'.memory (head_of h' l) (pre ++ post))
    (frame : (a : ℕ) → Beside a (nodes l) → h'.memory a ≡ h.memory a)
    (others : (l' : Option ℕ) → (l' ≡ l) ⊎ ((l ≢ l') × (head_of h' l' ≡ head_of h l'))) where
  listed : Among x (nodes l)
  listed = subst (λ xs. Among x xs) (sym parts) (Among-middle x pre post)

  abbrev size : ℕ
  size = blk_size h.memory x

  tag_outside : (a : ℕ) → (a ≡ x - 8) ⊎ (a ≡ x + size) → Beside a (nodes l)
  tag_outside a at_tag = Beside-of_all a (nodes l) λ y among.
      let place = inv.elsewhere l l x y listed among in
      let room = inv.large_enough l x listed in
      let room' = inv.large_enough l y among in (ground arith, ground arith)

  -- The block of the node is as it was.
  pub taken-Block : (big : Bool) × Block h'.memory x size true big
  taken-Block =
      let b = inv.blocks l x listed in
      (
        b.0,
        Block-of_same h.memory h'.memory x size true (b.0)
            (frame (x - 8) (tag_outside (x - 8) (inl refl)))
            (frame (x + size) (tag_outside (x + size) (inr refl))) (b.1),
      )

  head_outside :
      (l' : Option ℕ)
      → (head_of h' l' ≡ null) ⊎ ((head_of h' l' + 16 ≤ x - 8) ⊎ (x + size + 8 ≤ head_of h' l'))
  head_outside l' = elim (others l') [
    | inl same ↦
        subst
          (λ k.
            (head_of h' k ≡ null) ⊎ ((head_of h' k + 16 ≤ x - 8) ⊎ (x + size + 8 ≤ head_of h' k)))
          (sym same)
          (elim (DList-first h'.memory (head_of h' l) (pre ++ post) rest) [
            | inl empty ↦ inl empty
            | inr among ↦
                let y = head_of h' l in
                let ne =
                  Separate-ne x y pre post (subst (λ xs. Separate xs) parts (inv.separate l))
                    among in
                let listed_y : Among y (nodes l) =
                  subst (λ xs. Among y xs) (sym parts) (Among-rest x y pre post among) in
                elim (inv.elsewhere l l x y listed listed_y) [
                  | inl it ↦ absurd (ne (it.0))
                  | inr beside ↦
                      inr
                        (ground (arith, inv.large_enough l x listed, inv.large_enough l y listed_y))
                ]
          ])
    | inr kept ↦
        rw (kept.1) (elim (DList-first h.memory (head_of h l') (nodes l') (inv.chained l')) [
          | inl empty ↦ inl empty
          | inr among ↦ elim (inv.elsewhere l l' x (head_of h l') listed among) [
            | inl it ↦ absurd (kept.0 (it.1))
            | inr beside ↦ inr (
                ground
                  (arith, inv.large_enough l x listed, inv.large_enough l' (head_of h l') among))
          ]
        ])
  ]

  -- The lists begin outside the block.
  pub taken-HeadsOutside : HeadsOutside h' (x - 8) (x + size + 8)
  taken-HeadsOutside = (λ id. head_outside (some id), head_outside none)
