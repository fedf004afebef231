-- ===== src/Pool/Keep.antt =====
-- kernel/src/mm/heap/pool.cpp: taking a block out of a list and `do_free` keep a pool well-formed.
use ion_os.Base.{
  ℕ, ◌+◌, ◌-◌, ◌≡◌, ◌≢◌, ◌⊎◌, inl, inr, refl, sym, subst, ap, Option, List, [], ◌∷◌, ◌++◌, arith,
}
use ion_os.Memory.{Memory}
use ion_os.Block.{blk_size, size_bits}
use ion_os.Freelist.List.{DList, DList-Same, Separate, AllApart, Beside, Same, Apart}
use ion_os.Pool.{Heap}
use ion_os.Pool.Inv.{IsPool, Among, head_of, Beside-of_all, Among-rest, Among-middle, Separate-ne}
use ion_os.Pool.Layout.{
  update, same_list-cases, IsPool-Layout, Layout-IsPool, SameTags, Layout-SameTags, ClearOf,
}

pub Same-of_all :
    (m m' : Memory) (xs : List ℕ)
    → ((y : ℕ) → Among y xs → (m' y ≡ m y) × (m' (y + 8) ≡ m (y + 8)))
    → Same m m' xs
Same-of_all m m' [] all = tt
Same-of_all m m' (x ∷ xs) all =
    let here = all x (inl refl) in (here.0, here.1, Same-of_all m m' xs (λ y a. all y (inr a)))

AllApart-rest :
    (z x : ℕ) (pre post : List ℕ) → AllApart z (pre ++ x ∷ post) → AllApart z (pre ++ post)
AllApart-rest z x [] post a = a.1
AllApart-rest z x (y ∷ pre) post a = (a.0, AllApart-rest z x pre post a.1)

Separate-rest : (x : ℕ) (pre post : List ℕ) → Separate (pre ++ x ∷ post) → Separate (pre ++ post)
Separate-rest x [] post s = s.1
Separate-rest x (y ∷ pre) post s = (AllApart-rest y x pre post s.0, Separate-rest x pre post s.1)

pub AllApart-of_all : (z : ℕ) (xs : List ℕ) → ((y : ℕ) → Among y xs → Apart z y) → AllApart z xs
AllApart-of_all z [] all = tt
AllApart-of_all z (x ∷ xs) all = (all x (inl refl), AllApart-of_all z xs (λ y a. all y (inr a)))

module _ (h : Heap) (nodes : Option ℕ → List ℕ) (inv : IsPool h nodes) where
  -- The tags of a listed block are no words of nodes.
  pub tag-Beside :
      (l l' : Option ℕ) (y a : ℕ)
      → Among y (nodes l')
      → (a ≡ y - 8) ⊎ (a ≡ y + blk_size h.memory y)
      → Beside a (nodes l)
  tag-Beside l l' y a among at_tag = Beside-of_all a (nodes l) λ z among_z.
      let place = inv.elsewhere l' l y z among among_z in
      let room = inv.large_enough l' y among in
      let room' = inv.large_enough l z among_z in (ground arith, ground arith)

  -- Nor are the words of the nodes of another list.
  pub word-Beside :
      (l l' : Option ℕ) (y a : ℕ)
      → l ≢ l'
      → Among y (nodes l')
      → (a ≡ y) ⊎ (a ≡ y + 8)
      → Beside a (nodes l)
  word-Beside l l' y a other among at_word = Beside-of_all a (nodes l) λ z among_z.
      elim (inv.elsewhere l l' z y among_z among) [
        | inl it ↦ absurd (other (it.1))
        | inr place ↦
            let room = inv.large_enough l' y among in
            let room' = inv.large_enough l z among_z in (ground arith, ground arith)
      ]

-- A heap whose list `l` lost the node `x` and is otherwise that of a well-formed pool.
module _ (h h' : Heap) (nodes : Option ℕ → List ℕ) (inv : IsPool h nodes) (l : Option ℕ) (x : ℕ)
    (pre post : List ℕ) (parts : nodes l ≡ pre ++ x ∷ post)
    (rest : DList h'.memory (head_of h' l) (pre ++ post))
    (frame : (a : ℕ) → Beside a (nodes l) → h'.memory a ≡ h.memory a)
    (others : (l' : Option ℕ) → (l' ≡ l) ⊎ ((l ≢ l') × (head_of h' l' ≡ head_of h l'))) where
  abbrev left : Option ℕ → List ℕ
  left = update nodes l (pre ++ post)

  fewer : (l' : Option ℕ) (y : ℕ) → Among y (left l') → Among y (nodes l') × ((l ≡ l') → x ≢ y)
  fewer l' y a = elim (same_list-cases l l') [
    | inl (e, t) ↦
        let a' : Among y (pre ++ post) = (rw t at a) in
        let sep = subst (λ xs. Separate xs) parts (inv.separate l) in
        (
          subst (λ k. Among y (nodes k)) e
              (subst (λ xs. Among y xs) (sym parts) (Among-rest x y pre post a')),
          λ _. Separate-ne x y pre post sep a',
        )
    | inr (ne, t) ↦ (rw t at a, λ e. absurd (ne e))
  ]

  tags : SameTags h.memory h'.memory nodes
  tags l' y a = (
    frame (y - 8) (tag-Beside h nodes inv l l' y (y - 8) a (inl refl)),
    frame (y + blk_size h.memory y)
        (tag-Beside h nodes inv l l' y (y + blk_size h.memory y) a (inr refl)),
  )

  chains : (l' : Option ℕ) → DList h'.memory (head_of h' l') (left l')
  chains l' = elim (same_list-cases l l') [
    | inl (e, t) ↦ rw t (subst (λ k. DList h'.memory (head_of h' k) (pre ++ post)) e rest)
    | inr (ne, t) ↦ rw t (elim (others l') [
      | inl same ↦ absurd (ne (sym same))
      | inr kept ↦ rw (kept.1) (
          DList-Same h.memory h'.memory (head_of h l') (nodes l')
            (Same-of_all h.memory h'.memory (nodes l') λ y a. (
              frame y (word-Beside h nodes inv l l' y y ne a (inl refl)),
              frame (y + 8) (word-Beside h nodes inv l l' y (y + 8) ne a (inr refl)),
            ))
            (inv.chained l'))
    ])
  ]

  separates : (l' : Option ℕ) → Separate (left l')
  separates l' = elim (same_list-cases l l') [
    | inl (e, t) ↦
        rw t (Separate-rest x pre post (subst (λ xs. Separate xs) parts (inv.separate l)))
    | inr (ne, t) ↦ rw t (inv.separate l')
  ]

  -- The pool with one block fewer is well-formed.
  pub taken-IsPool : IsPool h' left
  taken-IsPool = Layout-IsPool h' left chains separates (
      Layout-SameTags h.memory h'.memory nodes left (λ l' y a. (fewer l' y a).0) tags
        (IsPool-Layout h nodes inv))

  -- Its blocks do not meet the one that was taken.
  pub taken-ClearOf : ClearOf h'.memory left x (blk_size h.memory x)
  taken-ClearOf l' y a =
      let old = fewer l' y a in
      let listed : Among x (nodes l) =
        subst (λ xs. Among x xs) (sym parts) (Among-middle x pre post) in
      let size : blk_size h'.memory y ≡ blk_size h.memory y =
        ap (λ w. size_bits w) ((tags l' y (old.0)).0) in
      elim (inv.elsewhere l l' x y listed (old.0)) [
        | inl it ↦ absurd (old.1 (it.1) (it.0))
        | inr clear ↦ rw size clear
      ]
