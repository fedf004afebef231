-- ===== src/PageTable/Mapped.antt =====
-- kernel/src/arch/x86_64/table.cpp: `map` makes one page translate, and no other page changes.
use ion_os.Base.{
  ℕ, ◌+◌, ◌-◌, ◌/◌, ◌%◌, ◌^◌, ◌≤◌, ◌≡◌, ◌≢◌, sym, ap, subst, ◌∙◌, Bool, arith, Option, some, List,
  [], ◌∷◌,
}
use ion_os.Base.Splits.{bit_and_511}
use ion_os.Memory.{store_self, store_ne}
use ion_os.Frame.One.{spare}
use ion_os.PageTable
use ion_os.PageTable.{Machine, PageTable, index}
use ion_os.PageTable.Words.{higher_half, cell, index-lt}
use ion_os.PageTable.Leaf.{follow, follow-table, indices, leaf_word, onward, leaf_word-written}
use ion_os.PageTable.Tree.{Place, IsTree}
use ion_os.PageTable.Map.{Walk, Walked, rooted, leaf_entry, translate_addr-Walk, map-Walked}
use ion_os.PageTable.Translate.{
  IsLeaf, leaf_entry-IsLeaf, written-IsTree, written-Walk, page_of-leaf_entry, place₁, place₂,
  place₃,
}

-- The number of the virtual page among those that four levels of tables cover.
abbrev pub virtual_page : ℕ → ℕ
virtual_page v = v / 4096 % 2 ^ 36

-- Four indices make up the page number.
virtual_page-index :
    (v w : ℕ)
    → index v (2 ^ 39) ≡ index w (2 ^ 39)
    → index v (2 ^ 30) ≡ index w (2 ^ 30)
    → index v (2 ^ 21) ≡ index w (2 ^ 21)
    → index v (2 ^ 12) ≡ index w (2 ^ 12)
    → virtual_page v ≡ virtual_page w
unfolding PageTable.index
virtual_page-index v w e₄ e₃ e₂ e₁ = omega (
  arith,
  bit_and_511 (v / 2 ^ 39),
  bit_and_511 (w / 2 ^ 39),
  bit_and_511 (v / 2 ^ 30),
  bit_and_511 (w / 2 ^ 30),
  bit_and_511 (v / 2 ^ 21),
  bit_and_511 (w / 2 ^ 21),
  bit_and_511 (v / 2 ^ 12),
  bit_and_511 (w / 2 ^ 12),
)

-- The places of two tables of the lowest level in one frame agree.
same_place :
    (a b c a' b' c' : ℕ)
    → ◌≡◌ {A = Option (List ℕ)} (some (a ∷ b ∷ c ∷ [])) (some (a' ∷ b' ∷ c' ∷ []))
    → (a ≡ a') × (b ≡ b') × (c ≡ c')
same_place a b c a' b' c' e = ground arith

-- The path of another page is another path.
other-path :
    (w v : ℕ)
    → virtual_page w ≢ virtual_page v
    → onward (indices w) []
      ≢ (index v (2 ^ 12) ∷ index v (2 ^ 21) ∷ index v (2 ^ 30) ∷ index v (2 ^ 39) ∷ [])
other-path w v ne same =
    let (e₁, e₂, e₃, e₄) : (index w (2 ^ 12) ≡ index v (2 ^ 12))
        × (index w (2 ^ 21) ≡ index v (2 ^ 21))
        × (index w (2 ^ 30) ≡ index v (2 ^ 30))
        × (index w (2 ^ 39) ≡ index v (2 ^ 39)) =
      same_path _ _ _ _ _ _ _ _ same in
    ne (virtual_page-index w v e₄ e₃ e₂ e₁)
  where
    same_path :
        (a b c d a' b' c' d' : ℕ)
        → ◌≡◌ {A = List ℕ} (a ∷ b ∷ c ∷ d ∷ []) (a' ∷ b' ∷ c' ∷ d' ∷ [])
        → (a ≡ a') × (b ≡ b') × (c ≡ c') × (d ≡ d')
    same_path a b c d a' b' c' d' e = ground arith

-- The page of `v` is mapped to the page of `phys`.
pub record Translates (s : Machine) (root v phys : ℕ) : Type 0 where
  pub l1 : ℕ
  pub walk : Walk s root v l1
  pub to :
      PageTable.page_of higher_half (s.ram (cell l1 (index v (2 ^ 12))))
      ≡ phys % 2 ^ 47 - phys % 2 ^ 12

pub translate_addr-Translates :
    (root : ℕ) (user : Bool) (s : Machine) (v phys : ℕ)
    → Translates s root v phys
    → PageTable.translate_addr higher_half (rooted root user) s v ≡ phys % 2 ^ 47 - phys % 2 ^ 12
translate_addr-Translates root user s v phys t =
    translate_addr-Walk s root v t.l1 user t.walk ∙ t.to

-- The word that the processor reaches along a walk.
leaf_word-Walk :
    (s : Machine) (root v l1 : ℕ)
    → Walk s root v l1
    → leaf_word s.ram root v ≡ s.ram (cell l1 (index v (2 ^ 12)))
unfolding follow
leaf_word-Walk s root v l1 walk =
    let rest₃ = index v (2 ^ 21) ∷ index v (2 ^ 12) ∷ [] in
    follow-table (index v (2 ^ 39)) root (index v (2 ^ 30) ∷ rest₃) s.ram
    ∙ ap (follow (index v (2 ^ 30) ∷ rest₃) s.ram) walk.word₄
    ∙ follow-table (index v (2 ^ 30)) walk.l3 rest₃ s.ram
    ∙ ap (follow rest₃ s.ram) walk.word₃
    ∙ follow-table (index v (2 ^ 21)) walk.l2 (index v (2 ^ 12) ∷ []) s.ram
    ∙ ap (follow (index v (2 ^ 12) ∷ []) s.ram) walk.word₂
    ∙ follow-table (index v (2 ^ 12)) l1 [] s.ram

-- `s'` is `s` with the page of `v` mapped to the page of `phys` with the flags: the word that the
-- processor reaches for `v` is theirs, and what it reaches for an address of another page, a missing
-- table or entry included, is as it was.
pub record Mapped (root : ℕ) (s s' : Machine) (v phys flags : ℕ) : Type 0 where
  pub leaf : IsLeaf (leaf_word s'.ram root v) phys flags
  pub same_leaf :
      (w : ℕ) → virtual_page w ≢ virtual_page v → leaf_word s'.ram root w ≡ leaf_word s.ram root w
  pub place : Place
  pub tree : IsTree s' root place
  pub there : Translates s' root v phys
  pub others :
      (w q : ℕ) → Translates s root w q → virtual_page w ≢ virtual_page v → Translates s' root w q
  pub left : spare s.frames ≤ spare s'.frames + 3

module _ (root : ℕ) (user : Bool) (s : Machine) (place : Place) (tree : IsTree s root place) where
  -- A walk from before is a walk in the state behind.
  Walk-Walked :
      (s' : Machine) (place' : Place) (v l1 w l : ℕ)
      → Walked root s s' place place' v l1
      → Walk s root w l
      → Walk s' root w l
  Walk-Walked s' place' v l1 w l walked walk = record {
    l3 = walk.l3;
    l2 = walk.l2;
    small = walk.small;
    word₄ = walked.others root _ _ [] tree.top (index-lt w (2 ^ 39)) walk.word₄ (omega arith);
    word₃ =
        walked.others walk.l3 _ _ _ (place₃ root s place tree w l walk) (index-lt w (2 ^ 30))
          walk.word₃ (omega arith);
    word₂ =
        walked.others walk.l2 _ _ _ (place₂ root s place tree w l walk) (index-lt w (2 ^ 21))
          walk.word₂ (omega arith);
  }

  -- The leaf of another page is another entry.
  other-leaf :
      (s' : Machine) (place' : Place) (v l1 w l : ℕ)
      → Walked root s s' place place' v l1
      → Walk s root w l
      → virtual_page w ≢ virtual_page v
      → cell l (index w (2 ^ 12)) ≢ cell l1 (index v (2 ^ 12))
  other-leaf s' place' v l1 w l walked walk ne same =
      let low = index-lt w (2 ^ 12) in
      let low' = index-lt v (2 ^ 12) in
      let frame : l ≡ l1 = omega (arith, low, low', same) in
      let index₁ : index w (2 ^ 12) ≡ index v (2 ^ 12) = omega (arith, low, low', same) in
      let place_l = walked.kept l _ (place₁ root s place tree w l walk) in
      let (index₂, index₃, index₄) =
        same_place _ _ _ _ _ _ (sym place_l ∙ ap place' frame ∙ walked.stands) in
      ne (virtual_page-index w v index₄ index₃ index₂ index₁)

  -- While three frames are to spare, `map` keeps the tables below a root a tree. The word that the
  -- processor then reaches for the page has the page's physical address and the flags asked for
  -- (present, read_write, user, and no execution without executable), and what it reaches for any
  -- other page, mapped or not, is what it was.
  pub map-Mapped :
      (v phys flags : ℕ)
      → 3 ≤ spare s.frames
      → Mapped root s (PageTable.map higher_half (rooted root user) s v phys flags) v phys flags
  map-Mapped v phys flags free =
      let (l1, s', place', result, walked) = map-Walked root user s place tree v phys flags free in
      let i₁ = index-lt v (2 ^ 12) in
      let word = leaf_entry phys flags in
      let written =
        written-Walk root s' place' walked.tree l1 (index v (2 ^ 12)) word _ walked.stands
          (omega arith) i₁ in
      let after = written v l1 walked.walk in
      rw result (record {
        leaf =
            subst (λ e. IsLeaf e phys flags)
              (sym (
                leaf_word-Walk _ root v l1 after
                ∙ store_self s'.ram (cell l1 (index v (2 ^ 12))) word))
              (leaf_entry-IsLeaf phys flags);
        same_leaf = λ w ne.
            leaf_word-written root s' place' walked.tree l1 (index v (2 ^ 12)) word _ walked.stands
              (omega arith) i₁ w (other-path w v ne)
            ∙ walked.leaf_words w;
        place = place';
        tree =
            written-IsTree root s' place' walked.tree l1 (index v (2 ^ 12)) word _ walked.stands
              (omega arith) i₁;
        there = record {
          l1 = l1;
          walk = after;
          to =
              ap (PageTable.page_of higher_half)
                (store_self s'.ram (cell l1 (index v (2 ^ 12))) word)
              ∙ page_of-leaf_entry phys flags;
        };
        others = λ w q before ne. record {
          l1 = before.l1;
          walk = written w before.l1 (Walk-Walked s' place' v l1 w before.l1 walked before.walk);
          to =
              ap (PageTable.page_of higher_half) (
                store_ne s'.ram _ word _
                  (other-leaf s' place' v l1 w before.l1 walked before.walk ne)
                ∙ walked.leaves before.l1 _ _ (place₁ root s place tree w before.l1 before.walk)
                    (omega arith) (index-lt w (2 ^ 12)))
              ∙ before.to;
        };
        left = walked.left;
      })

  -- With three frames to spare, the page that `map` maps translates to the page of the physical
  -- address it was given, without the address bits above bit 46 and below bit 12.
  pub translate_addr-map :
      (v phys flags : ℕ)
      → 3 ≤ spare s.frames
      → let s' = PageTable.map higher_half (rooted root user) s v phys flags in
        PageTable.translate_addr higher_half (rooted root user) s' v ≡ phys % 2 ^ 47 - phys % 2 ^ 12
  translate_addr-map v phys flags free =
      translate_addr-Translates root user _ v phys (map-Mapped v phys flags free).there
