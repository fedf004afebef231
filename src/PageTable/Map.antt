-- ===== src/PageTable/Map.antt =====
-- kernel/src/arch/x86_64/table.cpp: what `map` does to the tree of tables.
use mathlib.Core.Option.{some-injective}
use ion_os.Base.{
  ℕ, ◌+◌, ◌*◌, ◌^◌, ◌<◌, ◌≤◌, ◌≡◌, ◌≢◌, inl, refl, sym, ap, ◌∙◌, Bool, arith, some, List, [], ◌∷◌,
  bit_or,
}
use ion_os.Base.Lists.{length}
use ion_os.Memory.{store}
use ion_os.Frame.One.{spare}
use ion_os.PageTable
use ion_os.PageTable.{Machine, PageTable, index}
use ion_os.PageTable.Words.{
  higher_half, cell, phys_to_virt-frame, entry-cell, index-lt, next_table-eq,
}
use ion_os.PageTable.Leaf.{leaf_word, leaf_word-Linked}
use ion_os.PageTable.Tree.{Place, IsTree, Linked, page_table_create-Linked}

-- The walk for `v` finds a table at every level, and ends at the table in frame `l1`.
pub record Walk (s : Machine) (root v l1 : ℕ) : Type 0 where
  pub l3 : ℕ
  pub l2 : ℕ
  pub small : (root < 2 ^ 35) × (l3 < 2 ^ 35) × (l2 < 2 ^ 35) × (l1 < 2 ^ 35)
  pub word₄ : s.ram (cell root (index v (2 ^ 39))) ≡ l3 * 4096 + 7
  pub word₃ : s.ram (cell l3 (index v (2 ^ 30))) ≡ l2 * 4096 + 7
  pub word₂ : s.ram (cell l2 (index v (2 ^ 21))) ≡ l1 * 4096 + 7

-- The object for the root in frame `root`.
abbrev pub rooted : ℕ → Bool → PageTable
rooted root user = record { phys_addr = root * 4096; user = user }

-- The translation along a walk.
pub translate_addr-Walk :
    (s : Machine) (root v l1 : ℕ) (user : Bool)
    → Walk s root v l1
    → PageTable.translate_addr higher_half (rooted root user) s v
      ≡ PageTable.page_of higher_half (s.ram (cell l1 (index v (2 ^ 12))))
unfolding PageTable.translate_addr
translate_addr-Walk s root v l1 user walk =
    let (l₄, l₃, l₂, l₁) = walk.small in
    let i₄ = index-lt v (2 ^ 39) in
    let i₃ = index-lt v (2 ^ 30) in
    let i₂ = index-lt v (2 ^ 21) in
    rw
      (
        phys_to_virt-frame root l₄,
        next_table-eq root l₄ s.ram walk.l3 (index v (2 ^ 39)) l₃ i₄ walk.word₄,
        next_table-eq walk.l3 l₃ s.ram walk.l2 (index v (2 ^ 30)) l₂ i₃ walk.word₃,
        next_table-eq walk.l2 l₂ s.ram l1 (index v (2 ^ 21)) l₁ i₂ walk.word₂,
        entry-cell l1 l₁ (index v (2 ^ 12)) (index-lt v (2 ^ 12)),
      )
      refl

-- The three tables of the walk for `v` are there, and nothing but new entries has changed.
pub record Walked (root : ℕ) (s s' : Machine) (place place' : Place) (v l1 : ℕ) : Type 0 where
  pub tree : IsTree s' root place'
  pub kept : (h : ℕ) (q : List ℕ) → place h ≡ some q → place' h ≡ some q
  pub stands : place' l1 ≡ some (index v (2 ^ 21) ∷ index v (2 ^ 30) ∷ index v (2 ^ 39) ∷ [])
  pub walk : Walk s' root v l1
  pub others :
      (h j x : ℕ) (q : List ℕ)
      → place h ≡ some q
      → j < 512
      → s.ram (cell h j) ≡ x
      → x ≢ 0
      → s'.ram (cell h j) ≡ x
  pub leaves :
      (h j : ℕ) (q : List ℕ)
      → place h ≡ some q
      → length q ≡ 3
      → j < 512
      → s'.ram (cell h j) ≡ s.ram (cell h j)
  pub left : spare s.frames ≤ spare s'.frames + 3
  pub leaf_words : (w : ℕ) → leaf_word s'.ram root w ≡ leaf_word s.ram root w

-- Three tables in a row.
module _ (root v l3 l2 l1 : ℕ) (s s₁ s₂ s₃ : Machine) (place place₁ place₂ place₃ : Place)
    (tree : IsTree s root place) (link₁ : Linked root s s₁ place place₁ root (index v (2 ^ 39)) l3)
    (link₂ : Linked root s₁ s₂ place₁ place₂ l3 (index v (2 ^ 30)) l2)
    (link₃ : Linked root s₂ s₃ place₂ place₃ l2 (index v (2 ^ 21)) l1) where
  stands₁ : place₁ l3 ≡ some (index v (2 ^ 39) ∷ [])
  stands₁ = link₁.child [] tree.top

  stands₂ : place₂ l2 ≡ some (index v (2 ^ 30) ∷ index v (2 ^ 39) ∷ [])
  stands₂ = link₂.child _ stands₁

  stands₃ : place₃ l1 ≡ some (index v (2 ^ 21) ∷ index v (2 ^ 30) ∷ index v (2 ^ 39) ∷ [])
  stands₃ = link₃.child _ stands₂

  words : Walk s₃ root v l1
  words = record {
    l3 = l3;
    l2 = l2;
    small = (
      tree.low root [] tree.top,
      link₁.tree.low l3 _ stands₁,
      link₂.tree.low l2 _ stands₂,
      link₃.tree.low l1 _ stands₃,
    );
    word₄ =
        link₃.others root _ _ [] link₂.tree.top (index-lt v (2 ^ 39))
          (link₂.others root _ _ [] link₁.tree.top (index-lt v (2 ^ 39)) link₁.here (omega arith))
          (omega arith);
    word₃ =
        link₃.others l3 _ _ _ (link₂.kept l3 _ stands₁) (index-lt v (2 ^ 30)) link₂.here
          (omega arith);
    word₂ = link₃.here;
  }

  -- A table of the lowest level is none of the three above.
  lowest-≢ :
      (q q' : List ℕ) (at : Place) (h f : ℕ)
      → at h ≡ some q
      → length q ≡ 3
      → at f ≡ some q'
      → length q' ≤ 2
      → h ≢ f
  lowest-≢ q q' at h f e three e' inner same =
      let both : q ≡ q' = some-injective _ _ (sym e ∙ ap at same ∙ e') in
      omega (arith, ap length both, three, inner)

  Linked-Walked : Walked root s s₃ place place₃ v l1
  Linked-Walked = record {
    tree = link₃.tree;
    kept = λ h q e. link₃.kept h q (link₂.kept h q (link₁.kept h q e));
    stands = stands₃;
    walk = words;
    others = λ h j x q e lj w ne.
        let e₁ = link₁.kept h q e in
        link₃.others h j x q (link₂.kept h q e₁) lj
          (link₂.others h j x q e₁ lj (link₁.others h j x q e lj w ne) ne) ne;
    leaves = λ h j q e three lj.
        let e₁ = link₁.kept h q e in
        let e₂ = link₂.kept h q e₁ in
        link₃.apart h j q e₂ lj (inl (lowest-≢ q _ place₂ h l2 e₂ three stands₂ (omega arith)))
        ∙ link₂.apart h j q e₁ lj (inl (lowest-≢ q _ place₁ h l3 e₁ three stands₁ (omega arith)))
        ∙ link₁.apart h j q e lj (inl (lowest-≢ q _ place h root e three tree.top (omega arith)));
    left = omega (arith, link₁.left, link₂.left, link₃.left);
    leaf_words = λ w.
        leaf_word-Linked root s₂ s₃ place₂ place₃ l2 _ l1 _ link₂.tree link₃ stands₂ (omega arith) w
        ∙ leaf_word-Linked root s₁ s₂ place₁ place₂ l3 _ l2 _ link₁.tree link₂ stands₁ (omega arith)
            w
        ∙ leaf_word-Linked root s s₁ place place₁ root _ l3 [] tree link₁ tree.top (omega arith) w;
  }

-- The entry that `map` writes.
abbrev pub leaf_entry : (phys flags : ℕ) → ℕ
leaf_entry phys flags = bit_or (PageTable.page_of higher_half phys) (PageTable.arch_flags flags)

module _ (root : ℕ) (user : Bool) (s : Machine) (place : Place) (tree : IsTree s root place) where
  pub map-Walked :
      (v phys flags : ℕ)
      → 3 ≤ spare s.frames
      → (l1 : ℕ) × (s' : Machine) × (place' : Place) × (PageTable.map higher_half
            (rooted root user)
            s
            v
            phys
            flags
          ≡ record s' { ram = store s'.ram (cell l1 (index v (2 ^ 12))) (leaf_entry phys flags) })
        × Walked root s s' place place' v l1
  unfolding PageTable.map
  map-Walked v phys flags free =
      let i₄ = index-lt v (2 ^ 39) in
      let i₃ = index-lt v (2 ^ 30) in
      let i₂ = index-lt v (2 ^ 21) in
      let i₁ = index-lt v (2 ^ 12) in
      let l₄ = tree.low root [] tree.top in
      let (l3, s₁, place₁, make₁, link₁) =
        page_table_create-Linked root s place tree root (index v (2 ^ 39)) [] tree.top (omega arith)
          i₄ (omega arith) in
      let stands₁ = link₁.child [] tree.top in
      let l₃ = link₁.tree.low l3 _ stands₁ in
      let (l2, s₂, place₂, make₂, link₂) =
        page_table_create-Linked root s₁ place₁ link₁.tree l3 (index v (2 ^ 30)) _ stands₁
          (omega arith) i₃ (omega (arith, link₁.left)) in
      let stands₂ = link₂.child _ stands₁ in
      let l₂ = link₂.tree.low l2 _ stands₂ in
      let (l1, s₃, place₃, make₃, link₃) =
        page_table_create-Linked root s₂ place₂ link₂.tree l2 (index v (2 ^ 21)) _ stands₂
          (omega arith) i₂ (omega (arith, link₁.left, link₂.left)) in
      let stands₃ = link₃.child _ stands₂ in
      let l₁ = link₃.tree.low l1 _ stands₃ in
      (
        l1,
        s₃,
        place₃,
        rw
            (
              phys_to_virt-frame root l₄,
              entry-cell root l₄ (index v (2 ^ 39)) i₄,
              make₁,
              entry-cell l3 l₃ (index v (2 ^ 30)) i₃,
              make₂,
              entry-cell l2 l₂ (index v (2 ^ 21)) i₂,
              make₃,
              entry-cell l1 l₁ (index v (2 ^ 12)) i₁,
            )
            refl,
        Linked-Walked root v l3 l2 l1 s s₁ s₂ s₃ place place₁ place₂ place₃ tree link₁ link₂ link₃,
      )
