-- ===== src/PageTable/Tree.antt =====
-- kernel/src/arch/x86_64/table.cpp: the tables below one root form a tree, and
-- `page_table_create` keeps it one.
use mathlib.Core.Option.{some-injective}
use ion_os.Base.{
  ℕ, ◌+◌, ◌*◌, ◌^◌, ◌<◌, ◌≤◌, ◌≡◌, ◌≢◌, ◌⊎◌, inl, inr, refl, sym, ap, ◌∙◌, true, false, arith, ◌==◌,
  if◌then◌else◌, Option, some, List, [], ◌∷◌, Bool-cases,
}
use ion_os.Base.Lists.{length}
use ion_os.Bitmap.{get}
use ion_os.Memory.{store, store_self, store_ne}
use ion_os.Frame.{alloc_frames}
use ion_os.Frame.Alloc.{IsFrames}
use ion_os.Frame.One.{spare, Taken, alloc_frames-one}
use ion_os.PageTable
use ion_os.PageTable.{Machine}
use ion_os.PageTable.Words.{
  higher_half, cell, phys_to_virt-frame, table_entry-eq, page_of-table, page_table_clear-in,
  page_table_clear-out,
}

-- Where the table of a frame stands: the indices that lead to it from the root, the last first.
abbrev pub Place : Type 0
Place = ℕ → Option (List ℕ)

-- The root and the tables of the three levels below it, each in a frame of its own that the
-- allocator holds as used, and with one entry that points at it.
pub record IsTree (s : Machine) (root : ℕ) (place : Place) : Type 0 where
  pub top : place root ≡ some []
  pub low : (f : ℕ) (p : List ℕ) → place f ≡ some p → f < 2 ^ 35
  pub inside : (f : ℕ) (p : List ℕ) → place f ≡ some p → f < s.frames.size
  pub in_use : (f : ℕ) (p : List ℕ) → place f ≡ some p → get s.frames f ≡ false
  pub below :
      (f i : ℕ) (p : List ℕ)
      → place f ≡ some p
      → length p ≤ 2
      → i < 512
      → (s.ram (cell f i) ≡ 0)
        ⊎ ((g : ℕ) × (s.ram (cell f i) ≡ g * 4096 + 7) × (place g ≡ some (i ∷ p)))
  pub frames : IsFrames s.frames
  pub few : s.frames.size ≤ 2 ^ 35

-- The table `g` stands below entry `i` of the table `f`, and the rest is as it was.
pub record Linked (root : ℕ) (s s' : Machine) (place place' : Place) (f i g : ℕ) : Type 0 where
  pub tree : IsTree s' root place'
  pub kept : (h : ℕ) (q : List ℕ) → place h ≡ some q → place' h ≡ some q
  pub child : (p : List ℕ) → place f ≡ some p → place' g ≡ some (i ∷ p)
  pub here : s'.ram (cell f i) ≡ g * 4096 + 7
  pub fresh : s.ram (cell f i) ≡ 0 → (j : ℕ) → j < 512 → s'.ram (cell g j) ≡ 0
  pub others :
      (h j v : ℕ) (q : List ℕ)
      → place h ≡ some q
      → j < 512
      → s.ram (cell h j) ≡ v
      → v ≢ 0
      → s'.ram (cell h j) ≡ v
  pub apart :
      (h j : ℕ) (q : List ℕ)
      → place h ≡ some q
      → j < 512
      → (h ≢ f) ⊎ (j ≢ i)
      → s'.ram (cell h j) ≡ s.ram (cell h j)
  pub left : spare s.frames ≤ spare s'.frames + 1

-- A table that is there is used.
module _ (root : ℕ) (s : Machine) (place : Place) (tree : IsTree s root place) (f i : ℕ)
    (p : List ℕ) (at : place f ≡ some p) (inner : length p ≤ 2) (li : i < 512) where
  page_table_create-there :
      (g : ℕ)
      → s.ram (cell f i) ≡ g * 4096 + 7
      → g < 2 ^ 35
      → PageTable.page_table_create higher_half s (cell f i) ≡ (g * 4096 + higher_half, s)
  unfolding PageTable.page_table_create
  page_table_create-there g word small =
      let nonzero : (s.ram (cell f i) == 0) ≡ false = ground arith in
      rw nonzero (rw (word, page_of-table g small, phys_to_virt-frame g small) refl)

  Linked-there :
      (g : ℕ)
      → s.ram (cell f i) ≡ g * 4096 + 7
      → place g ≡ some (i ∷ p)
      → Linked root s s place place f i g
  Linked-there g word stands = record {
    tree = tree;
    kept = λ h q e. e;
    child = λ q e. let same : p ≡ q = some-injective _ _ (sym at ∙ e) in rw (sym same) stands;
    here = word;
    fresh = λ blank. absurd (omega arith);
    others = λ h j v q e lj w ne. w;
    apart = λ h j q e lj ne. refl;
    left = omega arith;
  }

  -- A table that is not there is made.
  module _ (g : ℕ) (frames : _) (taken : Taken s.frames g frames)
      (empty : s.ram (cell f i) ≡ 0) where
    abbrev made : Machine
    made = record {
      ram =
          PageTable.page_table_clear (store s.ram (cell f i) (g * 4096 + 7))
            (g * 4096 + higher_half);
      frames = frames;
    }

    abbrev place' : Place
    place' h = if h == g then some (i ∷ p) else place h

    g-lt : g < 2 ^ 35
    g-lt = omega (arith, taken.in_map, tree.few)

    page_table_create-made :
        alloc_frames s.frames 1 ≡ (g * 4096, frames)
        → PageTable.page_table_create higher_half s (cell f i) ≡ (g * 4096 + higher_half, made)
    unfolding PageTable.page_table_create
    page_table_create-made alloc =
        rw (alloc, empty, table_entry-eq g g-lt, page_of-table g g-lt, phys_to_virt-frame g g-lt)
          refl

    -- A table's frame is not the new one.
    old-≢ : (h : ℕ) (q : List ℕ) → place h ≡ some q → h ≢ g
    old-≢ h q e = ground (arith, tree.in_use h q e, taken.was_free)

    made-new : (j : ℕ) → j < 512 → made.ram (cell g j) ≡ 0
    made-new j lj = page_table_clear-in _ g g-lt j lj

    made-old :
        (h j : ℕ) (q : List ℕ)
        → place h ≡ some q
        → j < 512
        → made.ram (cell h j) ≡ store s.ram (cell f i) (g * 4096 + 7) (cell h j)
    made-old h j q e lj = page_table_clear-out _ g g-lt h j (old-≢ h q e) lj

    made-here : made.ram (cell f i) ≡ g * 4096 + 7
    made-here = made-old f i p at li ∙ store_self s.ram (cell f i) (g * 4096 + 7)

    made-other :
        (h j : ℕ) (q : List ℕ)
        → place h ≡ some q
        → j < 512
        → (h ≢ f) ⊎ (j ≢ i)
        → made.ram (cell h j) ≡ s.ram (cell h j)
    made-other h j q e lj ne =
        made-old h j q e lj
        ∙ store_ne s.ram (cell f i) (g * 4096 + 7) (cell h j) (omega (arith, ne))

    made-kept : (h : ℕ) (q : List ℕ) → place h ≡ some q → place' h ≡ some q
    made-kept h q e = let ne : (h == g) ≡ false = ground (arith, old-≢ h q e) in rw ne e

    place'-new : place' g ≡ some (i ∷ p)
    place'-new = let same : (g == g) ≡ true = ground arith in rw same refl

    made-cell : (h j : ℕ) → (((h ≡ f) × (j ≡ i)) ⊎ ((h ≢ f) ⊎ (j ≢ i)))
    made-cell h j = ground arith

    made-below :
        (h j : ℕ) (q : List ℕ)
        → place' h ≡ some q
        → length q ≤ 2
        → j < 512
        → (made.ram (cell h j) ≡ 0)
          ⊎ ((g' : ℕ) × (made.ram (cell h j) ≡ g' * 4096 + 7) × (place' g' ≡ some (j ∷ q)))
    made-below h j q e lq lj = elim (Bool-cases (h == g)) [
      | inl new ↦ let same : h ≡ g = ground arith in rw same (inl (made-new j lj))
      | inr old ↦
          let e' = (rw old at e) in
          elim (made-cell h j) [
            | inl same ↦
                let here : q ≡ p = some-injective _ _ (sym e' ∙ ap place same.0 ∙ at) in
                inr (g, rw (same.0, same.1) made-here, rw (same.1, here) place'-new)
            | inr ne ↦ elim (tree.below h j q e' lq lj) [
              | inl blank ↦ inl (made-other h j q e' lj ne ∙ blank)
              | inr (g', word, stands) ↦
                  inr (g', made-other h j q e' lj ne ∙ word, made-kept g' (j ∷ q) stands)
            ]
          ]
    ]

    Linked-made : Linked root s made place place' f i g
    Linked-made = record {
      tree = record {
        top = made-kept root [] tree.top;
        low = λ h q e. elim (Bool-cases (h == g)) [
          | inl new ↦ ground (arith, g-lt)
          | inr old ↦ tree.low h q (rw old at e)
        ];
        inside = λ h q e. elim (Bool-cases (h == g)) [
          | inl new ↦ ground (arith, taken.in_map, taken.same_size)
          | inr old ↦ omega (arith, tree.inside h q (rw old at e), taken.same_size)
        ];
        in_use = λ h q e. elim (Bool-cases (h == g)) [
          | inl new ↦ taken.others h ∙ rw new refl
          | inr old ↦ taken.others h ∙ rw old (tree.in_use h q (rw old at e))
        ];
        below = made-below;
        frames = taken.is_frames;
        few = omega (arith, taken.same_size, tree.few);
      };
      kept = made-kept;
      child = λ q e. let same : p ≡ q = some-injective _ _ (sym at ∙ e) in rw (sym same) place'-new;
      here = made-here;
      fresh = λ blank. made-new;
      others = λ h j v q e lj w ne. elim (made-cell h j) [
        | inl same ↦ absurd (ne (sym w ∙ rw (same.0, same.1) empty))
        | inr other ↦ made-other h j q e lj other ∙ w
      ];
      apart = λ h j q e lj ne. made-other h j q e lj ne;
      left = taken.left;
    }

  -- `page_table_create` links a table below the entry, while a frame is free.
  pub page_table_create-Linked :
      1 ≤ spare s.frames
      → (g : ℕ) × (s' : Machine) × (place' : Place) × (PageTable.page_table_create higher_half s
            (cell f i)
          ≡ (g * 4096 + higher_half, s'))
        × Linked root s s' place place' f i g
  page_table_create-Linked free = elim (tree.below f i p at inner li) [
    | inl empty ↦
        let (g, frames, alloc, taken) = alloc_frames-one s.frames tree.frames free in
        (
          g,
          made g frames taken empty,
          place' g frames taken empty,
          page_table_create-made g frames taken empty alloc,
          Linked-made g frames taken empty,
        )
    | inr (g, word, stands) ↦ (
      g,
      s,
      place,
      page_table_create-there g word (tree.low g (i ∷ p) stands),
      Linked-there g word stands,
    )
  ]
