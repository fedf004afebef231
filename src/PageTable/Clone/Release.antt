-- ===== src/PageTable/Clone/Release.antt =====
-- kernel/src/arch/x86_64/table.cpp: what the last owner of an address space gives back.
use ion_os.Base.{ℕ, ◌*◌, ◌^◌, ◌<◌, ◌≡◌, true, arith, none, some, List, [], ◌∷◌}
use ion_os.Bitmap.{get}
use ion_os.PageTable.{Machine, index}
use ion_os.PageTable.Words.{higher_half, cell, index-lt, page_of-eq, phys_to_virt-frame}
use ion_os.PageTable.Tree.{Place, IsTree}
use ion_os.PageTable.Translate.{place₁, place₂, place₃}
use ion_os.PageTable.Mapped.{Translates}
use ion_os.PageTable.Clone.{free_page_table}
use ion_os.PageTable.Clone.Free.{Freed-refl, Frees, here-Frees, Frees-up}

module _ (root v g : ℕ) (s : Machine) (place : Place) (tree : IsTree s root place)
    (zero_free : place 0 ≡ none) (t : Translates s root v (g * 4096))
    (lower : index v (2 ^ 39) < 256) where
  positive : (f : ℕ) (p : List ℕ) → place f ≡ some p → 0 < f
  positive f p e = ground arith

  place₃' : place t.walk.l3 ≡ some (index v (2 ^ 39) ∷ [])
  place₃' = place₃ root s place tree v t.l1 t.walk

  place₂' : place t.walk.l2 ≡ some (index v (2 ^ 30) ∷ index v (2 ^ 39) ∷ [])
  place₂' = place₂ root s place tree v t.l1 t.walk

  place₁' : place t.l1 ≡ some (index v (2 ^ 21) ∷ index v (2 ^ 30) ∷ index v (2 ^ 39) ∷ [])
  place₁' = place₁ root s place tree v t.l1 t.walk

  -- A call for the table of the lowest level, and the calls above it.
  from_l2 : (k : ℕ) → Frees 1 s t.l1 k → Frees 2 s t.walk.l2 k
  from_l2 k frees =
      Frees-up t.walk.l2 (positive _ _ place₂') (tree.low _ _ place₂') 1 t.l1 k (index v (2 ^ 21)) s
        (omega (arith, t.walk.word₂, t.walk.small)) (tree.low _ _ place₁') (index-lt v (2 ^ 21))
        frees

  from_l3 : (k : ℕ) → Frees 2 s t.walk.l2 k → Frees 3 s t.walk.l3 k
  from_l3 k frees =
      Frees-up t.walk.l3 (positive _ _ place₃') (tree.low _ _ place₃') 2 t.walk.l2 k
        (index v (2 ^ 30)) s (omega (arith, t.walk.word₃, t.walk.small)) (tree.low _ _ place₂')
        (index-lt v (2 ^ 30)) frees

  from_root : (k : ℕ) → Frees 3 s t.walk.l3 k → Frees 4 s root k
  from_root k frees =
      Frees-up root (positive root [] tree.top) (tree.low root [] tree.top) 3 t.walk.l3 k
        (index v (2 ^ 39)) s (omega (arith, t.walk.word₄, t.walk.small)) (tree.low _ _ place₃')
        lower frees

  from_page : g < 2 ^ 35 → (k : ℕ) → Frees 0 s g k → Frees 1 s t.l1 k
  from_page lg k frees =
      Frees-up t.l1 (positive _ _ place₁') (tree.low _ _ place₁') 0 g k (index v (2 ^ 12)) s
        (omega (arith, t.to, page_of-eq (s.ram (cell t.l1 (index v (2 ^ 12)))))) lg
        (index-lt v (2 ^ 12)) frees

  -- The last owner of an address space gives back, for every page of its lower half that is
  -- mapped to a frame of the map, that frame and the frames of the four tables that lead to it.
  pub free_page_table-frees :
      0 < g
      → g < s.frames.size
      → let after =
          (free_page_table higher_half s
            (record { page_table_phys = root * 4096; ref_count = 1 })).1.frames in
        (get after g ≡ true)
        × (get after t.l1 ≡ true)
        × (get after t.walk.l2 ≡ true)
        × (get after t.walk.l3 ≡ true)
        × (get after root ≡ true)
  unfolding free_page_table
  free_page_table-frees pos inside =
      let lg : g < 2 ^ 35 = omega (arith, tree.few) in
      let start = Freed-refl s tree.frames.bytes in
      let at_page = here-Frees g pos lg 0 s inside in
      let at_l1 =
        here-Frees t.l1 (positive _ _ place₁') (tree.low _ _ place₁') 1 s
          (tree.inside _ _ place₁') in
      let at_l2 =
        here-Frees t.walk.l2 (positive _ _ place₂') (tree.low _ _ place₂') 2 s
          (tree.inside _ _ place₂') in
      let at_l3 =
        here-Frees t.walk.l3 (positive _ _ place₃') (tree.low _ _ place₃') 3 s
          (tree.inside _ _ place₃') in
      let at_root =
        here-Frees root (positive root [] tree.top) (tree.low root [] tree.top) 4 s
          (tree.inside root [] tree.top) in
      rw (phys_to_virt-frame root (tree.low root [] tree.top)) (
        from_root g (from_l3 g (from_l2 g (from_page lg g at_page))) s start,
        from_root t.l1 (from_l3 t.l1 (from_l2 t.l1 at_l1)) s start,
        from_root t.walk.l2 (from_l3 t.walk.l2 at_l2) s start,
        from_root t.walk.l3 at_l3 s start,
        at_root s start,
      )
