-- ===== src/PageTable/Clone/Shares.antt =====
-- kernel/src/arch/x86_64/table.cpp: the tables below the root of a clone are the original's.
use ion_os.Base.{
  ℕ, ◌*◌, ◌^◌, ◌<◌, ◌≤◌, ◌≡◌, ◌≢◌, inl, inr, ◌∙◌, true, false, arith, ◌==◌, Bool-cases, bit_and,
  ltb, ap, some, List, [],
}
use ion_os.Frame.One.{spare}
use ion_os.PageTable
use ion_os.PageTable.{Machine, index}
use ion_os.PageTable.Words.{higher_half, cell, index-lt}
use ion_os.PageTable.Tree.{Place, IsTree}
use ion_os.PageTable.Map.{Walk}
use ion_os.PageTable.Translate.{place₁, place₂, place₃}
use ion_os.PageTable.Mapped.{Translates}
use ion_os.PageTable.Clone.{fresh, clone_page_table}
use ion_os.PageTable.Clone.Copy.{Copy, clone_page_table-Copy}

module _ (root g : ℕ) (s s' : Machine) (place : Place) (tree : IsTree s root place)
    (copy : Copy root g s s') (lg : g < 2 ^ 35) where
  table-≢ : (f : ℕ) (p : List ℕ) → place f ≡ some p → f ≢ g
  table-≢ f p e = ground (arith, tree.in_use f p e, copy.taken.was_free)

  root-entry : (i x : ℕ) → i < 512 → s.ram (cell root i) ≡ x → x ≢ 0 → s'.ram (cell g i) ≡ x
  root-entry i x li word ne = elim (Bool-cases (ltb i 256)) [
    | inl lower ↦
        let full : (s.ram (cell root i) == 0) ≡ false = ground arith in
        copy.lower i (ground arith) ∙ rw full word
    | inr upper ↦ copy.upper i (ground arith) li ∙ word
  ]

  -- The walk of the clone ends at the same table of the lowest level.
  Copy-Walk : (w l1 : ℕ) → Walk s root w l1 → Walk s' g w l1
  Copy-Walk w l1 walk = record {
    l3 = walk.l3;
    l2 = walk.l2;
    small = (lg, walk.small.1, walk.small.2, walk.small.3);
    word₄ = root-entry (index w (2 ^ 39)) _ (index-lt w (2 ^ 39)) walk.word₄ (omega arith);
    word₃ =
        copy.others walk.l3 _ (table-≢ walk.l3 _ (place₃ root s place tree w l1 walk))
          (index-lt w (2 ^ 30))
        ∙ walk.word₃;
    word₂ =
        copy.others walk.l2 _ (table-≢ walk.l2 _ (place₂ root s place tree w l1 walk))
          (index-lt w (2 ^ 21))
        ∙ walk.word₂;
  }

  Copy-Translates : (w phys : ℕ) → Translates s root w phys → Translates s' g w phys
  Copy-Translates w phys t = record {
    l1 = t.l1;
    walk = Copy-Walk w t.l1 t.walk;
    to =
        ap (PageTable.page_of higher_half) (
          copy.others t.l1 _ (table-≢ t.l1 _ (place₁ root s place tree w t.l1 t.walk))
            (index-lt w (2 ^ 12)))
        ∙ t.to;
  }

-- Without CLONE_VM, an address that was mapped translates in the clone as it did, and through the
-- very table of the lowest level that the original uses: the two address spaces share it.
pub clone_page_table-Translates :
    (root count flags w phys : ℕ) (s : Machine) (place : Place)
    → IsTree s root place
    → 0 < root
    → (bit_and flags 0x100 == 0) ≡ true
    → 1 ≤ spare s.frames
    → (t : Translates s root w phys)
    → (g : ℕ) × (s' : Machine) × (clone_page_table higher_half s
          (record { page_table_phys = root * 4096; ref_count = count })
          flags
        ≡ fresh (record { page_table_phys = g * 4096; ref_count = 1 }) s')
      × (g ≢ root)
      × Walk s' g w t.l1
      × Translates s' g w phys
clone_page_table-Translates root count flags w phys s place tree pos own free t =
    let used = tree.in_use root [] tree.top in
    let (g, s', result, copy) =
      clone_page_table-Copy root count flags s tree.frames tree.few used (tree.low root [] tree.top)
        pos own free in
    let lg : g < 2 ^ 35 = omega (arith, copy.taken.in_map, tree.few) in
    (
      g,
      s',
      result,
      ground (arith, used, copy.taken.was_free),
      Copy-Walk root g s s' place tree copy lg w t.l1 t.walk,
      Copy-Translates root g s s' place tree copy lg w phys t,
    )
