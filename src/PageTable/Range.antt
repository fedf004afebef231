-- ===== src/PageTable/Range.antt =====
-- kernel/src/arch/x86_64/table.cpp: `map_range` with a physical address.
use ion_os.Base.{
  ℕ, zero, suc, ◌+◌, ◌*◌, ◌%◌, ◌^◌, ◌<◌, ◌≤◌, ◌≡◌, ◌≢◌, inl, inr, Bool, false, arith, ◌==◌,
  Bool-cases,
}
use ion_os.Frame.One.{spare}
use ion_os.PageTable
use ion_os.PageTable.{Machine}
use ion_os.PageTable.Words.{higher_half}
use ion_os.PageTable.Tree.{Place, IsTree}
use ion_os.PageTable.Map.{rooted}
use ion_os.PageTable.Mapped.{virtual_page, Translates, map-Mapped, translate_addr-Translates}

module _ (root : ℕ) (user : Bool) (virt phys flags : ℕ) (given : phys ≢ 0) where
  -- The pages from `i` to `end` are mapped, and the pages mapped before that are none of these
  -- are as they were.
  pub record Ranged (s s' : Machine) (i end : ℕ) : Type 0 where
    pub place : Place
    pub tree : IsTree s' root place
    pub there : (k : ℕ) → i ≤ k → k < end → Translates s' root (virt + k * 4096) (phys + k * 4096)
    pub others :
        (w q : ℕ)
        → Translates s root w q
        → ((k : ℕ) → i ≤ k → k < end → virtual_page w ≢ virtual_page (virt + k * 4096))
        → Translates s' root w q

  map_pages-Ranged :
      (left : ℕ) (s : Machine) (place : Place) (i : ℕ)
      → IsTree s root place
      → 3 * left ≤ spare s.frames
      → virt + (i + left) * 4096 ≤ 2 ^ 64
      → phys + (i + left) * 4096 ≤ 2 ^ 47
      → i + left ≤ 2 ^ 36
      → Ranged s
          (PageTable.map_pages higher_half left (rooted root user) s virt phys i flags)
          i
          (i + left)
  unfolding PageTable.map_pages
  map_pages-Ranged zero s place i tree free fits_v fits_p few = record {
    place = place;
    tree = tree;
    there = λ k low high. absurd (omega arith);
    others = λ w q before ne. before;
  }
  map_pages-Ranged (suc left) s place i tree free fits_v fits_p few =
      let v = virt + i * 4096 in
      let p = phys + i * 4096 in
      let v_at : (virt + i * 4096) % 2 ^ 64 ≡ v = omega arith in
      let p_at : (phys + i * 4096) % 2 ^ 64 ≡ p = omega arith in
      let some_phys : (phys == 0) ≡ false = ground arith in
      let mapped = map-Mapped root user s place tree v p flags (omega arith) in
      let rest =
        map_pages-Ranged left (PageTable.map higher_half (rooted root user) s v p flags)
          mapped.place (i + 1) mapped.tree (omega (arith, mapped.left)) (omega arith) (omega arith)
          (omega arith) in
      rw (some_phys, v_at, p_at)
        (record {
          place = rest.place;
          tree = rest.tree;
          there = λ k low high. elim (Bool-cases (k == i)) [
            | inl first ↦
                let same : k ≡ i = ground arith in
                rw same (rest.others v p mapped.there λ j after before. omega arith)
            | inr later ↦ rest.there k (ground arith) (omega arith)
          ];
          others = λ w q before ne.
              rest.others w q (mapped.others w q before (ne i (omega arith) (omega arith)))
                λ k low high. ne k (omega arith) (omega arith);
        })

  -- `map_range` with a page-aligned physical address other than 0 below 2 ^ 47 makes each of its pages
  -- translate to the frame with the same number, while three frames for each are to spare and
  -- the range does not wrap.
  pub translate_addr-map_range :
      (s : Machine) (place : Place) (count k : ℕ)
      → IsTree s root place
      → 3 * count ≤ spare s.frames
      → virt + count * 4096 ≤ 2 ^ 64
      → phys + count * 4096 ≤ 2 ^ 47
      → phys % 4096 ≡ 0
      → count ≤ 2 ^ 36
      → k < count
      → PageTable.translate_addr higher_half
          (rooted root user)
          (PageTable.map_range higher_half (rooted root user) s virt phys count flags)
          (virt + k * 4096)
        ≡ phys + k * 4096
  unfolding PageTable.map_range
  translate_addr-map_range s place count k tree free fits_v fits_p aligned few lt =
      let ranged =
        map_pages-Ranged count s place 0 tree free (omega arith) (omega arith) (omega arith) in
      omega (
        arith,
        translate_addr-Translates root user _ (virt + k * 4096) (phys + k * 4096)
            (ranged.there k (omega arith) (omega arith)),
      )
