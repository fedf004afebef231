-- ===== src/PageTable/Tests.antt =====
-- Four tables in the frames 1 to 4 that lead from the virtual page 0 to the frame 9, and a map in
-- which the frames 16 to 63 are free.
use ion_os.Base.{
  ℕ, ◌+◌, ◌*◌, ◌/◌, ◌%◌, ◌<◌, ◌≤◌, ◌≡◌, ◌≢◌, ◌⊎◌, inl, inr, refl, ap, true, false, arith, ◌==◌, ltb,
  if◌then◌else◌, none, some, List, [], ◌∷◌, Bool-cases,
}
use ion_os.Base.Bits.{test_bit, test_bit-empty}
use ion_os.Base.Lists.{length}
use ion_os.Bitmap.{Bitmap, get}
use ion_os.Frame.One.{spare, free_below}
use ion_os.Memory.{Memory}
use ion_os.PageTable
use ion_os.PageTable.{Machine, index}
use ion_os.PageTable.Words.{higher_half, cell}
use ion_os.PageTable.Tree.{Place, IsTree}
use ion_os.PageTable.Map.{Walk, rooted}
use ion_os.PageTable.Mapped.{Translates, Mapped, map-Mapped}
use ion_os.PageTable.Range.{translate_addr-map_range}
use ion_os.PageTable.Unmap.{unmap-frames, unmap-Translates}
use ion_os.PageTable.Clone.{fresh, clone_page_table, free_page_table}
use ion_os.PageTable.Clone.Copy.{Copy, clone_page_table-Copy}
use ion_os.PageTable.Clone.Shares.{clone_page_table-Translates}
use ion_os.PageTable.Clone.Release.{free_page_table-frees}

-- Entry 0 of each table.
abbrev words : Memory
words a =
    if a == cell 1 0
    then 0x2007
    else if a == cell 2 0
    then 0x3007
    else if a == cell 3 0
    then 0x4007
    else if a == cell 4 0
    then 0x9007
    else 0

abbrev frames : Bitmap
frames = record { bytes = λ i. if ltb i 2 then 0 else 255; size = 64 }

abbrev sample : Machine
sample = record { ram = words; frames = frames }

abbrev place : Place
place f =
    if f == 1
    then some []
    else if f == 2
    then some (0 ∷ [])
    else if f == 3
    then some (0 ∷ 0 ∷ [])
    else if f == 4
    then some (0 ∷ 0 ∷ 0 ∷ [])
    else none

placed : (f : ℕ) (p : List ℕ) → place f ≡ some p → (0 < f) × (f < 5)
placed f p e = ground arith

places :
    (f : ℕ) (p : List ℕ)
    → place f ≡ some p
    → ((f ≡ 1) × (p ≡ []))
      ⊎ (((f ≡ 2) × (p ≡ 0 ∷ [])) ⊎ (((f ≡ 3) × (p ≡ 0 ∷ 0 ∷ [])) ⊎ (p ≡ 0 ∷ 0 ∷ 0 ∷ [])))
places f p e = ground arith

sample-below :
    (f i : ℕ) (p : List ℕ)
    → place f ≡ some p
    → length p ≤ 2
    → i < 512
    → (words (cell f i) ≡ 0)
      ⊎ ((g : ℕ) × (words (cell f i) ≡ g * 4096 + 7) × (place g ≡ some (i ∷ p)))
sample-below f i p e inner li = elim (places f p e) [
  | inl (same, root) ↦
      rw (same, root)
        (elim (Bool-cases (i == 0)) [
          | inl first ↦ let zero' : i ≡ 0 = ground arith in rw zero' (inr (2, refl, refl))
          | inr other ↦ inl (ground arith)
        ])
  | inr (inl (same, below_root)) ↦
      rw (same, below_root)
        (elim (Bool-cases (i == 0)) [
          | inl first ↦ let zero' : i ≡ 0 = ground arith in rw zero' (inr (3, refl, refl))
          | inr other ↦ inl (ground arith)
        ])
  | inr (inr (inl (same, lower))) ↦
      rw (same, lower)
        (elim (Bool-cases (i == 0)) [
          | inl first ↦ let zero' : i ≡ 0 = ground arith in rw zero' (inr (4, refl, refl))
          | inr other ↦ inl (ground arith)
        ])
  | inr (inr (inr lowest)) ↦ absurd (omega (arith, ap length lowest, inner))
]

sample-used : (f : ℕ) → f < 5 → get frames f ≡ false
unfolding get
sample-used f lt =
    let low : ltb (f / 8) 2 ≡ true = ground arith in rw low (test_bit-empty (f % 8) (omega arith))

sample-IsTree : IsTree sample 1 place
unfolding get test_bit
sample-IsTree = record {
  top = refl;
  low = λ f p e. omega (arith, placed f p e);
  inside = λ f p e. omega (arith, placed f p e);
  in_use = λ f p e. sample-used f (omega (arith, placed f p e));
  below = sample-below;
  frames = record { bytes = record { byte = λ i. ground arith }; small = omega arith };
  few = omega arith;
}

sample-spare : 3 ≤ spare frames
unfolding free_below get test_bit
sample-spare = omega arith

sample_walk : Walk sample 1 0 4
unfolding PageTable.index
sample_walk = record {
  l3 = 2;
  l2 = 3;
  small = (omega arith, omega arith, omega arith, omega arith);
  word₄ = refl;
  word₃ = refl;
  word₂ = refl;
}

sample_mapping : Translates sample 1 0 0x9000
unfolding PageTable.index PageTable.page_of
sample_mapping = record { l1 = 4; walk = sample_walk; to = refl }

map-Mapped_example :
    Mapped 1 sample
      (PageTable.map higher_half (rooted 1 true) sample 0x40002000 0x12345678 3)
      0x40002000
      0x12345678
      3
map-Mapped_example =
    map-Mapped 1 true sample place sample-IsTree 0x40002000 0x12345678 3 sample-spare

translate_addr-map_range_example :
    PageTable.translate_addr higher_half
      (rooted 1 true)
      (PageTable.map_range higher_half (rooted 1 true) sample 0x200000 0x70000 5 3)
      (0x200000 + 4 * 4096)
    ≡ 0x70000 + 4 * 4096
unfolding free_below get test_bit
translate_addr-map_range_example =
    translate_addr-map_range 1 true 0x200000 0x70000 3 (omega arith) sample place 5 4 sample-IsTree
      (omega arith) (omega arith) (omega arith) refl (omega arith) (omega arith)

unmap-frames_example :
    get (PageTable.unmap higher_half (rooted 1 true) sample 0).frames 9 ≡ get frames 9
unmap-frames_example =
    unmap-frames 1 0 true sample 9 (record { byte = λ i. ground arith }) (omega arith)

unmap-Translates_example :
    ¬ Translates (PageTable.unmap higher_half (rooted 1 true) sample 0x5000) 1 0 0x9000
unfolding PageTable.index
unmap-Translates_example = unmap-Translates 1 0x5000 true sample 0 0x9000 (omega arith) refl

clone_page_table-Copy_example :
    (g : ℕ) × (s' : Machine) × (clone_page_table higher_half sample
        (record { page_table_phys = 0x1000; ref_count = 1 })
        0
      ≡ fresh (record { page_table_phys = g * 4096; ref_count = 1 }) s')
    × Copy 1 g sample s'
unfolding free_below get test_bit
clone_page_table-Copy_example =
    clone_page_table-Copy 1 1 0 sample sample-IsTree.frames (omega arith)
      (sample-used 1 (omega arith)) (omega arith) (omega arith) refl (omega arith)

clone_page_table-Translates_example :
    (g : ℕ) × (s' : Machine) × (clone_page_table higher_half sample
        (record { page_table_phys = 0x1000; ref_count = 1 })
        0
      ≡ fresh (record { page_table_phys = g * 4096; ref_count = 1 }) s')
    × (g ≢ 1)
    × Walk s' g 0 4
    × Translates s' g 0 0x9000
unfolding free_below get test_bit sample_mapping
clone_page_table-Translates_example =
    clone_page_table-Translates 1 1 0 0 0x9000 sample place sample-IsTree (omega arith) refl
      (omega arith) sample_mapping

free_page_table-frees_example :
    let after =
      (free_page_table higher_half sample
        (record { page_table_phys = 0x1000; ref_count = 1 })).1.frames in
    (get after 9 ≡ true)
    × (get after 4 ≡ true)
    × (get after 3 ≡ true)
    × (get after 2 ≡ true)
    × (get after 1 ≡ true)
unfolding PageTable.index sample_mapping sample_walk
free_page_table-frees_example =
    free_page_table-frees 1 0 9 sample place sample-IsTree refl sample_mapping (omega arith)
      (omega arith) (omega arith)
