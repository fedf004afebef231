-- ===== src/PageTable/Clone/Free.antt =====
-- kernel/src/arch/x86_64/table.cpp: `free_page_table`.
use ion_os.Base.{
  ℕ, zero, suc, ◌+◌, ◌-◌, ◌*◌, ◌/◌, ◌%◌, ◌^◌, ◌<◌, ◌≤◌, ◌≡◌, inl, inr, refl, ◌∙◌, Bool, true, false,
  arith, ◌==◌, if◌then◌else◌, Bool-cases, bit_and, ap,
}
use ion_os.Base.Splits.{bit_and-page_47}
use ion_os.Bitmap.{get}
use ion_os.Bitmap.Cells.{IsBytes}
use ion_os.Frame.{free_frames}
use ion_os.Frame.One.{free_frames-IsBytes, get-free_frames, size-free_frames}
use ion_os.PageTable
use ion_os.PageTable.{Machine, index}
use ion_os.PageTable.Words.{higher_half, cell, phys_to_virt-frame, entry-cell}
use ion_os.PageTable.Clone.{free_entries, free_page_table_recursive}

-- The memory is as it was, and what was free stays free.
pub record Freed (s s' : Machine) : Type 0 where
  ram : s'.ram ≡ s.ram
  bytes : IsBytes s'.frames
  size : s'.frames.size ≡ s.frames.size
  still : (j : ℕ) → get s.frames j ≡ true → get s'.frames j ≡ true

pub Freed-refl : (s : Machine) → IsBytes s.frames → Freed s s
Freed-refl s b = record { ram = refl; bytes = b; size = refl; still = λ j e. e }

Freed-trans : (s s' s'' : Machine) → Freed s s' → Freed s' s'' → Freed s s''
Freed-trans s s' s'' f f' = record {
  ram = f'.ram ∙ f.ram;
  bytes = f'.bytes;
  size = f'.size ∙ f.size;
  still = λ j e. f'.still j (f.still j e);
}

free_entries-Freed :
    (free : Machine → ℕ → Machine)
    → ((s : Machine) (t : ℕ) → IsBytes s.frames → Freed s (free s t))
    → (left : ℕ) (s : Machine) (table i : ℕ) → IsBytes s.frames
    → Freed s (free_entries higher_half left free s table i)
unfolding free_entries
free_entries-Freed free keep zero s table i bytes = Freed-refl s bytes
free_entries-Freed free keep (suc left) s table i bytes =
    let first = keep s _ bytes in
    Freed-trans s _ _ first (free_entries-Freed free keep left _ table (i + 1) first.bytes)

-- The frame of the table itself is given back.
give_back-Freed :
    (s : Machine) (addr : ℕ)
    → IsBytes s.frames
    → addr < 2 ^ 64
    → Freed s (record s { frames = free_frames s.frames addr 1 })
give_back-Freed s addr bytes small = record {
  ram = refl;
  bytes = free_frames-IsBytes s.frames addr bytes small;
  size = size-free_frames s.frames addr bytes small;
  still = λ j e. get-free_frames s.frames addr bytes small j ∙ ground arith;
}

abbrev null_table : ℕ → Bool
null_table table = table == PageTable.phys_to_virt higher_half 0

-- All calls below a table, and then its own frame.
abbrev below : ℕ → Machine → ℕ → Machine
below level s table =
    free_entries higher_half (if suc level == 4 then 256 else 512)
      (free_page_table_recursive higher_half level) s table 0

abbrev give_back : Machine → ℕ → Machine
give_back s table = record s {
  frames = free_frames s.frames (PageTable.virt_to_phys higher_half table) 1;
}

free-null :
    (level : ℕ) (s : Machine) (table : ℕ)
    → null_table table ≡ true
    → free_page_table_recursive higher_half level s table ≡ s
unfolding free_page_table_recursive
free-null zero s table none = rw none refl
free-null (suc level) s table none = rw none refl

free-zero :
    (s : Machine) (table : ℕ)
    → null_table table ≡ false
    → free_page_table_recursive higher_half 0 s table ≡ give_back s table
unfolding free_page_table_recursive
free-zero s table here = rw here refl

free-suc :
    (level : ℕ) (s : Machine) (table : ℕ)
    → null_table table ≡ false
    → free_page_table_recursive higher_half (suc level) s table
      ≡ give_back (below level s table) table
unfolding free_page_table_recursive
free-suc level s table here = rw here refl

virt_to_phys-lt : (table : ℕ) → PageTable.virt_to_phys higher_half table < 2 ^ 64
unfolding PageTable.virt_to_phys
virt_to_phys-lt table = omega arith

free_page_table_recursive-Freed :
    (level : ℕ) (s : Machine) (table : ℕ)
    → IsBytes s.frames
    → Freed s (free_page_table_recursive higher_half level s table)
free_page_table_recursive-Freed zero s table bytes = elim (Bool-cases (null_table table)) [
  | inl none ↦ rw (free-null 0 s table none) (Freed-refl s bytes)
  | inr here ↦ rw (free-zero s table here) (give_back-Freed s _ bytes (virt_to_phys-lt table))
]
free_page_table_recursive-Freed (suc level) s table bytes =
    let rest =
      free_entries-Freed (free_page_table_recursive higher_half level)
        (free_page_table_recursive-Freed level) (if suc level == 4 then 256 else 512) s table 0
        bytes in
    elim (Bool-cases (null_table table)) [
      | inl none ↦ rw (free-null (suc level) s table none) (Freed-refl s bytes)
      | inr here ↦
          rw (free-suc level s table here)
            (Freed-trans s _ _ rest (give_back-Freed _ _ rest.bytes (virt_to_phys-lt table)))
    ]

-- The call for the table in frame `f`, made after others of the same run, frees the frame `k`.
abbrev pub Frees : ℕ → Machine → ℕ → ℕ → Type 0
Frees level s f k =
    (s' : Machine)
    → Freed s s'
    → get (free_page_table_recursive higher_half level s' (f * 4096 + higher_half)).frames k ≡ true

-- A table's address is not that of the frame 0, and leads back to its frame.
module _ (f : ℕ) (pos : 0 < f) (low : f < 2 ^ 35) where
  not_null : null_table (f * 4096 + higher_half) ≡ false
  unfolding PageTable.phys_to_virt
  not_null = ground arith

  frame-eq : PageTable.virt_to_phys higher_half (f * 4096 + higher_half) / 4096 ≡ f
  unfolding PageTable.virt_to_phys
  frame-eq = omega arith

  give_back_self :
      (s : Machine)
      → IsBytes s.frames
      → f < s.frames.size
      → get (give_back s (f * 4096 + higher_half)).frames f ≡ true
  give_back_self s bytes inside =
      let addr = PageTable.virt_to_phys higher_half (f * 4096 + higher_half) in
      get-free_frames s.frames addr bytes (virt_to_phys-lt (f * 4096 + higher_half)) f
      ∙ ground (arith, frame-eq)

  pub here-Frees : (level : ℕ) (s : Machine) → f < s.frames.size → Frees level s f f
  here-Frees zero s inside s' freed =
      rw (free-zero s' _ not_null) (give_back_self s' freed.bytes (omega (arith, freed.size)))
  here-Frees (suc level) s inside s' freed =
      let rest =
        free_entries-Freed (free_page_table_recursive higher_half level)
          (free_page_table_recursive-Freed level) (if suc level == 4 then 256 else 512) s'
          (f * 4096 + higher_half) 0 freed.bytes in
      rw (free-suc level s' _ not_null) (
        give_back_self (below level s' (f * 4096 + higher_half)) rest.bytes
          (omega (arith, freed.size, rest.size)))

  -- The loop over the entries reaches entry `j`.
  free_entries-hits :
      (level g k left : ℕ) (s s' : Machine) (i j : ℕ)
      → Freed s s'
      → s.ram (cell f j) % 2 ^ 47 - s.ram (cell f j) % 2 ^ 12 ≡ g * 4096
      → g < 2 ^ 35
      → Frees level s g k
      → i + left ≤ 512
      → i ≤ j
      → j < i + left
      → get
          (free_entries higher_half left
            (free_page_table_recursive higher_half level)
            s'
            (f * 4096 + higher_half)
            i).frames
          k
        ≡ true
  unfolding free_entries
  free_entries-hits level g k zero s s' i j freed word lg frees fits lo hi = absurd (omega arith)
  free_entries-hits level g k (suc left) s s' i j freed word lg frees fits lo hi =
      let call = free_page_table_recursive higher_half level in
      let next =
        PageTable.phys_to_virt higher_half
          (bit_and (s'.ram (PageTable.entry (f * 4096 + higher_half) i)) 0x7ffffffff000) in
      let keep = free_page_table_recursive-Freed level s' next freed.bytes in
      elim (Bool-cases (j == i)) [
        | inl here ↦
            let same : j ≡ i = ground arith in
            let read : s'.ram (cell f i) ≡ s.ram (cell f i) = ap (λ m. m (cell f i)) freed.ram in
            let page : bit_and (s.ram (cell f i)) 0x7ffffffff000 ≡ g * 4096 =
              bit_and-page_47 (s.ram (cell f i)) ∙ (rw same at word) in
            let to : next ≡ g * 4096 + higher_half =
              rw (entry-cell f low i (omega arith), read, page) (phys_to_virt-frame g lg) in
            let rest =
              free_entries-Freed call (free_page_table_recursive-Freed level) left (call s' next)
                (f * 4096 + higher_half) (i + 1) keep.bytes in
            rest.still k (rw to (frees s' freed))
        | inr later ↦
            free_entries-hits level g k left s (call s' next) (i + 1) j
              (Freed-trans s s' (call s' next) freed keep) word lg frees (omega arith)
              (ground arith) (omega arith)
      ]

  -- What a call for the table below entry `j` frees, the call for this table frees.
  pub Frees-up :
      (level g k j : ℕ) (s : Machine)
      → s.ram (cell f j) % 2 ^ 47 - s.ram (cell f j) % 2 ^ 12 ≡ g * 4096
      → g < 2 ^ 35
      → j < (if suc level == 4 then 256 else 512)
      → Frees level s g k
      → Frees (suc level) s f k
  Frees-up level g k j s word lg lj frees s' freed =
      let rest =
        free_entries-Freed (free_page_table_recursive higher_half level)
          (free_page_table_recursive-Freed level) (if suc level == 4 then 256 else 512) s'
          (f * 4096 + higher_half) 0 freed.bytes in
      let hit =
        free_entries-hits level g k (if suc level == 4 then 256 else 512) s s' 0 j freed word lg
          frees (ground arith) (omega arith) (omega (arith, lj)) in
      let last =
        give_back-Freed (below level s' (f * 4096 + higher_half)) _ rest.bytes
          (virt_to_phys-lt (f * 4096 + higher_half)) in
      rw (free-suc level s' _ not_null) (last.still k hit)
