-- ===== src/PageTable/Words.antt =====
-- kernel/src/arch/x86_64/table.cpp: the addresses and the words of page tables, with the offset
-- that the boot loader gives with four-level paging.
use ion_os.Base.{
  ℕ, zero, suc, ◌+◌, ◌-◌, ◌*◌, ◌/◌, ◌%◌, ◌^◌, ◌<◌, ◌≤◌, ◌≡◌, ◌≢◌, ◌⊎◌, inl, inr, refl, ◌∙◌, arith,
  ◌==◌, bit_or, Bool-cases,
}
use ion_os.Base.Splits.{bit_and_511, bit_or-more, strip_lem, bit_and-page}
use ion_os.Memory.{Memory, store, store_self, store_ne}
use ion_os.PageTable

abbrev pub higher_half : ℕ
higher_half = 2 ^ 64 - 2 ^ 47

-- The address of entry `i` of the table in frame `f`.
abbrev pub cell : ℕ → ℕ → ℕ
cell f i = f * 4096 + 8 * i + higher_half

pub index-lt : (v place : ℕ) → PageTable.index v place < 512
unfolding PageTable.index
index-lt v place = rw (bit_and_511 (v / place)) (omega arith)

pub page_of-eq : (x : ℕ) → PageTable.page_of higher_half x ≡ x % 2 ^ 47 - x % 2 ^ 12
unfolding PageTable.page_of
page_of-eq x = strip_lem x

module _ (f : ℕ) (small : f < 2 ^ 35) where
  pub phys_to_virt-frame : PageTable.phys_to_virt higher_half (f * 4096) ≡ f * 4096 + higher_half
  unfolding PageTable.phys_to_virt
  phys_to_virt-frame = omega arith

  pub entry-cell : (i : ℕ) → i < 512 → PageTable.entry (f * 4096 + higher_half) i ≡ cell f i
  entry-cell i lt = omega arith

  pub table_entry-eq : PageTable.table_entry (f * 4096) ≡ f * 4096 + 7
  unfolding PageTable.table_entry
  table_entry-eq =
      let present : bit_or (f * 4096) 1 ≡ f * 4096 + 1 =
        bit_or-more f (f * 4096) 0 1 (omega arith) (omega arith) (omega arith) in
      let writable : bit_or (f * 4096 + 1) 2 ≡ f * 4096 + 3 =
        bit_or-more f (f * 4096 + 1) 1 2 refl (omega arith) (omega arith) in
      let open_to_user : bit_or (f * 4096 + 3) 4 ≡ f * 4096 + 7 =
        bit_or-more f (f * 4096 + 3) 3 4 refl (omega arith) (omega arith) in
      rw (present, writable, open_to_user) refl

  pub page_of-table : PageTable.page_of higher_half (f * 4096 + 7) ≡ f * 4096
  page_of-table = omega (arith, page_of-eq (f * 4096 + 7))

  pub next_table-eq :
      (m : Memory) (g i : ℕ)
      → g < 2 ^ 35
      → i < 512
      → m (cell f i) ≡ g * 4096 + 7
      → PageTable.next_table higher_half m (f * 4096 + higher_half) i ≡ g * 4096 + higher_half
  unfolding PageTable.next_table PageTable.phys_to_virt
  next_table-eq m g i lg li word =
      let mask = bit_and-page 36 (g * 4096 + 7) 0x000fffffffff000 refl (omega arith) in
      rw (entry-cell i li, word, mask) (omega arith)

-- The clearing loop leaves what is outside of the entries that it is at.
clear_entries-out :
    (left : ℕ) (m : Memory) (t i a : ℕ)
    → t + 8 * (i + left) ≤ 2 ^ 64
    → (a < t + 8 * i) ⊎ (t + 8 * (i + left) ≤ a)
    → PageTable.clear_entries left m t i a ≡ m a
unfolding PageTable.clear_entries
clear_entries-out zero m t i a fits out = refl
clear_entries-out (suc left) m t i a fits out =
    let at : PageTable.entry t i ≡ t + 8 * i = omega arith in
    clear_entries-out left (store m (PageTable.entry t i) 0) t (i + 1) a (omega arith)
      (ground arith)
    ∙ rw at (store_ne m (t + 8 * i) 0 a (ground arith))

clear_entries-in :
    (left : ℕ) (m : Memory) (t i j : ℕ)
    → t + 8 * (i + left) ≤ 2 ^ 64
    → i ≤ j
    → j < i + left
    → PageTable.clear_entries left m t i (t + 8 * j) ≡ 0
unfolding PageTable.clear_entries
clear_entries-in zero m t i j fits low high = absurd (omega arith)
clear_entries-in (suc left) m t i j fits low high =
    let at : PageTable.entry t i ≡ t + 8 * i = omega arith in
    elim (Bool-cases (i == j)) [
      | inl here ↦
          let same : j ≡ i = ground arith in
          clear_entries-out left (store m (PageTable.entry t i) 0) t (i + 1) (t + 8 * j)
            (omega arith) (inl (omega arith))
          ∙ rw (at, same) (store_self m (t + 8 * i) 0)
      | inr later ↦
          clear_entries-in left (store m (PageTable.entry t i) 0) t (i + 1) j (omega arith)
            (ground arith) (omega arith)
    ]

-- A cleared table has no entries, and the entries of other tables are as before.
module _ (m : Memory) (g : ℕ) (small : g < 2 ^ 35) where
  pub page_table_clear-in :
      (j : ℕ) → j < 512 → PageTable.page_table_clear m (g * 4096 + higher_half) (cell g j) ≡ 0
  unfolding PageTable.page_table_clear
  page_table_clear-in j lt =
      let sum : g * 4096 + 8 * j + higher_half ≡ g * 4096 + higher_half + 8 * j = omega arith in
      rw sum (
        clear_entries-in 512 m (g * 4096 + higher_half) 0 j (omega arith) (omega arith)
          (omega arith))

  pub page_table_clear-out :
      (f j : ℕ)
      → f ≢ g
      → j < 512
      → PageTable.page_table_clear m (g * 4096 + higher_half) (cell f j) ≡ m (cell f j)
  unfolding PageTable.page_table_clear
  page_table_clear-out f j ne lt =
      clear_entries-out 512 m (g * 4096 + higher_half) 0 (cell f j) (omega arith) (omega arith)
