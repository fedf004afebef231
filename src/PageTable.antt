-- ===== src/PageTable.antt =====
-- kernel/src/arch/x86_64/table.cpp (with include/mm/hhdm.hpp): the page tables. A table is 512
-- words of memory at a virtual address; the frames of new tables come from the frame allocator.
-- `offset` is hhdm::physical_memory_offset, which the boot loader chooses.
pub mod Clone
pub mod Flags
pub mod Leaf
pub mod Map
pub mod Translate
pub mod Mapped
pub mod Range
pub mod Unmap
mod Tests
pub mod Tree
pub mod Words
use ion_os.Base.{
  ℕ, zero, suc, ◌+◌, ◌-◌, ◌*◌, ◌/◌, ◌%◌, ◌^◌, Bool, true, false, not, ◌==◌, if◌then◌else◌, bit_and,
  bit_or, add_size, sub_size, page_size,
}
use ion_os.Memory.{Memory, store, null}
use ion_os.Bitmap.{Bitmap}
use ion_os.Frame.{alloc_frames, free_frames}
use ion_os.PageTable.Flags

-- What the operations change: the memory and the frame allocator.
pub record Machine : Type 0 where
  pub ram : Memory
  pub frames : Bitmap

-- arch_table::page_table
pub record PageTable : Type 0 where
  pub phys_addr : ℕ
  pub user : Bool

-- ~x on 64 bits
abbrev pub complement : ℕ → ℕ
complement x = 2 ^ 64 - 1 - x

-- The index that `virt_addr >> shift & 0x1FF` gives, for `place = 2 ^ shift`.
unfoldable pub index : ℕ → ℕ → ℕ
index virt_addr place = bit_and (virt_addr / place) 0x1FF

-- &table->entries[i]
abbrev pub entry : ℕ → ℕ → ℕ
entry table i = add_size table (8 * i)

-- for (i = 0; i < 512; i++) table->entries[i].value = 0, from `i` in `left` rounds
unfoldable pub clear_entries : ℕ → Memory → ℕ → ℕ → Memory
clear_entries zero m table i = m
clear_entries (suc left) m table i = clear_entries left (store m (entry table i) 0) table (i + 1)

unfoldable pub page_table_clear : Memory → ℕ → Memory
page_table_clear m table = clear_entries 512 m table 0

-- The value of the entry that points at a new table.
unfoldable pub table_entry : ℕ → ℕ
table_entry frame = bit_or (bit_or (bit_or frame Flags.present) Flags.read_write) Flags.user

-- The flags of a leaf for those that the caller asks for.
unfoldable pub arch_flags : ℕ → ℕ
arch_flags flags =
    let present = if bit_and flags Flags.present == 0 then 0 else bit_or 0 Flags.present in
    let writable =
      if bit_and flags Flags.read_write == 0 then present else bit_or present Flags.read_write in
    let open_to_user =
      if bit_and flags Flags.user == 0 then writable else bit_or writable Flags.user in
    if bit_and flags Flags.executable == 0
    then bit_or open_to_user Flags.no_executable
    else open_to_user

module _ (offset : ℕ) where
  unfoldable pub phys_to_virt : ℕ → ℕ
  phys_to_virt phys_addr = add_size phys_addr offset

  unfoldable pub virt_to_phys : ℕ → ℕ
  virt_to_phys virt_addr = sub_size virt_addr offset

  -- value & ~hhdm::physical_memory_offset & ~(PAGE_SIZE - 1)
  unfoldable pub page_of : ℕ → ℕ
  page_of value = bit_and (bit_and value (complement offset)) (complement (page_size - 1))

  -- `at` is the address of the entry.
  unfoldable pub page_table_create : Machine → ℕ → ℕ × Machine
  page_table_create s at =
      let (frame, frames) = alloc_frames s.frames 1 in
      let value = table_entry frame in
      let fresh = phys_to_virt (page_of value) in
      if s.ram at == null
      then (fresh, record { ram = page_table_clear (store s.ram at value) fresh; frames = frames })
      else (phys_to_virt (page_of (s.ram at)), s)

  unfoldable pub map : PageTable → Machine → (virt_addr phys_addr flags : ℕ) → Machine
  map this s virt_addr phys_addr flags =
      let l4_table = phys_to_virt this.phys_addr in
      let (l3_table, s₁) = page_table_create s (entry l4_table (index virt_addr (2 ^ 39))) in
      let (l2_table, s₂) = page_table_create s₁ (entry l3_table (index virt_addr (2 ^ 30))) in
      let (l1_table, s₃) = page_table_create s₂ (entry l2_table (index virt_addr (2 ^ 21))) in
      record s₃ {
        ram =
            store s₃.ram (entry l1_table (index virt_addr (2 ^ 12)))
              (bit_or (page_of phys_addr) (arch_flags flags));
      }

  -- The loop of `map_range` from page `i`, in `left` rounds.
  unfoldable pub map_pages : ℕ → PageTable → Machine → (virt_addr phys_addr i flags : ℕ) → Machine
  map_pages zero this s virt_addr phys_addr i flags = s
  map_pages (suc left) this s virt_addr phys_addr i flags =
      let virt = add_size virt_addr (i * page_size) in
      let (frame, frames) = alloc_frames s.frames 1 in
      let s' =
        if phys_addr == 0
        then map this (record s { frames = frames }) virt frame flags
        else map this s virt (add_size phys_addr (i * page_size)) flags in
      map_pages left this s' virt_addr phys_addr (i + 1) flags

  unfoldable pub map_range : PageTable → Machine → (virt_addr phys_addr count flags : ℕ) → Machine
  map_range this s virt_addr phys_addr count flags =
      map_pages count this s virt_addr phys_addr 0 flags

  -- (page_table_t *)hhdm::phys_to_virt(table->entries[i].value & 0x000fffffffff000)
  unfoldable pub next_table : Memory → ℕ → ℕ → ℕ
  next_table m table i = phys_to_virt (bit_and (m (entry table i)) 0x000fffffffff000)

  -- table->entries[i].value = 0, then free_frames of the page that the entry now holds
  unfoldable pub drop_entry : Machine → ℕ → ℕ → Machine
  drop_entry s table i =
      let m = store s.ram (entry table i) 0 in
      record { ram = m; frames = free_frames s.frames (page_of (m (entry table i))) 1 }

  unfoldable pub unmap : PageTable → Machine → ℕ → Machine
  unmap this s virt_addr =
      let l4_index = index virt_addr (2 ^ 39) in
      let l3_index = index virt_addr (2 ^ 30) in
      let l2_index = index virt_addr (2 ^ 21) in
      let l1_index = index virt_addr (2 ^ 12) in
      let l4_table = phys_to_virt this.phys_addr in
      let l3_table = next_table s.ram l4_table l4_index in
      let l2_table = next_table s.ram l3_table l3_index in
      let l1_table = next_table s.ram l2_table l2_index in
      let s₄ = drop_entry s l4_table l4_index in
      let s₃ = drop_entry s₄ l3_table l3_index in
      let s₂ = drop_entry s₃ l2_table l2_index in drop_entry s₂ l1_table l1_index

  -- The loop of `unmap_range` from page `i`, in `left` rounds.
  unfoldable pub unmap_pages : ℕ → PageTable → Machine → (virt_addr i : ℕ) → Machine
  unmap_pages zero this s virt_addr i = s
  unmap_pages (suc left) this s virt_addr i =
      unmap_pages left this (unmap this s (add_size virt_addr (i * page_size))) virt_addr (i + 1)

  unfoldable pub unmap_range : PageTable → Machine → (virt_addr count : ℕ) → Machine
  unmap_range this s virt_addr count = unmap_pages count this s virt_addr 0

  unfoldable pub translate_addr : PageTable → Machine → ℕ → ℕ
  translate_addr this s virt_addr =
      let l4_table = phys_to_virt this.phys_addr in
      let l3_table = next_table s.ram l4_table (index virt_addr (2 ^ 39)) in
      let l2_table = next_table s.ram l3_table (index virt_addr (2 ^ 30)) in
      let l1_table = next_table s.ram l2_table (index virt_addr (2 ^ 21)) in
      page_of (s.ram (entry l1_table (index virt_addr (2 ^ 12))))

-- arch_table::from_current: the table that cr3 points at
unfoldable pub from_current : (cr3 : ℕ) → Bool → PageTable
from_current cr3 user = record { phys_addr = cr3; user = user }
