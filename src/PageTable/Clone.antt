-- ===== src/PageTable/Clone.antt =====
-- kernel/src/arch/x86_64/table.cpp: copying and freeing the tables of an address space. The lock
-- around `clone_page_table` keeps its calls apart, so that each runs on a state of its own.
-- memcpy moves whole words, as tables are read and written.
pub mod Copy
pub mod Release
pub mod Free
pub mod Shares
use ion_os.Base.{
  ℕ, zero, suc, ◌+◌, ◌-◌, ◌*◌, ◌/◌, ◌%◌, ◌^◌, Bool, true, false, not, ◌==◌, leb, if◌then◌else◌,
  bit_and, bit_or, add_size, sub_size,
}
use ion_os.Memory.{Memory, store, null}
use ion_os.Frame.{alloc_frames, free_frames}
use ion_os.PageTable
use ion_os.PageTable.{Machine}

-- context::mm_context_t
pub record MmContext : Type 0 where
  pub page_table_phys : ℕ
  pub ref_count : ℕ

-- The context that `clone_page_table` returns: the old one itself, or a new one.
pub data Cloned : Type 0 where
  shared : MmContext → Cloned
  fresh : MmContext → Machine → Cloned

-- memcpy of `left` words
unfoldable pub memcpy_words : ℕ → Memory → (dst src : ℕ) → Memory
memcpy_words zero m dst src = m
memcpy_words (suc left) m dst src =
    memcpy_words left (store m dst (m src)) (add_size dst 8) (add_size src 8)

module _ (offset : ℕ) where
  -- The loop of `copy_page_table_recursive` from entry `i`, in `left` rounds; `copy` is the call
  -- for the level below, and `new` a virtual, `source` a physical address.
  unfoldable pub copy_entries :
      ℕ
      → (Machine → ℕ → Bool → ℕ × Machine)
      → (level : ℕ) → Bool
      → Machine
      → (new source i : ℕ) → Machine
  copy_entries zero copy level kernel_space s new source i = s
  copy_entries (suc left) copy level kernel_space s new source i =
      let at = PageTable.entry (PageTable.phys_to_virt offset source) i in
      let value = s.ram at in
      let next = bit_and value 0x00007ffffffff000 in
      let (page, s₁) = copy s next (if level == 4 then leb 256 i else kernel_space) in
      let link =
        bit_or (PageTable.virt_to_phys offset page) (bit_and (s₁.ram at) 0xFFFF000000000FFF) in
      let s' =
        if not (value == 0)
        then record s { ram = store s.ram (PageTable.entry new i) value }
        else record s₁ { ram = store s₁.ram (PageTable.entry new i) link } in
      copy_entries left copy level kernel_space s' new source (i + 1)

  unfoldable pub copy_page_table_recursive :
      (level : ℕ) → Machine → ℕ → (all_copy kernel_space : Bool) → ℕ × Machine
  copy_page_table_recursive zero s source_table all_copy kernel_space =
      let (frame, frames) = alloc_frames s.frames 1 in
      let new = PageTable.phys_to_virt offset frame in
      let source = PageTable.phys_to_virt offset source_table in
      if source_table == null
      then (null, s)
      else if kernel_space
      then (source_table, s)
      else (new, record { ram = memcpy_words 512 s.ram new source; frames = frames })
  copy_page_table_recursive (suc level) s source_table all_copy kernel_space =
      let (frame, frames) = alloc_frames s.frames 1 in
      let new = PageTable.phys_to_virt offset frame in
      let rounds = if all_copy then 512 else if suc level == 4 then 256 else 512 in
      if source_table == null then (null, s) else (
        new,
        copy_entries rounds
            (λ s next kernel. copy_page_table_recursive level s next all_copy kernel) (suc level)
            kernel_space (record s { frames = frames }) new source_table 0,
      )

  unfoldable pub clone_page_table : Machine → MmContext → (flags : ℕ) → Cloned
  clone_page_table s old flags =
      let all_copy = not (bit_and flags 0x00000100 == 0) in
      let (table, s₁) = copy_page_table_recursive 4 s old.page_table_phys all_copy false in
      let phys = PageTable.virt_to_phys offset table in
      let upper = add_size (PageTable.phys_to_virt offset phys) (256 * 8) in
      let old_upper = add_size (PageTable.phys_to_virt offset old.page_table_phys) (256 * 8) in
      if not (bit_and flags 0x00000100 == 0)
      then shared (record old { ref_count = add_size old.ref_count 1 })
      else fresh (record { page_table_phys = phys; ref_count = 0 + 1 })
          (record s₁ { ram = memcpy_words 256 s₁.ram upper old_upper })

  -- The loop of `free_page_table_recursive` from entry `i`; `free` is the call for the level below.
  unfoldable pub free_entries : ℕ → (Machine → ℕ → Machine) → Machine → (table i : ℕ) → Machine
  free_entries zero free s table i = s
  free_entries (suc left) free s table i =
      let next =
        PageTable.phys_to_virt offset
          (bit_and (s.ram (PageTable.entry table i)) 0x00007ffffffff000) in
      free_entries left free (free s next) table (i + 1)

  unfoldable pub free_page_table_recursive : (level : ℕ) → Machine → (table : ℕ) → Machine
  free_page_table_recursive zero s table =
      if table == PageTable.phys_to_virt offset 0
      then s
      else record s { frames = free_frames s.frames (PageTable.virt_to_phys offset table) 1 }
  free_page_table_recursive (suc level) s table =
      let rounds = if suc level == 4 then 256 else 512 in
      let below = free_entries rounds (free_page_table_recursive level) s table 0 in
      if table == PageTable.phys_to_virt offset 0 then s else record below {
        frames = free_frames below.frames (PageTable.virt_to_phys offset table) 1;
      }

  unfoldable pub free_page_table : Machine → MmContext → MmContext × Machine
  free_page_table s directory =
      if directory.ref_count == 1
      then (
        directory,
        free_page_table_recursive 4 s (PageTable.phys_to_virt offset directory.page_table_phys),
      )
      else (record directory { ref_count = sub_size directory.ref_count 1 }, s)
