-- ===== src/Syscall/Map.antt =====
-- kernel/src/hel/syscall.cpp: the calls that map physical memory. `cr3` is the register of the
-- processor, and `offset` hhdm::physical_memory_offset.
use ion_os.Base.{
  ℕ, ◌+◌, ◌-◌, ◌*◌, ◌/◌, ◌%◌, ◌^◌, ◌<◌, ◌≤◌, ◌≡◌, ◌≢◌, true, arith, add_size, sub_size, page_size,
}
use ion_os.Frame.{alloc_frames, free_frames}
use ion_os.Frame.One.{spare, Taken, alloc_frames-one}
use ion_os.Bitmap.{Bitmap}
use ion_os.PageTable
use ion_os.PageTable.{Machine, from_current}
use ion_os.PageTable.Words.{higher_half}
use ion_os.PageTable.Tree.{Place, IsTree}
use ion_os.PageTable.Map.{rooted}
use ion_os.PageTable.Range.{translate_addr-map_range}

-- (size + PAGE_SIZE - 1) / PAGE_SIZE
unfoldable pub page_count : ℕ → ℕ
page_count size = sub_size (add_size size page_size) 1 / page_size

-- present | read_write | user
abbrev pub physmap_flags : ℕ
physmap_flags = 0x7

unfoldable pub k_hel_physmap : (offset cr3 physaddr size : ℕ) → Machine → ℕ × Machine
k_hel_physmap offset cr3 physaddr size s =
    let table = from_current cr3 true in
    let count = page_count size in
    let (virtaddr, frames) = alloc_frames s.frames count in
    (
      virtaddr,
      PageTable.map_range offset table (record s { frames = frames }) virtaddr physaddr count
          physmap_flags,
    )

unfoldable pub k_hel_physunmap : (offset cr3 virtaddr size : ℕ) → Machine → ℕ × Machine
k_hel_physunmap offset cr3 virtaddr size s =
    let table = from_current cr3 true in
    let count = page_count size in
    let frames = free_frames s.frames virtaddr count in
    (0, PageTable.unmap_range offset table (record s { frames = frames }) virtaddr count)

-- A frame that is taken for something else leaves the tables a tree.
IsTree-Taken :
    (s : Machine) (root : ℕ) (place : Place) (f : ℕ) (frames : Bitmap)
    → IsTree s root place
    → Taken s.frames f frames
    → IsTree (record s { frames = frames }) root place
IsTree-Taken s root place f frames tree taken = record {
  top = tree.top;
  low = tree.low;
  inside = λ h p e. omega (arith, tree.inside h p e, taken.same_size);
  in_use = λ h p e. ground (arith, taken.others h, tree.in_use h p e);
  below = tree.below;
  frames = taken.is_frames;
  few = omega (arith, taken.same_size, tree.few);
}

-- physmap of at least one byte and at most one page returns an address that translates to the
-- physical one, if four frames are to spare and the physical address is that of a page other than
-- page 0 below 2 ^ 47.
pub translate_addr-k_hel_physmap :
    (s : Machine) (root physaddr size : ℕ) (place : Place)
    → IsTree s root place
    → 4 ≤ spare s.frames
    → 0 < size
    → size ≤ 4096
    → physaddr ≢ 0
    → physaddr % 4096 ≡ 0
    → physaddr + 4096 ≤ 2 ^ 47
    → let (virtaddr, s') = k_hel_physmap higher_half (root * 4096) physaddr size s in
      PageTable.translate_addr higher_half (rooted root true) s' virtaddr ≡ physaddr
unfolding k_hel_physmap page_count from_current
translate_addr-k_hel_physmap s root physaddr size place tree free pos one some_phys aligned low =
    let (f, frames, alloc, taken) = alloc_frames-one s.frames tree.frames (omega arith) in
    let count : ((size + 4096) % 2 ^ 64 + 2 ^ 64 - 1) % 2 ^ 64 / 4096 ≡ 1 = omega arith in
    let lf : f < 2 ^ 35 = omega (arith, taken.in_map, tree.few) in
    let mapped =
      translate_addr-map_range root true (f * 4096) physaddr physmap_flags some_phys
        (record s { frames = frames }) place 1 0 (IsTree-Taken s root place f frames tree taken)
        (omega (arith, taken.left)) (omega arith) (omega arith) aligned (omega arith)
        (omega arith) in
    let here : f * 4096 + 0 * 4096 ≡ f * 4096 = omega arith in
    let there : physaddr + 0 * 4096 ≡ physaddr = omega arith in
    rw (count, alloc) (rw (here, there) at mapped)
