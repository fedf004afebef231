-- ===== src/PageTable/Unmap.antt =====
-- kernel/src/arch/x86_64/table.cpp: what `unmap` does to the tables and to the frame allocator.
use ion_os.Base.{ℕ, ◌+◌, ◌*◌, ◌^◌, ◌<◌, ◌≡◌, refl, ◌∙◌, Bool, arith}
use ion_os.Memory.{store, store_self}
use ion_os.Bitmap.{get}
use ion_os.Bitmap.Cells.{IsBytes}
use ion_os.Frame.{free_frames}
use ion_os.Frame.One.{free_frames-IsBytes, get-free_frames}
use ion_os.PageTable
use ion_os.PageTable.{Machine, index}
use ion_os.PageTable.Words.{higher_half, cell, phys_to_virt-frame, entry-cell, index-lt}
use ion_os.PageTable.Map.{rooted}
use ion_os.PageTable.Mapped.{Translates}

-- The entry is zero by the time that its page is read.
drop_entry-eq :
    (s : Machine) (table i : ℕ)
    → PageTable.drop_entry higher_half s table i
      ≡ record { ram = store s.ram (PageTable.entry table i) 0; frames = free_frames s.frames 0 1 }
unfolding PageTable.drop_entry PageTable.page_of
drop_entry-eq s table i = rw (store_self s.ram (PageTable.entry table i) 0) refl

-- A word that is zero stays zero.
drop_entry-zero :
    (s : Machine) (table i a : ℕ)
    → s.ram a ≡ 0
    → (PageTable.drop_entry higher_half s table i).ram a ≡ 0
unfolding store
drop_entry-zero s table i a blank = rw (drop_entry-eq s table i) (ground arith)

drop_entry-bytes :
    (s : Machine) (table i : ℕ)
    → IsBytes s.frames
    → IsBytes (PageTable.drop_entry higher_half s table i).frames
drop_entry-bytes s table i bytes =
    rw (drop_entry-eq s table i) (free_frames-IsBytes s.frames 0 bytes (omega arith))

drop_entry-frames :
    (s : Machine) (table i j : ℕ)
    → IsBytes s.frames
    → 0 < j
    → get (PageTable.drop_entry higher_half s table i).frames j ≡ get s.frames j
drop_entry-frames s table i j bytes pos =
    rw (drop_entry-eq s table i) (ground (arith, get-free_frames s.frames 0 bytes (omega arith) j))

-- Three more entries are dropped.
kept :
    (s : Machine) (t₃ i₃ t₂ i₂ t₁ i₁ a : ℕ)
    → s.ram a ≡ 0
    → (PageTable.drop_entry higher_half
          (PageTable.drop_entry higher_half (PageTable.drop_entry higher_half s t₃ i₃) t₂ i₂)
          t₁
          i₁).ram
        a
      ≡ 0
kept s t₃ i₃ t₂ i₂ t₁ i₁ a blank =
    let s₃ = PageTable.drop_entry higher_half s t₃ i₃ in
    let s₂ = PageTable.drop_entry higher_half s₃ t₂ i₂ in
    drop_entry-zero s₂ t₁ i₁ a (drop_entry-zero s₃ t₂ i₂ a (drop_entry-zero s t₃ i₃ a blank))

module _ (root v : ℕ) (user : Bool) (s : Machine) where
  -- `unmap` gives no frame back but frame 0, whatever the tables and the page were in.
  pub unmap-frames :
      (j : ℕ)
      → IsBytes s.frames
      → 0 < j
      → get (PageTable.unmap higher_half (rooted root user) s v).frames j ≡ get s.frames j
  unfolding PageTable.unmap
  unmap-frames j bytes pos =
      let b₄ = drop_entry-bytes s _ _ bytes in
      let b₃ = drop_entry-bytes _ _ _ b₄ in
      let b₂ = drop_entry-bytes _ _ _ b₃ in
      drop_entry-frames _ _ _ j b₂ pos
      ∙ drop_entry-frames _ _ _ j b₃ pos
      ∙ drop_entry-frames _ _ _ j b₄ pos
      ∙ drop_entry-frames s _ _ j bytes pos

  unmap-entry :
      root < 2 ^ 35
      → (PageTable.unmap higher_half (rooted root user) s v).ram (cell root (index v (2 ^ 39))) ≡ 0
  unfolding PageTable.unmap
  unmap-entry low =
      let i₄ = index v (2 ^ 39) in
      let first : (PageTable.drop_entry higher_half s (root * 4096 + higher_half) i₄).ram
            (cell root i₄)
          ≡ 0 =
        rw
          (
            drop_entry-eq s (root * 4096 + higher_half) i₄,
            entry-cell root low i₄ (index-lt v (2 ^ 39)),
          )
          (store_self s.ram (cell root i₄) 0) in
      rw (phys_to_virt-frame root low) (kept _ _ _ _ _ _ _ (cell root i₄) first)

  -- After `unmap`, no address in the same 512 GB (the same entry of the root) is mapped.
  pub unmap-Translates :
      (w phys : ℕ)
      → root < 2 ^ 35
      → index w (2 ^ 39) ≡ index v (2 ^ 39)
      → ¬ Translates (PageTable.unmap higher_half (rooted root user) s v) root w phys
  unmap-Translates w phys low same t =
      let word = t.walk.word₄ in omega (arith, (rw same at word), unmap-entry low)
