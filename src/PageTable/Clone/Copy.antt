-- ===== src/PageTable/Clone/Copy.antt =====
-- kernel/src/arch/x86_64/table.cpp: `clone_page_table` copies one table, whose entries lead to the
-- tables of the original.
use ion_os.Base.{
  ℕ, zero, suc, ◌+◌, ◌-◌, ◌*◌, ◌%◌, ◌^◌, ◌<◌, ◌≤◌, ◌≡◌, ◌≢◌, ◌⊎◌, inl, inr, refl, ◌∙◌, Bool, true,
  false, arith, ◌==◌, if◌then◌else◌, Bool-cases, bit_and,
}
use ion_os.Memory.{Memory, store, store_self, store_ne}
use ion_os.Bitmap.{Bitmap, get}
use ion_os.Frame.{alloc_frames}
use ion_os.Frame.Alloc.{IsFrames}
use ion_os.Frame.One.{spare, Taken, alloc_frames-one}
use ion_os.PageTable
use ion_os.PageTable.{Machine}
use ion_os.PageTable.Words.{higher_half, cell, phys_to_virt-frame, entry-cell}
use ion_os.PageTable.Clone.{
  fresh, memcpy_words, copy_entries, copy_page_table_recursive, clone_page_table,
}

-- The entry that stands for `value` in the copy.
abbrev pub copied : ℕ → ℕ
copied value = if value == 0 then 2 ^ 47 else value

-- memcpy leaves what is outside of its target.
memcpy_words-out :
    (left : ℕ) (m : Memory) (dst src a : ℕ)
    → dst + 8 * left ≤ 2 ^ 64
    → (a < dst) ⊎ (dst + 8 * left ≤ a)
    → memcpy_words left m dst src a ≡ m a
unfolding memcpy_words
memcpy_words-out zero m dst src a fits out = refl
memcpy_words-out (suc left) m dst src a fits out =
    memcpy_words-out left (store m dst (m src)) ((dst + 8) % 2 ^ 64) ((src + 8) % 2 ^ 64) a
      (omega arith) (omega arith)
    ∙ store_ne m dst (m src) a (omega arith)

memcpy_words-in :
    (left : ℕ) (m : Memory) (dst src k : ℕ)
    → dst + 8 * left ≤ 2 ^ 64
    → src + 8 * left ≤ 2 ^ 64
    → (src + 8 * left ≤ dst) ⊎ (dst + 8 * left ≤ src)
    → k < left
    → memcpy_words left m dst src (dst + 8 * k) ≡ m (src + 8 * k)
unfolding memcpy_words
memcpy_words-in zero m dst src k fits fits' apart lt = absurd (omega arith)
memcpy_words-in (suc left) m dst src k fits fits' apart lt = elim (Bool-cases (k == 0)) [
  | inl first ↦
      let at_dst : dst + 8 * k ≡ dst = ground arith in
      let at_src : src + 8 * k ≡ src = ground arith in
      memcpy_words-out left (store m dst (m src)) ((dst + 8) % 2 ^ 64) ((src + 8) % 2 ^ 64)
        (dst + 8 * k) (omega arith) (omega arith)
      ∙ rw (at_dst, at_src) (store_self m dst (m src))
  | inr later ↦
      let pos : 0 < k = ground arith in
      let next : (dst + 8) % 2 ^ 64 + 8 * (k - 1) ≡ dst + 8 * k = omega arith in
      let from : (src + 8) % 2 ^ 64 + 8 * (k - 1) ≡ src + 8 * k = omega arith in
      let rest =
        memcpy_words-in left (store m dst (m src)) ((dst + 8) % 2 ^ 64) ((src + 8) % 2 ^ 64) (k - 1)
          (omega arith) (omega arith) (omega arith) (omega arith) in
      (rw (next, from) at rest) ∙ store_ne m dst (m src) (src + 8 * k) (omega arith)
]

-- The loop, for tables in frames `f` and `g`, while the call for the level below gives no table.
module _ (copy : Machine → ℕ → Bool → ℕ × Machine)
    (no_table : (s : Machine) (k : Bool) → copy s 0 k ≡ (0, s)) (level : ℕ) (kernel : Bool)
    (f g : ℕ) (lf : f < 2 ^ 35) (lg : g < 2 ^ 35) (ne : f ≢ g) where
  -- One round.
  copy_entries-round :
      (left : ℕ) (s : Machine) (i : ℕ)
      → i < 512
      → copy_entries higher_half
          (suc left)
          copy
          level
          kernel
          s
          (g * 4096 + higher_half)
          (f * 4096)
          i
        ≡ copy_entries higher_half left copy level kernel
            (record s { ram = store s.ram (cell g i) (copied (s.ram (cell f i))) })
            (g * 4096 + higher_half)
            (f * 4096)
            (i + 1)
  unfolding copy_entries PageTable.virt_to_phys
  copy_entries-round left s i li =
      let source = phys_to_virt-frame f lf in
      let from = entry-cell f lf i li in
      let to = entry-cell g lg i li in
      elim (Bool-cases (s.ram (cell f i) == 0)) [
        | inl blank ↦
            let none : s.ram (cell f i) ≡ 0 = ground arith in
            rw (source, from, to, none, no_table) (rw none refl)
        | inr full ↦ rw (source, from, to, full) refl
      ]

  abbrev after : ℕ → Machine → ℕ → Machine
  after left s i =
      copy_entries higher_half left copy level kernel s (g * 4096 + higher_half) (f * 4096) i

  copy_entries-frames :
      (left : ℕ) (s : Machine) (i : ℕ) → i + left ≤ 512 → (after left s i).frames ≡ s.frames
  unfolding copy_entries
  copy_entries-frames zero s i fits = refl
  copy_entries-frames (suc left) s i fits =
      rw (copy_entries-round left s i (omega arith))
        (copy_entries-frames left _ (i + 1) (omega arith))

  copy_entries-out :
      (left : ℕ) (s : Machine) (i a : ℕ)
      → i + left ≤ 512
      → ((j : ℕ) → i ≤ j → j < i + left → a ≢ cell g j)
      → (after left s i).ram a ≡ s.ram a
  unfolding copy_entries
  copy_entries-out zero s i a fits out = refl
  copy_entries-out (suc left) s i a fits out = rw (copy_entries-round left s i (omega arith)) (
      copy_entries-out left _ (i + 1) a (omega arith)
        (λ j low high. out j (omega arith) (omega arith))
      ∙ store_ne s.ram (cell g i) _ a (out i (omega arith) (omega arith)))

  copy_entries-in :
      (left : ℕ) (s : Machine) (i j : ℕ)
      → i + left ≤ 512
      → i ≤ j
      → j < i + left
      → (after left s i).ram (cell g j) ≡ copied (s.ram (cell f j))
  unfolding copy_entries
  copy_entries-in zero s i j fits low high = absurd (omega arith)
  copy_entries-in (suc left) s i j fits low high =
      let word = copied (s.ram (cell f i)) in
      let next : Machine = record s { ram = store s.ram (cell g i) word } in
      rw (copy_entries-round left s i (omega arith)) (elim (Bool-cases (j == i)) [
        | inl here ↦
            let same : j ≡ i = ground arith in
            rw same (
              copy_entries-out left next (i + 1) (cell g i) (omega arith)
                (λ k low' high'. omega arith)
              ∙ store_self s.ram (cell g i) word)
        | inr later ↦
            let rest =
              copy_entries-in left next (i + 1) j (omega arith) (ground arith) (omega arith) in
            let kept : next.ram (cell f j) ≡ s.ram (cell f j) =
              store_ne s.ram (cell g i) word (cell f j) (omega arith) in
            (rw kept at rest)
      ])

-- The call for a level below, on an entry that is zero.
copy_page_table_recursive-null :
    (level : ℕ) (s : Machine) (all_copy kernel : Bool)
    → copy_page_table_recursive higher_half level s 0 all_copy kernel ≡ (0, s)
unfolding copy_page_table_recursive
copy_page_table_recursive-null zero s all_copy kernel = refl
copy_page_table_recursive-null (suc level) s all_copy kernel = refl

-- What `clone_page_table` makes of the root in frame `root`.
pub record Copy (root g : ℕ) (s s' : Machine) : Type 0 where
  pub taken : Taken s.frames g s'.frames
  pub lower : (i : ℕ) → i < 256 → s'.ram (cell g i) ≡ copied (s.ram (cell root i))
  pub upper : (i : ℕ) → 256 ≤ i → i < 512 → s'.ram (cell g i) ≡ s.ram (cell root i)
  pub others : (f i : ℕ) → f ≢ g → i < 512 → s'.ram (cell f i) ≡ s.ram (cell f i)

module _ (root count flags : ℕ) (s : Machine) (v : IsFrames s.frames) (few : s.frames.size ≤ 2 ^ 35)
    (used : get s.frames root ≡ false) (low : root < 2 ^ 35) (pos : 0 < root)
    (own : (bit_and flags 0x100 == 0) ≡ true) (free : 1 ≤ spare s.frames) where
  module _ (g : ℕ) (frames : Bitmap) (taken : Taken s.frames g frames) where
    lg : g < 2 ^ 35
    lg = omega (arith, taken.in_map, few)

    apart : root ≢ g
    apart = ground (arith, used, taken.was_free)

    abbrev below : Machine → ℕ → Bool → ℕ × Machine
    below s next kernel = copy_page_table_recursive higher_half 3 s next false kernel

    below-null : (s : Machine) (kernel : Bool) → below s 0 kernel ≡ (0, s)
    below-null s kernel = copy_page_table_recursive-null 3 s false kernel

    -- with the lower half
    abbrev half : Machine
    half = after below below-null 4 false root g low lg apart 256 (record s { frames = frames }) 0

    abbrev whole : Machine
    whole = record half {
      ram =
          memcpy_words 256 half.ram (g * 4096 + higher_half + 2048)
            (root * 4096 + higher_half + 2048);
    }

    clone-whole :
        alloc_frames s.frames 1 ≡ (g * 4096, frames)
        → clone_page_table higher_half s
            (record { page_table_phys = root * 4096; ref_count = count })
            flags
          ≡ fresh (record { page_table_phys = g * 4096; ref_count = 1 }) whole
    unfolding clone_page_table copy_page_table_recursive PageTable.virt_to_phys
    clone-whole alloc =
        let source : (root * 4096 == 0) ≡ false = ground arith in
        let phys : (g * 4096 + higher_half + 2 ^ 64 - higher_half) % 2 ^ 64 ≡ g * 4096 =
          omega (arith, lg) in
        let upper : (g * 4096 + higher_half + 2048) % 2 ^ 64 ≡ g * 4096 + higher_half + 2048 =
          omega (arith, lg) in
        let old_upper : (root * 4096 + higher_half + 2048) % 2 ^ 64
            ≡ root * 4096 + higher_half + 2048 =
          omega arith in
        rw
          (
            own,
            source,
            alloc,
            phys_to_virt-frame g lg,
            phys,
            phys_to_virt-frame g lg,
            upper,
            phys_to_virt-frame root low,
            old_upper,
          )
          refl

    -- A word outside of the copied half.
    whole-out :
        (f i : ℕ) → i < 512 → (f ≢ g) ⊎ (i < 256) → whole.ram (cell f i) ≡ half.ram (cell f i)
    whole-out f i li out =
        memcpy_words-out 256 half.ram (g * 4096 + higher_half + 2048) _ (cell f i)
          (omega (arith, lg)) (omega (arith, out))

    half-out : (f i : ℕ) → i < 512 → (f ≢ g) ⊎ (256 ≤ i) → half.ram (cell f i) ≡ s.ram (cell f i)
    half-out f i li out =
        copy_entries-out below below-null 4 false root g low lg apart 256
          (record s { frames = frames }) 0 (cell f i) (omega arith)
          (λ j low' high. omega (arith, out))

    whole-Copy : Copy root g s whole
    whole-Copy = record {
      taken =
          rw
            (copy_entries-frames below below-null 4 false root g low lg apart 256
              (record s { frames = frames }) 0 (omega arith))
            taken;
      lower = λ i li.
          whole-out g i (omega arith) (inr li)
          ∙ copy_entries-in below below-null 4 false root g low lg apart 256
              (record s { frames = frames }) 0 i (omega arith) (omega arith) (omega arith);
      upper = λ i hi li.
          let to : g * 4096 + higher_half + 2048 + 8 * (i - 256) ≡ cell g i = omega arith in
          let from : root * 4096 + higher_half + 2048 + 8 * (i - 256) ≡ cell root i = omega arith in
          let moved =
            memcpy_words-in 256 half.ram (g * 4096 + higher_half + 2048)
              (root * 4096 + higher_half + 2048) (i - 256) (omega (arith, lg)) (omega arith)
              (omega (arith, apart)) (omega arith) in
          (rw (to, from) at moved) ∙ half-out root i li (inl apart);
      others = λ f i ne li. whole-out f i li (inl ne) ∙ half-out f i li (inl ne);
    }

  -- Without CLONE_VM, `clone_page_table` takes one frame and makes it a copy of the root alone: no
  -- table of a lower level is copied, and an entry of the lower half that was zero becomes 2 ^ 47.
  pub clone_page_table-Copy :
      (g : ℕ) × (s' : Machine) × (clone_page_table higher_half s
          (record { page_table_phys = root * 4096; ref_count = count })
          flags
        ≡ fresh (record { page_table_phys = g * 4096; ref_count = 1 }) s')
      × Copy root g s s'
  unfolding clone_page_table copy_page_table_recursive
  clone_page_table-Copy =
      let (g, frames, alloc, taken) = alloc_frames-one s.frames v free in
      (g, whole g frames taken, clone-whole g frames taken alloc, whole-Copy g frames taken)
