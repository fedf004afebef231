-- ===== src/KernelHeap/Calloc.antt =====
-- kernel/src/mm/heap/heap.cpp: `calloc`.
use ion_os.Base.{
  ℕ, zero, suc, ◌+◌, ◌-◌, ◌*◌, ◌/◌, ◌%◌, ◌^◌, ◌<◌, ◌≤◌, ◌≡◌, ◌≢◌, ◌⊎◌, inl, inr, refl, Bool, true,
  false, ◌&&◌, ◌==◌, leb, ltb, if◌then◌else◌, arith, Bool-cases,
}
use ion_os.Memory.{Memory, store, null}
use ion_os.Machine.{done}
use ion_os.Pool.{Heap}
use ion_os.KernelHeap.{clear_words, clear_bytes, malloc, calloc}

-- `a` is the address of one of the words of the range.
abbrev word_of : (ptr words a : ℕ) → Bool
word_of ptr words a = leb ptr a && (ltb a (ptr + words * 8) && (a - ptr) % 8 == 0)

clear_words-read :
    (words ptr a : ℕ) (m : Memory)
    → clear_words words ptr m a ≡ (if word_of ptr words a then 0 else m a)
unfolding clear_words store
clear_words-read zero ptr a m = ground arith
clear_words-read (suc words) ptr a m =
    ground (arith, clear_words-read words (ptr + 8) a (store m ptr 0))

clear_bytes-zero :
    (ptr size i : ℕ) (m : Memory) → i < size / 8 → clear_bytes ptr size m (ptr + i * 8) ≡ 0
unfolding clear_bytes store
clear_bytes-zero ptr size i m lt =
    let words = clear_words-read (size / 8) ptr (ptr + i * 8) m in
    let off : ptr + i * 8 - ptr ≡ i * 8 = omega arith in
    let zero_word : clear_words (size / 8) ptr m (ptr + i * 8) ≡ 0 = ground arith in
    elim (Bool-cases (size % 8 == 0)) [
      | inl whole ↦ rw whole zero_word
      | inr part ↦ rw part (ground arith)
    ]

clear_bytes-beside :
    (ptr size a : ℕ) (m : Memory) → (a < ptr) ⊎ (ptr + size ≤ a) → clear_bytes ptr size m a ≡ m a
unfolding clear_bytes store
clear_bytes-beside ptr size a m beside =
    let words = clear_words-read (size / 8) ptr a m in
    let same_word : clear_words (size / 8) ptr m a ≡ m a = ground arith in
    elim (Bool-cases (size % 8 == 0)) [
      | inl whole ↦ rw whole same_word
      | inr part ↦ rw part (ground arith)
    ]

-- When the product is below 2 ^ 64 and `malloc` of it returns a block, `calloc` returns that block,
-- its whole words below the product are zero, and no word outside the bytes asked for differs from
-- what `malloc` left.
pub calloc-malloc :
    (fuel n size : ℕ) (h : Heap) (ptr : ℕ) (h' : Heap)
    → n * size < 2 ^ 64
    → ptr ≢ null
    → malloc fuel (n * size) h ≡ done ptr h'
    → (h'' : Heap) × (calloc fuel n size h ≡ done ptr h'')
      × ((i : ℕ) → i < n * size / 8 → h''.memory (ptr + i * 8) ≡ 0)
      × ((a : ℕ) → (a < ptr) ⊎ (ptr + n * size ≤ a) → h''.memory a ≡ h'.memory a)
unfolding calloc
calloc-malloc fuel n size h ptr h' fits ne got =
    let e : leb (2 ^ 64) (n * size) ≡ false = ground arith in
    let some_ptr : (ptr == null) ≡ false = ground arith in
    (
      record h' { memory = clear_bytes ptr (n * size) h'.memory },
      rw (e, got, some_ptr) refl,
      λ i lt. clear_bytes-zero ptr (n * size) i h'.memory lt,
      λ a beside. clear_bytes-beside ptr (n * size) a h'.memory beside,
    )

-- `calloc` of a product that is 2 ^ 64 or more returns null and changes nothing.
pub calloc-null :
    (fuel n size : ℕ) (h : Heap) → 2 ^ 64 ≤ n * size → calloc fuel n size h ≡ done null h
unfolding calloc
calloc-null fuel n size h over = let e : leb (2 ^ 64) (n * size) ≡ true = ground arith in rw e refl
