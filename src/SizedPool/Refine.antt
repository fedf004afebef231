-- ===== src/SizedPool/Refine.antt =====
-- kernel/src/mm/heap/sized-pool.cpp: the operations on the list of free elements.
use ion_os.Base.{
  ℕ, zero, suc, ◌+◌, ◌-◌, ◌*◌, ◌%◌, ◌^◌, ◌<◌, ◌≤◌, ◌≡◌, ◌≢◌, ◌↔◌, refl, sym, subst, ◌∙◌, ap, true,
  List, [], ◌∷◌, some, arith, sub_size,
}
use ion_os.Memory.{Memory, store, store_self, null}
use ion_os.SizedPool.{SizedPool, link, init, alloc, free, inpool}
use ion_os.SizedPool.Chain.{Chain, IsFresh, Chain-store, slots, link-read, slot_eq}

module _ (m : Memory) (ptr bsize len : ℕ) where
  -- Element `k` points at element `k + 1`, and the last at nothing.
  record IsLinked : Type 0 where
    next : (k : ℕ) → k + 1 < len → m (ptr + k * bsize) ≡ ptr + (k + 1) * bsize
    last : m (ptr + (len - 1) * bsize) ≡ null

  Chain-slots :
      (n i : ℕ)
      → IsLinked
      → ptr ≢ null
      → i + suc n ≡ len
      → Chain m (ptr + i * bsize) (slots ptr bsize i (suc n))
  Chain-slots zero i l ne e =
      (refl, omega arith, ap (λ (k : ℕ). m (ptr + k * bsize)) (omega arith) ∙ l.last)
  Chain-slots (suc n) i l ne e =
      (refl, omega arith, rw (l.next i (omega arith)) (Chain-slots n (i + 1) l ne (omega arith)))

len_lt : (ptr bsize len : ℕ) → 0 < bsize → ptr + len * bsize < 2 ^ 64 → len < 2 ^ 64
len_lt ptr bsize len pos fits = grind arith

last_lt :
    (ptr bsize len : ℕ) → 0 < len → ptr + len * bsize < 2 ^ 64 → ptr + (len - 1) * bsize < 2 ^ 64
last_lt ptr bsize len pos fits = grind arith

module _ (ptr bsize len : ℕ) (m : Memory) where
  abbrev threaded : Memory
  threaded = store (link (len - 1) ptr bsize 1 m) (ptr + (len - 1) * bsize) null

  threaded-IsLinked : 0 < bsize → 0 < len → IsLinked threaded ptr bsize len
  unfolding store
  threaded-IsLinked pos some_len = record {
    next = λ k lt.
        ground (arith, slot_eq ptr bsize k (len - 1) pos, link-read (len - 1) ptr bsize 1 k m pos);
    last = ground arith;
  }

  -- `init` threads all `len` elements, in the order of their addresses, on the free list (for a
  -- positive number of elements of at least the size of a pointer in an area inside the address
  -- space).
  pub init-slots :
      ptr ≢ null
      → 8 ≤ bsize
      → 0 < len
      → ptr + len * bsize < 2 ^ 64
      → let (pool, m') = init ptr bsize len m in Chain m' pool.freelist (slots ptr bsize 0 len)
  unfolding init
  init-slots ne whole_words some_len fits =
      let pos : 0 < bsize = omega arith in
      let small = len_lt ptr bsize len pos fits in
      let index : sub_size len 1 ≡ len - 1 = omega arith in
      let address : (ptr + (len - 1) * bsize) % 2 ^ 64 ≡ ptr + (len - 1) * bsize =
        omega (arith, last_lt ptr bsize len some_len fits) in
      let linked = threaded-IsLinked pos some_len in
      let whole : suc (len - 1) ≡ len = omega arith in
      rw (index, address)
        (subst (λ n. Chain threaded ptr (slots ptr bsize 0 n)) whole
          (subst (λ p. Chain threaded p (slots ptr bsize 0 (suc (len - 1)))) (omega arith)
            (Chain-slots threaded ptr bsize len (len - 1) 0 linked ne (omega arith))))

-- The first element of a list, or null, and the others.
abbrev pub first_of : List ℕ → ℕ
first_of [] = null
first_of (x ∷ xs) = x

abbrev pub rest_of : List ℕ → List ℕ
rest_of [] = []
rest_of (x ∷ xs) = xs

-- `alloc` returns the first free element and leaves the others free, in their order; with no free
-- element it returns null.
pub alloc-first_of :
    (pool : SizedPool) (m : Memory) (xs : List ℕ)
    → Chain m pool.freelist xs
    → (pool' : SizedPool) × (alloc (some pool) m ≡ (first_of xs, some pool'))
      × Chain m pool'.freelist (rest_of xs)
unfolding alloc
alloc-first_of pool m [] c = (pool, ground arith, c)
alloc-first_of pool m (x ∷ xs) c = (
  record pool { freelist = m pool.freelist },
  ground arith,
  subst (λ k. Chain m (m k) xs) (sym c.0) c.2,
)

-- `free` puts the element in front of the free list.
pub free-cons :
    (pool : SizedPool) (m : Memory) (x : ℕ) (xs : List ℕ)
    → x ≢ null
    → IsFresh x xs
    → Chain m pool.freelist xs
    → let m' = store m x pool.freelist in
      (free (some pool) x m ≡ (some (record pool { freelist = x }), m')) × Chain m' x (x ∷ xs)
unfolding free
free-cons pool m x xs ne f c = (
  ground arith,
  (
    refl,
    ne,
    rw (store_self m x pool.freelist) (Chain-store m x pool.freelist pool.freelist xs f c),
  ),
)

-- `inpool` accepts exactly the addresses of the area, null excepted.
pub inpool_iff :
    (pool : SizedPool) (p : ℕ)
    → (inpool (some pool) p ≡ true) ↔ ((p ≢ null) × (pool.ptr ≤ p) × (p < pool.ptr + pool.size))
unfolding inpool
inpool_iff pool p = (λ h. ground arith, λ h. ground arith)
