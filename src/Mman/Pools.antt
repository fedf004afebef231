-- ===== src/Mman/Pools.antt =====
-- kernel/src/mm/heap/mman.cpp: the list of the pool structs, in `mman_delmem` and `mman_deinit`.
use ion_os.Base.{
  ℕ, zero, suc, ◌+◌, ◌<◌, ◌≡◌, ◌≢◌, refl, sym, subst, true, false, ◌==◌, some, List, [], ◌∷◌, ◌++◌,
  arith,
}
use ion_os.Base.Lists.{length}
use ion_os.Memory.{Memory, store, store_ne, store_self, null}
use ion_os.Machine.{done, fault}
use ion_os.LargeBlk.{delmem}
use ion_os.Area.{allocarea_size}
use ion_os.Mman.{State, pool_next, pool_ptr}
use ion_os.Mman.Release.{release_all, mman_deinit, mman_delmem, find_prev, release, called}

-- From `p` the `next` fields lead through the structs `xs` to a null pointer.
abbrev pub Pools : Memory → ℕ → List ℕ → Type 0
Pools m p [] = p ≡ null
Pools m p (x ∷ xs) = (p ≡ x) × (x ≢ null) × Pools m (pool_next m x) xs

-- `p` is none of the structs.
abbrev pub NotIn : ℕ → List ℕ → Type 0
NotIn p [] = Unit {0}
NotIn p (x ∷ xs) = (p ≢ x) × NotIn p xs

abbrev pub AllDiffer : List ℕ → Type 0
AllDiffer [] = Unit {0}
AllDiffer (x ∷ xs) = NotIn x xs × AllDiffer xs

release_all-fault :
    (fuel p : ℕ) (s : State) (xs : List ℕ)
    → p ≢ null
    → Pools s.memory (pool_next s.memory p) xs
    → length xs < fuel
    → release_all fuel p (pool_next s.memory p) s ≡ fault
unfolding release_all called
release_all-fault zero p s xs ne c enough = absurd (omega arith)
release_all-fault (suc fuel) p s [] ne c enough =
    let more : (p == null) ≡ false = ground arith in rw (more, c) refl
release_all-fault (suc fuel) p s (x ∷ xs) ne c enough =
    let more : (p == null) ≡ false = ground arith in
    let next : (pool_next s.memory p == null) ≡ false = ground arith in
    let s' =
      called (some (delmem (pool_ptr s.memory p) (allocarea_size s.memory (pool_ptr s.memory p))))
        s in
    rw (more, next)
      (release_all-fault fuel (pool_next s.memory p) s' xs (ground arith)
        (subst (λ q. Pools s.memory (pool_next s.memory q) xs) (sym c.0) c.2) (omega arith))

-- With a callback to release memory, `mman_deinit` reads through a null pointer, whatever the
-- number of pool structs behind the first: its loop reads `p->next` before it tests `p`.
pub mman_deinit-fault :
    (fuel : ℕ) (s : State) (xs : List ℕ)
    → s.man.cb_delmem ≡ true
    → Pools s.memory (pool_next s.memory s.man.main) xs
    → length xs < fuel
    → mman_deinit fuel s ≡ fault
unfolding mman_deinit
mman_deinit-fault fuel s [] has c enough = rw (has, c) refl
mman_deinit-fault fuel s (x ∷ xs) has c enough =
    let first = pool_next s.memory s.man.main in
    let more : (first == null) ≡ false = ground arith in
    simp
      (
        has,
        more,
        release_all-fault fuel first s xs (ground arith)
            (subst (λ q. Pools s.memory (pool_next s.memory q) xs) (sym c.0) c.2) (omega arith),
      )
      refl

-- A write to the `next` field of another struct leaves the list.
Pools-store :
    (m : Memory) (y v p : ℕ) (xs : List ℕ)
    → NotIn y xs
    → Pools m p xs
    → Pools (store m (y + 16) v) p xs
Pools-store m y v p [] f c = c
Pools-store m y v p (x ∷ xs) f c = (
  c.0,
  c.1,
  rw (store_ne m (y + 16) v (x + 16) (λ e. f.0 (omega arith)))
      (Pools-store m y v (m (x + 16)) xs f.1 c.2),
)

NotIn-behind : (x y q : ℕ) (pre post : List ℕ) → NotIn x (pre ++ y ∷ q ∷ post) → (x ≢ y) × (x ≢ q)
NotIn-behind x y q [] post f = (f.0, f.1.0)
NotIn-behind x y q (z ∷ pre) post f = NotIn-behind x y q pre post f.1

first_ne :
    (m : Memory) (p y q : ℕ) (pre post : List ℕ)
    → Pools m p (pre ++ y ∷ q ∷ post)
    → AllDiffer (pre ++ y ∷ q ∷ post)
    → p ≢ q
first_ne m p y q [] post c d = λ e. d.0.0 (omega (arith, c.0))
first_ne m p y q (x ∷ pre) post c d = λ e. (NotIn-behind x y q pre post d.0).1 (omega (arith, c.0))

find_prev-some :
    (fuel : ℕ) (m : Memory) (p y q : ℕ) (pre post : List ℕ)
    → Pools m p (pre ++ y ∷ q ∷ post)
    → AllDiffer (pre ++ y ∷ q ∷ post)
    → length pre < fuel
    → find_prev fuel m q p ≡ some y
unfolding find_prev
find_prev-some zero m p y q pre post c d enough = absurd (omega arith)
find_prev-some (suc fuel) m p y q [] post c d enough =
    let here : (p == null) ≡ false = ground (arith, c.0, c.1) in
    let next : (m (y + 16) == q) ≡ true = ground (arith, c.2.0) in rw (here, c.0, next) refl
find_prev-some (suc fuel) m p y q (x ∷ pre) post c d enough =
    let here : (p == null) ≡ false = ground (arith, c.0, c.1) in
    let ne = first_ne m (m (x + 16)) y q pre post c.2 d.1 in
    let next : (m (x + 16) == q) ≡ false = ground arith in
    rw (here, c.0, next) (find_prev-some fuel m (m (x + 16)) y q pre post c.2 d.1 (omega arith))

Pools-unlink :
    (m : Memory) (p y q : ℕ) (pre post : List ℕ)
    → Pools m p (pre ++ y ∷ q ∷ post)
    → AllDiffer (pre ++ y ∷ q ∷ post)
    → Pools (store m (y + 16) (pool_next m q)) p (pre ++ y ∷ post)
Pools-unlink m p y q [] post c d = (
  c.0,
  c.1,
  rw (store_self m (y + 16) (m (q + 16)))
      (Pools-store m y (m (q + 16)) (m (q + 16)) post d.0.1 c.2.2),
)
Pools-unlink m p y q (x ∷ pre) post c d =
    let ne = (NotIn-behind x y q pre post d.0).0 in
    (
      c.0,
      c.1,
      rw (store_ne m (y + 16) (m (q + 16)) (x + 16) (λ e. ne (omega arith)))
          (Pools-unlink m (m (x + 16)) y q pre post c.2 d.1),
    )

-- With a callback to release memory and a pool struct `q` behind another, `mman_delmem` takes `q`
-- out of the list of structs, which keeps its order, and calls the callback once more; the free
-- lists stay as they were.
pub mman_delmem-Pools :
    (fuel : ℕ) (s : State) (y q : ℕ) (pre post : List ℕ)
    → s.man.cb_delmem ≡ true
    → Pools s.memory s.man.main (pre ++ y ∷ q ∷ post)
    → AllDiffer (pre ++ y ∷ q ∷ post)
    → length pre < fuel
    → (s' : State) × (mman_delmem fuel q s ≡ done true s')
      × Pools s'.memory s'.man.main (pre ++ y ∷ post)
      × (length s'.released ≡ suc (length s.released))
      × (s'.man.large_blk ≡ s.man.large_blk)
      × ((id : ℕ) → s'.man.freed id ≡ s.man.freed id)
unfolding mman_delmem release
mman_delmem-Pools fuel s y q pre post has c d enough =
    let found = find_prev-some fuel s.memory s.man.main y q pre post c d enough in
    let some_y : (y == null) ≡ false = ground (arith, y_ne s.memory s.man.main y q pre post c) in
    (
      release q y s,
      rw (has, found, some_y) refl,
      Pools-unlink s.memory s.man.main y q pre post c d,
      refl,
      refl,
      λ id. refl,
    )
  where
    y_ne : (m : Memory) (p y q : ℕ) (pre post : List ℕ) → Pools m p (pre ++ y ∷ q ∷ post) → y ≢ null
    y_ne m p y q [] post c = c.1
    y_ne m p y q (x ∷ pre) post c = y_ne m (m (x + 16)) y q pre post c.2
