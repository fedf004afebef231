-- ===== src/Freelist/Put.antt =====
-- kernel/src/include/mm/alloc/freelist.hpp: `freelist_put`.
use ion_os.Base.{ℕ, ◌+◌, ◌≡◌, ◌≢◌, refl, List, [], ◌∷◌, arith, ◌==◌, if◌then◌else◌}
use ion_os.Memory.{Memory, store, null}
use ion_os.Freelist.{freelist_put}
use ion_os.Freelist.List.{AllApart, Separate, DList, Beside, Same, Tail-Same}

pub freelist_put-read :
    (m : Memory) (list ptr a : ℕ)
    → freelist_put list ptr m a ≡ (
        if list == null
        then (if a == ptr + 8 then null else if a == ptr then list else m a)
        else if a == list + 8
        then ptr
        else if a == ptr + 8
        then null
        else if a == ptr
        then list
        else m a)
unfolding freelist_put store
freelist_put-read m list ptr a = ground arith

freelist_put-Same :
    (m : Memory) (list ptr : ℕ) (xs : List ℕ)
    → AllApart ptr xs
    → AllApart list xs
    → Same m (freelist_put list ptr m) xs
freelist_put-Same m list ptr [] a b = tt
freelist_put-Same m list ptr (x ∷ xs) a b = (
  ground (arith, freelist_put-read m list ptr x),
  ground (arith, freelist_put-read m list ptr (x + 8)),
  freelist_put-Same m list ptr xs a.1 b.1,
)

freelist_put-first :
    (m : Memory) (list ptr : ℕ) (xs : List ℕ)
    → ptr ≢ null
    → DList m list xs
    → Separate (ptr ∷ xs)
    → DList (freelist_put list ptr m) ptr (ptr ∷ xs)
freelist_put-first m list ptr [] ne d sep =
    (refl, ne, ground (arith, freelist_put-read m list ptr ptr))
freelist_put-first m list ptr (x ∷ xs) ne d sep =
    let m' = freelist_put list ptr m in
    let here = d.0 in
    let first : m' ptr ≡ x = ground (arith, freelist_put-read m list ptr ptr) in
    let back : m' (x + 8) ≡ ptr = ground (arith, freelist_put-read m list ptr (x + 8)) in
    let kept : m' x ≡ m x = ground (arith, freelist_put-read m list ptr x) in
    let rest = freelist_put-Same m list ptr xs sep.0.1 (rw here sep.1.0) in
    (refl, ne, (first, d.1, back, rw kept (Tail-Same m m' x (m x) xs rest d.2)))

freelist_put-Beside :
    (m : Memory) (list ptr a : ℕ) (xs : List ℕ)
    → DList m list xs
    → Beside a (ptr ∷ xs)
    → freelist_put list ptr m a ≡ m a
freelist_put-Beside m list ptr a [] d b = ground (arith, freelist_put-read m list ptr a)
freelist_put-Beside m list ptr a (x ∷ xs) d b = ground (arith, freelist_put-read m list ptr a)

-- `freelist_put` makes a node that is not null and apart from the others the first of the list,
-- and writes to no word beside the nodes.
pub freelist_put-DList :
    (m : Memory) (list ptr : ℕ) (xs : List ℕ)
    → ptr ≢ null
    → DList m list xs
    → Separate (ptr ∷ xs)
    → let m' = freelist_put list ptr m in
      DList m' ptr (ptr ∷ xs) × ((a : ℕ) → Beside a (ptr ∷ xs) → m' a ≡ m a)
freelist_put-DList m list ptr xs ne d sep =
    (freelist_put-first m list ptr xs ne d sep, λ a b. freelist_put-Beside m list ptr a xs d b)
