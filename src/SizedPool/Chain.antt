-- ===== src/SizedPool/Chain.antt =====
-- kernel/src/mm/heap/sized-pool.cpp: the free elements as a list.
use ion_os.Base.{
  ℕ, zero, suc, ◌+◌, ◌-◌, ◌*◌, ◌<◌, ◌≡◌, ◌≢◌, ◌&&◌, List, [], ◌∷◌, ltb, leb, if◌then◌else◌, arith,
}
use ion_os.Memory.{Memory, store, store_ne, null}
use ion_os.SizedPool.{link}

-- From `p` the first words lead through the elements `xs` to a null pointer.
abbrev pub Chain : Memory → ℕ → List ℕ → Type 0
Chain m p [] = p ≡ null
Chain m p (x ∷ xs) = (p ≡ x) × (x ≢ null) × Chain m (m x) xs

-- `a` is none of the elements.
abbrev pub IsFresh : ℕ → List ℕ → Type 0
IsFresh a [] = Unit {0}
IsFresh a (x ∷ xs) = (a ≢ x) × IsFresh a xs

-- A write beside the elements leaves the chain.
pub Chain-store :
    (m : Memory) (a v p : ℕ) (xs : List ℕ) → IsFresh a xs → Chain m p xs → Chain (store m a v) p xs
Chain-store m a v p [] f c = c
Chain-store m a v p (x ∷ xs) f c =
    (c.0, c.1, rw (store_ne m a v x (λ e. f.0 (omega arith))) (Chain-store m a v (m x) xs f.1 c.2))

-- Elements `i` to `i + n - 1` of the area.
abbrev pub slots : (ptr bsize i n : ℕ) → List ℕ
slots ptr bsize i zero = []
slots ptr bsize i (suc n) = (ptr + i * bsize) ∷ slots ptr bsize (i + 1) n

-- Elements of a positive size have distinct addresses.
slot_ne : (ptr bsize i j : ℕ) → 0 < bsize → i < j → ptr + i * bsize < ptr + j * bsize
slot_ne ptr bsize i j pos lt = grind arith

pub slot_eq : (ptr bsize i j : ℕ) → 0 < bsize → ptr + i * bsize ≡ ptr + j * bsize → i ≡ j
slot_eq ptr bsize i j pos e = ground (arith, slot_ne ptr bsize i j pos, slot_ne ptr bsize j i pos)

-- After the loop of `init` each element before the last points at the one behind it.
pub link-read :
    (left ptr bsize i k : ℕ) (m : Memory)
    → 0 < bsize
    → 0 < i
    → link left ptr bsize i m (ptr + k * bsize) ≡ (
        if leb i (k + 1) && ltb (k + 1) (i + left)
        then ptr + (k + 1) * bsize
        else m (ptr + k * bsize))
unfolding link store
link-read zero ptr bsize i k m pos one = ground arith
link-read (suc left) ptr bsize i k m pos one = ground (
  arith,
  slot_eq ptr bsize k (i - 1) pos,
  link-read left ptr bsize (i + 1) k (store m (ptr + (i - 1) * bsize) (ptr + i * bsize)) pos,
)
