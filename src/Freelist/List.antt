-- ===== src/Freelist/List.antt =====
-- kernel/src/include/mm/alloc/freelist.hpp: what a well-formed list is.
use ion_os.Base.{ℕ, ◌+◌, ◌≤◌, ◌≡◌, ◌≢◌, ◌⊎◌, inl, inr, ◌∙◌, List, [], ◌∷◌, ◌++◌, arith}
use ion_os.Memory.{Memory, null}

-- Two nodes of two words each do not overlap.
abbrev pub Apart : ℕ → ℕ → Type 0
Apart x y = (x + 16 ≤ y) ⊎ (y + 16 ≤ x)

abbrev pub AllApart : ℕ → List ℕ → Type 0
AllApart x [] = Unit {0}
AllApart x (y ∷ ys) = Apart x y × AllApart x ys

abbrev pub Separate : List ℕ → Type 0
Separate [] = Unit {0}
Separate (x ∷ xs) = AllApart x xs × Separate xs

-- From `p`, the `next` of the node `q`, the list goes on through the nodes `xs`: each points back
-- at the one in front of it, and the last `next` is null.
abbrev pub Tail : Memory → ℕ → ℕ → List ℕ → Type 0
Tail m q p [] = p ≡ null
Tail m q p (x ∷ xs) = (p ≡ x) × (x ≢ null) × (m (x + 8) ≡ q) × Tail m x (m x) xs

-- A list from its first node. The `prev` of the first node is never read and may be anything.
abbrev pub DList : Memory → ℕ → List ℕ → Type 0
DList m p [] = p ≡ null
DList m p (x ∷ xs) = (p ≡ x) × (x ≢ null) × Tail m x (m x) xs

-- `a` is not a word of the nodes.
abbrev pub Beside : ℕ → List ℕ → Type 0
Beside a [] = Unit {0}
Beside a (x ∷ xs) = (a ≢ x) × (a ≢ x + 8) × Beside a xs

-- `m'` agrees with `m` at the words of the nodes.
abbrev pub Same : Memory → Memory → List ℕ → Type 0
Same m m' [] = Unit {0}
Same m m' (x ∷ xs) = (m' x ≡ m x) × (m' (x + 8) ≡ m (x + 8)) × Same m m' xs

pub Tail-Same :
    (m m' : Memory) (q p : ℕ) (xs : List ℕ) → Same m m' xs → Tail m q p xs → Tail m' q p xs
Tail-Same m m' q p [] s t = t
Tail-Same m m' q p (x ∷ xs) s t =
    (t.0, t.1, s.1 ∙ t.2, rw (s.0) (Tail-Same m m' x (m x) xs s.2 t.3))

pub DList-Same : (m m' : Memory) (p : ℕ) (xs : List ℕ) → Same m m' xs → DList m p xs → DList m' p xs
DList-Same m m' p [] s t = t
DList-Same m m' p (x ∷ xs) s t = (t.0, t.1, rw (s.0) (Tail-Same m m' x (m x) xs s.2 t.2))

-- A node apart from all those of a list is beside them.
pub Beside-AllApart : (x : ℕ) (xs : List ℕ) → AllApart x xs → Beside x xs × Beside (x + 8) xs
Beside-AllApart x [] a = (tt, tt)
Beside-AllApart x (y ∷ ys) a =
    let rest = Beside-AllApart x ys a.1 in
    ((ground arith, ground arith, rest.0), (ground arith, ground arith, rest.1))

pub AllApart-append :
    (x : ℕ) (xs ys : List ℕ) → AllApart x (xs ++ ys) → AllApart x xs × AllApart x ys
AllApart-append x [] ys a = (tt, a)
AllApart-append x (z ∷ zs) ys a = let rest = AllApart-append x zs ys a.1 in ((a.0, rest.0), rest.1)

pub Apart-symm : (x y : ℕ) → Apart x y → Apart y x
Apart-symm x y (inl h) = inr h
Apart-symm x y (inr h) = inl h
