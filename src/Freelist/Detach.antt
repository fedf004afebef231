-- ===== src/Freelist/Detach.antt =====
-- kernel/src/include/mm/alloc/freelist.hpp: `freelist_detach`.
use ion_os.Base.{
  ℕ, ◌+◌, ◌≡◌, ◌≢◌, ◌⊎◌, inl, inr, refl, true, false, subst, ◌&&◌, not, List, [], ◌∷◌, ◌++◌, arith,
  ◌==◌, if◌then◌else◌,
}
use ion_os.Memory.{Memory, store, null}
use ion_os.Freelist.{unlink, freelist_detach}
use ion_os.Freelist.List.{
  Apart, AllApart, Separate, Tail, DList, Beside, Same, Tail-Same, AllApart-append,
}

-- The memory after the node `x` with a predecessor is unlinked.
pub unlink-read :
    (m : Memory) (x a : ℕ)
    → m (x + 8) ≢ null
    → (m x ≡ null) ⊎ Apart x (m x)
    → unlink x m a ≡ (
        if a == m (x + 8)
        then m x
        else if not (m x == null) && a == m x + 8
        then m (x + 8)
        else m a)
unfolding unlink store
unlink-read m x a prev next = ground arith

-- The last node of a list that follows `q`.
abbrev last_of : ℕ → List ℕ → ℕ
last_of q [] = q
last_of q (y ∷ ys) = last_of y ys

prev-last_of :
    (m : Memory) (q p x : ℕ) (pre post : List ℕ)
    → Tail m q p (pre ++ x ∷ post)
    → m (x + 8) ≡ last_of q pre
prev-last_of m q p x [] post t = t.2
prev-last_of m q p x (y ∷ ys) post t = prev-last_of m y (m y) x ys post t.3

next-Tail :
    (m : Memory) (q p x : ℕ) (pre post : List ℕ)
    → Tail m q p (pre ++ x ∷ post)
    → Tail m x (m x) post
next-Tail m q p x [] post t = t.3
next-Tail m q p x (y ∷ ys) post t = next-Tail m y (m y) x ys post t.3

Apart-last_of : (a q : ℕ) (ys : List ℕ) → Apart a q → AllApart a ys → Apart a (last_of q ys)
Apart-last_of a q [] h all = h
Apart-last_of a q (y ∷ ys) h all = Apart-last_of a y ys all.0 all.1

Apart_self_of_last : (y : ℕ) (ys : List ℕ) → AllApart y ys → y + 8 ≢ last_of y ys
Apart_self_of_last y [] all = omega arith
Apart_self_of_last y (z ∷ zs) all = λ e. ground (arith, Apart-last_of y z zs all.0 all.1)

-- The first node of a list, if there is one, is apart from what all its nodes are apart from.
next-Apart :
    (m : Memory) (a q p : ℕ) (xs : List ℕ) → Tail m q p xs → AllApart a xs → (p ≡ null) ⊎ Apart a p
next-Apart m a q p [] t all = inl t
next-Apart m a q p (x ∷ xs) t all = inr (rw (t.0) (all.0))

DList-Tail : (m : Memory) (q p : ℕ) (xs : List ℕ) → Tail m q p xs → DList m p xs
DList-Tail m q p [] t = t
DList-Tail m q p (x ∷ xs) t = (t.0, t.1, t.3)

module _ (m : Memory) (x : ℕ) (prev : m (x + 8) ≢ null) (next : (m x ≡ null) ⊎ Apart x (m x)) where
  unlink-Same : (xs : List ℕ) → AllApart (m (x + 8)) xs → AllApart (m x) xs → Same m (unlink x m) xs
  unlink-Same [] a b = tt
  unlink-Same (z ∷ zs) a b = (
    ground (arith, unlink-read m x z prev next),
    ground (arith, unlink-read m x (z + 8) prev next),
    unlink-Same zs a.1 b.1,
  )

  -- The nodes behind `x` follow its predecessor.
  behind-Tail :
      (post : List ℕ)
      → Tail m x (m x) post
      → AllApart (m (x + 8)) post
      → Separate post
      → Tail (unlink x m) (m (x + 8)) (m x) post
  behind-Tail [] t a sep = t
  behind-Tail (z ∷ zs) t a sep =
      let m' = unlink x m in
      let here = t.0 in
      let back : m' (z + 8) ≡ m (x + 8) = ground (arith, unlink-read m x (z + 8) prev next) in
      let kept : m' z ≡ m z = ground (arith, unlink-read m x z prev next) in
      let rest = unlink-Same zs a.1 (rw here (sep.0)) in
      (here, t.1, back, rw kept (Tail-Same m m' z (m z) zs rest t.3))

  -- The list of nodes behind `q`, less `x`.
  unlink-Tail :
      (q p : ℕ) (pre post : List ℕ)
      → Tail m q p (pre ++ x ∷ post)
      → p ≡ m q
      → Separate (q ∷ pre ++ x ∷ post)
      → Tail (unlink x m) q (unlink x m q) (pre ++ post)
  unlink-Tail q p [] post t e sep =
      let m' = unlink x m in
      let back = t.2 in
      let first : m' q ≡ m x = ground (arith, unlink-read m x q prev next) in
      rw first
        (subst (λ k. Tail m' k (m x) post) back (behind-Tail post t.3 (rw back (sep.0.1)) sep.1.1))
  unlink-Tail q p (y ∷ ys) post t e sep =
      let m' = unlink x m in
      let last = prev-last_of m y (m y) x ys post t.3 in
      let far = AllApart-append q ys (x ∷ post) sep.0.1 in
      let near = AllApart-append y ys (x ∷ post) sep.1.0 in
      let behind = next-Tail m y (m y) x ys post t.3 in
      let first : m' q ≡ y = ground (
        arith,
        unlink-read m x q prev next,
        Apart-last_of q y ys sep.0.0 far.0,
        next-Apart m q x (m x) post behind far.1.1,
      ) in
      let back : m' (y + 8) ≡ q = ground (
        arith,
        unlink-read m x (y + 8) prev next,
        Apart_self_of_last y ys near.0,
        next-Apart m y x (m x) post behind near.1.1,
      ) in
      (first, t.1, back, unlink-Tail y (m y) ys post t.3 refl sep.1)

last_of-ne_null :
    (m : Memory) (q p x : ℕ) (ys post : List ℕ)
    → q ≢ null
    → Tail m q p (ys ++ x ∷ post)
    → last_of q ys ≢ null
last_of-ne_null m q p x [] post ne t = ne
last_of-ne_null m q p x (y ∷ ys) post ne t = last_of-ne_null m y (m y) x ys post t.1 t.3

Separate-append : (ys zs : List ℕ) → Separate (ys ++ zs) → Separate zs
Separate-append [] zs sep = sep
Separate-append (y ∷ ys) zs sep = Separate-append ys zs sep.1

Beside-append : (a : ℕ) (xs ys : List ℕ) → Beside a (xs ++ ys) → Beside a xs × Beside a ys
Beside-append a [] ys b = (tt, b)
Beside-append a (x ∷ xs) ys b = let rest = Beside-append a xs ys b.2 in ((b.0, b.1, rest.0), rest.1)

Beside-last_of : (a q : ℕ) (ys : List ℕ) → a ≢ q → Beside a ys → a ≢ last_of q ys
Beside-last_of a q [] ne b = ne
Beside-last_of a q (y ∷ ys) ne b = Beside-last_of a y ys b.0 b.2

next-Beside :
    (m : Memory) (a q p : ℕ) (xs : List ℕ) → Tail m q p xs → Beside a xs → (p ≡ null) ⊎ (a ≢ p + 8)
next-Beside m a q p [] t b = inl t
next-Beside m a q p (x ∷ xs) t b = inr (rw (t.0) (b.1))

-- A list `pre ++ x ∷ post` from the node `y` that is not `x`.
module _ (m : Memory) (x y : ℕ) (ys post : List ℕ) (d : DList m y (y ∷ ys ++ x ∷ post))
    (sep : Separate (y ∷ ys ++ x ∷ post)) where
  inner_prev : m (x + 8) ≢ null
  inner_prev =
      rw (prev-last_of m y (m y) x ys post d.2) (last_of-ne_null m y (m y) x ys post d.1 d.2)

  inner_next : (m x ≡ null) ⊎ Apart x (m x)
  inner_next =
      next-Apart m x x (m x) post (next-Tail m y (m y) x ys post d.2)
        ((Separate-append ys (x ∷ post) sep.1).0)

  inner-DList : DList (unlink x m) y (y ∷ ys ++ post)
  inner-DList = (refl, d.1, unlink-Tail m x inner_prev inner_next y (m y) ys post d.2 refl sep)

  inner_frame : (a : ℕ) → Beside a (y ∷ ys ++ x ∷ post) → unlink x m a ≡ m a
  inner_frame a b =
      let split = Beside-append a ys (x ∷ post) b.2 in
      ground (
        arith,
        unlink-read m x a inner_prev inner_next,
        prev-last_of m y (m y) x ys post d.2,
        Beside-last_of a y ys b.0 split.0,
        next-Beside m a x (m x) post (next-Tail m y (m y) x ys post d.2) split.1.2,
      )

  not_first : (y == x) ≡ false
  not_first = ground (arith, (AllApart-append y ys (x ∷ post) sep.0).1.0)

-- `freelist_detach` of a node of a list takes that node out and keeps the order of the others,
-- wherever the node stands; it writes to no word beside the nodes of the list.
pub freelist_detach-DList :
    (m : Memory) (list x : ℕ) (pre post : List ℕ)
    → DList m list (pre ++ x ∷ post)
    → Separate (pre ++ x ∷ post)
    → let (list', m') = freelist_detach list x m in
      DList m' list' (pre ++ post) × ((a : ℕ) → Beside a (pre ++ x ∷ post) → m' a ≡ m a)
unfolding freelist_detach
freelist_detach-DList m list x [] post d sep =
    let head : (list == x) ≡ true = ground arith in
    rw head (DList-Tail m x (m x) post d.2, λ a b. refl)
freelist_detach-DList m list x (y ∷ ys) post d sep =
    let d' : DList m y (y ∷ ys ++ x ∷ post) = (refl, d.1, d.2) in
    rw (d.0, not_first m x y ys post d' sep)
      (inner-DList m x y ys post d' sep, inner_frame m x y ys post d' sep)
