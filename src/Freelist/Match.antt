-- ===== src/Freelist/Match.antt =====
-- kernel/src/include/mm/alloc/freelist.hpp: the match functions on one list.
use ion_os.Base.{
  ℕ, zero, suc, ◌<◌, ◌≡◌, ◌≢◌, ◌⊎◌, inl, inr, refl, true, false, Bool, ap, Option, some, List, [],
  ◌∷◌, ◌++◌, arith, ◌==◌, Bool-cases,
}
use ion_os.Base.Lists.{length}
use ion_os.Memory.{Memory, null}
use ion_os.Freelist.{
  walk, match_where, freelist_match, freelist_aligned_match, fits, aligned_fits, freelist_detach,
}
use ion_os.Freelist.List.{Separate, Tail, DList, Beside}
use ion_os.Freelist.Detach.{freelist_detach-DList}

-- Only the `next` pointers of a list.
abbrev pub Nexts : Memory → ℕ → List ℕ → Type 0
Nexts m p [] = p ≡ null
Nexts m p (x ∷ xs) = (p ≡ x) × (x ≢ null) × Nexts m (m x) xs

Nexts-Tail : (m : Memory) (q p : ℕ) (xs : List ℕ) → Tail m q p xs → Nexts m p xs
Nexts-Tail m q p [] t = t
Nexts-Tail m q p (x ∷ xs) t = (t.0, t.1, Nexts-Tail m x (m x) xs t.3)

pub Nexts-DList : (m : Memory) (p : ℕ) (xs : List ℕ) → DList m p xs → Nexts m p xs
Nexts-DList m p [] d = d
Nexts-DList m p (x ∷ xs) d = (d.0, d.1, Nexts-Tail m x (m x) xs d.2)

-- No node of the list passes the test.
abbrev pub NoneFits : (ℕ → Bool) → List ℕ → Type 0
NoneFits test [] = Unit {0}
NoneFits test (x ∷ xs) = (test x ≡ false) × NoneFits test xs

-- `x` is the first node of the list that passes the test, between `pre` and `post`.
pub record FirstFit (test : ℕ → Bool) (xs : List ℕ) : Type 0 where
  pub pre : List ℕ
  pub x : ℕ
  pub post : List ℕ
  pub parts : xs ≡ pre ++ x ∷ post
  pub before : NoneFits test pre
  pub passes : test x ≡ true
  pub not_null : x ≢ null

-- A walk with fuel for all nodes ends at the first that passes, or at the end of the list.
pub walk-first :
    (test : ℕ → Bool) (fuel : ℕ) (m : Memory) (p : ℕ) (xs : List ℕ)
    → Nexts m p xs
    → length xs < fuel
    → (NoneFits test xs × (walk test fuel m p ≡ some null))
      ⊎ ((f : FirstFit test xs) × (walk test fuel m p ≡ some f.x))
unfolding walk
walk-first test zero m p xs c enough = absurd (omega arith)
walk-first test (suc fuel) m p [] c enough = inl (tt, ground arith)
walk-first test (suc fuel) m p (x ∷ xs) c enough =
    let here = c.0 in
    let not_null : (x == null) ≡ false = ground arith in
    elim (Bool-cases (test x)) [
      | inl pass ↦ inr (
        record {
          pre = [];
          x = x;
          post = xs;
          parts = refl;
          before = tt;
          passes = pass;
          not_null = c.1;
        },
        rw (here, not_null, pass),
      )
      | inr fail ↦ elim (walk-first test fuel m (m x) xs c.2 (omega arith)) [
        | inl none ↦ inl ((fail, none.0), rw (here, not_null, fail) (none.1))
        | inr hit ↦ inr (
          record {
            pre = x ∷ hit.0.pre;
            x = hit.0.x;
            post = hit.0.post;
            parts = ap (λ l. x ∷ l) hit.0.parts;
            before = (fail, hit.0.before);
            passes = hit.0.passes;
            not_null = hit.0.not_null;
          },
          rw (here, not_null, fail) (hit.1),
        )
      ]
    ]

-- What a match returns: null and nothing changed if no node passes; else the first that does,
-- taken out of the list.
pub record Taken (test : ℕ → Bool) (m : Memory) (xs : List ℕ) (result : Option (ℕ × ℕ × Memory))
    : Type 0 where
  pub fit : FirstFit test xs
  pub list : ℕ
  pub after : Memory
  pub returns : result ≡ some (fit.x, list, after)
  pub chained : DList after list (fit.pre ++ fit.post)
  pub frame : (a : ℕ) → Beside a xs → after a ≡ m a

abbrev pub Matched : (ℕ → Bool) → Memory → ℕ → List ℕ → Option (ℕ × ℕ × Memory) → Type 0
Matched test m list xs result =
    (NoneFits test xs × (result ≡ some (null, list, m))) ⊎ Taken test m xs result

pub match_where-Matched :
    (fuel : ℕ) (test : Memory → ℕ → Bool) (list : ℕ) (m : Memory) (xs : List ℕ)
    → DList m list xs
    → Separate xs
    → length xs < fuel
    → Matched (test m) m list xs (match_where fuel test list m)
unfolding match_where
match_where-Matched fuel test list m xs d sep enough =
    elim (walk-first (test m) fuel m list xs (Nexts-DList m list xs d) enough) [
      | inl none ↦ inl (none.0, rw (none.1, match_where))
      | inr hit ↦
          let f = hit.0 in
          let not_null : (f.x == null) ≡ false = ground (arith, f.not_null) in
          let out =
            freelist_detach-DList m list f.x f.pre f.post (rw (f.parts) at d)
              (rw (f.parts) at sep) in
          inr record {
            fit = f;
            list = (freelist_detach list f.x m).0;
            after = (freelist_detach list f.x m).1;
            returns = rw (hit.1, match_where, not_null);
            chained = out.0;
            frame = λ a b. out.1 a (rw (f.parts) at b);
          }
    ]

-- With fuel for every node, `freelist_match` returns the first block of at least `size` bytes
-- and takes it out of the list, writing only to words of the list's nodes; if no block is large
-- enough, it returns null and changes nothing.
pub freelist_match-Matched :
    (fuel list size : ℕ) (m : Memory) (xs : List ℕ)
    → DList m list xs
    → Separate xs
    → length xs < fuel
    → Matched (fits size m) m list xs (freelist_match fuel list size m)
unfolding freelist_match
freelist_match-Matched fuel list size m xs = match_where-Matched fuel (fits size) list m xs

-- `freelist_aligned_match` does the same with the blocks that hold `size` bytes behind their
-- first aligned address.
pub freelist_aligned_match-Matched :
    (fuel list size align : ℕ) (m : Memory) (xs : List ℕ)
    → DList m list xs
    → Separate xs
    → length xs < fuel
    → Matched (aligned_fits size align m) m list xs (freelist_aligned_match fuel list size align m)
unfolding freelist_aligned_match
freelist_aligned_match-Matched fuel list size align m xs =
    match_where-Matched fuel (aligned_fits size align) list m xs
