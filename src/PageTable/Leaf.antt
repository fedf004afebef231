-- ===== src/PageTable/Leaf.antt =====
-- kernel/src/arch/x86_64/table.cpp: the entry of the lowest level that the processor reaches for an
-- address, and what making tables and writing such an entry do to those of other addresses.
use mathlib.Core.Option.{some-injective}
use ion_os.Base.{
  ℕ, ◌+◌, ◌*◌, ◌/◌, ◌^◌, ◌<◌, ◌≤◌, ◌≡◌, ◌≢◌, ◌⊎◌, inl, inr, refl, sym, ap, ◌∙◌, false, arith, ◌==◌,
  if◌then◌else◌, some, List, [], ◌∷◌,
}
use ion_os.Base.Lists.{length}
use ion_os.Memory.{Memory, store, store_ne}
use ion_os.PageTable.{Machine, index}
use ion_os.PageTable.Words.{cell, index-lt}
use ion_os.PageTable.Tree.{Place, IsTree, Linked}

-- From the table that the word `e` points at along the indices, to the last word; 0 behind a word
-- that is 0.
unfoldable pub follow : List ℕ → Memory → (e : ℕ) → ℕ
follow [] m e = e
follow (i ∷ rest) m e =
    let word = follow rest m (m (cell (e / 4096) i)) in if e == 0 then 0 else word

-- The indices of an address, from the root down.
abbrev pub indices : ℕ → List ℕ
indices v = index v (2 ^ 39) ∷ index v (2 ^ 30) ∷ index v (2 ^ 21) ∷ index v (2 ^ 12) ∷ []

-- The word of the lowest table for `v`, with the root in frame `root`; 0 where a table is missing.
abbrev pub leaf_word : Memory → (root v : ℕ) → ℕ
leaf_word m root v = follow (indices v) m (root * 4096 + 7)

abbrev Small : List ℕ → Type 0
Small [] = Unit {0}
Small (i ∷ rest) = (i < 512) × Small rest

indices-Small : (v : ℕ) → Small (indices v)
indices-Small v =
    (index-lt v (2 ^ 39), (index-lt v (2 ^ 30), (index-lt v (2 ^ 21), (index-lt v (2 ^ 12), tt))))

-- The path that leads on from the place `q` along the indices, the last first.
abbrev pub onward : List ℕ → List ℕ → List ℕ
onward [] q = q
onward (i ∷ rest) q = onward rest (i ∷ q)

follow-0 : (is : List ℕ) (m : Memory) → follow is m 0 ≡ 0
unfolding follow
follow-0 [] m = refl
follow-0 (i ∷ rest) m = refl

-- A table's entry is followed.
pub follow-table :
    (i f : ℕ) (rest : List ℕ) (m : Memory)
    → follow (i ∷ rest) m (f * 4096 + 7) ≡ follow rest m (m (cell f i))
unfolding follow
follow-table i f rest m =
    let frame : (f * 4096 + 7) / 4096 ≡ f = omega arith in
    let some_word : (f * 4096 + 7 == 0) ≡ false = ground arith in rw (some_word, frame) refl

-- Nothing is reached through an empty table.
follow-empty :
    (is : List ℕ) (g : ℕ) (m : Memory)
    → 1 ≤ length is
    → Small is
    → ((j : ℕ) → j < 512 → m (cell g j) ≡ 0)
    → follow is m (g * 4096 + 7) ≡ 0
follow-empty [] g m some_index small empty = absurd (omega arith)
follow-empty (i ∷ rest) g m some_index small empty =
    follow-table i g rest m ∙ ap (follow rest m) (empty i (small.0)) ∙ follow-0 rest m

-- A table that is made below an entry changes no leaf.
module _ (root : ℕ) (s s' : Machine) (place place' : Place) (f i g : ℕ) (p : List ℕ)
    (tree : IsTree s root place) (link : Linked root s s' place place' f i g)
    (at : place f ≡ some p) (inner : length p ≤ 2) where
  follow-Linked :
      (is q : List ℕ) (h : ℕ)
      → place h ≡ some q
      → length q + length is ≡ 4
      → Small is
      → follow is s'.ram (h * 4096 + 7) ≡ follow is s.ram (h * 4096 + 7)
  unfolding follow
  follow-Linked [] q h e four small = refl
  follow-Linked (j ∷ []) q h e four small =
      let other : h ≢ f = λ same.
        let both : q ≡ p = some-injective _ _ (sym e ∙ ap place same ∙ at) in
        omega (arith, ap length both, four, inner) in
      follow-table j h [] s'.ram
      ∙ link.apart h j q e (small.0) (inl other)
      ∙ sym (follow-table j h [] s.ram)
  follow-Linked (j ∷ k ∷ rest) q h e four small =
      let here : (((h ≡ f) × (j ≡ i)) ⊎ ((h ≢ f) ⊎ (j ≢ i))) = ground arith in
      let below : follow (k ∷ rest) s'.ram (s'.ram (cell h j))
          ≡ follow (k ∷ rest) s.ram (s.ram (cell h j)) =
        elim (tree.below h j q e (omega (arith, four)) (small.0)) [
          | inr (g', word, stands) ↦
              ap (follow (k ∷ rest) s'.ram)
                (link.others h j (g' * 4096 + 7) q e (small.0) word (omega arith))
              ∙ follow-Linked (k ∷ rest) (j ∷ q) g' stands (omega (arith, four)) (small.1)
              ∙ ap (follow (k ∷ rest) s.ram) (sym word)
          | inl blank ↦ elim here [
            | inl same ↦
                let empty = link.fresh (
                  ap (λ x. s.ram (cell x i)) (sym same.0)
                  ∙ ap (λ x. s.ram (cell h x)) (sym same.1)
                  ∙ blank) in
                ap (follow (k ∷ rest) s'.ram) (
                  ap (λ x. s'.ram (cell x j)) (same.0)
                  ∙ ap (λ x. s'.ram (cell f x)) (same.1)
                  ∙ link.here)
                ∙ follow-empty (k ∷ rest) g s'.ram (omega arith) (small.1) empty
                ∙ sym (follow-0 (k ∷ rest) s.ram)
                ∙ ap (follow (k ∷ rest) s.ram) (sym blank)
            | inr apart ↦
                ap (follow (k ∷ rest) s'.ram) (link.apart h j q e (small.0) apart ∙ blank)
                ∙ follow-0 (k ∷ rest) s'.ram
                ∙ sym (follow-0 (k ∷ rest) s.ram)
                ∙ ap (follow (k ∷ rest) s.ram) (sym blank)
          ]
        ] in
      follow-table j h (k ∷ rest) s'.ram ∙ below ∙ sym (follow-table j h (k ∷ rest) s.ram)

  pub leaf_word-Linked : (w : ℕ) → leaf_word s'.ram root w ≡ leaf_word s.ram root w
  leaf_word-Linked w = follow-Linked (indices w) [] root tree.top (omega arith) (indices-Small w)

-- A write into an entry of a lowest table changes the leaf of no other path.
module _ (root : ℕ) (s : Machine) (place : Place) (tree : IsTree s root place) (leaf i x : ℕ)
    (p : List ℕ) (stands : place leaf ≡ some p) (three : length p ≡ 3) (li : i < 512) where
  abbrev written : Memory
  written = store s.ram (cell leaf i) x

  follow-written :
      (is q : List ℕ) (h : ℕ)
      → place h ≡ some q
      → length q + length is ≡ 4
      → Small is
      → 1 ≤ length is
      → onward is q ≢ (i ∷ p)
      → follow is written (h * 4096 + 7) ≡ follow is s.ram (h * 4096 + 7)
  unfolding follow
  follow-written [] q h e four small some_index ne = absurd (omega arith)
  follow-written (j ∷ []) q h e four small some_index ne =
      let other : cell h j ≢ cell leaf i = λ same.
        let frame : h ≡ leaf = omega (arith, small.0) in
        let at_i : j ≡ i = omega (arith, small.0) in
        let both : q ≡ p = some-injective _ _ (sym e ∙ ap place frame ∙ stands) in
        ne (ap (λ n. n ∷ q) at_i ∙ ap (λ n. i ∷ n) both) in
      follow-table j h [] written
      ∙ store_ne s.ram (cell leaf i) x (cell h j) other
      ∙ sym (follow-table j h [] s.ram)
  follow-written (j ∷ k ∷ rest) q h e four small some_index ne =
      let other : cell h j ≢ cell leaf i = λ same.
        let frame : h ≡ leaf = omega (arith, small.0) in
        let both : q ≡ p = some-injective _ _ (sym e ∙ ap place frame ∙ stands) in
        omega (arith, ap length both, four, three) in
      let kept = store_ne s.ram (cell leaf i) x (cell h j) other in
      let below : follow (k ∷ rest) written (s.ram (cell h j))
          ≡ follow (k ∷ rest) s.ram (s.ram (cell h j)) =
        elim (tree.below h j q e (omega (arith, four)) (small.0)) [
          | inl blank ↦
              ap (follow (k ∷ rest) written) blank
              ∙ follow-0 (k ∷ rest) written
              ∙ sym (follow-0 (k ∷ rest) s.ram)
              ∙ ap (follow (k ∷ rest) s.ram) (sym blank)
          | inr (g, word, at) ↦
              ap (follow (k ∷ rest) written) word
              ∙ follow-written (k ∷ rest) (j ∷ q) g at (omega (arith, four)) (small.1) (omega arith)
                  ne
              ∙ ap (follow (k ∷ rest) s.ram) (sym word)
        ] in
      follow-table j h (k ∷ rest) written
      ∙ ap (follow (k ∷ rest) written) kept
      ∙ below
      ∙ sym (follow-table j h (k ∷ rest) s.ram)

  pub leaf_word-written :
      (w : ℕ) → onward (indices w) [] ≢ (i ∷ p) → leaf_word written root w ≡ leaf_word s.ram root w
  leaf_word-written w ne =
      follow-written (indices w) [] root tree.top (omega arith) (indices-Small w) (omega arith) ne
