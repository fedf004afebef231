-- ===== src/PageTable/Translate.antt =====
-- kernel/src/arch/x86_64/table.cpp: `translate_addr` after `map`.
use mathlib.Core.Option.{some-injective}
use ion_os.Base.{
  ℕ, ◌+◌, ◌-◌, ◌*◌, ◌/◌, ◌%◌, ◌^◌, ◌<◌, ◌≤◌, ◌≡◌, inl, inr, refl, sym, ap, ◌∙◌, Bool, true, false,
  arith, ◌==◌, if◌then◌else◌, some, List, [], ◌∷◌, bit_or, bit_and,
}
use ion_os.Base.Lists.{length}
use ion_os.Base.Splits.{bit_or_47, bit_and_1, bit_and_2, bit_and_4, bit_and_8}
use ion_os.Memory.{store, store_ne}
use ion_os.PageTable
use ion_os.PageTable.{Machine, PageTable, index}
use ion_os.PageTable.Flags
use ion_os.PageTable.Words.{higher_half, cell, index-lt, page_of-eq}
use ion_os.PageTable.Tree.{Place, IsTree}
use ion_os.PageTable.Map.{Walk, leaf_entry}

-- The flags of a leaf, for the four tests of `map` that a flag is missing.
abbrev entry_flags : (no_present no_write no_user no_execute : Bool) → ℕ
entry_flags no_present no_write no_user no_execute =
    let present = if no_present then 0 else bit_or 0 Flags.present in
    let writable = if no_write then present else bit_or present Flags.read_write in
    let open_to_user = if no_user then writable else bit_or writable Flags.user in
    if no_execute then bit_or open_to_user Flags.no_executable else open_to_user

-- The two parts of the flags: bit 63, and the bits below bit 12.
abbrev top_flag : Bool → ℕ
top_flag no_execute = if no_execute then 1 else 0

abbrev low_flags : (no_present no_write no_user : Bool) → ℕ
low_flags no_present no_write no_user =
    (if no_present then 0 else 1) + (if no_write then 0 else 2) + (if no_user then 0 else 4)

entry_flags-eq :
    (a b c d : Bool) → entry_flags a b c d ≡ top_flag d * 2 ^ 16 * 2 ^ 47 + low_flags a b c
entry_flags-eq true true true true = refl
entry_flags-eq true true true false = refl
entry_flags-eq true true false true = refl
entry_flags-eq true true false false = refl
entry_flags-eq true false true true = refl
entry_flags-eq true false true false = refl
entry_flags-eq true false false true = refl
entry_flags-eq true false false false = refl
entry_flags-eq false true true true = refl
entry_flags-eq false true true false = refl
entry_flags-eq false true false true = refl
entry_flags-eq false true false false = refl
entry_flags-eq false false true true = refl
entry_flags-eq false false true false = refl
entry_flags-eq false false false true = refl
entry_flags-eq false false false false = refl

arch_flags-eq :
    (flags : ℕ)
    → PageTable.arch_flags flags
      ≡ top_flag (bit_and flags 8 == 0) * 2 ^ 16 * 2 ^ 47
        + low_flags (bit_and flags 1 == 0) (bit_and flags 2 == 0) (bit_and flags 4 == 0)
unfolding PageTable.arch_flags
arch_flags-eq flags =
    entry_flags-eq (bit_and flags 1 == 0) (bit_and flags 2 == 0) (bit_and flags 4 == 0)
      (bit_and flags 8 == 0)

low_flags-lt : (a b c : Bool) → low_flags a b c < 2 ^ 12
low_flags-lt a b c = ground arith

bit_or-top : (d : Bool) → bit_or 0 (top_flag d * 2 ^ 16) ≡ top_flag d * 2 ^ 16
bit_or-top true = refl
bit_or-top false = refl

-- The word of a leaf is the sum of its parts.
leaf_entry-eq :
    (phys flags : ℕ)
    → leaf_entry phys flags
      ≡ top_flag (bit_and flags 8 == 0) * 2 ^ 63
        + (phys % 2 ^ 47 - phys % 2 ^ 12)
        + low_flags (bit_and flags 1 == 0) (bit_and flags 2 == 0) (bit_and flags 4 == 0)
leaf_entry-eq phys flags =
    let page = PageTable.page_of higher_half phys in
    let same : page ≡ phys % 2 ^ 47 - phys % 2 ^ 12 = page_of-eq phys in
    let top = top_flag (bit_and flags 8 == 0) in
    let low = low_flags (bit_and flags 1 == 0) (bit_and flags 2 == 0) (bit_and flags 4 == 0) in
    let small : low < 2 ^ 12 =
      low_flags-lt (bit_and flags 1 == 0) (bit_and flags 2 == 0) (bit_and flags 4 == 0) in
    let bits =
      bit_or_47 (page / 2 ^ 12) low (top * 2 ^ 16) page (PageTable.arch_flags flags)
        (omega (arith, same)) (omega (arith, same)) (arch_flags-eq flags) small in
    omega (arith, bits, same, bit_or-top (bit_and flags 8 == 0))

-- A word of the lowest level for the page of `phys`, with the flags that the caller of `map` asked
-- for: present, read_write and user are the same bits, and bit 63 forbids execution.
pub record IsLeaf (word phys flags : ℕ) : Type 0 where
  pub page : word % 2 ^ 63 - word % 2 ^ 12 ≡ phys % 2 ^ 47 - phys % 2 ^ 12
  pub low : word % 2 ^ 12 ≡ flags % 8
  pub top : word / 2 ^ 63 ≡ (if flags / 8 % 2 == 0 then 1 else 0)

pub leaf_entry-IsLeaf : (phys flags : ℕ) → IsLeaf (leaf_entry phys flags) phys flags
leaf_entry-IsLeaf phys flags = record {
  page = ground (arith, leaf_entry-eq phys flags);
  low = ground (arith, leaf_entry-eq phys flags, bit_and_1 flags, bit_and_2 flags, bit_and_4 flags);
  top = ground (arith, leaf_entry-eq phys flags, bit_and_8 flags);
}

pub page_of-leaf_entry :
    (phys flags : ℕ)
    → PageTable.page_of higher_half (leaf_entry phys flags) ≡ phys % 2 ^ 47 - phys % 2 ^ 12
page_of-leaf_entry phys flags =
    omega (arith, page_of-eq (leaf_entry phys flags), (leaf_entry-IsLeaf phys flags).page)

-- The places of the tables of a walk.
module _ (root : ℕ) (s : Machine) (place : Place) (tree : IsTree s root place) (v l1 : ℕ)
    (walk : Walk s root v l1) where
  child-place :
      (f g i : ℕ) (p : List ℕ)
      → place f ≡ some p
      → length p ≤ 2
      → i < 512
      → s.ram (cell f i) ≡ g * 4096 + 7
      → place g ≡ some (i ∷ p)
  child-place f g i p e inner li word = elim (tree.below f i p e inner li) [
    | inl blank ↦ absurd (omega arith)
    | inr (g', word', stands) ↦ let same : g ≡ g' = omega arith in rw same stands
  ]

  pub place₃ : place (walk.l3) ≡ some (index v (2 ^ 39) ∷ [])
  place₃ = child-place root walk.l3 _ [] tree.top (omega arith) (index-lt v (2 ^ 39)) walk.word₄

  pub place₂ : place (walk.l2) ≡ some (index v (2 ^ 30) ∷ index v (2 ^ 39) ∷ [])
  place₂ = child-place walk.l3 walk.l2 _ _ place₃ (omega arith) (index-lt v (2 ^ 30)) walk.word₃

  pub place₁ : place l1 ≡ some (index v (2 ^ 21) ∷ index v (2 ^ 30) ∷ index v (2 ^ 39) ∷ [])
  place₁ = child-place walk.l2 l1 _ _ place₂ (omega arith) (index-lt v (2 ^ 21)) walk.word₂

-- A walk is not touched by a write into a table of the lowest level.
module _ (root : ℕ) (s : Machine) (place : Place) (tree : IsTree s root place) (leaf i x : ℕ)
    (p : List ℕ) (stands : place leaf ≡ some p) (three : length p ≡ 3) (li : i < 512) where
  abbrev written : Machine
  written = record s { ram = store s.ram (cell leaf i) x }

  upper-kept :
      (h j : ℕ) (q : List ℕ)
      → place h ≡ some q
      → length q ≤ 2
      → j < 512
      → written.ram (cell h j) ≡ s.ram (cell h j)
  upper-kept h j q e inner lj = store_ne s.ram (cell leaf i) x (cell h j) λ same.
      let frame : leaf ≡ h = omega arith in
      let both : p ≡ q = some-injective _ _ (sym stands ∙ ap place frame ∙ e) in
      omega (arith, ap length both, three, inner)

  pub written-IsTree : IsTree written root place
  written-IsTree = record {
    top = tree.top;
    low = tree.low;
    inside = tree.inside;
    in_use = tree.in_use;
    below = λ h j q e inner lj. elim (tree.below h j q e inner lj) [
      | inl blank ↦ inl (upper-kept h j q e inner lj ∙ blank)
      | inr (g, word, at) ↦ inr (g, upper-kept h j q e inner lj ∙ word, at)
    ];
    frames = tree.frames;
    few = tree.few;
  }

  pub written-Walk : (v l1 : ℕ) → Walk s root v l1 → Walk written root v l1
  written-Walk v l1 walk = record {
    l3 = walk.l3;
    l2 = walk.l2;
    small = walk.small;
    word₄ = upper-kept root _ [] tree.top (omega arith) (index-lt v (2 ^ 39)) ∙ walk.word₄;
    word₃ =
        upper-kept walk.l3 _ _ (place₃ root s place tree v l1 walk) (omega arith)
          (index-lt v (2 ^ 30))
        ∙ walk.word₃;
    word₂ =
        upper-kept walk.l2 _ _ (place₂ root s place tree v l1 walk) (omega arith)
          (index-lt v (2 ^ 21))
        ∙ walk.word₂;
  }
