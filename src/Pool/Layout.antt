-- ===== src/Pool/Layout.antt =====
-- kernel/src/mm/heap/pool.cpp: the listed blocks of a pool when a list loses or gains one.
use ion_os.Base.{
  ℕ, ◌+◌, ◌-◌, ◌^◌, ◌<◌, ◌≤◌, ◌≡◌, ◌≢◌, ◌⊎◌, inl, inr, refl, sym, ◌∙◌, subst, ap, Bool, true, false,
  Option, some, none, List, ◌∷◌, arith, ◌==◌, if◌then◌else◌, Bool-cases,
}
use mathlib.Core.Option.{some-injective, none-ne-some}
use ion_os.Memory.{Memory}
use ion_os.Block.{blk_size, size_bits}
use ion_os.Block.Tags.{Block, Block-of_same}
use ion_os.Freelist.List.{DList, Separate}
use ion_os.Pool.{Heap}
use ion_os.Pool.Inv.{IsPool, Among, Clear, Elsewhere, head_of}

-- The lists with `xs` in the place of list `l`.
abbrev pub same_list : Option ℕ → Option ℕ → Bool
same_list none none = true
same_list none (some b) = false
same_list (some a) none = false
same_list (some a) (some b) = a == b

abbrev pub update : (Option ℕ → List ℕ) → Option ℕ → List ℕ → Option ℕ → List ℕ
update nodes l xs l' = if same_list l l' then xs else nodes l'

pub same_list-cases :
    (l l' : Option ℕ) → ((l ≡ l') × (same_list l l' ≡ true)) ⊎ ((l ≢ l') × (same_list l l' ≡ false))
same_list-cases none none = inl (refl, refl)
same_list-cases none (some b) = inr (λ e. none-ne-some b e, refl)
same_list-cases (some a) none = inr (λ e. none-ne-some a (sym e), refl)
same_list-cases (some a) (some b) = elim (Bool-cases (a == b)) [
  | inl e ↦ inl (ap (λ i. some i) (ground arith), e)
  | inr ne ↦ inr (λ e. ground (arith, some-injective a b e), ne)
]

-- The part of a well-formed pool that is about blocks: what `IsPool` says beside its links.
pub record Layout (m : Memory) (nodes : Option ℕ → List ℕ) : Type 0 where
  pub large_enough :
      (l : Option ℕ) (x : ℕ)
      → Among x (nodes l)
      → (8 ≤ x) × (16 ≤ blk_size m x) × (blk_size m x < 2 ^ 63)
  pub blocks :
      (l : Option ℕ) (x : ℕ) → Among x (nodes l) → (big : Bool) × Block m x (blk_size m x) true big
  pub elsewhere :
      (l l' : Option ℕ) (x y : ℕ) → Among x (nodes l) → Among y (nodes l') → Elsewhere m l l' x y

pub IsPool-Layout :
    (h : Heap) (nodes : Option ℕ → List ℕ) → IsPool h nodes → Layout (h.memory) nodes
IsPool-Layout h nodes inv = record {
  large_enough = inv.large_enough;
  blocks = inv.blocks;
  elsewhere = inv.elsewhere;
}

pub Layout-IsPool :
    (h : Heap) (nodes : Option ℕ → List ℕ)
    → ((l : Option ℕ) → DList h.memory (head_of h l) (nodes l))
    → ((l : Option ℕ) → Separate (nodes l))
    → Layout (h.memory) nodes
    → IsPool h nodes
Layout-IsPool h nodes c s b = record {
  chained = c;
  separate = s;
  large_enough = b.large_enough;
  blocks = b.blocks;
  elsewhere = b.elsewhere;
}

-- `m'` has the same tags of the listed blocks.
abbrev pub SameTags : (m m' : Memory) → (Option ℕ → List ℕ) → Type 0
SameTags m m' nodes =
    (l : Option ℕ) (x : ℕ)
    → Among x (nodes l)
    → (m' (x - 8) ≡ m (x - 8)) × (m' (x + blk_size m x) ≡ m (x + blk_size m x))

-- Fewer nodes with the same tags are laid out as well.
pub Layout-SameTags :
    (m m' : Memory) (nodes nodes' : Option ℕ → List ℕ)
    → ((l : Option ℕ) (x : ℕ) → Among x (nodes' l) → Among x (nodes l))
    → SameTags m m' nodes
    → Layout m nodes
    → Layout m' nodes'
Layout-SameTags m m' nodes nodes' fewer same b =
    let kept : (l : Option ℕ) (x : ℕ) → Among x (nodes' l) → blk_size m' x ≡ blk_size m x =
      λ l x a. ap (λ w. size_bits w) ((same l x (fewer l x a)).0) in
    record {
      large_enough = λ l x a. rw (kept l x a) (b.large_enough l x (fewer l x a));
      blocks = λ l x a.
          let it = b.blocks l x (fewer l x a) in
          let tags = same l x (fewer l x a) in
          (
            it.0,
            rw (kept l x a)
                (Block-of_same m m' x (blk_size m x) true (it.0) (tags.0) (tags.1) (it.1)),
          );
      elsewhere = λ l l' x y a a'.
          rw (kept l x a, kept l' y a') (b.elsewhere l l' x y (fewer l x a) (fewer l' y a'));
    }

-- The words of a new free block meet no listed block.
abbrev pub ClearOf : Memory → (Option ℕ → List ℕ) → (r size : ℕ) → Type 0
ClearOf m nodes r size = (l : Option ℕ) (y : ℕ) → Among y (nodes l) → Clear r size y (blk_size m y)

pub Among-cons :
    (nodes : Option ℕ → List ℕ) (l l' : Option ℕ) (r y : ℕ)
    → Among y (update nodes l (r ∷ nodes l) l')
    → ((y ≡ r) × (l ≡ l')) ⊎ Among y (nodes l')
Among-cons nodes l l' r y a = elim (same_list-cases l l') [
  | inl (e, t) ↦
      let a' : Among y (r ∷ nodes l) = (rw t at a) in
      elim a' [ inl here ↦ inl (here, e) | inr rest ↦ inr (subst (λ k. Among y (nodes k)) e rest) ]
  | inr (ne, t) ↦ inr (rw t at a)
]

-- A new free block joins the layout.
pub Layout-cons :
    (m : Memory) (nodes : Option ℕ → List ℕ) (l : Option ℕ) (r : ℕ) (big : Bool)
    → (8 ≤ r) × (16 ≤ blk_size m r) × (blk_size m r < 2 ^ 63)
    → Block m r (blk_size m r) true big
    → ClearOf m nodes r (blk_size m r)
    → Layout m nodes
    → Layout m (update nodes l (r ∷ nodes l))
Layout-cons m nodes l r big room block clear b = record {
  large_enough = λ l' x a. elim (Among-cons nodes l l' r x a) [
    | inl (e, _) ↦ rw e room
    | inr old ↦ b.large_enough l' x old
  ];
  blocks = λ l' x a. elim (Among-cons nodes l l' r x a) [
    | inl (e, _) ↦ rw e (big, block)
    | inr old ↦ b.blocks l' x old
  ];
  elsewhere = λ l' l'' x y a a'. elim (Among-cons nodes l l' r x a) [
    | inl (e, f) ↦ elim (Among-cons nodes l l'' r y a') [
      | inl (e', f') ↦ inl (e ∙ sym e', sym f ∙ f')
      | inr old' ↦ rw e (inr (clear l'' y old'))
    ]
    | inr old ↦ elim (Among-cons nodes l l'' r y a') [
      | inl (e', f') ↦ rw e' (inr (ground (arith, clear l' x old)))
      | inr old' ↦ b.elsewhere l' l'' x y old old'
    ]
  ];
}
