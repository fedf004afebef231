-- ===== src/Freelist/Groups.antt =====
-- kernel/src/include/mm/alloc/freelist.hpp: the search of the lists of a group.
use ion_os.Base.{
  ℕ, zero, suc, ◌+◌, ◌-◌, ◌<◌, ◌≤◌, ◌≡◌, ◌≢◌, ◌⊎◌, inl, inr, refl, false, Bool, Option, some, none,
  List, arith, ◌==◌, Bool-cases, Option-cases, subst,
}
use ion_os.Base.Lists.{length}
use ion_os.Memory.{Memory, null}
use ion_os.Freelist.{
  Freelists, match_lists, lists_from, freelists_detach, freelist_detach, freelists_size2id,
  freelist_num,
}
use ion_os.Freelist.List.{DList}
use ion_os.Freelist.Match.{Nexts-DList, NoneFits, FirstFit, walk-first}

-- The node that was found in list `id`, taken out of it.
abbrev pub FoundIn :
    (Memory → ℕ → Bool)
    → Freelists
    → Memory
    → (ℕ → List ℕ)
    → ℕ
    → Option (ℕ × Freelists × Memory)
    → Type 0
FoundIn test lists m nodes id result =
    (f : FirstFit (test m) (nodes id)) × (result
      ≡ (let (lists', m') = freelists_detach lists id f.x m in some (f.x, lists', m')))

-- No node of the lists from a size's class on passes; a size without a class has no such list.
abbrev pub NoneFrom : (ℕ → Bool) → (ℕ → List ℕ) → Option ℕ → Type 0
NoneFrom test nodes none = Unit {0}
NoneFrom test nodes (some id) = (j : ℕ) → id ≤ j → j < freelist_num → NoneFits test (nodes j)

module _ (fuel : ℕ) (test : Memory → ℕ → Bool) (lists : Freelists) (m : Memory) (nodes : ℕ → List ℕ)
    (chained : (id : ℕ) → DList m (lists id) (nodes id))
    (enough : (id : ℕ) → length (nodes id) < fuel) where
  match_lists-FoundIn :
      (left id : ℕ)
      → (((j : ℕ) → id ≤ j → j < id + left → NoneFits (test m) (nodes j))
          × (match_lists fuel test left lists id m ≡ some (null, lists, m)))
        ⊎ ((k : ℕ) × FoundIn test lists m nodes k (match_lists fuel test left lists id m))
  unfolding match_lists
  match_lists-FoundIn zero id = inl (λ j le lt. absurd (omega arith), refl)
  match_lists-FoundIn (suc left) id =
      elim (walk-first (test m) fuel m (lists id) (nodes id)
        (Nexts-DList m (lists id) (nodes id) (chained id)) (enough id)) [
          | inl nothing ↦
              rw (nothing.1, match_lists)
                (elim (match_lists-FoundIn left (id + 1)) [
                  | inl later ↦ inl (
                    λ j le lt. elim (Bool-cases (j == id)) [
                      | inl here ↦
                          let same : id ≡ j = ground arith in
                          subst (λ k. NoneFits (test m) (nodes k)) same (nothing.0)
                      | inr after ↦ later.0 j (ground arith) (omega arith)
                    ],
                    later.1,
                  )
                  | inr found ↦ inr found
                ])
          | inr hit ↦
              let not_null : (hit.0.x == null) ≡ false = ground (arith, hit.0.not_null) in
              rw (hit.1, not_null, match_lists) (inr (id, (hit.0, refl)))
        ]

  -- The search from a size's class on.
  pub lists_from-FoundIn :
      (size : ℕ)
      → (NoneFrom (test m) nodes (freelists_size2id size)
          × (lists_from fuel test lists size m ≡ some (null, lists, m)))
        ⊎ ((k : ℕ) × FoundIn test lists m nodes k (lists_from fuel test lists size m))
  unfolding lists_from
  lists_from-FoundIn size = elim (Option-cases (freelists_size2id size)) [
    | inl no_class ↦ rw (no_class, lists_from) (inl (tt, refl))
    | inr (id, e) ↦
        rw (e, lists_from)
          (elim (match_lists-FoundIn (freelist_num - id) id) [
            | inl nothing ↦ inl (λ j le lt. nothing.0 j le (omega arith), nothing.1)
            | inr found ↦ inr found
          ])
  ]

-- Taking a node out of a group changes one first node, and the memory as `freelist_detach` does.
pub freelists_detach-eq :
    (lists : Freelists) (id x : ℕ) (m : Memory)
    → let (lists', m') = freelists_detach lists id x m in
      let (list, m'') = freelist_detach (lists id) x m in
      (m' ≡ m'') × (lists' id ≡ list) × ((j : ℕ) → j ≢ id → lists' j ≡ lists j)
unfolding freelists_detach freelist_detach
freelists_detach-eq lists id x m = elim (Bool-cases (lists id == x)) [
  | inl first ↦ rw first (refl, ground arith, λ j ne. ground arith)
  | inr inner ↦ rw inner (refl, refl, λ j ne. refl)
]
