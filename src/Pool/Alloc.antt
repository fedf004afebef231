-- ===== src/Pool/Alloc.antt =====
-- kernel/src/mm/heap/pool.cpp: `mpool_alloc` of a well-formed pool without a callback.
use ion_os.Base.{
  ℕ, ◌+◌, ◌-◌, ◌%◌, ◌^◌, ◌<◌, ◌≤◌, ◌≡◌, ◌≢◌, ◌⊎◌, inl, inr, refl, sym, ◌∙◌, ap, subst, Bool, true,
  false, Option, some, none, List, ◌++◌, arith, ◌==◌, leb, if◌then◌else◌, Bool-cases, add_size,
}
use mathlib.Core.Option.{some-injective, none-ne-some}
use ion_os.Base.Lists.{length}
use ion_os.Memory.{null}
use ion_os.Machine.{Run, done}
use ion_os.Block.{blk_size}
use ion_os.Block.Tags.{Block}
use ion_os.Freelist.{freelists_match, freelists_detach, freelists_size2id, fits}
use ion_os.Freelist.List.{DList, Separate, Beside}
use ion_os.Freelist.Detach.{freelist_detach-DList}
use ion_os.Freelist.Match.{NoneFits, freelist_match-Matched}
use ion_os.Freelist.Groups.{NoneFrom, FoundIn, lists_from-FoundIn, freelists_detach-eq}
use ion_os.Pool.{Heap, mpool_reqmem, hand_out}
use ion_os.Pool.Calls.{mpool_alloc, match_any, match_large, request}
use ion_os.Pool.HandOut.{HeadsOutside, hand_out-Block}
use ion_os.Pool.Layout.{update, ClearOf}
use ion_os.Pool.Keep.{taken-IsPool, taken-ClearOf}
use ion_os.Pool.Inv.{IsPool, Among, Among-middle, head_of, taken-Block, taken-HeadsOutside}

-- A run that took the listed block `x`, large enough for `size` bytes, out of its list.
pub record Took (h : Heap) (nodes : Option ℕ → List ℕ) (size : ℕ) (run : Run Heap ℕ) : Type 0 where
  pub l : Option ℕ
  pub x : ℕ
  pub after : Heap
  pub big : Bool
  pub listed : Among x (nodes l)
  pub holds : size ≤ blk_size h.memory x
  pub returns : run ≡ done x after
  pub block : Block after.memory x (blk_size h.memory x) true big
  pub outside : HeadsOutside after (x - 8) (x + blk_size h.memory x + 8)
  pub count : after.pool.alloced_size ≡ h.pool.alloced_size
  pub left : Option ℕ → List ℕ
  pub pool : IsPool after left
  pub clear : ClearOf after.memory left x (blk_size h.memory x)

module _ (fuel size : ℕ) (h : Heap) (nodes : Option ℕ → List ℕ) (inv : IsPool h nodes)
    (enough : (l : Option ℕ) → length (nodes l) < fuel) where
  match_large-Took :
      (NoneFits (fits size h.memory) (nodes none) × (match_large fuel size h ≡ done null h))
      ⊎ Took h nodes size (match_large fuel size h)
  unfolding match_large
  match_large-Took =
      elim (freelist_match-Matched fuel (h.pool.large_blk) size (h.memory) (nodes none)
        (inv.chained none) (inv.separate none) (enough none)) [
          | inl nothing ↦ inl (nothing.0, rw (nothing.1, match_large) refl)
          | inr t ↦
              let f = t.fit in
              let h' = record h {
                pool = record (h.pool) { large_blk = t.list };
                memory = t.after;
              } in
              let others : (l' : Option ℕ)
                  → (l' ≡ none) ⊎ ((none ≢ l') × (head_of h' l' ≡ head_of h l')) =
                λ l'. others_large h' l' (λ id. refl) in
              let b =
                taken-Block h h' nodes inv none (f.x) (f.pre) (f.post) (f.parts) (t.chained)
                  (t.frame) others in
              inr record {
                l = none;
                x = f.x;
                after = h';
                big = b.0;
                listed =
                    subst (λ xs. Among f.x xs) (sym (f.parts))
                      (Among-middle (f.x) (f.pre) (f.post));
                holds = ground (arith, f.passes);
                returns = rw (t.returns, match_large) refl;
                block = b.1;
                outside =
                    taken-HeadsOutside h h' nodes inv none (f.x) (f.pre) (f.post) (f.parts)
                      (t.chained) (t.frame) others;
                count = refl;
                left = update nodes none (f.pre ++ f.post);
                pool =
                    taken-IsPool h h' nodes inv none (f.x) (f.pre) (f.post) (f.parts) (t.chained)
                      (t.frame) others;
                clear =
                    taken-ClearOf h h' nodes inv none (f.x) (f.pre) (f.post) (f.parts) (t.chained)
                      (t.frame) others;
              }
        ]
    where
      others_large :
          (h' : Heap) (l' : Option ℕ)
          → ((id : ℕ) → h'.pool.freed id ≡ h.pool.freed id)
          → (l' ≡ none) ⊎ ((none ≢ l') × (head_of h' l' ≡ head_of h l'))
      others_large h' none same = inl refl
      others_large h' (some id) same = inr (λ e. none-ne-some id e, same id)

  match_small-Took :
      (k : ℕ)
      → FoundIn
          (λ m. fits size m)
          (h.pool.freed)
          (h.memory)
          (λ id. nodes (some id))
          k
          (freelists_match fuel h.pool.freed size h.memory)
      → Took h nodes size (match_any fuel size h)
  unfolding match_any
  match_small-Took k found =
      let f = found.0 in
      let d = freelists_detach-eq (h.pool.freed) k (f.x) (h.memory) in
      let out =
        freelist_detach-DList (h.memory) (h.pool.freed k) (f.x) (f.pre) (f.post)
          (subst (λ xs. DList h.memory (h.pool.freed k) xs) (f.parts) (inv.chained (some k)))
          (subst (λ xs. Separate xs) (f.parts) (inv.separate (some k))) in
      let h' = record h {
        pool = record (h.pool) { freed = (freelists_detach h.pool.freed k f.x h.memory).0 };
        memory = (freelists_detach h.pool.freed k f.x h.memory).1;
      } in
      let others : (l' : Option ℕ)
          → (l' ≡ some k) ⊎ ((some k ≢ l') × (head_of h' l' ≡ head_of h l')) =
        λ l'. others_small k h' l' (d.2) refl in
      let rest : DList h'.memory (h'.pool.freed k) (f.pre ++ f.post) = rw (d.0, d.1) (out.0) in
      let frame : (a : ℕ) → Beside a (nodes (some k)) → h'.memory a ≡ h.memory a =
        λ a b. rw (d.0) (out.1 a (subst (λ xs. Beside a xs) (f.parts) b)) in
      let b =
        taken-Block h h' nodes inv (some k) (f.x) (f.pre) (f.post) (f.parts) rest frame others in
      let not_null : (f.x == null) ≡ false = ground (arith, f.not_null) in
      record {
        l = some k;
        x = f.x;
        after = h';
        big = b.0;
        listed = subst (λ xs. Among f.x xs) (sym (f.parts)) (Among-middle (f.x) (f.pre) (f.post));
        holds = ground (arith, f.passes);
        returns = rw (found.1, match_any, not_null) refl;
        block = b.1;
        outside =
            taken-HeadsOutside h h' nodes inv (some k) (f.x) (f.pre) (f.post) (f.parts) rest frame
              others;
        count = refl;
        left = update nodes (some k) (f.pre ++ f.post);
        pool =
            taken-IsPool h h' nodes inv (some k) (f.x) (f.pre) (f.post) (f.parts) rest frame others;
        clear =
            taken-ClearOf h h' nodes inv (some k) (f.x) (f.pre) (f.post) (f.parts) rest frame
              others;
      }
    where
      others_small :
          (k : ℕ) (h' : Heap) (l' : Option ℕ)
          → ((j : ℕ) → j ≢ k → h'.pool.freed j ≡ h.pool.freed j)
          → h'.pool.large_blk ≡ h.pool.large_blk
          → (l' ≡ some k) ⊎ ((some k ≢ l') × (head_of h' l' ≡ head_of h l'))
      others_small k h' none same large = inr (λ e. none-ne-some k (sym e), large)
      others_small k h' (some j) same large = elim (Bool-cases (j == k)) [
        | inl here ↦ inl (ap (λ i. some i) (ground arith))
        | inr other ↦ inr (λ e. ground (arith, some-injective k j e), same j (ground arith))
      ]

  -- The small lists from the size's class on, then the large list.
  pub match_any-Took :
      ((NoneFrom (fits size h.memory) (λ id. nodes (some id)) (freelists_size2id size)
          × NoneFits (fits size h.memory) (nodes none))
        × (match_any fuel size h ≡ done null h))
      ⊎ Took h nodes size (match_any fuel size h)
  unfolding freelists_match match_any
  match_any-Took =
      elim (lists_from-FoundIn fuel (λ m. fits size m) (h.pool.freed) (h.memory)
        (λ id. nodes (some id)) (λ id. inv.chained (some id)) (λ id. enough (some id)) size) [
          | inr (k, found) ↦ inr (match_small-Took k found)
          | inl small ↦
              let as_large : match_any fuel size h ≡ match_large fuel size h =
                rw (small.1, match_any) refl in
              elim match_large-Took [
                | inl large ↦ inl ((small.0, large.0), as_large ∙ large.1)
                | inr t ↦ inr (subst (λ run. Took h nodes size run) (sym as_large) t)
              ]
        ]

pub padding_lem : (size : ℕ) → (request size % 8 ≡ 0) × (request size < 2 ^ 64)
padding_lem size = ground arith

-- The block that an allocation of `size` bytes hands out of a listed free block of `old` bytes.
abbrev pub kept_of : (size old : ℕ) → ℕ
kept_of size old = if leb (request size + 64) old then request size else old

-- In a well-formed pool without a callback to request memory, with fuel for every list,
-- `mpool_alloc` returns null only if no block of the searched lists holds the request, and then
-- changes nothing. Else it returns a block that was on a list, marked in use, with at least the
-- bytes of the padded request and fewer than 64 more, and adds its size to the pool's count.
pub mpool_alloc-Block :
    (fuel size : ℕ) (h : Heap) (nodes : Option ℕ → List ℕ)
    → IsPool h nodes
    → ((l : Option ℕ) → length (nodes l) < fuel)
    → h.pool.cb_reqmem ≡ none
    → (((NoneFrom
              (fits (request size) h.memory)
              (λ id. nodes (some id))
              (freelists_size2id (request size))
            × NoneFits (fits (request size) h.memory) (nodes none))
          × (mpool_alloc fuel size h ≡ done null h))
        ⊎ ((l : Option ℕ) × (x : ℕ) × (after : Heap) × (big : Bool) × Among x (nodes l)
            × (mpool_alloc fuel size h ≡ done x after)
            × Block after.memory x (kept_of size (blk_size h.memory x)) false big
            × ((request size ≤ kept_of size (blk_size h.memory x))
                × (kept_of size (blk_size h.memory x) < request size + 64))
            × (after.pool.alloced_size
                ≡ add_size h.pool.alloced_size (kept_of size (blk_size h.memory x)))))
unfolding mpool_alloc mpool_reqmem
mpool_alloc-Block fuel size h nodes inv enough alone =
    elim (match_any-Took fuel (request size) h nodes inv enough) [
      | inl nothing ↦ inl (nothing.0, rw (nothing.1, alone, mpool_alloc) refl)
      | inr t ↦
          let room = inv.large_enough (t.l) (t.x) (t.listed) in
          let padded = padding_lem size in
          let not_null : (t.x == null) ≡ false = ground arith in
          let out =
            hand_out-Block (t.x) (request size) (blk_size h.memory t.x) true (t.big) (t.after)
              (room.0) (padded.0) (t.holds) (room.2) (t.block) (t.outside) in
          inr (
            t.l,
            t.x,
            (hand_out t.x (request size) t.after).1,
            t.big,
            t.listed,
            rw (t.returns, not_null, mpool_alloc)
                (ap (λ p. done p (hand_out t.x (request size) t.after).1) (out.0)),
            out.1,
            out.2,
            rw (out.3, t.count) refl,
          )
    ]
