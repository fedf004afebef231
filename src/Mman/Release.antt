-- ===== src/Mman/Release.antt =====
-- kernel/src/mm/heap/mman.cpp: the functions that give memory back.
use ion_os.Base.{
  ℕ, zero, suc, ◌+◌, ◌%◌, Bool, true, false, not, ◌&&◌, ◌==◌, if◌then◌else◌, Option, none, some,
  ◌∷◌, sub_size,
}
use ion_os.Memory.{Memory, store, null}
use ion_os.Machine.{Run, done, fault, out_of_fuel, and_then, bounded}
use ion_os.Block.{size_4k, blk_size, blk_trymerge, blk_poolptr}
use ion_os.Area.{allocarea_size}
use ion_os.LargeBlk.{Delmem, delmem, large_blk_free}
use ion_os.Mman.{State, pool_ptr, pool_alloced, pool_next, set_pool, detach, do_free, discharge}

-- The search of `mman_delmem`: the pool struct whose `next` is `pool`, or null.
unfoldable pub find_prev : ℕ → Memory → (pool prev : ℕ) → Option ℕ
find_prev zero m pool prev = none
find_prev (suc fuel) m pool prev =
    let rest = find_prev fuel m pool (pool_next m prev) in
    if prev == null then some null else if pool_next m prev == pool then some prev else rest

-- The rest of `mman_delmem`, once the search found `prev`.
unfoldable pub release : ℕ → ℕ → State → State
unfolding store
release pool prev s =
    let m = store s.memory (prev + 16) (pool_next s.memory pool) in
    let size = allocarea_size m (pool_ptr m pool) in
    record s {
      man = record (s.man) { size = sub_size s.man.size size };
      memory = m;
      released = delmem (pool_ptr m pool) size ∷ s.released;
    }

unfoldable pub called : Option Delmem → State → State
called none s = s
called (some d) s = record s { released = d ∷ s.released }

-- n = p->next, which faults for a null `p`.
abbrev pub read_next : {B : Type 0} → Memory → ℕ → (ℕ → Run State B) → Run State B
read_next m p next = if p == null then fault else next (pool_next m p)

-- The loop of `mman_deinit`.
unfoldable pub release_all : ℕ → (p n : ℕ) → State → Run State Bool
release_all zero p n s = out_of_fuel
release_all (suc fuel) p n s =
    let m = s.memory in
    let d = delmem (pool_ptr m p) (allocarea_size m (pool_ptr m p)) in
    let rest = read_next m n λ n'. release_all fuel n n' (called (some d) s) in
    if p == null then done true s else rest

-- *man = (struct mman){}
abbrev pub wiped : State → State
wiped s = record s {
  man = record {
    main = s.man.main;
    size = 0;
    alloced_size = 0;
    cb_reqmem = none;
    cb_delmem = false;
    large_blk = null;
    freed = λ id. null;
    large = λ id. null;
  };
  memory = set_pool s.man.main null 0 null s.memory;
}

unfoldable pub mman_deinit : ℕ → State → Run State Bool
mman_deinit fuel s =
    let m = s.memory in
    let first = pool_next m s.man.main in
    let area = pool_ptr m s.man.main in
    let rest : Bool → State → Run State Bool =
      λ r s'. done r (wiped (called (some (delmem area (allocarea_size m area))) s')) in
    let walked = read_next m first λ n. release_all fuel first n s in
    if s.man.cb_delmem then and_then walked rest else done true (wiped s)

module _ (fuel : ℕ) where
  unfoldable pub mman_delmem : ℕ → State → Run State Bool
  unfolding release
  mman_delmem pool s =
      let searched =
        bounded (find_prev fuel s.memory pool s.man.main)
          λ prev. if prev == null then done false s else done true (release pool prev s) in
      if s.man.cb_delmem then searched else done false s

  -- large_blk_free(man->large, ptr, man->cb_delmem), whose callback must not be null
  unfoldable pub free_large : ℕ → State → Run State Bool
  free_large ptr s =
      bounded (large_blk_free fuel s.man.large ptr s.memory) λ (freed, blks, m, call).
        let s' = record s { man = record (s.man) { large = blks }; memory = m } in
        if freed && not s.man.cb_delmem then fault else done freed (called call s')

  -- The end of `mman_free`, from `blk_trymerge` on.
  unfoldable pub give_back : (ptr pool : ℕ) → State → Run State Bool
  give_back ptr pool s =
      let (ptr', man, m) = blk_trymerge detach ptr s.man s.memory in
      let s' = record s { man = man; memory = m } in
      let kept = done true (do_free ptr' s') in
      let removed =
        and_then (mman_delmem pool s')
          λ deleted s''. if deleted then done true s'' else done true (do_free ptr' s'') in
      if not (pool == s.man.main) && pool_alloced m pool == 0 then removed else kept

  unfoldable pub mman_free : ℕ → State → Run State Bool
  mman_free ptr s =
      let small : State → Run State Bool = λ s'.
        let pool = blk_poolptr s'.memory ptr in
        give_back ptr pool (discharge pool (blk_size s'.memory ptr) s') in
      let large =
        and_then (free_large ptr s) λ freed s'. if freed then done true s' else small s' in
      let whole = if ptr % size_4k == 0 then large else small s in
      if ptr == null then done true s else whole
