-- ===== src/Thread/Search.antt =====
-- kernel/src/thread/thread.cpp: the choice of `search`.
use ion_os.Base.{
  ℕ, zero, suc, ◌+◌, ◌-◌, ◌<◌, ◌≤◌, ◌≡◌, ◌≢◌, ◌⊎◌, inl, inr, refl, sym, ap, ◌∙◌, true, ◌==◌, ltb,
  if◌then◌else◌, arith, Bool-cases, Option-cases, Option, none, some, subst,
}
use mathlib.Core.Bool.{false≢true}
use mathlib.Core.Option.{some-injective, none-ne-some}
use ion_os.Thread.{
  Thread, Table, RunState, state_value, suits, better, scan, search, max_thread_count,
}

-- `r` is a suiting thread of the entries 1 to below `n` with the fewest jiffies, or there is none.
pub record Best (threads : ℕ → Option Thread) (state : RunState) (cpu n : ℕ) (r : Option Thread)
    : Type 0 where
  pub sound :
      (p : Thread)
      → r ≡ some p
      → (k : ℕ) × (1 ≤ k) × (k < n) × (threads k ≡ some p) × (suits state cpu p ≡ true)
  pub least :
      (k : ℕ) (p : Thread)
      → 1 ≤ k
      → k < n
      → threads k ≡ some p
      → suits state cpu p ≡ true
      → (q : Thread) × (r ≡ some q) × (q.jiffies ≤ p.jiffies)

module _ (threads : ℕ → Option Thread) (state : RunState) (cpu i : ℕ) (ptr : Thread) (low : 1 ≤ i)
    (here : threads i ≡ some ptr) where
  -- A thread of the entries up to `i` is the one at `i` or an earlier one.
  last_or_earlier : (k : ℕ) (p : Thread) → k < i + 1 → threads k ≡ some p → (ptr ≡ p) ⊎ (k < i)
  last_or_earlier k p lt e = elim (Bool-cases (k == i)) [
    | inl at_i ↦
        let same : k ≡ i = ground arith in
        inl (some-injective ptr p (sym here ∙ subst (λ j. threads j ≡ some p) same e))
    | inr before ↦ inr (ground arith)
  ]

  -- An earlier thread stays the best one if the thread at `i` does not suit or has no fewer jiffies.
  Best-keep :
      (r : Option Thread)
      → (suits state cpu ptr ≡ true → (q : Thread) × (r ≡ some q) × (q.jiffies ≤ ptr.jiffies))
      → Best threads state cpu i r
      → Best threads state cpu (i + 1) r
  Best-keep r beats b = record {
    sound = λ p e. let old = b.sound p e in (old.0, old.1, omega (arith, old.2), old.3, old.4);
    least = λ k p le lt e s. elim (last_or_earlier k p lt e) [
      | inl same ↦
          let won = beats (subst (λ q. suits state cpu q ≡ true) (sym same) s) in
          (won.0, won.1, subst (λ q. won.0.jiffies ≤ q.jiffies) same won.2)
      | inr before ↦ b.least k p le before e s
    ];
  }

  -- The thread at `i` becomes the best one if every earlier best one has more jiffies.
  Best-take :
      (r : Option Thread)
      → suits state cpu ptr ≡ true
      → ((q : Thread) → r ≡ some q → ptr.jiffies ≤ q.jiffies)
      → Best threads state cpu i r
      → Best threads state cpu (i + 1) (some ptr)
  Best-take r fit beats b = record {
    sound = λ p e.
        let same = some-injective ptr p e in
        (i, low, omega arith, here ∙ e, subst (λ q. suits state cpu q ≡ true) same fit);
    least = λ k p le lt e s. elim (last_or_earlier k p lt e) [
      | inl same ↦ (ptr, refl, subst (λ q. ptr.jiffies ≤ q.jiffies) same (omega arith))
      | inr before ↦
          let old = b.least k p le before e s in
          (ptr, refl, omega (arith, beats (old.0) (old.1), old.2))
    ];
  }

  Best-step :
      (r : Option Thread)
      → Best threads state cpu i r
      → Best threads state cpu (i + 1) (if suits state cpu ptr then better ptr r else r)
  Best-step none b = elim (Bool-cases (suits state cpu ptr)) [
    | inl fit ↦ rw fit (Best-take none fit (λ q e. absurd (none-ne-some q e)) b)
    | inr unfit ↦ rw unfit (Best-keep none (λ fit. absurd (false≢true (sym unfit ∙ fit))) b)
  ]
  Best-step (some t) b = elim (Bool-cases (suits state cpu ptr)) [
    | inr unfit ↦ rw unfit (Best-keep (some t) (λ fit. absurd (false≢true (sym unfit ∙ fit))) b)
    | inl fit ↦ elim (Bool-cases (ltb ptr.jiffies t.jiffies)) [
      | inl fewer ↦
          rw (fit, fewer)
            (Best-take (some t) fit
              (λ q e. subst (λ u. ptr.jiffies ≤ u.jiffies) (some-injective t q e) (ground arith)) b)
      | inr more ↦ rw (fit, more) (Best-keep (some t) (λ again. (t, refl, ground arith)) b)
    ]
  ]

-- No entry from `i` to below `n` is null.
abbrev pub AllFull : (threads : ℕ → Option Thread) (i n : ℕ) → Type 0
AllFull threads i n = (k : ℕ) → i ≤ k → k < n → threads k ≢ none

AllFull-here :
    (threads : ℕ → Option Thread) (i n : ℕ) (ptr : Thread)
    → threads i ≡ some ptr
    → AllFull threads (i + 1) n
    → AllFull threads i n
AllFull-here threads i n ptr here rest k low high e = elim (Bool-cases (k == i)) [
  | inl first ↦ let same : k ≡ i = ground arith in none-ne-some ptr (sym e ∙ ap threads same ∙ here)
  | inr later ↦ rest k (ground arith) high e
]

-- The loop answers for the entries in front of the first null one.
scan-Best :
    (left i : ℕ) (threads : ℕ → Option Thread) (state : RunState) (cpu : ℕ) (r : Option Thread)
    → 1 ≤ i
    → Best threads state cpu i r
    → (n : ℕ) × ((i ≤ n) × (n ≤ i + left))
      × AllFull threads i n
      × ((n ≡ i + left) ⊎ (threads n ≡ none))
      × Best threads state cpu n (scan left i threads state cpu r)
unfolding scan
scan-Best zero i threads state cpu r low b =
    (i, (omega arith, omega arith), (λ k lo hi e. absurd (omega arith)), inl (omega arith), b)
scan-Best (suc left) i threads state cpu r low b = elim (Option-cases (threads i)) [
  | inl null_entry ↦
      rw (null_entry, scan)
        (i, (omega arith, omega arith), (λ k lo hi e. absurd (omega arith)), inr null_entry, b)
  | inr (ptr, here) ↦
      let next = if suits state cpu ptr then better ptr r else r in
      let rest =
        scan-Best left (i + 1) threads state cpu next (omega arith)
          (Best-step threads state cpu i ptr low here r b) in
      let end : (rest.0 ≡ i + suc left) ⊎ (threads rest.0 ≡ none) = elim rest.3 [
        | inl full ↦ inl (omega (arith, full))
        | inr stop ↦ inr stop
      ] in
      let full = AllFull-here threads i rest.0 ptr here rest.2 in
      rw (here, scan) (rest.0, (omega (arith, rest.1), omega (arith, rest.1)), full, end, rest.4)
]

Best-empty :
    (threads : ℕ → Option Thread) (state : RunState) (cpu : ℕ) → Best threads state cpu 1 none
Best-empty threads state cpu = record {
  sound = λ p e. absurd (none-ne-some p e);
  least = λ k p le lt e s. absurd (omega arith);
}

-- `n` is the first null entry of the table, or its end. Among the threads in front of it, `search` returns one in the
-- state and on the processor asked for that has the fewest jiffies. If there is none it returns the
-- processor's idle thread when it was asked for the state kRunNone, and else null.
pub search-Best :
    (state : RunState) (cpu : ℕ) (t : Table)
    → (n : ℕ) × ((1 ≤ n) × (n ≤ max_thread_count))
      × AllFull (t.threads) 1 n
      × ((n ≡ max_thread_count) ⊎ (t.threads n ≡ none))
      × (((task : Thread) × (search state cpu t ≡ some task)
            × Best (t.threads) state cpu n (some task))
          ⊎ (Best (t.threads) state cpu n none
              × (search state cpu t
                  ≡ (if state_value state == 0 then t.idle_threads cpu else none))))
unfolding search
search-Best state cpu t =
    let run =
      scan-Best (max_thread_count - 1) 1 (t.threads) state cpu none (omega arith)
        (Best-empty (t.threads) state cpu) in
    let r = scan (max_thread_count - 1) 1 t.threads state cpu none in
    elim (Option-cases r) [
      | inl nothing ↦
          let b : Best (t.threads) state cpu (run.0) none = (rw nothing at run.4) in
          rw (nothing, search) (run.0, run.1, run.2, run.3, inr (b, refl))
      | inr (task, e) ↦
          let b : Best (t.threads) state cpu (run.0) (some task) = (rw e at run.4) in
          rw (e, search) (run.0, run.1, run.2, run.3, inl (task, refl, b))
    ]
