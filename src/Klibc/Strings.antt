-- ===== src/Klibc/Strings.antt =====
-- kernel/src/libs/klibc.cpp: `memcmp` and `strnlen`.
use ion_os.Base.{
  ℕ, zero, suc, ◌+◌, ◌-◌, ◌<◌, ◌≤◌, ◌≡◌, ◌≢◌, ◌↔◌, inl, inr, refl, Bool, true, false, ◌==◌, ltb,
  if◌then◌else◌, arith, Bool-cases, ap,
}
use mathlib.Core.Bool.{false≢true}
use ion_os.Klibc.{Bytes, Order, less, same, greater, compare_from, memcmp, strnlen}

-- The first byte of a string of `n` bytes that is zero; all bytes in front of it are not.
pub strnlen_lem :
    (s maxlen : ℕ) (m : Bytes)
    → let n = strnlen s maxlen m in
      (n ≤ maxlen) × ((i : ℕ) → i < n → m (s + i) ≢ 0) × (n < maxlen → m (s + n) ≡ 0)
unfolding strnlen
strnlen_lem s zero m = (omega arith, λ i lt. absurd (omega arith), λ lt. absurd (omega arith))
strnlen_lem s (suc left) m =
    let rest = strnlen_lem (s + 1) left m in
    elim (Bool-cases (m s == 0)) [
      | inl stop ↦
          rw (stop, strnlen) (omega arith, λ i lt. absurd (omega arith), λ lt. ground arith)
      | inr on ↦
          rw (on, strnlen)
            (omega (arith, rest.0), λ i lt. ground (arith, rest.1 (i - 1)), λ lt. ground arith)
    ]

abbrev is_same : Order → Bool
is_same same = true
is_same _ = false

differ-same : (b : Bool) → (if b then less else greater) ≢ same
differ-same true e = false≢true (ap (λ o. is_same o) e)
differ-same false e = false≢true (ap (λ o. is_same o) e)

compare_from-same :
    (left i s1 s2 : ℕ) (m : Bytes)
    → compare_from left i s1 s2 m ≡ same
    → (j : ℕ) → i ≤ j
    → j < i + left
    → m (s1 + j) ≡ m (s2 + j)
unfolding compare_from
compare_from-same zero i s1 s2 m e j le lt = absurd (omega arith)
compare_from-same (suc left) i s1 s2 m e j le lt =
    let rest = compare_from-same left (i + 1) s1 s2 m in
    elim (Bool-cases (m (s1 + i) == m (s2 + i))) [
      | inl equal ↦
          let e' : compare_from left (i + 1) s1 s2 m ≡ same = (rw (equal, compare_from) at e) in
          elim (Bool-cases (j == i)) [
            | inl here ↦ ground arith
            | inr later ↦ rest e' j (ground arith) (ground arith)
          ]
      | inr unequal ↦ absurd (differ-same (ltb (m (s1 + i)) (m (s2 + i))) (rw unequal at e))
    ]

same-compare_from :
    (left i s1 s2 : ℕ) (m : Bytes)
    → ((j : ℕ) → i ≤ j → j < i + left → m (s1 + j) ≡ m (s2 + j))
    → compare_from left i s1 s2 m ≡ same
unfolding compare_from
same-compare_from zero i s1 s2 m equal = refl
same-compare_from (suc left) i s1 s2 m equal =
    let here : (m (s1 + i) == m (s2 + i)) ≡ true = ground (arith, equal i) in
    rw (here, compare_from)
      (same-compare_from left (i + 1) s1 s2 m λ j le lt. equal j (omega arith) (omega arith))

-- `memcmp` returns 0 exactly when the two ranges hold the same bytes.
pub memcmp_iff :
    (s1 s2 n : ℕ) (m : Bytes)
    → (memcmp s1 s2 n m ≡ same) ↔ ((j : ℕ) → j < n → m (s1 + j) ≡ m (s2 + j))
unfolding memcmp
memcmp_iff s1 s2 n m = (
  λ e j lt. compare_from-same n 0 s1 s2 m e j (omega arith) (omega arith),
  λ equal. same-compare_from n 0 s1 s2 m λ j le lt. equal j (omega arith),
)
