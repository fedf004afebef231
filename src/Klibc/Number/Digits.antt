-- ===== src/Klibc/Number/Digits.antt =====
-- kernel/src/libs/klibc.cpp: the digits that `number` writes denote the number.
use ion_os.Base.{
  ℕ, zero, suc, ◌+◌, ◌-◌, ◌*◌, ◌/◌, ◌%◌, ◌^◌, ◌<◌, ◌≤◌, ◌≡◌, ◌⊎◌, inl, inr, refl, true, ◌&&◌, ◌==◌,
  ltb, if◌then◌else◌, some, List, [], ◌∷◌, arith, Bool-cases, holds_below, holds_below_lem,
}
use ion_os.Base.Lists.{length}
use native.Mathlib.Nat.{mod-add-div, div-lt_iff_lt-mul, mod-lt}
use ion_os.Klibc.Number.{digit, divide}

-- The value of a hexadecimal digit in either case.
abbrev pub digit_value : ℕ → ℕ
digit_value c = if ltb c 58 then c - 48 else if ltb c 97 then c - 55 else c - 87

-- The number that digits denote, the lowest first.
abbrev pub value : ℕ → List ℕ → ℕ
value base [] = 0
value base (c ∷ tmp) = digit_value c + base * value base tmp

digit_table :
    holds_below (λ d. (digit_value (digit d 0) == d) && (digit_value (digit d 32) == d)) 16 ≡ true
unfolding holds_below digit
digit_table = refl

digit_value-digit :
    (d locase : ℕ) → d < 16 → (locase ≡ 0) ⊎ (locase ≡ 32) → digit_value (digit d locase) ≡ d
digit_value-digit d locase lt either =
    let row = holds_below_lem _ 16 digit_table d lt in ground arith

twice : (p b num base : ℕ) → base ≡ b + 2 → num < p * 2 → num < p * base
twice p b num base sum lt = rw sum (grind arith)

-- With fuel for the bits of the number, the loop ends with digits that denote it.
pub divide-value :
    (fuel num base locase : ℕ)
    → 2 ≤ base
    → base ≤ 16
    → (locase ≡ 0) ⊎ (locase ≡ 32)
    → num < 2 ^ fuel
    → (tmp : List ℕ) × (divide fuel num base locase ≡ some tmp)
      × (value base tmp ≡ num)
      × (length tmp ≤ fuel)
unfolding divide
divide-value zero num base locase low high either lt =
    let none_left : num ≡ 0 = omega arith in rw none_left ([], refl, refl, omega arith)
divide-value (suc fuel) num base locase low high either lt = elim (Bool-cases (num == 0)) [
  | inl none_left ↦ let zero' : num ≡ 0 = ground arith in rw zero' ([], refl, refl, omega arith)
  | inr more ↦
      let positive : 0 < base = omega arith in
      let base_parts : base ≡ base - 2 + 2 = omega arith in
      let doubled : num < 2 ^ fuel * 2 = omega arith in
      let fewer : num / base < 2 ^ fuel =
        (div-lt_iff_lt-mul positive).1 (twice (2 ^ fuel) (base - 2) num base base_parts doubled) in
      let (tmp, result, denotes, short) =
        divide-value fuel (num / base) base locase low high either fewer in
      let in_table : num % base < 16 = omega (arith, mod-lt num positive) in
      let lowest : digit_value (digit (num % base) locase) ≡ num % base =
        digit_value-digit (num % base) locase in_table either in
      rw (more, result)
        (
          digit (num % base) locase ∷ tmp,
          refl,
          rw (lowest, denotes) (mod-add-div num base),
          omega (arith, short),
        )
]
