-- ===== src/Klibc/Number/Text.antt =====
-- kernel/src/libs/klibc.cpp: `number` returns for every number, and fills its field.
use ion_os.Base.{
  ℕ, zero, suc, ◌+◌, ◌-◌, ◌^◌, ◌<◌, ◌≤◌, ◌≡◌, ◌⊎◌, inl, inr, refl, Bool, false, not, ◌&&◌, ◌||◌,
  ◌==◌, ltb, if◌then◌else◌, some, List, [], ◌∷◌, ◌++◌, arith, Bool-cases, bit_and, max,
}
use ion_os.Base.Lists.{length, length-append}
use mathlib.Core.List.{reverse, reverse-cons}
use ion_os.Klibc.Number.{
  small, left, zeropad, tmp_digits, repeat, sign_of, sign_text, prefix, layout, magnitude, number,
  has,
}
use ion_os.Klibc.Number.Digits.{value, divide-value}

length-repeat : (n c : ℕ) → length (repeat n c) ≡ n
unfolding repeat
length-repeat zero c = refl
length-repeat (suc n) c = omega (arith, length-repeat n c)

tmp_digits-value :
    (num base locase : ℕ)
    → 2 ≤ base
    → base ≤ 16
    → (locase ≡ 0) ⊎ (locase ≡ 32)
    → num < 2 ^ 64
    → (tmp : List ℕ) × (tmp_digits num base locase ≡ some tmp)
      × (value base tmp ≡ num)
      × (length tmp ≤ 64)
tmp_digits-value num base locase low high either lt = elim (Bool-cases (num == 0)) [
  | inl none_left ↦
      let blank : num ≡ 0 = ground arith in rw blank (48 ∷ [], refl, grind arith, omega arith)
  | inr more ↦ rw more (divide-value 64 num base locase low high either lt)
]

length-reverse : (xs : List ℕ) → length (reverse xs) ≡ length xs
length-reverse [] = refl
length-reverse (x ∷ xs) =
    rw (reverse-cons x xs) (omega (arith, length-append (reverse xs) (x ∷ []), length-reverse xs))

paddings :
    (room : ℕ) (p q : Bool)
    → let first = if p then 0 else room in
      let second = if q then 0 else room - first in first + second + (room - first - second) ≡ room
paddings room p q = ground arith

-- The parts of the field add up to its size, or to what the number needs.
length-layout :
    (tmp : List ℕ) (num base size precision type : ℕ)
    → length (layout tmp num base size precision type)
      ≡ max size (
          length (sign_text (sign_of num type))
          + length (prefix base type)
          + max (length tmp) precision)
unfolding layout
length-layout tmp num base size precision type =
    let text = sign_text (sign_of num type) in
    let before = size - length text - length (prefix base type) in
    let digits = max (length tmp) precision in
    let room = before - digits in
    let zeros = has type zeropad && not (has type left) in
    let first = if zeros || has type left then 0 else room in
    let second = if has type left then 0 else room - first in
    let last = room - first - second in
    let a = repeat first 32 ++ text in
    let b = a ++ prefix base type in
    let c = b ++ repeat second (if zeros then 48 else 32) in
    let d = c ++ repeat (digits - length tmp) 48 in
    let e = d ++ reverse tmp in
    let needed = length text + length (prefix base type) + digits in
    let whole : length (e ++ repeat last 32) ≡ max size needed = omega (
      arith,
      paddings room (zeros || has type left) (has type left),
      length-append (repeat first 32) text,
      length-append a (prefix base type),
      length-append b (repeat second (if zeros then 48 else 32)),
      length-append c (repeat (digits - length tmp) 48),
      length-append d (reverse tmp),
      length-append e (repeat last 32),
      length-repeat last 32,
      length-repeat first 32,
      length-repeat second (if zeros then 48 else 32),
      length-repeat (digits - length tmp) 48,
      length-reverse tmp,
    ) in
    whole

-- For a base from 2 to 16 `number` returns for every 64-bit number: the digits in `tmp` denote the
-- number's magnitude, they fit in its 66 bytes, and what is written is as long as the field, or as
-- the sign, the prefix and the digits (with zeros up to the precision) need.
pub number-value :
    (num base size precision type : ℕ)
    → 2 ≤ base
    → base ≤ 16
    → num < 2 ^ 64
    → (bit_and type small ≡ 0) ⊎ (bit_and type small ≡ 32)
    → (tmp : List ℕ) × (out : List ℕ) × (number num base size precision type ≡ some out)
      × (out ≡ layout tmp num base size precision type)
      × ((value base tmp ≡ magnitude num type) × (length tmp ≤ 64))
      × (length out
          ≡ max size (
              length (sign_text (sign_of num type))
              + length (prefix base type)
              + max (length tmp) precision))
unfolding number
number-value num base size precision type low high lt either =
    let fits : magnitude num type < 2 ^ 64 = ground arith in
    let in_range : (ltb base 2 || ltb 16 base) ≡ false = ground arith in
    let (tmp, digits, denotes, short) =
      tmp_digits-value (magnitude num type) base (bit_and type small) low high either fits in
    (
      tmp,
      layout tmp num base size precision type,
      rw (in_range, digits) refl,
      refl,
      (denotes, short),
      length-layout tmp num base size precision type,
    )
