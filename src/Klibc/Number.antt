-- ===== src/Klibc/Number.antt =====
-- kernel/src/libs/klibc.cpp: `number`, which writes a number for `vsprintf`. The result is what
-- is written from `str` on. A long is its 64 bits; a field size or a precision that is negative
-- acts as 0.
pub mod Digits
pub mod Text
use ion_os.Base.{
  ℕ, zero, suc, ◌+◌, ◌-◌, ◌*◌, ◌/◌, ◌%◌, ◌^◌, Bool, true, false, not, ◌&&◌, ◌||◌, ◌==◌, ltb, leb,
  if◌then◌else◌, Option, none, some, List, [], ◌∷◌, ◌++◌, map, bit_and, bit_or, max, sub_size,
}
use ion_os.Base.Lists.{length}
use mathlib.Core.List.{reverse}

-- The flags of `type`.
abbrev pub zeropad : ℕ
zeropad = 1

abbrev pub sign : ℕ
sign = 2

abbrev pub plus : ℕ
plus = 4

abbrev pub space : ℕ
space = 8

abbrev pub left : ℕ
left = 16

abbrev pub small : ℕ
small = 32

abbrev pub special : ℕ
special = 64

abbrev pub has : ℕ → ℕ → Bool
has type flag = not (bit_and type flag == 0)

-- digits[d] | locase
unfoldable pub digit : (d locase : ℕ) → ℕ
digit d locase = bit_or (if ltb d 10 then 48 + d else 55 + d) locase

-- while (num != 0) tmp[i++] = (digits[__do_div(num, base)] | locase)
unfoldable pub divide : (fuel num base locase : ℕ) → Option (List ℕ)
divide zero num base locase = if num == 0 then some [] else none
divide (suc fuel) num base locase =
    let rest = divide fuel (num / base) base locase in
    if num == 0
    then some []
    else elim rest [ none ↦ none | some tmp ↦ some (digit (num % base) locase ∷ tmp) ]

-- The digits in `tmp`, the lowest first; 64 rounds are enough for 64 bits.
abbrev pub tmp_digits : (num base locase : ℕ) → Option (List ℕ)
tmp_digits num base locase = if num == 0 then some (48 ∷ []) else divide 64 num base locase

-- while (n-- > 0) *str++ = c
unfoldable pub repeat : ℕ → ℕ → List ℕ
repeat zero c = []
repeat (suc n) c = c ∷ repeat n c

-- The sign that is written, `none` for no sign.
unfoldable pub sign_of : (num type : ℕ) → Option ℕ
sign_of num type =
    if has type sign
    then (if leb (2 ^ 63) num
        then some 45
        else if has type plus
        then some 43
        else if has type space
        then some 32
        else none)
    else none

abbrev pub sign_text : Option ℕ → List ℕ
sign_text none = []
sign_text (some c) = c ∷ []

-- The prefix of SPECIAL.
unfoldable pub prefix : (base type : ℕ) → List ℕ
prefix base type =
    if has type special
    then (if base == 8
        then 48 ∷ []
        else if base == 16
        then 48 ∷ bit_or 88 (bit_and type small) ∷ []
        else [])
    else []

-- What is written once the digits are known.
unfoldable pub layout : (tmp : List ℕ) → (num base size precision type : ℕ) → List ℕ
unfolding repeat sign_of prefix
layout tmp num base size precision type =
    let text = sign_text (sign_of num type) in
    let before = size - length text - length (prefix base type) in
    let digits = max (length tmp) precision in
    let room = before - digits in
    let zeros = has type zeropad && not (has type left) in
    let first = if zeros || has type left then 0 else room in
    let second = if has type left then 0 else room - first in
    let last = room - first - second in
    repeat first 32
    ++ text
    ++ prefix base type
    ++ repeat second (if zeros then 48 else 32)
    ++ repeat (digits - length tmp) 48
    ++ reverse tmp
    ++ repeat last 32

-- The magnitude that is written: -num for a negative number with SIGN.
abbrev pub magnitude : (num type : ℕ) → ℕ
magnitude num type = if has type sign && leb (2 ^ 63) num then sub_size 0 num else num

-- `none` for a null pointer.
unfoldable pub number : (num base size precision type : ℕ) → Option (List ℕ)
unfolding divide layout
number num base size precision type =
    if ltb base 2 || ltb 16 base
    then none
    else elim (tmp_digits (magnitude num type) base (bit_and type small)) [
      | none ↦ none
      | some tmp ↦ some (layout tmp num base size precision type)
    ]
