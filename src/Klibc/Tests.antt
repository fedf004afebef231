-- ===== src/Klibc/Tests.antt =====
-- Overlapping moves in a memory whose byte at `a` is `a` up to 200, and a number as text.
use ion_os.Base.{
  ℕ, ◌+◌, ◌-◌, ◌≡◌, ◌≤◌, inr, refl, arith, ltb, if◌then◌else◌, some, List, [], ◌∷◌, max,
}
use ion_os.Base.Lists.{length}
use ion_os.Klibc.{Bytes, memmove}
use ion_os.Klibc.Number.{number, divide, layout, digit, repeat, sign_of, sign_text, prefix}
use ion_os.Klibc.Number.Digits.{value}
use ion_os.Klibc.Number.Text.{number-value}
use ion_os.Klibc.Move.{in_bytes, memmove_lem}

abbrev counted : Bytes
counted a = if ltb a 200 then a else 0

memmove_lem_example :
    memmove 102 100 8 counted 105
    ≡ (if in_bytes 102 8 105 then counted (100 + (105 - 102)) else counted 105)
memmove_lem_example = memmove_lem 102 100 8 105 counted

-- 255 as "0x0000ff": in base 16, with small letters, padded with zeros to 8 characters.
number-value_example :
    (tmp : List ℕ) × (out : List ℕ) × (number 255 16 8 0 97 ≡ some out)
    × (out ≡ layout tmp 255 16 8 0 97)
    × ((value 16 tmp ≡ 255) × (length tmp ≤ 64))
    × (length out
        ≡ max 8 (length (sign_text (sign_of 255 97)) + length (prefix 16 97) + max (length tmp) 0))
number-value_example =
    number-value 255 16 8 0 97 (omega arith) (omega arith) (omega arith) (inr refl)

ff : number 255 16 8 0 97 ≡ some (48 ∷ 120 ∷ 48 ∷ 48 ∷ 48 ∷ 48 ∷ 102 ∷ 102 ∷ [])
unfolding number divide layout digit repeat sign_of prefix
ff = refl
