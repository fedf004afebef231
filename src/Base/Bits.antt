-- ===== src/Base/Bits.antt =====
-- One bit of a byte: the laws of `byte | 1 << k` and `byte & ~(1 << k)`, by a table.
use Prim.Native.Nat.{ℕ, ◌-◌, ◌/◌, ◌%◌, ◌^◌, ◌<◌, bit_and, bit_or}
use mathlib.Core.Path.{◌≡◌, refl, sym}
use mathlib.Core.Bool.{Bool, true, false, not}
use native.Mathlib.Omega.{arith}
use ion_os.Base.Tests.{◌==◌, if◌then◌else◌, beq, beq→eq, holds_below, holds_below_lem}

-- (byte & (1 << k)) != 0
unfoldable pub test_bit : ℕ → ℕ → Bool
test_bit byte k = not (bit_and byte (2 ^ k) == 0)

-- byte |= (1 << k), stored in a uint8_t
unfoldable pub raise_bit : ℕ → ℕ → ℕ
raise_bit byte k = bit_or byte (2 ^ k) % 256

-- byte &= ~(1 << k), stored in a uint8_t
unfoldable pub clear_bit : ℕ → ℕ → ℕ
clear_bit byte k = bit_and byte (255 - 2 ^ k) % 256

-- (byte >> k) & 1
unfoldable pub shifted_bit : ℕ → ℕ → Bool
shifted_bit byte k = byte / 2 ^ k % 2 == 1

-- A statement about a byte and two bit numbers, by evaluation at all of them.
abbrev every_bit : (ℕ → ℕ → ℕ → Bool) → Bool
every_bit p = holds_below (λ b. holds_below (λ k. holds_below (λ j. p b k j) 8) 8) 256

every_bit_lem :
    (p : ℕ → ℕ → ℕ → Bool)
    → every_bit p ≡ true
    → (b k j : ℕ) → b < 256
    → k < 8
    → j < 8
    → p b k j ≡ true
every_bit_lem p h b k j hb hk hj =
    let row = holds_below_lem (λ b. holds_below (λ k. holds_below (p b k) 8) 8) 256 h b hb in
    let cell = holds_below_lem (λ k. holds_below (p b k) 8) 8 row k hk in
    holds_below_lem (p b k) 8 cell j hj

abbrev raise_ok : ℕ → ℕ → ℕ → Bool
raise_ok b k j = beq (test_bit (raise_bit b k) j) (if j == k then true else test_bit b j)

abbrev clear_ok : ℕ → ℕ → ℕ → Bool
clear_ok b k j = beq (test_bit (clear_bit b k) j) (if j == k then false else test_bit b j)

abbrev shifted_ok : ℕ → ℕ → ℕ → Bool
shifted_ok b k j = beq (shifted_bit b k) (test_bit b k)

raise_table : every_bit raise_ok ≡ true
unfolding holds_below test_bit raise_bit
raise_table = refl

clear_table : every_bit clear_ok ≡ true
unfolding holds_below test_bit clear_bit
clear_table = refl

shifted_table : every_bit shifted_ok ≡ true
unfolding holds_below test_bit shifted_bit
shifted_table = refl

module _ (b k : ℕ) (hb : b < 256) (hk : k < 8) where
  pub test_bit-raise_bit :
      (j : ℕ) → j < 8 → test_bit (raise_bit b k) j ≡ (if j == k then true else test_bit b j)
  test_bit-raise_bit j hj = beq→eq _ _ (every_bit_lem raise_ok raise_table b k j hb hk hj)

  pub test_bit-clear_bit :
      (j : ℕ) → j < 8 → test_bit (clear_bit b k) j ≡ (if j == k then false else test_bit b j)
  test_bit-clear_bit j hj = beq→eq _ _ (every_bit_lem clear_ok clear_table b k j hb hk hj)

  pub shifted_bit-test_bit : shifted_bit b k ≡ test_bit b k
  shifted_bit-test_bit =
      beq→eq _ _ (every_bit_lem shifted_ok shifted_table b k 0 hb hk (omega arith))

pub raise_bit-lt : (b k : ℕ) → raise_bit b k < 256
unfolding raise_bit
raise_bit-lt b k = omega arith

pub clear_bit-lt : (b k : ℕ) → clear_bit b k < 256
unfolding clear_bit
clear_bit-lt b k = omega arith

full_table : holds_below (λ j. test_bit 255 j) 8 ≡ true
unfolding holds_below test_bit
full_table = refl

empty_table : holds_below (λ j. not (test_bit 0 j)) 8 ≡ true
unfolding holds_below test_bit
empty_table = refl

not-true : (b : Bool) → not b ≡ true → b ≡ false
not-true true h = sym h
not-true false h = refl

pub test_bit-full : (j : ℕ) → j < 8 → test_bit 255 j ≡ true
test_bit-full j h = holds_below_lem (λ j. test_bit 255 j) 8 full_table j h

pub test_bit-empty : (j : ℕ) → j < 8 → test_bit 0 j ≡ false
test_bit-empty j h = not-true _ (holds_below_lem (λ j. not (test_bit 0 j)) 8 empty_table j h)
