-- ===== src/Base/Masks.antt =====
-- `x & (2^k - 1)` as a remainder. `bit_and` is a recursion on binary digits with fuel, and one
-- step of it is a digit of the result.
use Prim.Native.Nat.{ℕ, zero, suc, ◌+◌, ◌*◌, ◌/◌, ◌%◌, ◌≤◌, min, bit_and, digits, bit_and-bitwise}
use mathlib.Core.Path.{◌≡◌, refl}
use native.Mathlib.Omega.{arith}

-- The fuel may be any number that is not below the first operand.
fuel_lem :
    (k l x y : ℕ) → x ≤ k → x ≤ l → digits (λ d. zero) min k x y ≡ digits (λ d. zero) min l x y
fuel_lem zero zero zero y le le' = refl
fuel_lem (suc k) zero zero y le le' = refl
fuel_lem zero (suc l) zero y le le' = refl
fuel_lem (suc k) (suc l) zero y le le' = refl
fuel_lem zero l (suc x) y le le' = absurd (omega arith)
fuel_lem (suc k) zero (suc x) y le le' = absurd (omega arith)
fuel_lem (suc k) (suc l) (suc x) y le le' =
    let shorter = fuel_lem k l (suc x / 2) (y / 2) in
    omega (arith, shorter (omega arith) (omega arith))

-- The lowest digit of a conjunction, and the digits above it.
pub bit_and-digit : (x y : ℕ) → bit_and x y ≡ bit_and (x / 2) (y / 2) * 2 + min (x % 2) (y % 2)
bit_and-digit zero y = omega (arith, bit_and-bitwise zero y, bit_and-bitwise zero (y / 2))
bit_and-digit (suc x) y =
    let half = suc x / 2 in
    let enough = fuel_lem x half half (y / 2) (omega arith) (omega arith) in
    omega (arith, enough, bit_and-bitwise half (y / 2), bit_and-bitwise (suc x) y)

bit_and_nothing : (n z : ℕ) → z ≤ n → bit_and z 0 ≡ 0
bit_and_nothing n zero le = refl
bit_and_nothing zero (suc z) le = absurd (omega arith)
bit_and_nothing (suc n) (suc z) le =
    let above = bit_and_nothing n (suc z / 2) (omega arith) in
    omega (arith, above, bit_and-digit (suc z) 0)

-- Four digits of a mask of ones; nothing is left of the mask behind them.
pub bit_and_fifteen : (x : ℕ) → bit_and x 15 ≡ x % 16
bit_and_fifteen x =
    let fourth = x / 2 / 2 / 2 in
    let above = bit_and_nothing (fourth / 2) (fourth / 2) (omega arith) in
    let low = bit_and-digit x 15 in
    let second = bit_and-digit (x / 2) 7 in
    omega (arith, above, low, second, bit_and-digit (x / 2 / 2) 3, bit_and-digit fourth 1)
