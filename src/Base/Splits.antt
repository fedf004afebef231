-- ===== src/Base/Splits.antt =====
-- Conjunction and disjunction of words that are cut at bit `k`: the parts combine each on its own.
use Prim.Native.Nat.{
  ℕ, zero, suc, ◌+◌, ◌-◌, ◌*◌, ◌/◌, ◌%◌, ◌^◌, ◌≤◌, ◌<◌, max, bit_and, bit_or, digits,
  bit_or-bitwise,
}
use mathlib.Core.Path.{◌≡◌, refl}
use native.Mathlib.Omega.{arith}
use ion_os.Base.Masks.{bit_and-digit}

fuel_lem : (k l x y : ℕ) → x ≤ k → x ≤ l → digits (λ d. d) max k x y ≡ digits (λ d. d) max l x y
fuel_lem zero zero zero y le le' = refl
fuel_lem (suc k) zero zero y le le' = refl
fuel_lem zero (suc l) zero y le le' = refl
fuel_lem (suc k) (suc l) zero y le le' = refl
fuel_lem zero l (suc x) y le le' = absurd (omega arith)
fuel_lem (suc k) zero (suc x) y le le' = absurd (omega arith)
fuel_lem (suc k) (suc l) (suc x) y le le' =
    let shorter = fuel_lem k l (suc x / 2) (y / 2) in
    omega (arith, shorter (omega arith) (omega arith))

bit_or-digit : (x y : ℕ) → bit_or x y ≡ bit_or (x / 2) (y / 2) * 2 + max (x % 2) (y % 2)
bit_or-digit zero y = omega (arith, bit_or-bitwise zero y, bit_or-bitwise zero (y / 2))
bit_or-digit (suc x) y =
    let half = suc x / 2 in
    let enough = fuel_lem x half half (y / 2) (omega arith) (omega arith) in
    omega (arith, enough, bit_or-bitwise half (y / 2), bit_or-bitwise (suc x) y)

doubled : (k q : ℕ) → q * 2 ^ suc k ≡ 2 * (q * 2 ^ k)
doubled k q = grind arith

-- A word over `k` low bits, one bit longer.
longer : (k q a : ℕ) → (q * 2 ^ suc k + a) / 2 ≡ q * 2 ^ k + a / 2
longer k q a = omega (arith, doubled k q)

longer_odd : (k q a : ℕ) → (q * 2 ^ suc k + a) % 2 ≡ a % 2
longer_odd k q a = omega (arith, doubled k q)

pub bit_and-split :
    (k q a s c : ℕ)
    → a < 2 ^ k
    → c < 2 ^ k
    → bit_and (q * 2 ^ k + a) (s * 2 ^ k + c) ≡ bit_and q s * 2 ^ k + bit_and a c
bit_and-split zero q a s c la lc =
    let none : a ≡ 0 = omega arith in
    let none' : c ≡ 0 = omega arith in rw (none, none', bit_and-digit 0 0) (grind arith)
bit_and-split (suc k) q a s c la lc =
    let part = bit_and-split k q (a / 2) s (c / 2) (omega arith) (omega arith) in
    let whole = bit_and-digit (q * 2 ^ suc k + a) (s * 2 ^ suc k + c) in
    let low = bit_and-digit a c in
    let whole' =
      (rw (longer k q a, longer k s c, longer_odd k q a, longer_odd k s c, part) at whole) in
    omega (arith, whole', low, doubled k (bit_and q s))

pub bit_or-split :
    (k q a s c : ℕ)
    → a < 2 ^ k
    → c < 2 ^ k
    → bit_or (q * 2 ^ k + a) (s * 2 ^ k + c) ≡ bit_or q s * 2 ^ k + bit_or a c
bit_or-split zero q a s c la lc =
    let none : a ≡ 0 = omega arith in
    let none' : c ≡ 0 = omega arith in rw (none, none', bit_or-digit 0 0) (grind arith)
bit_or-split (suc k) q a s c la lc =
    let part = bit_or-split k q (a / 2) s (c / 2) (omega arith) (omega arith) in
    let whole = bit_or-digit (q * 2 ^ suc k + a) (s * 2 ^ suc k + c) in
    let low = bit_or-digit a c in
    let whole' =
      (rw (longer k q a, longer k s c, longer_odd k q a, longer_odd k s c, part) at whole) in
    omega (arith, whole', low, doubled k (bit_or q s))

bit_and_nothing : (n z : ℕ) → z ≤ n → bit_and z 0 ≡ 0
bit_and_nothing n zero le = refl
bit_and_nothing zero (suc z) le = absurd (omega arith)
bit_and_nothing (suc n) (suc z) le =
    let above = bit_and_nothing n (suc z / 2) (omega arith) in
    omega (arith, above, bit_and-digit (suc z) 0)

bit_or_nothing : (n z : ℕ) → z ≤ n → bit_or z 0 ≡ z
bit_or_nothing n zero le = refl
bit_or_nothing zero (suc z) le = absurd (omega arith)
bit_or_nothing (suc n) (suc z) le =
    let above = bit_or_nothing n (suc z / 2) (omega arith) in
    omega (arith, above, bit_or-digit (suc z) 0)

pub bit_and-0 : (z : ℕ) → bit_and z 0 ≡ 0
bit_and-0 z = bit_and_nothing z z (omega arith)

pub bit_or-0 : (z : ℕ) → bit_or z 0 ≡ z
bit_or-0 z = bit_or_nothing z z (omega arith)

-- A mask of ones keeps every bit below it.
bit_and-ones : (k a : ℕ) → a < 2 ^ k → bit_and a (2 ^ k - 1) ≡ a
bit_and-ones zero a la = let none : a ≡ 0 = omega arith in rw none refl
bit_and-ones (suc k) a la =
    let half : (2 ^ suc k - 1) / 2 ≡ 2 ^ k - 1 = omega arith in
    let digit = bit_and-digit a (2 ^ suc k - 1) in
    omega (arith, (rw (half, bit_and-ones k (a / 2) (omega arith)) at digit))

-- The same for words `x` and `y` whose parts are known.
module _ (k q a s c x y : ℕ) (xs : x ≡ q * 2 ^ k + a) (ys : y ≡ s * 2 ^ k + c) where
  pub bit_and-parts : a < 2 ^ k → c < 2 ^ k → bit_and x y ≡ bit_and q s * 2 ^ k + bit_and a c
  bit_and-parts la lc = rw (xs, ys) (bit_and-split k q a s c la lc)

  pub bit_or-parts : a < 2 ^ k → c < 2 ^ k → bit_or x y ≡ bit_or q s * 2 ^ k + bit_or a c
  bit_or-parts la lc = rw (xs, ys) (bit_or-split k q a s c la lc)

-- x & (2^k - 1)
bit_and-low : (k q a x y : ℕ) → x ≡ q * 2 ^ k + a → y ≡ 2 ^ k - 1 → a < 2 ^ k → bit_and x y ≡ a
bit_and-low k q a x y xs ys la =
    let none : 0 * 2 ^ k ≡ 0 = grind arith in
    let parts = bit_and-parts k q a 0 (2 ^ k - 1) x y xs (omega (arith, none)) la (omega arith) in
    let high : bit_and q 0 * 2 ^ k ≡ 0 = rw (bit_and-0 q) none in
    omega (arith, parts, high, bit_and-ones k a la)

-- x & 0x1FF
pub bit_and_511 : (x : ℕ) → bit_and x 0x1FF ≡ x % 512
bit_and_511 x = bit_and-low 9 (x / 512) (x % 512) x 0x1FF (omega arith) refl (omega arith)

pub bit_and_1 : (x : ℕ) → bit_and x 1 ≡ x % 2
bit_and_1 x = bit_and-low 1 (x / 2) (x % 2) x 1 (omega arith) refl (omega arith)

-- The single bits of a flag.
pub bit_and_2 : (x : ℕ) → bit_and x 2 ≡ x / 2 % 2 * 2
bit_and_2 x = omega (
  arith,
  bit_and-parts 1 (x / 2) (x % 2) 1 0 x 2 (omega arith) refl (omega arith) (omega arith),
  bit_and_1 (x / 2),
  bit_and-0 (x % 2),
)

pub bit_and_4 : (x : ℕ) → bit_and x 4 ≡ x / 4 % 2 * 4
bit_and_4 x = omega (
  arith,
  bit_and-parts 2 (x / 4) (x % 4) 1 0 x 4 (omega arith) refl (omega arith) (omega arith),
  bit_and_1 (x / 4),
  bit_and-0 (x % 4),
)

pub bit_and_8 : (x : ℕ) → bit_and x 8 ≡ x / 8 % 2 * 8
bit_and_8 x = omega (
  arith,
  bit_and-parts 3 (x / 8) (x % 8) 1 0 x 8 (omega arith) refl (omega arith) (omega arith),
  bit_and_1 (x / 8),
  bit_and-0 (x % 8),
)

-- x & 0x7FFFFFFFFFFF
bit_and_2_47 : (x : ℕ) → bit_and x (2 ^ 47 - 1) ≡ x % 2 ^ 47
bit_and_2_47 x =
    bit_and-low 47 (x / 2 ^ 47) (x % 2 ^ 47) x (2 ^ 47 - 1) (omega arith) refl (omega arith)

-- A mask of ones from bit 12 to bit `12 + k`.
pub bit_and-page :
    (k x mask : ℕ)
    → mask ≡ (2 ^ k - 1) * 2 ^ 12
    → x < 2 ^ 12 * 2 ^ k
    → bit_and x mask ≡ x - x % 2 ^ 12
bit_and-page k x mask ys lx =
    let parts =
      bit_and-parts 12 (x / 2 ^ 12) (x % 2 ^ 12) (2 ^ k - 1) 0 x mask (omega arith) (omega arith)
        (omega arith) (omega arith) in
    omega (arith, parts, bit_and-0 (x % 2 ^ 12), bit_and-ones k (x / 2 ^ 12) (omega arith))

-- One more flag below the page number.
pub bit_or-more :
    (q x c f : ℕ)
    → x ≡ q * 2 ^ 12 + c
    → c < 2 ^ 12
    → f < 2 ^ 12
    → bit_or x f ≡ q * 2 ^ 12 + bit_or c f
bit_or-more q x c f xs lc lf =
    omega (arith, bit_or-parts 12 q c 0 f x f xs (omega arith) lc lf, bit_or-0 q)

-- Flags below the page number.
pub bit_or-flags : (q x f : ℕ) → x ≡ q * 2 ^ 12 → f < 2 ^ 12 → bit_or x f ≡ x + f
bit_or-flags q x f xs lf =
    omega (arith, bit_or-more q x 0 f (omega arith) (omega arith) lf, bit_or-bitwise 0 f)

-- A disjunction of a page's address below bit 47 and flags below bit 12 and above bit 46.
pub bit_or_47 :
    (q l s x y : ℕ)
    → x ≡ q * 2 ^ 12
    → x < 2 ^ 47
    → y ≡ s * 2 ^ 47 + l
    → l < 2 ^ 12
    → bit_or x y ≡ bit_or 0 s * 2 ^ 47 + x + l
bit_or_47 q l s x y xs lx ys ll =
    let parts = bit_or-parts 47 0 x s l x y (omega arith) ys lx (omega arith) in
    omega (arith, parts, bit_or-flags q x l xs ll)

-- x & ~0xFFFF800000000000 & ~0xFFF
pub strip_lem :
    (x : ℕ) → bit_and (bit_and x (2 ^ 47 - 1)) (2 ^ 64 - 2 ^ 12) ≡ x % 2 ^ 47 - x % 2 ^ 12
strip_lem x =
    let page = bit_and-page 52 (x % 2 ^ 47) (2 ^ 64 - 2 ^ 12) refl (omega arith) in
    rw (bit_and_2_47 x) (omega (arith, page))

-- x & 0x7FFFFFFFF000
pub bit_and-page_47 : (x : ℕ) → bit_and x 0x7ffffffff000 ≡ x % 2 ^ 47 - x % 2 ^ 12
bit_and-page_47 x =
    let parts =
      bit_and-parts 47 (x / 2 ^ 47) (x % 2 ^ 47) 0 0x7ffffffff000 x 0x7ffffffff000 (omega arith)
        (omega arith) (omega arith) (omega arith) in
    let page = bit_and-page 35 (x % 2 ^ 47) 0x7ffffffff000 refl (omega arith) in
    omega (arith, parts, page, bit_and-0 (x / 2 ^ 47))
