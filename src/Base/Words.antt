-- ===== src/Base/Words.antt =====
-- The kernel is compiled for 64-bit targets: size_t and pointers have 64 bits.
use Prim.Native.Nat.{ℕ, ◌+◌, ◌-◌, ◌%◌, ◌^◌}

abbrev pub size_mod : ℕ
size_mod = 2 ^ 64

-- static_cast<std::size_t>(-1)
abbrev pub npos : ℕ
npos = 2 ^ 64 - 1

-- Unsigned arithmetic on size_t wraps.
abbrev pub add_size : ℕ → ℕ → ℕ
add_size a b = (a + b) % 2 ^ 64

-- The operands are below 2 ^ 64.
abbrev pub sub_size : ℕ → ℕ → ℕ
sub_size a b = (a + 2 ^ 64 - b) % 2 ^ 64

abbrev pub page_size : ℕ
page_size = 4096
