-- ===== src/Memory.antt =====
-- Kernel memory as the allocators use it: the 64-bit word at each address. The allocators read
-- and write whole words at addresses that are multiples of 8, so words do not overlap.
use ion_os.Base.{ℕ, ◌≡◌, ◌≢◌, arith, ◌==◌, if◌then◌else◌}

abbrev pub Memory : Type 0
Memory = ℕ → ℕ

-- *(size_t *)at = value
unfoldable pub store : Memory → ℕ → ℕ → Memory
store m at value a = if a == at then value else m a

abbrev pub null : ℕ
null = 0

pub store_self : (m : Memory) (a v : ℕ) → store m a v a ≡ v
unfolding store
store_self m a v = ground arith

pub store_ne : (m : Memory) (a v b : ℕ) → b ≢ a → store m a v b ≡ m b
unfolding store
store_ne m a v b ne = ground arith
