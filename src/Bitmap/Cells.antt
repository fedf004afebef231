-- ===== src/Bitmap/Cells.antt =====
-- kernel/src/libs/bitmap.cpp: what `get` sees after `init` and `set`.
use ion_os.Base.{ℕ, ◌*◌, ◌/◌, ◌%◌, ◌<◌, ◌≡◌, refl, Bool, false, arith, ◌==◌, if◌then◌else◌}
use ion_os.Base.Bits.{
  raise_bit-lt, clear_bit-lt, test_bit-raise_bit, test_bit-clear_bit, test_bit-empty,
}
use ion_os.Bitmap.{Bitmap, init, get, set}

-- The memory holds bytes.
pub record IsBytes (b : Bitmap) : Type 0 where
  pub byte : (i : ℕ) → b.bytes i < 256

pub set-IsBytes : (b : Bitmap) (i : ℕ) (v : Bool) → IsBytes b → IsBytes (set b i v)
unfolding set
set-IsBytes b i v h = record {
  byte = λ k. ground (
    arith,
    raise_bit-lt (b.bytes (i / 8)) (i % 8),
    clear_bit-lt (b.bytes (i / 8)) (i % 8),
    h.byte k,
  );
}

-- A bit that was set reads back, and every other bit is as before.
pub get-set :
    (b : Bitmap) (i : ℕ) (v : Bool) (j : ℕ)
    → IsBytes b
    → get (set b i v) j ≡ (if j == i then v else get b j)
unfolding get set
get-set b i v j h = ground (
  arith,
  h.byte (i / 8),
  test_bit-raise_bit (b.bytes (i / 8)) (i % 8) (h.byte (i / 8)) (omega arith) (j % 8),
  test_bit-clear_bit (b.bytes (i / 8)) (i % 8) (h.byte (i / 8)) (omega arith) (j % 8),
)

pub size-set : (b : Bitmap) (i : ℕ) (v : Bool) → (set b i v).size ≡ b.size
unfolding set
size-set b i v = ground arith

-- `init` clears the first `size / 8` bytes.
pub get-init : (bytes : ℕ → ℕ) (size j : ℕ) → j < size / 8 * 8 → get (init bytes size) j ≡ false
unfolding get init
get-init bytes size j h = ground (arith, test_bit-empty (j % 8))

pub init-IsBytes :
    (bytes : ℕ → ℕ) (size : ℕ) → ((i : ℕ) → bytes i < 256) → IsBytes (init bytes size)
unfolding init
init-IsBytes bytes size h = record { byte = λ i. ground (arith, h i) }

pub size-init : (bytes : ℕ → ℕ) (size : ℕ) → (init bytes size).size ≡ size
unfolding init
size-init bytes size = refl
