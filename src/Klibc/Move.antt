-- ===== src/Klibc/Move.antt =====
-- kernel/src/libs/klibc.cpp: what `memcpy`, `memmove` and `memset` leave in memory.
use ion_os.Base.{
  ℕ, zero, suc, ◌+◌, ◌-◌, ◌%◌, ◌≤◌, ◌≡◌, ◌⊎◌, Bool, ◌&&◌, ltb, leb, if◌then◌else◌, arith,
}
use ion_os.Memory.{store}
use ion_os.Klibc.{Bytes, copy_up, copy_down, fill, memcpy, memmove, memset}

-- `a` lies in the `n` bytes from `s` on.
abbrev pub in_bytes : (s n a : ℕ) → Bool
in_bytes s n a = leb s a && ltb a (s + n)

-- Upwards is right when the destination is not inside the part of the source that is still to read.
copy_up-read :
    (left i dest src a : ℕ) (m : Bytes)
    → (dest ≤ src) ⊎ (src + i + left ≤ dest + i)
    → copy_up left i dest src m a
      ≡ (if in_bytes (dest + i) left a then m (src + (a - dest)) else m a)
unfolding copy_up store
copy_up-read zero i dest src a m apart = ground arith
copy_up-read (suc left) i dest src a m apart =
    ground (
      arith,
      copy_up-read left (i + 1) dest src a (store m (dest + i) (m (src + i))) (ground arith),
    )

copy_down-read :
    (i dest src a : ℕ) (m : Bytes)
    → src ≤ dest
    → copy_down i dest src m a ≡ (if in_bytes dest i a then m (src + (a - dest)) else m a)
unfolding copy_down store
copy_down-read zero dest src a m below = ground arith
copy_down-read (suc i) dest src a m below =
    ground (arith, copy_down-read i dest src a (store m (dest + i) (m (src + i))) below)

-- `memmove` copies the `n` bytes that stood at the source before the call, however the two ranges
-- overlap, and changes no other byte.
pub memmove_lem :
    (dest src n a : ℕ) (m : Bytes)
    → memmove dest src n m a ≡ (if in_bytes dest n a then m (src + (a - dest)) else m a)
unfolding memmove
memmove_lem dest src n a m =
    ground (arith, copy_up-read n 0 dest src a m, copy_down-read n dest src a m)

-- `memcpy` does the same unless the destination begins inside the source.
pub memcpy_lem :
    (dest src n a : ℕ) (m : Bytes)
    → (dest ≤ src) ⊎ (src + n ≤ dest)
    → memcpy dest src n m a ≡ (if in_bytes dest n a then m (src + (a - dest)) else m a)
unfolding memcpy
memcpy_lem dest src n a m apart = ground (arith, copy_up-read n 0 dest src a m (ground arith))

fill-read :
    (left i s c a : ℕ) (m : Bytes)
    → fill left i s c m a ≡ (if in_bytes (s + i) left a then c % 256 else m a)
unfolding fill store
fill-read zero i s c a m = ground arith
fill-read (suc left) i s c a m =
    ground (arith, fill-read left (i + 1) s c a (store m (s + i) (c % 256)))

pub memset_lem :
    (s c n a : ℕ) (m : Bytes) → memset s c n m a ≡ (if in_bytes s n a then c % 256 else m a)
unfolding memset
memset_lem s c n a m = ground (arith, fill-read n 0 s c a m)
