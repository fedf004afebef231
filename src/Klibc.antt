-- ===== src/Klibc.antt =====
-- kernel/src/libs/klibc.cpp: the functions on bytes in memory. Here a memory is the byte at each
-- address; a loop over `i` is a recursion on the rounds that are left.
pub mod Move
pub mod Number
pub mod Strings
mod Tests
use ion_os.Base.{
  ℕ, zero, suc, ◌+◌, ◌-◌, ◌%◌, ◌^◌, Bool, true, false, ◌==◌, ltb, if◌then◌else◌, page_size,
}
use ion_os.Memory.{store}

abbrev pub Bytes : Type 0
Bytes = ℕ → ℕ

-- for (i = 0; i < n; i++) pdest[i] = psrc[i]
unfoldable pub copy_up : (left i dest src : ℕ) → Bytes → Bytes
unfolding store
copy_up zero i dest src m = m
copy_up (suc left) i dest src m = copy_up left (i + 1) dest src (store m (dest + i) (m (src + i)))

-- for (i = n; i > 0; i--) pdest[i - 1] = psrc[i - 1]
unfoldable pub copy_down : (i dest src : ℕ) → Bytes → Bytes
unfolding store
copy_down zero dest src m = m
copy_down (suc i) dest src m = copy_down i dest src (store m (dest + i) (m (src + i)))

pub memcpy : (dest src n : ℕ) → Bytes → Bytes
memcpy dest src n m = copy_up n 0 dest src m

-- for (i = 0; i < n; i++) p[i] = (uint8_t)c
unfoldable pub fill : (left i s c : ℕ) → Bytes → Bytes
unfolding store
fill zero i s c m = m
fill (suc left) i s c m = fill left (i + 1) s c (store m (s + i) (c % 256))

unfoldable pub memset : (s c n : ℕ) → Bytes → Bytes
unfolding fill
memset s c n m = fill n 0 s c m

pub memmove : (dest src n : ℕ) → Bytes → Bytes
memmove dest src n m =
    if ltb dest src
    then copy_up n 0 dest src m
    else if ltb src dest
    then copy_down n dest src m
    else m

-- The result of `memcmp`: -1, 0 or 1.
pub data Order : Type 0 where
  less : Order
  same : Order
  greater : Order

unfoldable pub compare_from : (left i s1 s2 : ℕ) → Bytes → Order
compare_from zero i s1 s2 m = same
compare_from (suc left) i s1 s2 m =
    let rest = compare_from left (i + 1) s1 s2 m in
    if m (s1 + i) == m (s2 + i)
    then rest
    else if ltb (m (s1 + i)) (m (s2 + i))
    then less
    else greater

unfoldable pub memcmp : (s1 s2 n : ℕ) → Bytes → Order
unfolding compare_from
memcmp s1 s2 n m = compare_from n 0 s1 s2 m

-- while (*es && maxlen) { es++; maxlen--; }
unfoldable pub strnlen : (s maxlen : ℕ) → Bytes → ℕ
strnlen s zero m = 0
strnlen s (suc left) m = let rest = strnlen (s + 1) left m in if m s == 0 then 0 else suc rest

unfoldable pub strlen : ℕ → Bytes → ℕ
unfolding strnlen
strlen s m = strnlen s page_size m
