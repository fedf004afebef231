-- ===== src/SizedPool.antt =====
-- kernel/src/mm/heap/sized-pool.cpp: a pool of elements of one size, its free elements threaded
-- through their first words. A null pool is `none`. The words of two elements do not overlap, as
-- the elements have at least the 8 bytes that include/mm/alloc/alloc.hpp asks for.
pub mod Chain
pub mod Refine
mod Tests
use ion_os.Base.{
  ℕ, zero, suc, ◌+◌, ◌-◌, ◌*◌, ◌%◌, ◌^◌, Bool, true, false, not, ◌||◌, Option, none, some, ltb, leb,
  ◌==◌, if◌then◌else◌, sub_size,
}
use ion_os.Memory.{Memory, store, null}

-- struct sized_mpool
pub record SizedPool : Type 0 where
  pub ptr : ℕ
  pub size : ℕ
  pub bsize : ℕ
  pub len : ℕ
  pub nalloced : ℕ
  pub freelist : ℕ

-- for (i = 1; i < len; i++), from `i` in `left` rounds: element i - 1 points at element i.
pub link : ℕ → (ptr bsize i : ℕ) → Memory → Memory
link zero ptr bsize i m = m
link (suc left) ptr bsize i m =
    link left ptr bsize (i + 1) (store m (ptr + (i - 1) * bsize) (ptr + i * bsize))

-- For `len` 0 the last write goes in front of the area: `len - 1` wraps.
pub init : (ptr bsize len : ℕ) → Memory → SizedPool × Memory
unfolding link
init ptr bsize len m = (
  record {
    ptr = ptr;
    size = bsize * len % 2 ^ 64;
    bsize = bsize;
    len = len;
    nalloced = 0;
    freelist = ptr;
  },
  store (link (len - 1) ptr bsize 1 m) ((ptr + sub_size len 1 * bsize) % 2 ^ 64) null,
)

pub alloc : Option SizedPool → Memory → ℕ × Option SizedPool
alloc none m = (null, none)
alloc (some pool) m =
    if pool.freelist == null
    then (null, some pool)
    else (pool.freelist, some (record pool { freelist = m pool.freelist }))

pub free : Option SizedPool → ℕ → Memory → Option SizedPool × Memory
free none ptr m = (none, m)
free (some pool) ptr m =
    if ptr == null
    then (some pool, m)
    else (some (record pool { freelist = ptr }), store m ptr pool.freelist)

pub inpool : Option SizedPool → ℕ → Bool
inpool none ptr = false
inpool (some pool) ptr =
    if ptr == null || (ltb ptr pool.ptr || leb (pool.ptr + pool.size) ptr) then false else true
