-- ===== src/Freelist/Classes.antt =====
-- kernel/src/include/mm/alloc/freelist.hpp: the size classes.
use ion_os.Base.{
  ℕ, ◌+◌, ◌^◌, ◌<◌, ◌≤◌, ◌≡◌, refl, true, false, Bool, ◌&&◌, Option, none, some, arith, ◌==◌, ltb,
  leb, if◌then◌else◌, holds_below, holds_below_lem,
}
use ion_os.Freelist.{freelists_size2id, freelist_num, freelist_maxblksize}

-- The smallest size of a class, and the first size past it.
abbrev pub class_low : ℕ → ℕ
class_low id = if id == 0 then 0 else if id == 1 then 64 else 2 ^ (id + 6)

abbrev pub class_high : ℕ → ℕ
class_high id = if id == 0 then 64 else 2 ^ (id + 7)

abbrev pub in_class : Option ℕ → ℕ → Bool
in_class none size = false
in_class (some id) size =
    ltb id freelist_num && (leb (class_low id) size && ltb size (class_high id))

class_table : holds_below (λ s. in_class (freelists_size2id s) s) freelist_maxblksize ≡ true
unfolding holds_below freelists_size2id
class_table = refl

-- Every size below 16384 has the class, of eight, whose range it lies in.
pub freelists_size2id-class :
    (size : ℕ) → size < freelist_maxblksize → in_class (freelists_size2id size) size ≡ true
freelists_size2id-class size h = holds_below_lem _ freelist_maxblksize class_table size h

-- Larger sizes have none.
pub freelists_size2id-none : (size : ℕ) → freelist_maxblksize ≤ size → freelists_size2id size ≡ none
unfolding freelists_size2id
freelists_size2id-none size h = ground arith
