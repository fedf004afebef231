-- ===== src/LargeBlk/Tests.antt =====
-- Two large blocks whose descriptors share a list, and the theorems at them.
use ion_os.Base.{ℕ, ◌≡◌, refl, true, false, arith, some, none}
use ion_os.Memory.{Memory, null}
use ion_os.Freelist.{Freelists, set_list}
use ion_os.Block.{padding_4k}
use ion_os.LargeBlk.{large_blk_blokp, large_blk_alloc, large_blk_free, delmem}
use ion_os.LargeBlk.Lists.{large_blk_alloc-forgets, large_blk_free-large_blk_alloc}

abbrev zeroed : Memory
zeroed a = 0

-- The callback grants 64 KiB at 1 MiB; a block at 32768 was granted before, with a descriptor at
-- 4096 in list 0.
abbrev grant : ℕ → ℕ → ℕ
grant ptr size = 1048576

abbrev before : Freelists
before id = 4096

same_list : large_blk_blokp 32768 ≡ large_blk_blokp 1048576
unfolding large_blk_blokp
same_list = refl

large_blk_alloc-forgets_example :
    let (_, blks, m, _) = large_blk_alloc grant 8192 65536 before zeroed in
    large_blk_free 2 blks 32768 m ≡ some (false, blks, m, none)
large_blk_alloc-forgets_example =
    large_blk_alloc-forgets grant 8192 65536 before zeroed (omega arith) (omega arith) 0 32768
      same_list (omega arith)

large_blk_free-large_blk_alloc_example :
    let (ptr, blks, m, _) = large_blk_alloc grant 8192 65536 before zeroed in
    large_blk_free 2 blks ptr m
    ≡ some (true, set_list blks (large_blk_blokp ptr) null, m, some (delmem ptr (padding_4k 65536)))
large_blk_free-large_blk_alloc_example =
    large_blk_free-large_blk_alloc grant 8192 65536 before zeroed (omega arith) (omega arith) 0
