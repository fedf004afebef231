-- ===== src/Block/Tests.antt =====
-- A free block of 96 bytes, two blocks side by side, and the theorems at them.
use ion_os.Base.{ℕ, ◌+◌, ◌≡◌, ◌≢◌, refl, true, false, arith, ◌==◌, if◌then◌else◌}
use ion_os.Memory.{Memory}
use ion_os.Block.{blk_split, blk_mergenext, Detach}
use ion_os.Block.Tags.{Block, blk_split-Block}
use ion_os.Block.Merge.{blk_mergenext-blk_split}

abbrev one_block : Memory
one_block a = if a == 4104 then 97 else if a == 4208 then 97 else 0

one_block-Block : Block one_block 4112 96 true false
one_block-Block = record {
  head = record { bits = refl; free_is = refl; big_is = refl; no_area = refl };
  tail = record { bits = refl; free_is = refl; big_is = refl; no_area = refl };
}

-- 32 bytes in use, then 48 free bytes
abbrev two_blocks : Memory
two_blocks a =
    if a == 4104
    then 32
    else if a == 4144
    then 32
    else if a == 4152
    then 49
    else if a == 4208
    then 49
    else 0

first-Block : Block two_blocks 4112 32 false false
first-Block = record {
  head = record { bits = refl; free_is = refl; big_is = refl; no_area = refl };
  tail = record { bits = refl; free_is = refl; big_is = refl; no_area = refl };
}

second-Block : Block two_blocks 4160 48 true false
second-Block = record {
  head = record { bits = refl; free_is = refl; big_is = refl; no_area = refl };
  tail = record { bits = refl; free_is = refl; big_is = refl; no_area = refl };
}

-- A callback that only counts its calls.
abbrev counting : Detach ℕ
counting ptr n m = (n + 1, m)

blk_split-Block_example :
    let (second, m') = blk_split 4112 32 one_block in
    (second ≡ 4160)
    × Block m' 4112 32 false false
    × Block m' second 48 false false
    × ((a : ℕ) → a ≢ 4104 → a ≢ 4144 → a ≢ 4152 → a ≢ 4208 → m' a ≡ one_block a)
blk_split-Block_example =
    blk_split-Block one_block 4112 32 96 true false (omega arith) refl (omega arith) (omega arith)
      one_block-Block

blk_mergenext-blk_split_example :
    let (second, m') = blk_split 4112 32 one_block in
    let (first, n, m'') = blk_mergenext counting 4112 0 m' in
    (first ≡ 4112) × Block m'' 4112 96 false false
blk_mergenext-blk_split_example =
    blk_mergenext-blk_split counting 0 one_block 4112 32 96 true false (omega arith) refl
      (omega arith) (omega arith) one_block-Block
