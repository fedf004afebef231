-- ===== src/Area/Tests.antt =====
-- A 4 KiB area, an area that grows from 64 to 128 bytes, and the theorems at them.
use ion_os.Base.{◌-◌, ◌≡◌, refl, false, arith}
use ion_os.Memory.{Memory}
use ion_os.Block.{area_flag}
use ion_os.Area.{allocarea_reinit}
use ion_os.Area.Init.{allocarea_reinit-overwrites}

abbrev zeroed : Memory
zeroed a = 0

allocarea_reinit-overwrites_example :
    let (blk, m') = allocarea_reinit 8192 64 128 zeroed in
    (blk - 8 ≡ 8256) × (m' 8312 ≡ 48) × (area_flag (m' 8312) ≡ false)
allocarea_reinit-overwrites_example =
    allocarea_reinit-overwrites 8192 64 128 zeroed refl refl (omega arith) (omega arith)
