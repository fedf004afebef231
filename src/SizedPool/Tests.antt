-- ===== src/SizedPool/Tests.antt =====
-- A pool of three elements of 16 bytes at address 4096, and the theorems at it.
use ion_os.Base.{ℕ, ◌≡◌, refl, List, [], ◌∷◌, some, arith}
use ion_os.Memory.{Memory, store}
use ion_os.SizedPool.{SizedPool, init, alloc}
use ion_os.SizedPool.Chain.{Chain, slots}
use ion_os.SizedPool.Refine.{first_of, rest_of, init-slots, alloc-first_of}

abbrev zeroed : Memory
zeroed a = 0

abbrev threaded : Memory
threaded = store (store (store zeroed 4096 4112) 4112 4128) 4128 0

abbrev pool : SizedPool
pool = record { ptr = 4096; size = 48; bsize = 16; len = 3; nalloced = 0; freelist = 4096 }

abbrev free_slots : List ℕ
free_slots = 4096 ∷ 4112 ∷ 4128 ∷ []

init_runs : (init 4096 16 3 zeroed).0 ≡ pool
unfolding init
init_runs = refl

init-slots_example : let (p, m) = init 4096 16 3 zeroed in Chain m p.freelist (slots 4096 16 0 3)
init-slots_example =
    init-slots 4096 16 3 zeroed (omega arith) (omega arith) (omega arith) (omega arith)

threaded-Chain : Chain threaded 4096 free_slots
unfolding store
threaded-Chain = omega arith

alloc-first_of_example :
    (pool' : SizedPool) × (alloc (some pool) threaded ≡ (first_of free_slots, some pool'))
    × Chain threaded pool'.freelist (rest_of free_slots)
alloc-first_of_example = alloc-first_of pool threaded free_slots threaded-Chain
