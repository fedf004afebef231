-- ===== src/Freelist/Tests.antt =====
-- A list of three blocks of 32, 64 and 128 bytes, and the theorems at it.
use ion_os.Base.{ℕ, ◌≡◌, inl, inr, refl, arith, ◌==◌, if◌then◌else◌, List, [], ◌∷◌, some}
use ion_os.Memory.{Memory, store}
use ion_os.Freelist.{freelist_put, freelist_detach, freelist_match, fits, walk, unlink}
use ion_os.Freelist.List.{DList, Separate, Beside}
use ion_os.Freelist.Put.{freelist_put-DList}
use ion_os.Freelist.Detach.{freelist_detach-DList}
use ion_os.Freelist.Match.{Matched, freelist_match-Matched}

-- The nodes 4112, 4160 and 4240, each with its head word 8 bytes in front.
abbrev listed : Memory
listed a =
    if a == 4104
    then 33
    else if a == 4112
    then 4160
    else if a == 4152
    then 65
    else if a == 4160
    then 4240
    else if a == 4168
    then 4112
    else if a == 4232
    then 129
    else if a == 4248
    then 4160
    else 0

abbrev nodes : List ℕ
nodes = 4112 ∷ 4160 ∷ 4240 ∷ []

listed-DList : DList listed 4112 nodes
listed-DList = (refl, omega arith, (refl, omega arith, refl, (refl, omega arith, refl, refl)))

nodes-Separate : Separate nodes
nodes-Separate = ((inl (omega arith), (inl (omega arith), tt)), ((inl (omega arith), tt), (tt, tt)))

match_runs : freelist_match 4 4112 100 listed ≡ some (4240, 4112, store listed 4160 0)
unfolding freelist_match walk freelist_detach unlink
match_runs = refl

freelist_put-DList_example :
    let m' = freelist_put 4112 8192 listed in
    DList m' 8192 (8192 ∷ nodes) × ((a : ℕ) → Beside a (8192 ∷ nodes) → m' a ≡ listed a)
freelist_put-DList_example =
    freelist_put-DList listed 4112 8192 nodes (omega arith) listed-DList
      ((inr (omega arith), (inr (omega arith), (inr (omega arith), tt))), nodes-Separate)

freelist_detach-DList_example :
    let (list', m') = freelist_detach 4112 4160 listed in
    DList m' list' (4112 ∷ 4240 ∷ []) × ((a : ℕ) → Beside a nodes → m' a ≡ listed a)
freelist_detach-DList_example =
    freelist_detach-DList listed 4112 4160 (4112 ∷ []) (4240 ∷ []) listed-DList nodes-Separate

freelist_match-Matched_example :
    Matched (fits 100 listed) listed 4112 nodes (freelist_match 4 4112 100 listed)
freelist_match-Matched_example =
    freelist_match-Matched 4 4112 100 listed nodes listed-DList nodes-Separate (omega arith)
