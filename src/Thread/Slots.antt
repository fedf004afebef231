-- ===== src/Thread/Slots.antt =====
-- kernel/src/thread/thread.cpp: the first free entry of a table, and who takes it.
use ion_os.Base.{
  ℕ, zero, suc, ◌+◌, ◌<◌, ◌≤◌, ◌≡◌, ◌⊎◌, inl, inr, refl, true, false, ◌==◌, if◌then◌else◌, arith,
  Bool-cases, Option-cases, Option, none, some, npos,
}
use ion_os.Thread.{FileInfo, is_some, first_free, set_entry, add_fd_info}

-- Every entry from `lo` to below `hi` is in use.
abbrev pub AllUsed : {A : Type 0} → (ℕ → Option A) → ℕ → ℕ → Type 0
AllUsed entries lo hi = (j : ℕ) → lo ≤ j → j < hi → is_some (entries j) ≡ true

-- The answer of a search for the first free entry in `left` entries from `i` on.
abbrev pub FirstFree : {A : Type 0} → (ℕ → Option A) → (left i : ℕ) → Option ℕ → Type 0
FirstFree entries left i none = AllUsed entries i (i + left)
FirstFree entries left i (some k) =
    (i ≤ k) × (k < i + left) × (is_some (entries k) ≡ false) × AllUsed entries i k

FirstFree-suc :
    {A : Type 0} (entries : ℕ → Option A) (left i : ℕ) (r : Option ℕ)
    → is_some (entries i) ≡ true
    → FirstFree entries left (i + 1) r
    → FirstFree entries (suc left) i r
FirstFree-suc entries left i none used rest = λ j le lt. elim (Bool-cases (j == i)) [
  | inl here ↦ ground arith
  | inr later ↦ rest j (ground arith) (omega arith)
]
FirstFree-suc entries left i (some k) used rest = (
  omega (arith, rest.0),
  omega (arith, rest.1),
  rest.2,
  λ j le lt. elim (Bool-cases (j == i)) [
    | inl here ↦ ground arith
    | inr later ↦ rest.3 j (ground arith) (omega arith)
  ],
)

pub first_free-FirstFree :
    {A : Type 0} (left i : ℕ) (entries : ℕ → Option A)
    → FirstFree entries left i (first_free left i entries)
unfolding first_free
first_free-FirstFree zero i entries = λ j le lt. absurd (omega arith)
first_free-FirstFree (suc left) i entries = elim (Bool-cases (is_some (entries i))) [
  | inl used ↦
      rw (used, first_free)
        (FirstFree-suc entries left i (first_free left (i + 1) entries) used
          (first_free-FirstFree left (i + 1) entries))
  | inr free ↦
      rw (free, first_free) (omega arith, omega arith, free, λ j le lt. absurd (omega arith))
]

-- `add_fd_info` puts the descriptor in the first free entry and returns the entry's number; with
-- every entry in use it returns `npos` and changes nothing.
pub add_fd_info-first_free :
    {F : Type 0} (info : FileInfo F) (f : F)
    → let (i, result) = add_fd_info (some info) f in
      (after : FileInfo F) × (result ≡ some after)
      × (((i ≡ npos) × (after ≡ info) × AllUsed (info.fds) 0 (info.max_fd_count))
          ⊎ ((i < info.max_fd_count)
              × (is_some (info.fds i) ≡ false)
              × AllUsed (info.fds) 0 i
              × ((j : ℕ) → after.fds j ≡ (if j == i then some f else info.fds j))))
unfolding add_fd_info set_entry
add_fd_info-first_free info f =
    let search = first_free-FirstFree (info.max_fd_count) 0 (info.fds) in
    elim (Option-cases (first_free info.max_fd_count 0 info.fds)) [
      | inl full ↦
          let all : FirstFree (info.fds) (info.max_fd_count) 0 none = (rw full at search) in
          rw (full, add_fd_info) (info, refl, inl (refl, refl, λ j le lt. all j le (omega arith)))
      | inr (i, e) ↦
          let here : FirstFree (info.fds) (info.max_fd_count) 0 (some i) = (rw e at search) in
          rw (e, add_fd_info)
            (
              record info { fds = set_entry info.fds i f },
              refl,
              inr (omega (arith, here.1), here.2, here.3, λ j. refl),
            )
    ]
