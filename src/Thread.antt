-- ===== src/Thread.antt =====
-- kernel/src/thread/thread.cpp: the tables of the threads, the choice of the next thread, and the
-- file descriptors of a thread.
pub mod Search
pub mod Slots
mod Tests
use ion_os.Base.{
  ℕ, zero, suc, ◌+◌, ◌-◌, ◌%◌, ◌^◌, Bool, true, false, not, ◌&&◌, ◌||◌, ◌==◌, ltb, if◌then◌else◌,
  Option, none, some, npos,
}

-- enum run_state
pub data RunState : Type 0 where
  run_none : RunState
  run_active : RunState
  run_suspended : RunState
  run_deferred : RunState
  run_blocked : RunState
  run_interrupted : RunState
  run_terminated : RunState

-- The value of an enumerator.
abbrev pub state_value : RunState → ℕ
state_value run_none = 0
state_value run_active = 1
state_value run_suspended = 2
state_value run_deferred = 3
state_value run_blocked = 4
state_value run_interrupted = 5
state_value run_terminated = 6

-- The fields of `thread` that the tables and the search use.
pub record Thread : Type 0 where
  pub id : ℕ
  pub cpu_id : ℕ
  pub jiffies : ℕ
  pub state : RunState

-- `threads`, `idle_threads`, `cpu_idx` and apic_table::cpu_count; a null entry is `none`.
pub record Table : Type 0 where
  pub threads : ℕ → Option Thread
  pub idle_threads : ℕ → Option Thread
  pub cpu_idx : ℕ
  pub cpu_count : ℕ

abbrev pub max_thread_count : ℕ
max_thread_count = 4096

abbrev pub is_some : {A : Type 0} → Option A → Bool
is_some none = false
is_some (some a) = true

-- The first index from `i` on, in `left` rounds, whose entry is null.
unfoldable pub first_free : {A : Type 0} → (left i : ℕ) → (ℕ → Option A) → Option ℕ
first_free zero i entries = none
first_free (suc left) i entries =
    let rest = first_free left (i + 1) entries in if is_some (entries i) then rest else some i

-- entries[i] = value
unfoldable pub set_entry : {A : Type 0} → (ℕ → Option A) → ℕ → A → ℕ → Option A
set_entry entries i value j = if j == i then some value else entries j

-- Where a thread was put: the idle table or the table of threads.
pub data Slot : Type 0 where
  idle : ℕ → Slot
  normal : ℕ → Slot

-- The thread that `malloc` returned, with what its other fields hold; the loops set its id.
unfoldable pub get_free_thread : Thread → Table → Option Slot × Table
unfolding first_free set_entry
get_free_thread fresh t = elim (first_free t.cpu_count 0 t.idle_threads) [
  | some i ↦ (
    some (idle i),
    record t { idle_threads = set_entry t.idle_threads i (record fresh { id = 0 }) },
  )
  | none ↦ elim (first_free (max_thread_count - 1) 1 t.threads) [
    | some i ↦
        (some (normal i), record t { threads = set_entry t.threads i (record fresh { id = i }) })
    | none ↦ (none, t)
  ]
]

-- The division is by a count that is not 0.
unfoldable pub alloc_cpu_id : Table → ℕ × Table
alloc_cpu_id t = (t.cpu_idx, record t { cpu_idx = (t.cpu_idx + 1) % 2 ^ 32 % t.cpu_count })

-- A thread's descriptors; `none` for a null `file_info`.
pub record FileInfo (F : Type 0) : Type 0 where
  pub fds : ℕ → Option F
  pub max_fd_count : ℕ

unfoldable pub add_fd_info : {F : Type 0} → Option (FileInfo F) → F → ℕ × Option (FileInfo F)
unfolding first_free set_entry
add_fd_info none f = (npos, none)
add_fd_info (some info) f = elim (first_free info.max_fd_count 0 info.fds) [
  | none ↦ (npos, some info)
  | some i ↦ (i, some (record info { fds = set_entry info.fds i f }))
]

-- task == NULL || ptr->jiffies < task->jiffies
abbrev pub better : Thread → Option Thread → Option Thread
better ptr none = some ptr
better ptr (some task) = if ltb ptr.jiffies task.jiffies then some ptr else some task

-- The two tests that skip a thread.
abbrev pub suits : RunState → ℕ → Thread → Bool
suits state cpu_id ptr = state_value ptr.state == state_value state && ptr.cpu_id == cpu_id

-- The loop of `search`, which ends at the first null entry.
unfoldable pub scan :
    (left i : ℕ) → (ℕ → Option Thread) → RunState → ℕ → Option Thread → Option Thread
scan zero i threads state cpu_id task = task
scan (suc left) i threads state cpu_id task = elim (threads i) [
  | none ↦ task
  | some ptr ↦
      scan left (i + 1) threads state cpu_id
        (if suits state cpu_id ptr then better ptr task else task)
]

unfoldable pub search : RunState → ℕ → Table → Option Thread
unfolding scan
search state cpu_id t = elim (scan (max_thread_count - 1) 1 t.threads state cpu_id none) [
  | some task ↦ some task
  | none ↦ if state_value state == 0 then t.idle_threads cpu_id else none
]
