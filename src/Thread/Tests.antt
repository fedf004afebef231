-- ===== src/Thread/Tests.antt =====
-- A table with two threads on processor 0, and a thread with one free descriptor.
use ion_os.Base.{ℕ, ◌<◌, ◌≤◌, ◌≡◌, ◌⊎◌, false, refl, ◌==◌, if◌then◌else◌, some, none, npos}
use ion_os.Thread.{
  Thread, Table, FileInfo, run_none, state_value, search, add_fd_info, is_some, max_thread_count,
  scan,
}
use ion_os.Thread.Search.{AllFull, Best, search-Best}
use ion_os.Thread.Slots.{AllUsed, add_fd_info-first_free}

abbrev busy : Thread
busy = record { id = 1; cpu_id = 0; jiffies = 9; state = run_none }

abbrev rested : Thread
rested = record { id = 2; cpu_id = 0; jiffies = 4; state = run_none }

abbrev sample : Table
sample = record {
  threads = λ i. if i == 1 then some busy else if i == 2 then some rested else none;
  idle_threads = λ i. none;
  cpu_idx = 0;
  cpu_count = 1;
}

search_runs : search run_none 0 sample ≡ some rested
unfolding search scan
search_runs = refl

search-Best_example :
    (n : ℕ) × ((1 ≤ n) × (n ≤ max_thread_count))
    × AllFull (sample.threads) 1 n
    × ((n ≡ max_thread_count) ⊎ (sample.threads n ≡ none))
    × (((task : Thread) × (search run_none 0 sample ≡ some task)
          × Best (sample.threads) run_none 0 n (some task))
        ⊎ (Best (sample.threads) run_none 0 n none
            × (search run_none 0 sample
                ≡ (if state_value run_none == 0 then sample.idle_threads 0 else none))))
search-Best_example = search-Best run_none 0 sample

abbrev two_fds : FileInfo ℕ
two_fds = record { fds = λ i. if i == 0 then some 7 else none; max_fd_count = 2 }

add_fd_info-first_free_example :
    let (i, result) = add_fd_info (some two_fds) 9 in
    (after : FileInfo ℕ) × (result ≡ some after)
    × (((i ≡ npos) × (after ≡ two_fds) × AllUsed (two_fds.fds) 0 2)
        ⊎ ((i < 2)
            × (is_some (two_fds.fds i) ≡ false)
            × AllUsed (two_fds.fds) 0 i
            × ((j : ℕ) → after.fds j ≡ (if j == i then some 9 else two_fds.fds j))))
add_fd_info-first_free_example = add_fd_info-first_free two_fds 9
