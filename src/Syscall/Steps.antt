-- ===== src/Syscall/Steps.antt =====
-- kernel/src/hel/syscall.cpp: the calls on driver sockets of many threads, in any order. A call
-- that waits is two steps, between which the others go on.
use ion_os.Base.{ℕ, ◌+◌, ◌^◌, ◌≤◌, ◌≡◌, ◌≢◌, Bool, true, false, Option, none, some}
use ion_os.Machine.{done}
use ion_os.Memory.{null}
use ion_os.Syscall.{
  disconnected, Kernel, put, driver_sockets, path_length, find_handle, k_driver_cskt, k_driver_bind,
  k_driver_listen,
}
use ion_os.Syscall.Connect.{
  returned, waiting, connect_begin, connect_end, Fresh, k_driver_accept, k_driver_send,
  k_driver_recv,
}

-- The kernel, which addresses hold sockets, and for each thread that waits in connect its socket
-- and pair.
pub record System : Type 0 where
  pub kernel : Kernel
  pub live : ℕ → Bool
  pub waits : ℕ → Option (ℕ × ℕ)

-- `malloc` returns no pair and no handle that is in use.
abbrev pub NewPair : System → ℕ → Type 0
NewPair s pair = (a : ℕ) → s.live a ≡ true → (s.kernel.sockets a).pair ≢ pair

abbrev pub NewHandle : System → ℕ → Type 0
NewHandle s handle = (t id : ℕ) → find_handle (s.kernel.files t) id ≢ some handle

-- The bytes of a send have room in the buffers of the pair.
abbrev pub HasRoom : Kernel → (t id limit : ℕ) → Type 0
HasRoom k t id limit =
    (handle : ℕ)
    → find_handle (k.files t) id ≡ some handle
    → let pair = (k.links ((k.sockets ((k.handles handle).socket)).pair)).buffers in
      (pair.server_buffer_pos + limit ≤ 4096) × (pair.client_buffer_pos + limit ≤ 4096)

-- A call on sockets, for the part that runs without another thread's in between. The memory of
-- bytes holds no socket, pair or handle: a send has room in the buffers, a recv writes to the
-- thread's own memory, the lower half, and a path to bind has room in the array at `bind_addr`.
pub data Step (s : System) : System → Type 0 where
  create :
      (fuel t flags handle socket bind_addr r : ℕ) {k : Kernel}
      → s.live socket ≡ false
      → NewHandle s handle
      → k_driver_cskt fuel t flags handle socket bind_addr s.kernel ≡ done r k
      → Step s (record s { kernel = k; live = put s.live socket true })
  bind :
      (t id addr r : ℕ) {k : Kernel}
      → path_length addr s.kernel.bytes ≤ 109
      → k_driver_bind t id addr s.kernel ≡ done r k
      → Step s (record s { kernel = k })
  listen :
      (t id r : ℕ) (array : ℕ → ℕ) {k : Kernel}
      → k_driver_listen t id array s.kernel ≡ done r k
      → Step s (record s { kernel = k })
  refuse :
      (fuel t id addr pair r : ℕ) {k : Kernel}
      → connect_begin fuel t id addr pair s.kernel ≡ done (returned r) k
      → Step s (record s { kernel = k })
  ask :
      (fuel t id addr pair handle : ℕ) {k : Kernel}
      → pair ≢ null
      → NewPair s pair
      → find_handle (s.kernel.files t) id ≡ some handle
      → connect_begin fuel t id addr pair s.kernel ≡ done (waiting pair) k
      → Step s (record s {
        kernel = k;
        waits = put s.waits t (some ((s.kernel.handles handle).socket, pair));
      })
  join :
      (t dsock handle pair r : ℕ) {k : Kernel}
      → s.waits t ≡ some (dsock, pair)
      → connect_end dsock handle pair s.kernel ≡ done (returned r) k
      → Step s (record s { kernel = k; waits = put s.waits t none })
  accept :
      (fuel t id flags handle r : ℕ) (new : Fresh) {k : Kernel}
      → find_handle (s.kernel.files t) id ≡ some handle
      → s.live (new.socket) ≡ false
      → NewHandle s (new.handle)
      → k_driver_accept fuel t id flags new s.kernel ≡ done (returned r) k
      → Step s (record s { kernel = k; live = put s.live (new.socket) true })
  send :
      (t id input limit r : ℕ) {k : Kernel}
      → HasRoom s.kernel t id limit
      → k_driver_send t id input limit s.kernel ≡ done r k
      → Step s (record s { kernel = k })
  receive :
      (t id output limit r : ℕ) {k : Kernel}
      → output + limit ≤ 2 ^ 47
      → k_driver_recv t id output limit s.kernel ≡ done r k
      → Step s (record s { kernel = k })

-- At the start there is the head of the chain, and no thread has a descriptor.
pub record Start (s : System) : Type 0 where
  pub only_head : (a : ℕ) → s.live a ≡ true → a ≡ driver_sockets
  pub head_state : (s.kernel.sockets driver_sockets).state ≡ disconnected
  pub head_unbound : (s.kernel.sockets driver_sockets).bind_addr ≡ null
  pub head_live : s.live driver_sockets ≡ true
  pub no_files : (t id : ℕ) → find_handle (s.kernel.files t) id ≡ none
  pub no_waits : (t : ℕ) → s.waits t ≡ none

pub data Reach (s : System) : System → Type 0 where
  start : Reach s s
  later : {s' s'' : System} → Reach s s' → Step s' s'' → Reach s s''
