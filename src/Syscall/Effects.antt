-- ===== src/Syscall/Effects.antt =====
-- kernel/src/hel/syscall.cpp: what each of the calls that make or connect sockets leaves.
use ion_os.Base.{
  ℕ, ◌≡◌, ◌≢◌, inl, inr, refl, true, false, not, ◌&&◌, ◌==◌, some, arith, Option-cases,
}
use ion_os.Machine.{Run, done, fault, out_of_fuel}
use ion_os.Memory.{null}
use ion_os.Syscall.{
  disconnected, connected, normal_ops, accept_ops, Kernel, put, driver_sockets, d_path, path_length,
  not_found, find_handle, chain_socket, new_fd, k_driver_cskt,
}
use ion_os.Syscall.Connect.{
  Outcome, returned, waiting, is_listening, Search, stopped, null_read, endless, search_socket,
  no_room, connect_begin, connect_end, Fresh, accepted, dequeue, server_end, k_driver_accept,
}
use ion_os.Syscall.Handshake.{with_handle-some, with_handle-none}
use ion_os.Syscall.Quiet.{
  Leaves, Leaves-done, Leaves-if, Leaves-bounded, Quiet, Quiet-refl, chain_socket-Quiet,
}
use ion_os.Syscall.Search.{search_socket-null}
use ion_os.Syscall.Steps.{System}
use ion_os.Syscall.Invariant.{Made}

-- What a chained socket's call leaves.
abbrev pub Chained : Kernel → (t handle : ℕ) → Kernel → Type 0
Chained made t handle k' =
    (chained : Kernel) × Quiet made chained × (k' ≡ (new_fd chained t handle).1)

-- k_driver_cskt

abbrev pub created : Kernel → (flags handle socket bind_addr : ℕ) → Kernel
created k flags handle socket bind_addr = record k {
  handles = put k.handles handle (record (k.handles handle) { socket = socket });
  sockets = put k.sockets socket (record (k.sockets socket) {
    flags = flags;
    bind_addr = bind_addr;
    pair = null;
    state = disconnected;
  });
}

pub k_driver_cskt-Chained :
    (fuel t flags handle socket bind_addr : ℕ) (k : Kernel)
    → Leaves
        (λ r k'. Chained (created k flags handle socket bind_addr) t handle k')
        (k_driver_cskt fuel t flags handle socket bind_addr k)
unfolding k_driver_cskt
k_driver_cskt-Chained fuel t flags handle socket bind_addr k =
    let made = created k flags handle socket bind_addr in
    Leaves-bounded (λ r k'. Chained made t handle k') (chain_socket fuel made socket) _
      λ chained e. (chained, chain_socket-Quiet fuel made socket chained e, refl)

pub created-Made :
    (s : System) (flags handle socket bind_addr : ℕ)
    → s.live socket ≡ false
    → Made s (created s.kernel flags handle socket bind_addr) socket handle
created-Made s flags handle socket bind_addr dead = record {
  states = λ a l e. ground arith;
  pairs = λ a l. ground arith;
  binds = λ a l. ground arith;
  unasked = λ a l e. ground arith;
  not_listening = λ e. ground arith;
  links = λ l e. e;
  linked = λ e. ground arith;
  handles = λ h. ground arith;
  files = λ t. refl;
}

-- k_driver_accept_impl

abbrev pub accepting : Kernel → (d flags : ℕ) → Fresh → Kernel
accepting k d flags new =
    let pair = (k.sockets d).backlog 0 in
    let waited = put k.sockets d (dequeue (k.sockets d)) in
    record k {
      links = put k.links pair (accepted (k.links pair) new);
      sockets = put waited new.socket (server_end (waited (new.socket)) flags new.bind_addr pair);
      handles = put k.handles new.handle (record { socket = new.socket; op = accept_ops });
    }

-- What accept leaves on a good descriptor, unless it waits.
abbrev pub Accepted : Kernel → (t d flags : ℕ) → Fresh → Outcome → Kernel → Type 0
Accepted k t d flags new (returned r) k' =
    ((k.sockets d).backlog 0 ≢ null) × Chained (accepting k d flags new) t (new.handle) k'
Accepted k t d flags new (waiting w) k' = Unit {0}

pub k_driver_accept-Accepted :
    (fuel t id flags h : ℕ) (new : Fresh) (k : Kernel)
    → find_handle (k.files t) id ≡ some h
    → Leaves (Accepted k t ((k.handles h).socket) flags new) (k_driver_accept fuel t id flags new k)
unfolding k_driver_accept
k_driver_accept-Accepted fuel t id flags h new k e =
    let d = (k.handles h).socket in
    let P = Accepted k t d flags new in
    let made = accepting k d flags new in
    rw (with_handle-some returned k t id h _ e) (
      Leaves-if P ((k.sockets d).conn_curr == 0) _ _ (λ waits. tt)
        λ pending.
          Leaves-if P ((k.sockets d).backlog 0 == null) fault _ (λ missing. tt)
            λ real.
              Leaves-if P (no_room ((k.sockets d).conn_max)) fault _ (λ none. tt)
                λ room. Leaves-bounded P (chain_socket fuel made (new.socket)) _ λ chained chain. (
                  ground arith,
                  (chained, chain_socket-Quiet fuel made (new.socket) chained chain, refl),
                ))

pub accepting-Made :
    (s : System) (d flags : ℕ) (new : Fresh)
    → s.live (new.socket) ≡ false
    → (s.kernel.sockets d).backlog 0 ≢ null
    → Made s (accepting s.kernel d flags new) (new.socket) (new.handle)
accepting-Made s d flags new dead real = record {
  states = λ a l e. ground arith;
  pairs = λ a l. ground arith;
  binds = λ a l. ground arith;
  unasked = λ a l e. ground arith;
  not_listening = λ e. ground arith;
  links = λ l e. ground arith;
  linked = λ e. ground arith;
  handles = λ h. ground arith;
  files = λ t. refl;
}

-- k_driver_connect_impl

pub Leaves-search :
    {A : Type 0} (P : A → Kernel → Type 0) (found : Search) (next : ℕ → Run Kernel A)
    → ((d : ℕ) → found ≡ stopped d → Leaves P (next d))
    → Leaves P (elim found [ endless ↦ out_of_fuel | null_read ↦ fault | stopped d ↦ next d ])
Leaves-search P endless next h = tt
Leaves-search P null_read next h = tt
Leaves-search P (stopped d) next h = h d refl

-- Connect returns at once and changes nothing: with the head of the chain bound to nothing, its
-- search stops at no socket, and it does not wait.
abbrev pub Begun : Kernel → Outcome → Kernel → Type 0
Begun k (returned r) k' = Quiet k k'
Begun k (waiting w) k' = true ≡ false

pub connect_begin-Begun :
    (fuel t id addr pair h : ℕ) (k : Kernel)
    → (k.sockets driver_sockets).bind_addr ≡ null
    → find_handle (k.files t) id ≡ some h
    → Leaves (Begun k) (connect_begin fuel t id addr pair k)
unfolding connect_begin
connect_begin-Begun fuel t id addr pair h k unbound e =
    let c = (k.handles h).socket in
    let len = path_length addr k.bytes in
    let refused : Run Kernel Outcome = done (returned not_found) k in
    rw (with_handle-some returned k t id h _ e) (
      Leaves-if (Begun k) (not ((k.sockets c).pair == null)) _ _ (λ joined. Quiet-refl k)
        λ alone.
          Leaves-search (Begun k)
            (search_socket fuel k.sockets k.bytes (d_path addr) len driver_sockets) _
            λ d found.
              let lost : d ≡ null =
                search_socket-null fuel k.sockets k.bytes (d_path addr) len driver_sockets d
                  (omega arith) unbound found in
              Leaves-if (Begun k) ((not (d == null)) && is_listening ((k.sockets d).state)) _
                refused (λ listens. ground arith) λ none. Quiet-refl k)

-- A connect that returns changes nothing, whatever its descriptor.
pub connect_begin-Quiet :
    (fuel t id addr pair r : ℕ) (k k' : Kernel)
    → (k.sockets driver_sockets).bind_addr ≡ null
    → connect_begin fuel t id addr pair k ≡ done (returned r) k'
    → Quiet k k'
unfolding connect_begin
connect_begin-Quiet fuel t id addr pair r k k' unbound e =
    elim (Option-cases (find_handle (k.files t) id)) [
      | inl bad ↦
          Leaves-done (λ o k'. Quiet k k') (connect_begin fuel t id addr pair k) (returned r) k' e
            (rw (with_handle-none returned k t id _ bad) (Quiet-refl k))
      | inr (h, good) ↦
          Leaves-done (Begun k) (connect_begin fuel t id addr pair k) (returned r) k' e
            (connect_begin-Begun fuel t id addr pair h k unbound good)
    ]

abbrev pub ending : Kernel → (dsock handle : ℕ) → Kernel
ending k dsock handle = record k {
  sockets = put k.sockets dsock (record (k.sockets dsock) { state = connected });
  handles = put k.handles handle (record (k.handles handle) { op = normal_ops });
}

-- What the end of connect leaves when it returns.
abbrev pub Ended : Kernel → (dsock handle pair : ℕ) → Outcome → Kernel → Type 0
Ended k dsock handle pair (returned r) k' =
    ((k.links pair).connected ≡ true) × (k' ≡ ending k dsock handle)
Ended k dsock handle pair (waiting w) k' = Unit {0}

pub connect_end-Ended :
    (dsock handle pair : ℕ) (k : Kernel)
    → Leaves (Ended k dsock handle pair) (connect_end dsock handle pair k)
unfolding connect_end
connect_end-Ended dsock handle pair k =
    Leaves-if (Ended k dsock handle pair) ((k.links pair).connected)
      (done (returned 0) (ending k dsock handle)) (done (waiting pair) k) (λ joined. (joined, refl))
      λ pending. tt
