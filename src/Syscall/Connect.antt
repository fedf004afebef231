-- ===== src/Syscall/Connect.antt =====
-- kernel/src/hel/syscall.cpp: connecting two sockets, and the transfer of bytes.
use ion_os.Base.{
  ℕ, zero, suc, ◌+◌, ◌-◌, ◌%◌, ◌^◌, Bool, true, false, not, ◌&&◌, ◌||◌, ◌==◌, ltb, leb,
  if◌then◌else◌, Option, none, some,
}
use ion_os.Machine.{Run, done, fault, out_of_fuel, bounded}
use ion_os.Memory.{null}
use ion_os.Klibc.{Bytes, memcmp, Order, same}
use ion_os.Dsocket.{Pair, dsocket_send, dsocket_recv, dsocket_accept_send, dsocket_accept_recv}
use ion_os.Syscall.{
  Socket, SocketState, disconnected, listening, connected, Link, Ops, normal_ops, accept_ops, unset,
  Kernel, put, driver_sockets, d_path, path_length, with_handle, chain_socket, new_fd,
  already_connected, not_found,
}

-- What a call that may wait ends with: its result, or the object that it waits for.
pub data Outcome : Type 0 where
  returned : ℕ → Outcome
  waiting : ℕ → Outcome

abbrev pub is_same : Order → Bool
is_same same = true
is_same _ = false

abbrev pub is_listening : SocketState → Bool
is_listening listening = true
is_listening _ = false

-- How the search ends: at a socket or at the end of the chain, with a read through a null
-- `bind_addr`, or out of fuel.
pub data Search : Type 0 where
  stopped : ℕ → Search
  null_read : Search
  endless : Search

-- while (d && !memcmp(d->bind_addr, addr->d_path, len)) d = d->next
unfoldable pub search_socket : (fuel : ℕ) → (ℕ → Socket) → Bytes → (path len d : ℕ) → Search
search_socket zero sockets m path len d = endless
search_socket (suc fuel) sockets m path len d =
    let rest = search_socket fuel sockets m path len ((sockets d).next) in
    if d == null
    then stopped null
    else if (sockets d).bind_addr == null && not (len == 0)
    then null_read
    else if is_same (memcmp ((sockets d).bind_addr) path len m)
    then rest
    else stopped d

-- The pair that `memset` cleared, with its one client.
abbrev pub new_link : Link
new_link = record {
  connected = false;
  path = null;
  client_fds = 1;
  server_fds = 0;
  buffers = record {
    client_buffer = null;
    client_buffer_pos = 0;
    server_buffer = null;
    server_buffer_pos = 0;
  };
}

-- d->backlog[d->conn_curr++] = pair
abbrev pub enqueue : Socket → ℕ → Socket
enqueue d pair = record d {
  backlog = put d.backlog d.conn_curr pair;
  conn_curr = (d.conn_curr + 1) % 2 ^ 32;
}

-- dsock->pair = pair
abbrev pub set_pair : Socket → ℕ → Socket
set_pair dsock pair = record dsock { pair = pair }

-- The two sockets of a connection that was asked for.
unfoldable pub ask : (ℕ → Socket) → (dsock d pair : ℕ) → ℕ → Socket
ask sockets dsock d pair =
    let asked = put sockets d (enqueue (sockets d) pair) in
    put asked dsock (set_pair (asked dsock) pair)

-- k_driver_connect_impl up to its wait
unfoldable pub connect_begin : (fuel t handle_id addr pair : ℕ) → Kernel → Run Kernel Outcome
unfolding with_handle search_socket ask
connect_begin fuel t handle_id addr pair k = with_handle returned k t handle_id λ handle.
    let dsock = (k.handles handle).socket in
    let len = path_length addr k.bytes in
    if not ((k.sockets dsock).pair == null)
    then done (returned already_connected) k
    else elim (search_socket fuel k.sockets k.bytes (d_path addr) len driver_sockets) [
      | endless ↦ out_of_fuel
      | null_read ↦ fault
      | stopped d ↦
          if (not (d == null)) && is_listening ((k.sockets d).state)
          then done (waiting pair)
              (record k { links = put k.links pair new_link; sockets = ask k.sockets dsock d pair })
          else done (returned not_found) k
    ]

-- The wait of k_driver_connect_impl for `pair`, and what is behind it.
unfoldable pub connect_end : (dsock handle pair : ℕ) → Kernel → Run Kernel Outcome
connect_end dsock handle pair k =
    if (k.links pair).connected
    then done (returned 0) (record k {
      sockets = put k.sockets dsock (record (k.sockets dsock) { state = connected });
      handles = put k.handles handle (record (k.handles handle) { op = normal_ops });
    })
    else done (waiting pair) k

-- backlog[0] = NULL, and memmove of the entries behind it, `conn_max - 1` of them
unfoldable pub shift_backlog : (ℕ → ℕ) → (conn_max : ℕ) → ℕ → ℕ
shift_backlog backlog conn_max i =
    let cleared = put backlog 0 null in if ltb i (conn_max - 1) then cleared (i + 1) else cleared i

-- For an int `conn_max` of 0 or less the length of that memmove wraps, and its writes run out of the
-- memory that is mapped.
abbrev pub no_room : ℕ → Bool
no_room conn_max = conn_max == 0 || leb (2 ^ 31) conn_max

-- The addresses that `malloc` returns in k_driver_accept_impl.
pub record Fresh : Type 0 where
  pub path : ℕ
  pub server_buffer : ℕ
  pub client_buffer : ℕ
  pub handle : ℕ
  pub socket : ℕ
  pub bind_addr : ℕ

-- The pair once it is connected.
abbrev pub accepted : Link → Fresh → Link
accepted link new = record link {
  connected = true;
  path = new.path;
  server_fds = (link.server_fds + 1) % 2 ^ 32;
  buffers = record {
    client_buffer = new.client_buffer;
    client_buffer_pos = 0;
    server_buffer = new.server_buffer;
    server_buffer_pos = 0;
  };
}

-- The listening socket behind an accept.
abbrev pub dequeue : Socket → Socket
dequeue dsock = record dsock {
  backlog = shift_backlog dsock.backlog dsock.conn_max;
  conn_max = (dsock.conn_max + 2 ^ 32 - 1) % 2 ^ 32;
  state = disconnected;
}

-- The new socket.
abbrev pub server_end : Socket → (flags bind_addr pair : ℕ) → Socket
server_end socket flags bind_addr pair = record socket {
  flags = flags;
  bind_addr = bind_addr;
  pair = pair;
  state = connected;
}

unfoldable pub k_driver_accept : (fuel t handle_id flags : ℕ) → Fresh → Kernel → Run Kernel Outcome
unfolding with_handle shift_backlog chain_socket new_fd
k_driver_accept fuel t handle_id flags new k = with_handle returned k t handle_id λ handle.
    let dsock = (k.handles handle).socket in
    let pair = (k.sockets dsock).backlog 0 in
    let waited = put k.sockets dsock (dequeue (k.sockets dsock)) in
    let made = record k {
      links = put k.links pair (accepted (k.links pair) new);
      sockets = put waited new.socket (server_end (waited (new.socket)) flags new.bind_addr pair);
      handles = put k.handles new.handle (record { socket = new.socket; op = accept_ops });
    } in
    if (k.sockets dsock).conn_curr == 0
    then done (waiting dsock) k
    else if pair == null
    then fault
    else if no_room (k.sockets dsock).conn_max
    then fault
    else bounded (chain_socket fuel made (new.socket))
        λ chained. let (fd, k') = new_fd chained t (new.handle) in done (returned fd) k'

-- The pair that a socket's operation works on.
abbrev pub pair_of : Kernel → ℕ → Option Pair
pair_of k dsock =
    if (k.sockets dsock).pair == null
    then none
    else some ((k.links ((k.sockets dsock).pair)).buffers)

-- The pair and the bytes that an operation leaves.
abbrev pub with_pair : Kernel → (dsock : ℕ) → Option Pair → Bytes → Kernel
with_pair k dsock none m = record k { bytes = m }
with_pair k dsock (some buffers) m =
    let at = (k.sockets dsock).pair in
    record k { bytes = m; links = put k.links at (record (k.links at) { buffers = buffers }) }

-- handle->op->send
unfoldable pub send_on : Ops → (dsock input limit : ℕ) → Kernel → Run Kernel ℕ
send_on normal_ops dsock input limit k =
    let (sent, pair, m) = dsocket_send (pair_of k dsock) input limit k.bytes in
    done sent (with_pair k dsock pair m)
send_on accept_ops dsock input limit k =
    let (sent, pair, m) = dsocket_accept_send (pair_of k dsock) input limit k.bytes in
    done sent (with_pair k dsock pair m)
send_on unset dsock input limit k = fault

-- handle->op->recv
unfoldable pub recv_on : Ops → (dsock output limit : ℕ) → Kernel → Run Kernel ℕ
recv_on normal_ops dsock output limit k =
    let (got, pair, m) = dsocket_recv (pair_of k dsock) output limit k.bytes in
    done got (with_pair k dsock pair m)
recv_on accept_ops dsock output limit k =
    let (got, pair, m) = dsocket_accept_recv (pair_of k dsock) output limit k.bytes in
    done got (with_pair k dsock pair m)
recv_on unset dsock output limit k = fault

unfoldable pub k_driver_send : (t handle_id input limit : ℕ) → Kernel → Run Kernel ℕ
unfolding with_handle send_on
k_driver_send t handle_id input limit k =
    with_handle (λ e. e) k t handle_id
      λ handle. send_on ((k.handles handle).op) ((k.handles handle).socket) input limit k

unfoldable pub k_driver_recv : (t handle_id output limit : ℕ) → Kernel → Run Kernel ℕ
unfolding with_handle recv_on
k_driver_recv t handle_id output limit k =
    with_handle (λ e. e) k t handle_id
      λ handle. recv_on ((k.handles handle).op) ((k.handles handle).socket) output limit k
