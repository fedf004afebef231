-- ===== src/Syscall.antt =====
-- kernel/src/hel/syscall.cpp (with include/hel/syscall.hpp and include/hel/dsocket.hpp): the system
-- calls on driver sockets. The addresses that `malloc` returns are arguments, and a fresh object
-- keeps what was at its address but for the fields that the code sets. A call that waits for
-- another thread is two functions, up to the wait and behind it.
pub mod Connect
pub mod Map
pub mod Effects
pub mod Handshake
pub mod Invariant
pub mod Quiet
pub mod Reachable
pub mod Refused
pub mod Search
pub mod Steps
mod Tests
pub mod Transfer
use ion_os.Base.{
  ℕ, zero, suc, ◌+◌, ◌-◌, ◌*◌, ◌%◌, ◌^◌, Bool, true, false, not, ◌&&◌, ◌==◌, ltb, if◌then◌else◌,
  Option, none, some,
}
use ion_os.Machine.{Run, done, fault, out_of_fuel, and_then, bounded}
use ion_os.Memory.{null}
use ion_os.Klibc.{Bytes, memcpy, memcmp, strlen, Order}
use ion_os.Thread.{FileInfo, add_fd_info}
use ion_os.Dsocket
use ion_os.Dsocket.{Pair}

-- (std::size_t)-k_hel_error_...
abbrev pub bad_handler : ℕ
bad_handler = 2 ^ 64 - 3

abbrev pub not_found : ℕ
not_found = 2 ^ 64 - 4

abbrev pub already_connected : ℕ
already_connected = 2 ^ 64 - 5

-- dsocket_state_t
pub data SocketState : Type 0 where
  disconnected : SocketState
  listening : SocketState
  connected : SocketState

-- dsocket_t; `backlog` is the array behind the pointer.
pub record Socket : Type 0 where
  pub next : ℕ
  pub flags : ℕ
  pub bind_addr : ℕ
  pub state : SocketState
  pub conn_max : ℕ
  pub conn_curr : ℕ
  pub backlog : ℕ → ℕ
  pub pair : ℕ

-- dsocket_pair_t; `buffers` has the two buffers and their positions.
pub record Link : Type 0 where
  pub connected : Bool
  pub path : ℕ
  pub client_fds : ℕ
  pub server_fds : ℕ
  pub buffers : Pair

-- The operations that a handle's `op` points at; `unset` for a pointer that was never set.
pub data Ops : Type 0 where
  normal_ops : Ops
  accept_ops : Ops
  unset : Ops

-- dsocket_handle_t
pub record Handle : Type 0 where
  pub op : Ops
  pub socket : ℕ

-- fd_info_t
pub record FdInfo : Type 0 where
  pub is_dsocket : Bool
  pub dsock_handle : ℕ

-- The objects at each address, the descriptors of each thread, and the memory of bytes, in which
-- the objects do not stand: a write past the end of a buffer, or to a pointer at an object, is
-- outside of the model.
pub record Kernel : Type 0 where
  pub sockets : ℕ → Socket
  pub links : ℕ → Link
  pub handles : ℕ → Handle
  pub files : ℕ → Option (FileInfo FdInfo)
  pub bytes : Bytes

-- The object at an address is written.
abbrev pub put : {A : Type 0} → (ℕ → A) → ℕ → A → ℕ → A
put objects at value a = if a == at then value else objects a

-- &dsocket::driver_sockets, the head of the chain of sockets
abbrev pub driver_sockets : ℕ
driver_sockets = 8

-- d_socket_addr_t: the flag `logical_address`, and the path behind it
abbrev pub d_path : ℕ → ℕ
d_path addr = addr + 1

-- The length of the address to bind or to connect to.
unfoldable pub path_length : ℕ → Bytes → ℕ
path_length addr m =
    if not (m addr == 0) then strlen (d_path addr + 1) m + 1 else strlen (d_path addr) m

-- The handle behind a descriptor, `none` for a bad one; the number is not tested against
-- `max_fd_count`.
unfoldable pub find_handle : Option (FileInfo FdInfo) → ℕ → Option ℕ
find_handle none handle_id = none
find_handle (some info) handle_id = elim (info.fds handle_id) [
  | none ↦ none
  | some fd ↦ if fd.is_dsocket then some fd.dsock_handle else none
]

-- The call ends with an error if the descriptor is bad.
unfoldable pub with_handle :
    {A : Type 0} → (ℕ → A) → Kernel → (t handle_id : ℕ) → (ℕ → Run Kernel A) → Run Kernel A
unfolding find_handle
with_handle returned k t handle_id next = elim (find_handle (k.files t) handle_id) [
  | none ↦ done (returned bad_handler) k
  | some handle ↦ next handle
]

-- while (d->next) d = d->next
unfoldable pub last_socket : (fuel : ℕ) → (ℕ → Socket) → ℕ → Option ℕ
last_socket zero sockets d = none
last_socket (suc fuel) sockets d =
    let rest = last_socket fuel sockets ((sockets d).next) in
    if not ((sockets d).next == null) then rest else some d

-- The socket is put behind the last of the chain.
unfoldable pub chain_socket : (fuel : ℕ) → Kernel → ℕ → Option Kernel
unfolding last_socket
chain_socket fuel k socket = elim (last_socket fuel k.sockets driver_sockets) [
  | none ↦ none
  | some d ↦ some (record k { sockets = put k.sockets d (record (k.sockets d) { next = socket }) })
]

-- add_fd_info on thread `t`
unfoldable pub new_fd : Kernel → (t handle : ℕ) → ℕ × Kernel
new_fd k t handle =
    let (fd, info) =
      add_fd_info (k.files t) (record { is_dsocket = true; dsock_handle = handle }) in
    (fd, record k { files = put k.files t info })

unfoldable pub k_driver_cskt :
    (fuel t flags : ℕ) → (handle socket bind_addr : ℕ) → Kernel → Run Kernel ℕ
unfolding chain_socket new_fd
k_driver_cskt fuel t flags handle socket bind_addr k =
    let made = record k {
      handles = put k.handles handle (record (k.handles handle) { socket = socket });
      sockets = put k.sockets socket (record (k.sockets socket) {
        flags = flags;
        bind_addr = bind_addr;
        pair = null;
        state = disconnected;
      });
    } in
    bounded (chain_socket fuel made socket)
      λ chained. let (fd, k') = new_fd chained t handle in done fd k'

unfoldable pub k_driver_bind : (t handle_id addr : ℕ) → Kernel → Run Kernel ℕ
unfolding with_handle
k_driver_bind t handle_id addr k =
    with_handle (λ e. e) k t handle_id
      λ handle.
        let dsock = (k.handles handle).socket in
        let len = path_length addr k.bytes in
        done 0 (record k { bytes = memcpy (k.sockets dsock).bind_addr (d_path addr) len k.bytes })

unfoldable pub k_driver_listen : (t handle_id : ℕ) → (array : ℕ → ℕ) → Kernel → Run Kernel ℕ
unfolding with_handle
k_driver_listen t handle_id array k =
    with_handle (λ e. e) k t handle_id
      λ handle.
        let dsock = (k.handles handle).socket in
        done 0 (record k {
          sockets = put k.sockets dsock (record (k.sockets dsock) {
            state = listening;
            conn_curr = 0;
            conn_max = 8;
            backlog = array;
          });
        })
