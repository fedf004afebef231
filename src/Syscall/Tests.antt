-- ===== src/Syscall/Tests.antt =====
-- A connection whose two ends thread 1 has descriptors of, and the first call after a start.
use mathlib.Core.Option.{none-ne-some}
use ion_os.Base.{
  ℕ, ◌+◌, ◌<◌, ◌≡◌, inl, refl, true, false, arith, ◌==◌, ltb, if◌then◌else◌, Option, none, some,
  min, [],
}
use ion_os.Base.Bits.{test_bit}
use ion_os.Machine.{Run, done}
use ion_os.Klibc.{Bytes, strlen}
use ion_os.Bitmap.{Bitmap, get}
use ion_os.Dsocket.Fifo.{queued}
use ion_os.Thread.{first_free, set_entry, add_fd_info}
use ion_os.Frame.One.{free_below}
use ion_os.PageTable
use ion_os.PageTable.{Machine}
use ion_os.PageTable.Words.{higher_half}
use ion_os.PageTable.Map.{rooted}
use ion_os.PageTable.Tree.{Place, IsTree}
use ion_os.Syscall.{
  Socket, disconnected, connected, Link, normal_ops, accept_ops, unset, FdInfo, Kernel, find_handle,
  last_socket, not_found, path_length, k_driver_cskt, k_driver_listen, put,
}
use ion_os.Syscall.Connect.{returned, new_link, connect_begin, Fresh, k_driver_send, k_driver_recv}
use ion_os.Syscall.Handshake.{Joined}
use ion_os.Syscall.Transfer.{k_driver_recv-k_driver_send}
use ion_os.Syscall.Refused.{connect_begin-Reach}
use ion_os.Syscall.Map.{k_hel_physmap, translate_addr-k_hel_physmap}
use ion_os.Syscall.Steps.{System, Start, Reach, Step}
use ion_os.Syscall.Steps

-- The path "a" at 1001.
abbrev bytes : Bytes
bytes a = if a == 1001 then 97 else 0

abbrev idle : Socket
idle = record {
  next = 0;
  flags = 0;
  bind_addr = 3000;
  state = disconnected;
  conn_max = 0;
  conn_curr = 0;
  backlog = λ i. 0;
  pair = 0;
}

abbrev fds : ℕ → Option FdInfo
fds i =
    if i == 3
    then some (record { is_dsocket = true; dsock_handle = 300 })
    else if i == 4
    then some (record { is_dsocket = true; dsock_handle = 400 })
    else none

abbrev sample : Kernel
sample = record {
  sockets = λ a. idle;
  links = λ l. new_link;
  handles = λ h. record { op = unset; socket = if h == 300 then 200 else 100 };
  files = λ t. if t == 1 then some (record { fds = fds; max_fd_count = 32 }) else none;
  bytes = bytes;
}

client : find_handle (sample.files 1) 3 ≡ some 300
unfolding find_handle
client = refl

server : find_handle (sample.files 1) 4 ≡ some 400
unfolding find_handle
server = refl

-- The two ends of a connection, with nothing sent yet.
abbrev open_link : Link
open_link = record {
  connected = true;
  path = 5000;
  client_fds = 1;
  server_fds = 1;
  buffers = record {
    client_buffer = 12288;
    client_buffer_pos = 0;
    server_buffer = 8192;
    server_buffer_pos = 0;
  };
}

abbrev ends : ℕ → Socket
ends a =
    if a == 100
    then record idle { conn_curr = 1; conn_max = 7 }
    else record idle { state = connected; pair = 500 }

abbrev joined : Kernel
joined = record {
  sockets = ends;
  links = λ l. open_link;
  handles = λ h.
      if h == 300
      then record { op = normal_ops; socket = 200 }
      else record { op = accept_ops; socket = 600 };
  files = λ t. if t == 1 then some (record { fds = fds; max_fd_count = 32 }) else none;
  bytes = λ a. a;
}

joined-Joined : Joined joined 200 300 600 400 100 500
joined-Joined = record {
  client_state = refl;
  client_pair = refl;
  client_ops = refl;
  server_state = refl;
  server_pair = refl;
  server_ops = refl;
  server_socket = refl;
  is_open = refl;
  listener_state = refl;
  listener_count = refl;
}

k_driver_recv-k_driver_send_example :
    (k' : Kernel) × (k'' : Kernel) × (k_driver_send 1 3 20480 5 joined ≡ done 5 k')
    × (k_driver_recv 1 4 24576 3 k' ≡ done 3 k'')
    × ((i : ℕ) → i < min 3 5 → k''.bytes (24576 + i) ≡ queued 8192 0 20480 (λ a. a) i)
k_driver_recv-k_driver_send_example =
    k_driver_recv-k_driver_send joined 1 3 300 200 1 4 400 600 100 500 20480 5 24576 3 joined-Joined
      (omega arith) client server refl (omega arith) (omega arith) (inl (omega arith))
      (inl (omega arith))

-- A start, and the first call of a thread.
abbrev blank : Kernel
blank = record sample {
  files = λ t. some (record { fds = λ i. none; max_fd_count = 32 });
  sockets = λ a. record idle { bind_addr = 0 };
}

abbrev booted : System
booted = record { kernel = blank; live = λ a. a == 8; waits = λ t. none }

booted-Start : Start booted
unfolding find_handle
booted-Start = record {
  only_head = λ a l. ground arith;
  head_state = refl;
  head_unbound = refl;
  head_live = refl;
  no_files = λ t id. refl;
  no_waits = λ t. refl;
}

abbrev kernel_of : Run Kernel ℕ → Kernel
kernel_of (done r k) = k
kernel_of _ = blank

-- Thread 1 makes a socket at 200 with a handle at 300.
abbrev with_socket : Kernel
with_socket = kernel_of (k_driver_cskt 5 1 0 300 200 5200 blank)

abbrev system : System
system = record { kernel = with_socket; live = put (λ a. a == 8) 200 true; waits = λ t. none }

system-Reach : Reach booted system
unfolding find_handle k_driver_cskt last_socket first_free set_entry add_fd_info
system-Reach =
    Steps.later Steps.start
      (Steps.create 5 1 0 300 200 5200 0 refl (λ t id e. none-ne-some 300 e) refl)

empty_path : connect_begin 6 1 0 3000 500 with_socket ≡ done (returned not_found) with_socket
unfolding find_handle k_driver_cskt last_socket first_free set_entry add_fd_info path_length strlen
empty_path = connect_begin-Reach booted system 5 1 0 3000 500 200 booted-Start system-Reach refl

-- Thread 1 listens on its socket, and accepts.
abbrev listener : Kernel
listener = kernel_of (k_driver_listen 1 0 (λ i. 0) with_socket)

abbrev heard : System
heard = record system { kernel = listener }

abbrev new : Fresh
new = record {
  path = 5000;
  server_buffer = 8192;
  client_buffer = 12288;
  handle = 700;
  socket = 600;
  bind_addr = 5200;
}

-- physmap on the tables of the page table's tests
abbrev frames : Bitmap
frames = record { bytes = λ i. if ltb i 2 then 0 else 255; size = 64 }

abbrev machine : Machine
machine = record { ram = λ a. 0; frames = frames }

abbrev place : Place
place f = if f == 1 then some [] else none

one_used : get frames 1 ≡ false
unfolding get test_bit
one_used = refl

machine-IsTree : IsTree machine 1 place
machine-IsTree = record {
  top = refl;
  low = λ f p e. ground arith;
  inside = λ f p e. ground arith;
  in_use = λ f p e. let root : f ≡ 1 = ground arith in rw root one_used;
  below = λ f i p e inner li. inl refl;
  frames = record { bytes = record { byte = λ i. ground arith }; small = omega arith };
  few = omega arith;
}

translate_addr-k_hel_physmap_example :
    PageTable.translate_addr higher_half
      (rooted 1 true)
      (k_hel_physmap higher_half 4096 0xfee00000 100 machine).1
      (k_hel_physmap higher_half 4096 0xfee00000 100 machine).0
    ≡ 0xfee00000
unfolding free_below get test_bit
translate_addr-k_hel_physmap_example =
    translate_addr-k_hel_physmap machine 1 0xfee00000 100 place machine-IsTree (omega arith)
      (omega arith) (omega arith) (omega arith) refl (omega arith)
