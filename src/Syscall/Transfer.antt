-- ===== src/Syscall/Transfer.antt =====
-- kernel/src/hel/syscall.cpp: what the client of a connection sends, its server receives.
use ion_os.Base.{ℕ, ◌+◌, ◌<◌, ◌≤◌, ◌≡◌, ◌≢◌, refl, ◌∙◌, true, false, ◌==◌, some, arith, min, ◌^◌}
use ion_os.Machine.{done}
use ion_os.Memory.{null}
use ion_os.Klibc.{Bytes}
use ion_os.Dsocket.{Pair, append, take_front, dsocket_send, dsocket_accept_recv}
use ion_os.Dsocket.Fifo.{buff_size, NoOverlap, queued, dsocket_accept_recv-dsocket_send}
use ion_os.Syscall.{Kernel, find_handle, put}
use ion_os.Syscall.Connect.{send_on, recv_on, k_driver_send, k_driver_recv}
use ion_os.Syscall.Handshake.{with_handle-some, Joined}

module _ (k : Kernel) (tc cid ch c ts eid eh e d pair input size output limit : ℕ)
    (joined : Joined k c ch e eh d pair) (some_pair : pair ≢ null)
    (client : find_handle (k.files tc) cid ≡ some ch)
    (server : find_handle (k.files ts) eid ≡ some eh) (is_c : (k.handles ch).socket ≡ c) where
  abbrev buffers : Pair
  buffers = (k.links pair).buffers

  -- the buffers and the bytes behind the send
  abbrev grown : Pair
  grown = record buffers {
    server_buffer_pos =
        (append buffers.server_buffer buffers.server_buffer_pos input size k.bytes).0;
  }

  abbrev sent : Kernel
  sent = record k {
    bytes = (append buffers.server_buffer buffers.server_buffer_pos input size k.bytes).1;
    links = put k.links pair (record (k.links pair) { buffers = grown });
  }

  k_driver_send-sent : k_driver_send tc cid input size k ≡ done size sent
  unfolding k_driver_send send_on dsocket_send
  k_driver_send-sent =
      let real : (pair == null) ≡ false = ground arith in
      with_handle-some (λ e. e) k tc cid ch _ client
      ∙ rw (joined.client_ops, is_c, joined.client_pair, real) (rw joined.client_pair refl)

  abbrev taken : ℕ × Bytes
  taken = take_front grown.server_buffer grown.server_buffer_pos output limit sent.bytes

  abbrev received : Kernel
  received = record sent {
    bytes = taken.1;
    links =
        put sent.links pair
          (record (sent.links pair) { buffers = record grown { server_buffer_pos = taken.0 } });
  }

  k_driver_recv-received : k_driver_recv ts eid output limit sent ≡ done limit received
  unfolding k_driver_recv recv_on dsocket_accept_recv
  k_driver_recv-received =
      let real : (pair == null) ≡ false = ground arith in
      let same : (pair == pair) ≡ true = ground arith in
      with_handle-some (λ e. e) sent ts eid eh _ server
      ∙ rw (joined.server_ops, joined.server_socket, joined.server_pair, real, same)
          (rw (joined.server_pair, same) refl)

  -- Over a connection the server's recv gets the bytes that the client's send has queued, as many
  -- as it asks for and are there; the bytes have room in the 4096 of the buffer, and neither they
  -- nor the receiver's bytes meet it.
  pub k_driver_recv-k_driver_send :
      let pos = buffers.server_buffer_pos in
      let buffer = buffers.server_buffer in
      pos + size ≤ buff_size
      → buffer + buff_size < 2 ^ 64
      → NoOverlap buffer buff_size input size
      → NoOverlap buffer buff_size output limit
      → (k' : Kernel) × (k'' : Kernel) × (k_driver_send tc cid input size k ≡ done size k')
        × (k_driver_recv ts eid output limit k' ≡ done limit k'')
        × ((i : ℕ)
            → i < min limit (pos + size)
            → k''.bytes (output + i) ≡ queued buffer pos input k.bytes i)
  unfolding dsocket_send dsocket_accept_recv
  k_driver_recv-k_driver_send fits high apart away =
      let queue =
        dsocket_accept_recv-dsocket_send buffers input size output limit k.bytes fits high apart
          away in
      (sent, received, k_driver_send-sent, k_driver_recv-received, queue.2)
