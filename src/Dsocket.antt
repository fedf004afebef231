-- ===== src/Dsocket.antt =====
-- kernel/src/hel/dsocket.cpp: the two directions of a driver socket, each a buffer of the pair that
-- the two connected sockets share. Positions are of type int, kept as their 32 bits.
pub mod Fifo
use ion_os.Base.{
  ℕ, ◌+◌, ◌-◌, ◌%◌, ◌^◌, ◌<◌, Bool, true, false, ltb, if◌then◌else◌, Option, none, some, min,
  sub_size, add_size,
}
use ion_os.Klibc.{Bytes, memcpy, memmove}

-- The fields of dsocket_pair_t that the four operations use; buffers are addresses.
pub record Pair : Type 0 where
  pub client_buffer : ℕ
  pub client_buffer_pos : ℕ
  pub server_buffer : ℕ
  pub server_buffer_pos : ℕ

-- (std::size_t)-k_hel_error_not_connected
abbrev pub not_connected : ℕ
not_connected = 2 ^ 64 - 6

-- An int converted to size_t.
abbrev pub widen : ℕ → ℕ
widen pos = if ltb pos (2 ^ 31) then pos else pos + (2 ^ 64 - 2 ^ 32)

-- buffer[pos]
abbrev pub at_pos : ℕ → ℕ → ℕ
at_pos buffer pos = add_size buffer (widen pos)

-- The bytes at `in` are put behind the buffer's: the new position and the memory.
unfoldable pub append : (buffer pos input limit : ℕ) → Bytes → ℕ × Bytes
append buffer pos input limit m =
    (add_size (widen pos) limit % 2 ^ 32, memcpy (at_pos buffer pos) input limit m)

-- At most `limit` bytes are taken off the front of the buffer.
unfoldable pub take_front : (buffer pos output limit : ℕ) → Bytes → ℕ × Bytes
take_front buffer pos output limit m =
    let to_copy = min limit (widen pos) in
    let m' = memcpy output buffer to_copy m in
    (
      sub_size (widen pos) to_copy % 2 ^ 32,
      memmove buffer (add_size buffer to_copy) (sub_size (widen pos) to_copy) m',
    )

-- The result, the pair of the socket, and the memory.
unfoldable pub dsocket_send : Option Pair → (input limit : ℕ) → Bytes → ℕ × Option Pair × Bytes
unfolding append
dsocket_send none input limit m = (not_connected, none, m)
dsocket_send (some pair) input limit m =
    let (pos, m') = append pair.server_buffer pair.server_buffer_pos input limit m in
    (limit, some (record pair { server_buffer_pos = pos }), m')

unfoldable pub dsocket_accept_send :
    Option Pair → (input limit : ℕ) → Bytes → ℕ × Option Pair × Bytes
unfolding append
dsocket_accept_send none input limit m = (not_connected, none, m)
dsocket_accept_send (some pair) input limit m =
    let (pos, m') = append pair.client_buffer pair.client_buffer_pos input limit m in
    (limit, some (record pair { client_buffer_pos = pos }), m')

unfoldable pub dsocket_recv : Option Pair → (output limit : ℕ) → Bytes → ℕ × Option Pair × Bytes
unfolding take_front
dsocket_recv none output limit m = (not_connected, none, m)
dsocket_recv (some pair) output limit m =
    let (pos, m') = take_front pair.client_buffer pair.client_buffer_pos output limit m in
    (limit, some (record pair { client_buffer_pos = pos }), m')

unfoldable pub dsocket_accept_recv :
    Option Pair → (output limit : ℕ) → Bytes → ℕ × Option Pair × Bytes
unfolding take_front
dsocket_accept_recv none output limit m = (not_connected, none, m)
dsocket_accept_recv (some pair) output limit m =
    let (pos, m') = take_front pair.server_buffer pair.server_buffer_pos output limit m in
    (limit, some (record pair { server_buffer_pos = pos }), m')
