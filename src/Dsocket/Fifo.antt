-- ===== src/Dsocket/Fifo.antt =====
-- kernel/src/hel/dsocket.cpp: a direction of a socket as a queue of bytes.
use ion_os.Base.{
  ℕ, ◌+◌, ◌-◌, ◌%◌, ◌^◌, ◌<◌, ◌≤◌, ◌≡◌, ◌⊎◌, refl, true, ltb, if◌then◌else◌, arith, some, min, ap,
}
use ion_os.Klibc.{Bytes, memcpy}
use ion_os.Klibc.Move.{memcpy_lem, memmove_lem, in_bytes}
use ion_os.Dsocket.{
  Pair, append, take_front, dsocket_send, dsocket_recv, dsocket_accept_send, dsocket_accept_recv,
}

abbrev pub buff_size : ℕ
buff_size = 4096

-- Two ranges of bytes that do not meet.
abbrev pub NoOverlap : (s n t k : ℕ) → Type 0
NoOverlap s n t k = (s + n ≤ t) ⊎ (t + k ≤ s)

module _ (buffer pos input size : ℕ) (m : Bytes) (fits : pos + size ≤ buff_size)
    (high : buffer + buff_size < 2 ^ 64) (apart : NoOverlap buffer buff_size input size) where
  append-read :
      let (pos', m') = append buffer pos input size m in
      (pos' ≡ pos + size)
      × ((a : ℕ)
          → m' a
            ≡ (if in_bytes (buffer + pos) size a then m (input + (a - (buffer + pos))) else m a))
  unfolding append
  append-read =
      let place : (buffer + pos) % 2 ^ 64 ≡ buffer + pos = omega arith in
      let small : ltb pos (2 ^ 31) ≡ true = ground arith in
      rw (small, place) (omega arith, λ a. memcpy_lem (buffer + pos) input size a m (ground arith))

module _ (buffer pos output limit : ℕ) (m : Bytes) (fits : pos ≤ buff_size)
    (high : buffer + buff_size < 2 ^ 64) (apart : NoOverlap buffer buff_size output limit) where
  abbrev taken : ℕ
  taken = min limit pos

  take_front-read :
      let (pos', m') = take_front buffer pos output limit m in
      (pos' ≡ pos - taken)
      × ((i : ℕ) → i < taken → m' (output + i) ≡ m (buffer + i))
      × ((i : ℕ) → i < pos - taken → m' (buffer + i) ≡ m (buffer + taken + i))
  unfolding take_front
  take_front-read =
      let small : ltb pos (2 ^ 31) ≡ true = ground arith in
      let place : (buffer + taken) % 2 ^ 64 ≡ buffer + taken = omega arith in
      let left : (pos + 2 ^ 64 - taken) % 2 ^ 64 ≡ pos - taken = omega arith in
      let m1 = memcpy output buffer taken m in
      let copied = λ (a : ℕ). memcpy_lem output buffer taken a m (ground arith) in
      let moved = λ (a : ℕ). memmove_lem buffer (buffer + taken) (pos - taken) a m1 in
      rw (small, place, left)
        (
          omega arith,
          λ i lt. ground (arith, moved (output + i), copied (output + i)),
          λ i lt. ground (arith, moved (buffer + i), copied (buffer + taken + i)),
        )

-- Byte `i` of what the buffer holds once `input` is behind its `pos` bytes.
abbrev pub queued : (buffer pos input : ℕ) → Bytes → ℕ → ℕ
queued buffer pos input m i = if ltb i pos then m (buffer + i) else m (input + (i - pos))

module _ (pair : Pair) (input size output limit : ℕ) (m : Bytes) where
  take_front-append :
      (buffer pos : ℕ)
      → pos + size ≤ buff_size
      → buffer + buff_size < 2 ^ 64
      → NoOverlap buffer buff_size input size
      → NoOverlap buffer buff_size output limit
      → let (pos', m') = append buffer pos input size m in
        let (pos'', m'') = take_front buffer pos' output limit m' in
        let count = min limit (pos + size) in
        (pos'' ≡ pos + size - count)
        × ((i : ℕ) → i < count → m'' (output + i) ≡ queued buffer pos input m i)
        × ((i : ℕ)
            → i < pos + size - count
            → m'' (buffer + i) ≡ queued buffer pos input m (count + i))
  take_front-append buffer pos fits high apart away =
      let sent = append-read buffer pos input size m fits high apart in
      let m' = (append buffer pos input size m).1 in
      let got = take_front-read buffer (pos + size) output limit m' fits high away in
      let count = min limit (pos + size) in
      rw (sent.0) (
        got.0,
        λ i lt. ground (arith, got.1 i, sent.1 (buffer + i)),
        λ i lt. ground (arith, got.2 i, sent.1 (buffer + count + i)),
      )

  -- What one side sends the other side receives, in order and behind what was sent before: after
  -- `dsocket_send` of `size` bytes, `dsocket_accept_recv` gets the first bytes of the queue, as
  -- many as it asks for and the queue has, and the rest stays in the buffer. The bytes sent have
  -- room in the 4096 bytes of the buffer, and neither they nor the receiver's bytes meet it. The
  -- call returns `limit`, whatever it copied.
  pub dsocket_accept_recv-dsocket_send :
      let buffer = pair.server_buffer in
      let pos = pair.server_buffer_pos in
      pos + size ≤ buff_size
      → buffer + buff_size < 2 ^ 64
      → NoOverlap buffer buff_size input size
      → NoOverlap buffer buff_size output limit
      → let (sent, shared, m') = dsocket_send (some pair) input size m in
        let (got, shared', m'') = dsocket_accept_recv shared output limit m' in
        let count = min limit (pos + size) in
        ((sent ≡ size) × (got ≡ limit))
        × (shared' ≡ some (record pair { server_buffer_pos = pos + size - count }))
        × ((i : ℕ) → i < count → m'' (output + i) ≡ queued buffer pos input m i)
        × ((i : ℕ)
            → i < pos + size - count
            → m'' (buffer + i) ≡ queued buffer pos input m (count + i))
  unfolding dsocket_send dsocket_accept_recv
  dsocket_accept_recv-dsocket_send fits high apart away =
      let queue =
        take_front-append pair.server_buffer pair.server_buffer_pos fits high apart away in
      (
        (refl, refl),
        ap (λ p. some (record pair { server_buffer_pos = p })) (queue.0),
        queue.1,
        queue.2,
      )

  -- The same for the other direction.
  pub dsocket_recv-dsocket_accept_send :
      let buffer = pair.client_buffer in
      let pos = pair.client_buffer_pos in
      pos + size ≤ buff_size
      → buffer + buff_size < 2 ^ 64
      → NoOverlap buffer buff_size input size
      → NoOverlap buffer buff_size output limit
      → let (sent, shared, m') = dsocket_accept_send (some pair) input size m in
        let (got, shared', m'') = dsocket_recv shared output limit m' in
        let count = min limit (pos + size) in
        ((sent ≡ size) × (got ≡ limit))
        × (shared' ≡ some (record pair { client_buffer_pos = pos + size - count }))
        × ((i : ℕ) → i < count → m'' (output + i) ≡ queued buffer pos input m i)
        × ((i : ℕ)
            → i < pos + size - count
            → m'' (buffer + i) ≡ queued buffer pos input m (count + i))
  unfolding dsocket_accept_send dsocket_recv
  dsocket_recv-dsocket_accept_send fits high apart away =
      let queue =
        take_front-append pair.client_buffer pair.client_buffer_pos fits high apart away in
      (
        (refl, refl),
        ap (λ p. some (record pair { client_buffer_pos = p })) (queue.0),
        queue.1,
        queue.2,
      )
