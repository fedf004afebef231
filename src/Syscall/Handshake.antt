-- ===== src/Syscall/Handshake.antt =====
-- kernel/src/hel/syscall.cpp: the descriptor at the start of a call, and the two ends of a
-- connection.
use ion_os.Base.{ℕ, ◌≡◌, refl, true, none, some}
use ion_os.Machine.{Run, done}
use ion_os.Syscall.{
  disconnected, connected, normal_ops, accept_ops, Kernel, with_handle, find_handle, bad_handler,
}

-- A good descriptor hands its handle to the rest of the call.
pub with_handle-some :
    {A : Type 0} (error : ℕ → A) (k : Kernel) (t id handle : ℕ) (next : ℕ → Run Kernel A)
    → find_handle (k.files t) id ≡ some handle
    → with_handle error k t id next ≡ next handle
unfolding with_handle
with_handle-some error k t id handle next e = rw (e, with_handle) refl

pub with_handle-none :
    {A : Type 0} (error : ℕ → A) (k : Kernel) (t id : ℕ) (next : ℕ → Run Kernel A)
    → find_handle (k.files t) id ≡ none
    → with_handle error k t id next ≡ done (error bad_handler) k
unfolding with_handle
with_handle-none error k t id next e = rw (e, with_handle) refl

-- The client `c` and the socket `e` are the two ends of `pair`, and the listening socket `d` waits
-- for nobody any more, though it still counts one connection.
pub record Joined (k : Kernel) (c ch e eh d pair : ℕ) : Type 0 where
  pub client_state : (k.sockets c).state ≡ connected
  pub client_pair : (k.sockets c).pair ≡ pair
  pub client_ops : (k.handles ch).op ≡ normal_ops
  pub server_state : (k.sockets e).state ≡ connected
  pub server_pair : (k.sockets e).pair ≡ pair
  pub server_ops : (k.handles eh).op ≡ accept_ops
  pub server_socket : (k.handles eh).socket ≡ e
  pub is_open : (k.links pair).connected ≡ true
  pub listener_state : (k.sockets d).state ≡ disconnected
  pub listener_count : (k.sockets d).conn_curr ≡ 1
