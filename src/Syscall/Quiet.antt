-- ===== src/Syscall/Quiet.antt =====
-- kernel/src/hel/syscall.cpp: the calls that connect nothing.
use ion_os.Base.{
  ℕ, ◌≡◌, ◌⊎◌, inl, inr, refl, subst, Bool, true, false, if◌then◌else◌, Option, none, some, arith,
  Option-cases,
}
use mathlib.Core.Option.{some-injective, none-ne-some}
use ion_os.Machine.{Run, done, fault, out_of_fuel, bounded}
use ion_os.Dsocket.{Pair}
use ion_os.Klibc.{Bytes}
use ion_os.Syscall.{
  listening, connected, Ops, normal_ops, accept_ops, unset, Kernel, driver_sockets, find_handle,
  with_handle, last_socket, chain_socket, k_driver_bind, k_driver_listen,
}
use ion_os.Syscall.Connect.{with_pair, send_on, recv_on, k_driver_send, k_driver_recv}
use ion_os.Syscall.Handshake.{with_handle-some}

-- A run that ends leaves `P`.
abbrev pub Leaves : {A : Type 0} → (A → Kernel → Type 0) → Run Kernel A → Type 0
Leaves P (done a k) = P a k
Leaves P fault = Unit {0}
Leaves P out_of_fuel = Unit {0}

module _ {A : Type 0} (P : A → Kernel → Type 0) where
  pub Leaves-done : (x : Run Kernel A) (a : A) (k : Kernel) → x ≡ done a k → Leaves P x → P a k
  Leaves-done x a k e h = subst (λ r. Leaves P r) e h

  pub Leaves-if :
      (b : Bool) (x y : Run Kernel A)
      → (b ≡ true → Leaves P x)
      → (b ≡ false → Leaves P y)
      → Leaves P (if b then x else y)
  Leaves-if true x y then_case else_case = then_case refl
  Leaves-if false x y then_case else_case = else_case refl

  pub Leaves-bounded :
      {B : Type 0} (o : Option B) (next : B → Run Kernel A)
      → ((b : B) → o ≡ some b → Leaves P (next b))
      → Leaves P (bounded o next)
  Leaves-bounded none next h = tt
  Leaves-bounded (some b) next h = h b refl

  pub Leaves-with_handle :
      (error : ℕ → A) (k : Kernel) (t id : ℕ) (next : ℕ → Run Kernel A)
      → ((r : ℕ) → P (error r) k)
      → ((h : ℕ) → find_handle (k.files t) id ≡ some h → Leaves P (next h))
      → Leaves P (with_handle error k t id next)
  unfolding with_handle
  Leaves-with_handle error k t id next bad good = elim (Option-cases (find_handle (k.files t) id)) [
    | inl missing ↦ rw (missing, with_handle) (bad _)
    | inr (h, e) ↦ rw (with_handle-some error k t id h next e) (good h e)
  ]

-- The connections of `k'` are those of `k`.
pub record Quiet (k k' : Kernel) : Type 0 where
  pub states : (a : ℕ) → (k'.sockets a).state ≡ connected → (k.sockets a).state ≡ connected
  pub pairs : (a : ℕ) → (k'.sockets a).pair ≡ (k.sockets a).pair
  pub binds : (a : ℕ) → (k'.sockets a).bind_addr ≡ (k.sockets a).bind_addr
  pub unasked :
      (a : ℕ)
      → (k'.sockets a).state ≡ listening
      → ((k'.sockets a).conn_curr ≡ 0)
        ⊎ (((k.sockets a).state ≡ listening) × ((k'.sockets a).conn_curr ≡ (k.sockets a).conn_curr))
  pub links : (a : ℕ) → (k'.links a).connected ≡ (k.links a).connected
  pub files : (t : ℕ) → k'.files t ≡ k.files t
  pub handles : (h : ℕ) → (k'.handles h).socket ≡ (k.handles h).socket

pub Quiet-refl : (k : Kernel) → Quiet k k
Quiet-refl k = record {
  states = λ a e. e;
  pairs = λ a. refl;
  binds = λ a. refl;
  unasked = λ a e. inr (e, refl);
  links = λ a. refl;
  files = λ t. refl;
  handles = λ h. refl;
}

pub k_driver_bind-Quiet :
    (t id addr : ℕ) (k : Kernel) → Leaves (λ r k'. Quiet k k') (k_driver_bind t id addr k)
unfolding k_driver_bind
k_driver_bind-Quiet t id addr k =
    Leaves-with_handle (λ r k'. Quiet k k') (λ e. e) k t id _ (λ r. Quiet-refl k)
      λ h e. record {
        states = λ a e. e;
        pairs = λ a. refl;
        binds = λ a. refl;
        unasked = λ a e. inr (e, refl);
        links = λ a. refl;
        files = λ t. refl;
        handles = λ h. refl;
      }

pub k_driver_listen-Quiet :
    (t id : ℕ) (array : ℕ → ℕ) (k : Kernel)
    → Leaves (λ r k'. Quiet k k') (k_driver_listen t id array k)
unfolding k_driver_listen
k_driver_listen-Quiet t id array k =
    Leaves-with_handle (λ r k'. Quiet k k') (λ e. e) k t id _ (λ r. Quiet-refl k)
      λ h e. record {
        states = λ a e. ground arith;
        pairs = λ a. ground arith;
        binds = λ a. ground arith;
        unasked = λ a e. ground arith;
        links = λ a. refl;
        files = λ t. refl;
        handles = λ h. refl;
      }

with_pair-Quiet :
    (k : Kernel) (dsock : ℕ) (pair : Option Pair) (m : Bytes) → Quiet k (with_pair k dsock pair m)
with_pair-Quiet k dsock none m = record {
  states = λ a e. e;
  pairs = λ a. refl;
  binds = λ a. refl;
  unasked = λ a e. inr (e, refl);
  links = λ a. refl;
  files = λ t. refl;
  handles = λ h. refl;
}
with_pair-Quiet k dsock (some pair) m = record {
  states = λ a e. e;
  pairs = λ a. refl;
  binds = λ a. refl;
  unasked = λ a e. inr (e, refl);
  links = λ a. ground arith;
  files = λ t. refl;
  handles = λ h. refl;
}

send_on-Quiet :
    (op : Ops) (dsock input limit : ℕ) (k : Kernel)
    → Leaves (λ r k'. Quiet k k') (send_on op dsock input limit k)
unfolding send_on
send_on-Quiet normal_ops dsock input limit k = with_pair-Quiet k dsock _ _
send_on-Quiet accept_ops dsock input limit k = with_pair-Quiet k dsock _ _
send_on-Quiet unset dsock input limit k = tt

recv_on-Quiet :
    (op : Ops) (dsock output limit : ℕ) (k : Kernel)
    → Leaves (λ r k'. Quiet k k') (recv_on op dsock output limit k)
unfolding recv_on
recv_on-Quiet normal_ops dsock output limit k = with_pair-Quiet k dsock _ _
recv_on-Quiet accept_ops dsock output limit k = with_pair-Quiet k dsock _ _
recv_on-Quiet unset dsock output limit k = tt

pub k_driver_send-Quiet :
    (t id input limit : ℕ) (k : Kernel)
    → Leaves (λ r k'. Quiet k k') (k_driver_send t id input limit k)
unfolding k_driver_send
k_driver_send-Quiet t id input limit k =
    Leaves-with_handle (λ r k'. Quiet k k') (λ e. e) k t id _ (λ r. Quiet-refl k)
      λ h e. send_on-Quiet ((k.handles h).op) ((k.handles h).socket) input limit k

pub k_driver_recv-Quiet :
    (t id output limit : ℕ) (k : Kernel)
    → Leaves (λ r k'. Quiet k k') (k_driver_recv t id output limit k)
unfolding k_driver_recv
k_driver_recv-Quiet t id output limit k =
    Leaves-with_handle (λ r k'. Quiet k k') (λ e. e) k t id _ (λ r. Quiet-refl k)
      λ h e. recv_on-Quiet ((k.handles h).op) ((k.handles h).socket) output limit k

-- The new socket is chained by the links alone.
pub chain_socket-Quiet :
    (fuel : ℕ) (k : Kernel) (socket : ℕ) (k' : Kernel)
    → chain_socket fuel k socket ≡ some k'
    → Quiet k k'
unfolding chain_socket
chain_socket-Quiet fuel k socket k' e =
    elim (Option-cases (last_socket fuel k.sockets driver_sockets)) [
      | inl lost ↦ absurd (none-ne-some k' (rw (lost, chain_socket) at e))
      | inr (d, at) ↦
          let same = some-injective _ _ (rw (at, chain_socket) at e) in
          subst (λ k'. Quiet k k') same
            (record {
              states = λ a e. ground arith;
              pairs = λ a. ground arith;
              binds = λ a. ground arith;
              unasked = λ a e. ground arith;
              links = λ a. refl;
              files = λ t. refl;
              handles = λ h. refl;
            })
    ]
