-- ===== src/Syscall/Refused.antt =====
-- kernel/src/hel/syscall.cpp: what connect and accept do in the
-- states that calls lead to.
use ion_os.Base.{
  ℕ, zero, suc, ◌≡◌, ◌≢◌, inl, inr, refl, ◌∙◌, false, not, ◌&&◌, ◌==◌, if◌then◌else◌, Option, none,
  some, arith, Bool-cases, Option-cases,
}
use mathlib.Core.Option.{none-ne-some}
use ion_os.Machine.{Run, done, fault}
use ion_os.Memory.{null}
use ion_os.Klibc.{Bytes}
use ion_os.Syscall.{
  Socket, Kernel, driver_sockets, d_path, path_length, bad_handler, already_connected, not_found,
  find_handle, last_socket,
}
use ion_os.Syscall.Connect.{Outcome, returned, stopped, search_socket, connect_begin}
use ion_os.Syscall.Handshake.{with_handle-some, with_handle-none}
use ion_os.Syscall.Search.{memcmp-empty}
use ion_os.Syscall.Steps.{System, Start, Reach}
use ion_os.Syscall.Reachable.{Reach-Inv}

-- How a connect ends at once: with an error that changes nothing, or with a fault. `path` is the
-- length of the path.
abbrev pub refused : Kernel → Option ℕ → (path : ℕ) → Run Kernel Outcome
refused k none path = done (returned bad_handler) k
refused k (some handle) path =
    if not ((k.sockets ((k.handles handle).socket)).pair == null)
    then done (returned already_connected) k
    else if path == 0
    then done (returned not_found) k
    else fault

-- Every socket of the chain matches the empty path.
search_socket-empty :
    (fuel : ℕ) (sockets : ℕ → Socket) (m : Bytes) (path d last : ℕ)
    → d ≢ null
    → last_socket fuel sockets d ≡ some last
    → search_socket (suc fuel) sockets m path 0 d ≡ stopped null
unfolding search_socket last_socket
search_socket-empty zero sockets m path d last real e = absurd (none-ne-some last e)
search_socket-empty (suc fuel) sockets m path d last real e =
    let here : (d == null) ≡ false = ground arith in
    let empty : ((sockets d).bind_addr == null && not (0 == 0)) ≡ false = ground arith in
    let equal = memcmp-empty ((sockets d).bind_addr) path m in
    elim (Bool-cases ((sockets d).next == null)) [
      | inl end ↦ rw (here, empty, equal, end) refl
      | inr more ↦
          let rest =
            search_socket-empty fuel sockets m path ((sockets d).next) last (ground arith)
              (rw more at e) in
          rw (here, empty, equal) (rw more (rw more at rest))
    ]

connect_begin-refused :
    (k : Kernel) (fuel t id addr pair last : ℕ)
    → (k.sockets driver_sockets).bind_addr ≡ null
    → last_socket fuel k.sockets driver_sockets ≡ some last
    → connect_begin (suc fuel) t id addr pair k
      ≡ refused k (find_handle (k.files t) id) (path_length addr k.bytes)
unfolding connect_begin
connect_begin-refused k fuel t id addr pair last unbound chain =
    let len = path_length addr k.bytes in
    elim (Option-cases (find_handle (k.files t) id)) [
      | inl bad ↦ rw bad (with_handle-none returned k t id _ bad)
      | inr (h, good) ↦ rw good (
          with_handle-some returned k t id h _ good
          ∙ elim (Bool-cases ((k.sockets ((k.handles h).socket)).pair == null)) [
            | inr joined ↦ rw joined refl
            | inl alone ↦ elim (Bool-cases (len == 0)) [
              | inl empty ↦
                  let none : len ≡ 0 = ground arith in
                  let search =
                    search_socket-empty fuel k.sockets k.bytes (d_path addr) driver_sockets last
                      (omega arith) chain in
                  rw (alone, none, search) refl
              | inr some_path ↦ rw (alone, some_path, unbound) refl
            ]
          ])
    ]

pub connect_begin-Reach :
    (s s' : System) (fuel t id addr pair last : ℕ)
    → Start s
    → Reach s s'
    → last_socket fuel s'.kernel.sockets driver_sockets ≡ some last
    → connect_begin (suc fuel) t id addr pair s'.kernel
      ≡ refused s'.kernel (find_handle (s'.kernel.files t) id) (path_length addr s'.kernel.bytes)
connect_begin-Reach s s' fuel t id addr pair last st reach chain =
    connect_begin-refused s'.kernel fuel t id addr pair last ((Reach-Inv s s' st reach).unbound)
      chain
