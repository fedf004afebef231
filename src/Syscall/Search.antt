-- ===== src/Syscall/Search.antt =====
-- kernel/src/hel/syscall.cpp: where the search of connect ends.
use ion_os.Base.{
  ℕ, zero, suc, ◌≡◌, ◌≢◌, inl, inr, refl, sym, ap, ◌∙◌, false, not, ◌&&◌, ◌==◌, arith, Bool-cases,
}
use ion_os.Memory.{null}
use ion_os.Klibc.{Bytes, memcmp, same}
use ion_os.Syscall.{Socket}
use ion_os.Syscall.Connect.{Search, stopped, null_read, endless, search_socket}

pub memcmp-empty : (a b : ℕ) (m : Bytes) → memcmp a b 0 m ≡ same
unfolding memcmp
memcmp-empty a b m = refl

abbrev socket_of : Search → ℕ
socket_of (stopped d) = d
socket_of null_read = null
socket_of endless = null

-- With the empty path the search stops at no socket.
search_socket-passes :
    (fuel : ℕ) (sockets : ℕ → Socket) (m : Bytes) (path d : ℕ)
    → socket_of (search_socket fuel sockets m path 0 d) ≡ null
unfolding search_socket
search_socket-passes zero sockets m path d = refl
search_socket-passes (suc fuel) sockets m path d =
    let empty : ((sockets d).bind_addr == null && not (0 == 0)) ≡ false = ground arith in
    let equal = memcmp-empty ((sockets d).bind_addr) path m in
    elim (Bool-cases (d == null)) [
      | inl end ↦ rw end refl
      | inr here ↦
          rw (here, empty, equal) (search_socket-passes fuel sockets m path ((sockets d).next))
    ]

-- From a socket that is bound to nothing the search stops at no socket.
search_socket-lost :
    (fuel : ℕ) (sockets : ℕ → Socket) (m : Bytes) (path len d : ℕ)
    → d ≢ null
    → (sockets d).bind_addr ≡ null
    → socket_of (search_socket fuel sockets m path len d) ≡ null
unfolding search_socket
search_socket-lost zero sockets m path len d real unbound = refl
search_socket-lost (suc fuel) sockets m path len d real unbound =
    let here : (d == null) ≡ false = ground arith in
    elim (Bool-cases (len == 0)) [
      | inr some_path ↦ rw (here, unbound, some_path) refl
      | inl empty ↦
          let none : len ≡ 0 = ground arith in
          rw none (search_socket-passes (suc fuel) sockets m path d)
    ]

pub search_socket-null :
    (fuel : ℕ) (sockets : ℕ → Socket) (m : Bytes) (path len d e : ℕ)
    → d ≢ null
    → (sockets d).bind_addr ≡ null
    → search_socket fuel sockets m path len d ≡ stopped e
    → e ≡ null
search_socket-null fuel sockets m path len d e real unbound found =
    sym (ap socket_of found) ∙ search_socket-lost fuel sockets m path len d real unbound
