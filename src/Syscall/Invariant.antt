-- ===== src/Syscall/Invariant.antt =====
-- kernel/src/hel/syscall.cpp: what holds of the sockets whatever the threads call.
use mathlib.Core.Option.{some-injective, none-ne-some}
use ion_os.Base.{
  ℕ, ◌≡◌, ◌≢◌, ◌⊎◌, inl, inr, sym, subst, ◌∙◌, ap, true, false, ◌==◌, if◌then◌else◌, Option, none,
  some, arith, Bool-cases, Option-cases,
}
use ion_os.Memory.{null}
use ion_os.Thread.{FileInfo, add_fd_info, first_free, set_entry}
use ion_os.Syscall.{
  disconnected, listening, connected, FdInfo, Kernel, put, driver_sockets, find_handle, new_fd,
}
use ion_os.Syscall.Quiet.{Quiet}
use ion_os.Syscall.Steps.{System, NewHandle, Start}

-- A connected socket has a pair that is connected; a thread that waits has its pair in its
-- socket; and descriptors lead to sockets.
pub record Inv (s : System) : Type 0 where
  pub linked :
      (a : ℕ)
      → s.live a ≡ true
      → (s.kernel.sockets a).state ≡ connected
      → ((s.kernel.sockets a).pair ≢ null)
        × ((s.kernel.links ((s.kernel.sockets a).pair)).connected ≡ true)
  pub waiting :
      (t c p : ℕ)
      → s.waits t ≡ some (c, p)
      → (s.live c ≡ true) × ((s.kernel.sockets c).pair ≡ p) × (p ≢ null)
  pub unasked :
      (a : ℕ)
      → s.live a ≡ true
      → (s.kernel.sockets a).state ≡ listening
      → (s.kernel.sockets a).conn_curr ≡ 0
  pub unbound : (s.kernel.sockets driver_sockets).bind_addr ≡ null
  pub head_live : s.live driver_sockets ≡ true
  pub owned :
      (t id h : ℕ)
      → find_handle (s.kernel.files t) id ≡ some h
      → s.live ((s.kernel.handles h).socket) ≡ true

pub Start-Inv : (s : System) → Start s → Inv s
Start-Inv s st = record {
  linked = λ a l e. absurd (different (rw (st.only_head a l) at e));
  waiting = λ t c p e. absurd (none-ne-some _ (sym (st.no_waits t) ∙ e));
  owned = λ t id h e. absurd (none-ne-some _ (sym (st.no_files t id) ∙ e));
  unasked = λ a l e. absurd (idle (rw (st.only_head a l) at e));
  unbound = st.head_unbound;
  head_live = st.head_live;
}
  where
    different : ¬ ((s.kernel.sockets driver_sockets).state ≡ connected)
    different e = let both : disconnected ≡ connected = sym st.head_state ∙ e in ground arith

    idle : ¬ ((s.kernel.sockets driver_sockets).state ≡ listening)
    idle e = let both : disconnected ≡ listening = sym st.head_state ∙ e in ground arith

pub Inv-Quiet : (s : System) (k : Kernel) → Inv s → Quiet s.kernel k → Inv (record s { kernel = k })
Inv-Quiet s k inv q = record {
  linked = λ a l e.
      let before = inv.linked a l (q.states a e) in
      rw (q.pairs a, q.links ((s.kernel.sockets a).pair)) before;
  waiting =
      λ t c p e. let before = inv.waiting t c p e in (before.0, q.pairs c ∙ before.1, before.2);
  unasked = λ a l e. elim (q.unasked a e) [
    | inl none_yet ↦ none_yet
    | inr kept ↦ kept.1 ∙ inv.unasked a l kept.0
  ];
  unbound = q.binds driver_sockets ∙ inv.unbound;
  head_live = inv.head_live;
  owned = λ t id h e.
      rw (q.handles h) (inv.owned t id h (ap (λ f. find_handle f id) (sym (q.files t)) ∙ e));
}

-- The descriptors with a new one in entry `i`.
abbrev with_entry : FileInfo FdInfo → (i handle : ℕ) → FileInfo FdInfo
with_entry info i handle = record info {
  fds = set_entry info.fds i (record { is_dsocket = true; dsock_handle = handle });
}

new_entry :
    (info : FileInfo FdInfo) (handle id h i : ℕ)
    → (id == i) ≡ true
    → find_handle (some (with_entry info i handle)) id ≡ some h
    → h ≡ handle
unfolding find_handle set_entry
new_entry info handle id h i here e = sym (some-injective _ _ (rw (here, find_handle) at e))

old_entry :
    (info : FileInfo FdInfo) (handle id h i : ℕ)
    → (id == i) ≡ false
    → find_handle (some (with_entry info i handle)) id ≡ some h
    → find_handle (some info) id ≡ some h
unfolding find_handle set_entry
old_entry info handle id h i other e = (rw (other, find_handle) at e)

-- A descriptor behind `add_fd_info` is one from before or the new one.
add_fd_info-find_handle :
    (files : Option (FileInfo FdInfo)) (handle id h : ℕ)
    → find_handle (add_fd_info files (record { is_dsocket = true; dsock_handle = handle })).1 id
      ≡ some h
    → (find_handle files id ≡ some h) ⊎ (h ≡ handle)
unfolding add_fd_info
add_fd_info-find_handle none handle id h e = inl e
add_fd_info-find_handle (some info) handle id h e =
    elim (Option-cases (first_free info.max_fd_count 0 info.fds)) [
      | inl full ↦ inl (rw (full, add_fd_info) at e)
      | inr (i, at) ↦
          let e' = (rw (at, add_fd_info) at e) in
          elim (Bool-cases (id == i)) [
            | inl here ↦ inr (new_entry info handle id h i here e')
            | inr other ↦ inl (old_entry info handle id h i other e')
          ]
    ]

new_fd-find_handle :
    (k : Kernel) (t handle t' id h : ℕ)
    → find_handle ((new_fd k t handle).1.files t') id ≡ some h
    → (find_handle (k.files t') id ≡ some h) ⊎ (h ≡ handle)
unfolding new_fd
new_fd-find_handle k t handle t' id h e = elim (Bool-cases (t' == t)) [
  | inr other ↦ inl (rw other at e)
  | inl here ↦
      let same : t' ≡ t = ground arith in
      subst (λ x. (find_handle (k.files x) id ≡ some h) ⊎ (h ≡ handle)) (sym same)
        (add_fd_info-find_handle (k.files t) handle id h (rw here at e))
]

-- A call that makes a socket with a handle: what it does before it chains the socket.
pub record Made (s : System) (made : Kernel) (socket handle : ℕ) : Type 0 where
  pub states :
      (a : ℕ)
      → s.live a ≡ true
      → (made.sockets a).state ≡ connected
      → (s.kernel.sockets a).state ≡ connected
  pub pairs : (a : ℕ) → s.live a ≡ true → (made.sockets a).pair ≡ (s.kernel.sockets a).pair
  pub unasked :
      (a : ℕ)
      → s.live a ≡ true
      → (made.sockets a).state ≡ listening
      → ((s.kernel.sockets a).state ≡ listening)
        × ((made.sockets a).conn_curr ≡ (s.kernel.sockets a).conn_curr)
  pub not_listening : (made.sockets socket).state ≢ listening
  pub binds :
      (a : ℕ) → s.live a ≡ true → (made.sockets a).bind_addr ≡ (s.kernel.sockets a).bind_addr
  pub links : (l : ℕ) → (s.kernel.links l).connected ≡ true → (made.links l).connected ≡ true
  pub linked :
      (made.sockets socket).state ≡ connected
      → ((made.sockets socket).pair ≢ null)
        × ((made.links ((made.sockets socket).pair)).connected ≡ true)
  pub handles :
      (h : ℕ)
      → (made.handles h).socket ≡ (if h == handle then socket else (s.kernel.handles h).socket)
  pub files : (t : ℕ) → made.files t ≡ s.kernel.files t

pub Inv-Made :
    (s : System) (made chained : Kernel) (t socket handle : ℕ)
    → Inv s
    → Made s made socket handle
    → s.live socket ≡ false
    → NewHandle s handle
    → Quiet made chained
    → Inv (record s { kernel = (new_fd chained t handle).1; live = put s.live socket true })
unfolding new_fd
Inv-Made s made chained t socket handle inv m dead new q = record {
  linked = λ a l e. elim (Bool-cases (a == socket)) [
    | inl here ↦
        let same : a ≡ socket = ground arith in
        rw (q.pairs a, same, q.links ((made.sockets socket).pair))
          (m.linked (rw same at (q.states a e)))
    | inr other ↦
        let alive = (rw other at l) in
        let before = inv.linked a alive (m.states a alive (q.states a e)) in
        rw (q.pairs a, m.pairs a alive, q.links ((s.kernel.sockets a).pair))
          (before.0, m.links ((s.kernel.sockets a).pair) before.1)
  ];
  waiting = λ t' c p e.
      let (alive, has, real) = inv.waiting t' c p e in
      (ground arith, q.pairs c ∙ m.pairs c alive ∙ has, real);
  unasked = λ a l e. elim (q.unasked a e) [
    | inl none_yet ↦ none_yet
    | inr kept ↦ elim (Bool-cases (a == socket)) [
      | inl here ↦
          let same : a ≡ socket = ground arith in absurd (m.not_listening (rw same at kept.0))
      | inr other ↦
          let alive = (rw other at l) in
          let before = m.unasked a alive kept.0 in kept.1 ∙ before.1 ∙ inv.unasked a alive before.0
    ]
  ];
  unbound = q.binds driver_sockets ∙ m.binds driver_sockets inv.head_live ∙ inv.unbound;
  head_live = ground (arith, inv.head_live);
  owned = λ t' id h e. elim (new_fd-find_handle chained t handle t' id h e) [
    | inr fresh ↦
        let same : (h == handle) ≡ true = ground arith in
        rw (q.handles h, m.handles h, same) (ground arith)
    | inl old ↦
        let old' : find_handle (s.kernel.files t') id ≡ some h =
          ap (λ f. find_handle f id) (sym (q.files t' ∙ m.files t')) ∙ old in
        let differs : (h == handle) ≡ false = ground (arith, new t' id) in
        let alive = inv.owned t' id h old' in rw (q.handles h, m.handles h, differs) (ground arith)
  ];
}
