-- ===== src/Syscall/Reachable.antt =====
-- kernel/src/hel/syscall.cpp: the invariant holds in every state that calls lead to.
use mathlib.Core.Option.{none-ne-some}
use ion_os.Base.{ℕ, ◌≡◌, inl, inr, ◌∙◌, true, ◌==◌, none, some, arith, Bool-cases}
use ion_os.Syscall.{put}
use ion_os.Syscall.Connect.{returned, waiting}
use ion_os.Syscall.Quiet.{
  Leaves-done, Quiet, k_driver_bind-Quiet, k_driver_listen-Quiet, k_driver_send-Quiet,
  k_driver_recv-Quiet,
}
use ion_os.Syscall.Steps.{System, NewPair, NewHandle, Step, Start, Reach}
use ion_os.Syscall.Steps
use ion_os.Syscall.Invariant.{Inv, Start-Inv, Inv-Quiet, Inv-Made}
use ion_os.Syscall.Effects.{
  Chained, created, k_driver_cskt-Chained, created-Made, accepting, Accepted,
  k_driver_accept-Accepted, accepting-Made, Begun, connect_begin-Begun, connect_begin-Quiet, ending,
  Ended, connect_end-Ended,
}

module _ (s : System) (inv : Inv s) where
  ending-Inv :
      (t dsock handle pair : ℕ)
      → s.waits t ≡ some (dsock, pair)
      → (s.kernel.links pair).connected ≡ true
      → Inv (record s { kernel = ending s.kernel dsock handle; waits = put s.waits t none })
  ending-Inv t dsock handle pair waits joined =
      let (alive, has, real) = inv.waiting t dsock pair waits in
      record {
        linked = λ a l e. elim (Bool-cases (a == dsock)) [
          | inl here ↦
              let same : a ≡ dsock = ground arith in
              rw (same, ending-pair dsock, has) (real, joined)
          | inr other ↦ rw (ending-pair a) (inv.linked a l (rw other at e))
        ];
        waiting = λ t' c p e. elim (Bool-cases (t' == t)) [
          | inl here ↦ absurd (none-ne-some _ (rw here at e))
          | inr other ↦
              let (live', has', real') = inv.waiting t' c p (rw other at e) in
              (live', ending-pair c ∙ has', real')
        ];
        unasked = λ a l e. ground (arith, inv.unasked a l);
        unbound = ground (arith, inv.unbound);
        head_live = inv.head_live;
        owned = λ t' id h e. rw (ending-socket h) (inv.owned t' id h e);
      }
    where
      ending-pair :
          (a : ℕ) → ((ending s.kernel dsock handle).sockets a).pair ≡ (s.kernel.sockets a).pair
      ending-pair a = ground arith

      ending-socket :
          (h : ℕ) → ((ending s.kernel dsock handle).handles h).socket ≡ (s.kernel.handles h).socket
      ending-socket h = ground arith

-- A call keeps the invariant.
Step-Inv : (s s' : System) → Inv s → Step s s' → Inv s'
Step-Inv s _ inv (Steps.create fuel t flags handle socket bind_addr r {k} dead new e) =
    let (chained, quiet, same) =
      Leaves-done (λ r k'. Chained (created s.kernel flags handle socket bind_addr) t handle k') _ r
        k e (k_driver_cskt-Chained fuel t flags handle socket bind_addr s.kernel) in
    rw same (
      Inv-Made s (created s.kernel flags handle socket bind_addr) chained t socket handle inv
        (created-Made s flags handle socket bind_addr dead) dead new quiet)
Step-Inv s _ inv (Steps.bind t id addr r {k} short e) =
    Inv-Quiet s k inv
      (Leaves-done (λ r k'. Quiet s.kernel k') _ r k e (k_driver_bind-Quiet t id addr s.kernel))
Step-Inv s _ inv (Steps.listen t id r array {k} e) =
    Inv-Quiet s k inv
      (Leaves-done (λ r k'. Quiet s.kernel k') _ r k e (k_driver_listen-Quiet t id array s.kernel))
Step-Inv s _ inv (Steps.refuse fuel t id addr pair r {k} e) =
    Inv-Quiet s k inv (connect_begin-Quiet fuel t id addr pair r s.kernel k inv.unbound e)
Step-Inv s _ inv (Steps.ask fuel t id addr pair handle {k} real new good e) =
    let waits =
      Leaves-done (Begun s.kernel) _ (waiting pair) k e
        (connect_begin-Begun fuel t id addr pair handle s.kernel inv.unbound good) in
    absurd (ground arith)
Step-Inv s _ inv (Steps.join t dsock handle pair r {k} waits e) =
    let (joined, same) =
      Leaves-done (Ended s.kernel dsock handle pair) _ (returned r) k e
        (connect_end-Ended dsock handle pair s.kernel) in
    rw same (ending-Inv s inv t dsock handle pair waits joined)
Step-Inv s _ inv (Steps.accept fuel t id flags handle r new {k} good dead fresh e) =
    let d = (s.kernel.handles handle).socket in
    let (real, (chained, quiet, same)) =
      Leaves-done (Accepted s.kernel t d flags new) _ (returned r) k e
        (k_driver_accept-Accepted fuel t id flags handle new s.kernel good) in
    rw same (
      Inv-Made s (accepting s.kernel d flags new) chained t (new.socket) (new.handle) inv
        (accepting-Made s d flags new dead real) dead fresh quiet)
Step-Inv s _ inv (Steps.send t id input limit r {k} room e) = Inv-Quiet s k inv (
    Leaves-done (λ r k'. Quiet s.kernel k') _ r k e (k_driver_send-Quiet t id input limit s.kernel))
Step-Inv s _ inv (Steps.receive t id output limit r {k} own e) = Inv-Quiet s k inv (
    Leaves-done (λ r k'. Quiet s.kernel k') _ r k e
      (k_driver_recv-Quiet t id output limit s.kernel))

-- Whatever calls the threads make, one part of a call at a time, a socket in the state connected has a
-- pair, and that pair has been accepted; a thread that waits in connect has its pair in its
-- socket; and descriptors lead to sockets.
pub Reach-Inv : (s s' : System) → Start s → Reach s s' → Inv s'
Reach-Inv s _ st Steps.start = Start-Inv s st
Reach-Inv s _ st (Steps.later {s'} {s''} before step) =
    Step-Inv s' s'' (Reach-Inv s s' st before) step
