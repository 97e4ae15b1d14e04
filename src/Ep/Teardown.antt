-- ===== src/Ep/Teardown.antt =====
-- The ways to tear an endpoint down, and the `alive` flag that it shares with its worker.
use ucx_rs.Base.{ℕ, ◌≡◌, refl, true, false, Option, none, [], ◌∷◌, ◌++◌, ◌∙◌, sym, zero, suc, bit}
use ucx_rs.Ffi.{
  History, Ucx, zeroed, flag, ep_destroy, disconnect_nb, ep_close_nbx, worker_progress,
  request_check_status, request_free,
}
use mathlib.Core.List.{append_assoc}
use ucx_rs.Ep.Closing.{
  Closes, refused, at_once, later, Awaits, succeeds, fails, gives_up, close_call, close-Closes,
}
use ucx_rs.Worker.Polling.{waited}
use ucx_rs.Status.{Result, ok, err, Request, status_ptr_to_result}
use ucx_rs.Worker.{Worker, max_rounds}
use ucx_rs.Worker
use ucx_rs.Worker.Teardown.{flag-drop}
use ucx_rs.Ep.{Ep, close_param, destroy_on_error, destroy, disconnect, drop, close}

-- Once the flag reads false, `destroy`, `disconnect_nb` and the drop of the endpoint make no call
-- of UCX, and `disconnect_nb` reports success without a request.
pub teardown_after_worker :
    (ep : Ep) (u : Ucx) (h : History)
    → flag ep.worker_alive h ≡ false
    → (destroy ep u h ≡ (tt, h)) × (disconnect ep u h ≡ (ok none, h)) × (drop ep u h ≡ (tt, h))
unfolding destroy disconnect drop
teardown_after_worker ep u h dead = (rw dead, rw dead, rw dead)

-- An endpoint that outlives its worker is harmless to drop: after the worker's drop the drop of
-- the endpoint does nothing.
drop-drop :
    (ep : Ep) (w : Worker) (u : Ucx) (h : History)
    → ep.worker_alive ≡ w.alive
    → drop ep u (Worker.drop w u h).1 ≡ (tt, (Worker.drop w u h).1)
drop-drop ep w u h shared =
    (teardown_after_worker ep u (Worker.drop w u h).1 (rw shared (flag-drop w u h))).2

-- What `disconnect_nb` comes to, by the answer of UCX: a refusal is followed by a destruction.
abbrev pub disconnected : Ep → History → Result (Option Request) → Result (Option Request) × History
disconnected ep h (ok r) = (ok r, disconnect_nb ep.handle ∷ h)
disconnected ep h (err e) = (err e, ep_destroy ep.handle ∷ disconnect_nb ep.handle ∷ h)

disconnect_alive-disconnected :
    (ep : Ep) (u : Ucx) (h : History) (r : Result (Option Request))
    → destroy_on_error ep r u (disconnect_nb ep.handle ∷ h) ≡ disconnected ep h r
disconnect_alive-disconnected ep u h (ok r) = refl
disconnect_alive-disconnected ep u h (err e) = refl

-- While the flag reads true, `destroy` makes the one call that destroys the endpoint, the drop the
-- one call that closes it, and `disconnect_nb` the one call that disconnects it, which is followed
-- by a destruction exactly when UCX refuses it; the answer is returned.
pub teardown_alive :
    (ep : Ep) (u : Ucx) (h : History)
    → flag ep.worker_alive h ≡ true
    → (destroy ep u h ≡ (tt, ep_destroy ep.handle ∷ h))
      × (drop ep u h ≡ (tt, ep_close_nbx ep.handle zeroed ∷ h))
      × (disconnect ep u h
          ≡ disconnected ep h (status_ptr_to_result (u.word h (disconnect_nb ep.handle))))
unfolding destroy disconnect drop
teardown_alive ep u h alive =
    (rw alive, rw alive, rw alive (disconnect_alive-disconnected ep u h _))

-- A history that goes on from another.
abbrev pub Extends : History → History → Type 0
Extends h h' = (new : History) × (h' ≡ new ++ h)

Extends-waited : (u : Ucx) (w : Worker) (p k : ℕ) (h : History) → Extends h (waited u w p k h)
unfolding waited
Extends-waited u w p zero h = ([], refl)
Extends-waited u w p (suc k) h =
    let (new, e) = Extends-waited u w p k (worker_progress w.handle ∷ request_check_status p ∷ h) in
    (new ++ worker_progress w.handle ∷ request_check_status p ∷ [], e ∙ sym (append_assoc new _ h))

Extends-Awaits :
    (u : Ucx) (w : Worker) (p n : ℕ) (h : History) {r : Result (Unit {0}) × History}
    → Awaits u w p n h r
    → Extends h r.1
Extends-Awaits u w p n h (succeeds k lt busy good e) =
    let (new, q) = Extends-waited u w p k h in
    (request_free p ∷ request_check_status p ∷ new, rw (e, q))
Extends-Awaits u w p n h (fails k s lt busy bad same e) =
    let (new, q) = Extends-waited u w p k h in (request_check_status p ∷ new, rw (e, q))
Extends-Awaits u w p n h (gives_up busy e) =
    let (new, q) = Extends-waited u w p n h in (new, rw (e, q))

Extends-Closes :
    (u : Ucx) (w : Worker) (p : ℕ) (h : History) {r : Result (Unit {0}) × History}
    → Closes u w p h r
    → Extends h r.1
Extends-Closes u w p h (refused e bad q) = ([], rw q)
Extends-Closes u w p h (at_once le q) = ([], rw q)
Extends-Closes u w p h (later lt a) = Extends-Awaits u w p max_rounds h a

-- `close` makes its close call whatever the flag reads, so also on an endpoint whose worker has
-- been destroyed: the history it leaves goes on from that call. The struct of the call carries the
-- flags, and its mask does not select them.
close_after_worker :
    (ep : Ep) (w : Worker) (flags : ℕ) (u : Ucx) (h : History)
    → Extends (close_call ep flags h) (close ep w flags u h).1
      × (bit 4 (close_param flags).op_attr_mask ≡ 0)
      × ((close_param flags).flags ≡ flags)
unfolding bit
close_after_worker ep w flags u h =
    (Extends-Closes u w _ _ (close-Closes ep w flags u h), refl, refl)
