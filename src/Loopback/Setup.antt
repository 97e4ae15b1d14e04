-- ===== src/Loopback/Setup.antt =====
-- What a set-up leaves open, and what dropping it leaves.
use ucx_rs.Base.{ℕ, ◌≡◌, refl, ◌∙◌, ap, true, some, List, ◌∷◌, arith}
use ucx_rs.Ffi.{History, Ucx, worker_create, flag, pure, ◌>>=◌}
use ucx_rs.Status.{Result, ok, err, map_ok, status_to_result}
use ucx_rs.Context.{Config, Context, Configured, configured, rejected, map_err}
use ucx_rs.Context.Params.{Params as ContextParams}
use ucx_rs.Context
use ucx_rs.Worker.{Worker, WorkerAddress}
use ucx_rs.Masked.{nul_free}
use ucx_rs.Worker
use ucx_rs.Ep.{Ep}
use ucx_rs.Ep
use ucx_rs.Session.Ledger.{Resource, context, worker, address, endpoint, strike-head, held}
use ucx_rs.Session.Balance.{grown, acquire-grown, of_context, new-held}
use ucx_rs.Loopback.{
  drain, connected, packed, started, opened, configured_with, setup_default, drained,
  worker_features,
}
use ucx_rs.Loopback.Steps.{
  Quiet, drain-Drains, Sets, held-dropped, opened_IsOpen, of_ep, of_config, of_address,
  held-release, held-release_below, with_config, read-held, drains, ready, failed,
}

module _ (rounds alive buffer : ℕ) (u : Ucx)
    (quiet : (w : Worker) (h : History) → Quiet u w rounds h) where
  drained-Sets :
      (c : Context) (w : Worker) (ep : Ep) (h : History) {rs : List Resource}
      → flag ep.worker_alive h ≡ true
      → held u h ≡ some (endpoint ep.handle ∷ worker w.handle ∷ context c.handle ∷ rs)
      → Sets u rs (
          (drain rounds w >>= λ end.
          pure (drained (record { ep = ep; worker = w; context = c }) end))
            u h)
  drained-Sets c w ep h {rs} up k = elim (drain-Drains u w rounds h (quiet w h)) [
    | drains e q f ↦
        ready (record { ep = ep; worker = w; context = c })
          (ap (drained (record { ep = ep; worker = w; context = c })) e)
          (opened_IsOpen u _ _ (q ∙ k) (f ep.worker_alive ∙ up))
  ]

  connected-Sets :
      (c : Context) (w : Worker) (a : WorkerAddress) (r : Result (Unit {0})) (ep : Unit {0} → Ep)
      (h : History) {rs : List Resource}
      → (ep tt).worker_alive ≡ w.alive
      → flag w.alive h ≡ true
      → held u h
        ≡ some
            (grown of_ep (map_ok ep r) (address a.handle ∷ worker w.handle ∷ context c.handle ∷ rs))
      → Sets u rs (connected rounds alive buffer c w a (map_ok ep r) u h)
  unfolding Worker.WorkerAddress_drop
  connected-Sets c w a (err e) ep h {rs} same_flag up k =
      failed refl (held-dropped u w c _ (held-release u a h k))
  connected-Sets c w a (ok t) ep h {rs} same_flag up k =
      drained-Sets c w (ep t) _ (ap (λ (b : ℕ). flag b h) same_flag ∙ up)
        (held-release_below u a (ep t).handle h k)

  packed-Sets :
      (c : Context) (w : Worker) (r : Result (Unit {0})) (a : Unit {0} → WorkerAddress)
      (h : History) {rs : List Resource}
      → flag w.alive h ≡ true
      → held u h ≡ some (grown of_address (map_ok a r) (worker w.handle ∷ context c.handle ∷ rs))
      → Sets u rs (packed rounds alive buffer c w (map_ok a r) u h)
  unfolding Ep.create_ep Ep.new held
  packed-Sets c w (err e) a h up k = failed refl (held-dropped u w c h k)
  packed-Sets c w (ok t) a h up k =
      connected-Sets c w (a t) _ _ _ refl up (rw k (acquire-grown _ of_ep _ _))

  started-Sets :
      (c : Context) (w : Worker) (h : History) {rs : List Resource}
      → flag w.alive h ≡ true
      → held u h ≡ some (worker w.handle ∷ context c.handle ∷ rs)
      → Sets u rs (started rounds alive buffer c (ok w) u h)
  unfolding Worker.pack_address held
  started-Sets c w h up k = packed-Sets c w _ _ _ up (rw k (acquire-grown _ of_address _ _))

  -- The worker's flag is made with the worker, and is up.
  created-Sets :
      (c : Context) (h : History) (a : Result (Unit {0})) {rs : List Resource}
      → held u h ≡ some (context c.handle ∷ rs)
      → status_to_result (u.status h (worker_create c.handle worker_features.handle)) ≡ a
      → Sets u rs (
          (Context.worker_create c worker_features.handle alive >>= started rounds alive buffer c) u
            h)
  unfolding Context.worker_create Context.drop Worker.new held
  created-Sets c h (err e) {rs} k q =
      rw q (failed refl (rw (k, q) (strike-head (context c.handle) rs)))
  created-Sets c h (ok t) k q = rw q (started-Sets c _ _ (ground arith) (rw (k, q) refl))

  opened-Sets :
      (config : Config) (r : Result Context) (h : History) {rs : List Resource}
      → held u h ≡ some (grown of_context r (of_config config ∷ rs))
      → Sets u rs (opened rounds alive buffer config r u h)
  unfolding Context.Config_drop held
  opened-Sets config (err e) h {rs} k = failed refl (rw k (strike-head (of_config config) rs))
  opened-Sets config (ok c) h {rs} k =
      created-Sets c _ _ (rw (k, strike-head (of_config config) rs) refl) refl

  configured-Sets :
      (params : ContextParams) (r : Configured Config) (h : History) {rs : List Resource}
      → held u h ≡ some (with_config r rs)
      → Sets u rs (configured_with rounds alive buffer params r u h)
  configured-Sets params (rejected e) h k = failed refl k
  configured-Sets params (configured config) h k =
      opened-Sets config _ _ (new-held config params u h _ k)

-- On every path, whatever UCX answers, a set-up gives back what it does not return: where a step is
-- refused it panics with nothing of its own left open. Otherwise it returns, and just the endpoint,
-- the worker and the context are open, each once; dropping the result gives the three back, in an
-- order that closes the endpoint while its worker is alive. The loop of the set-up ends if UCX runs
-- out of progress to make within the rounds that are allowed.
pub setup_default-Sets :
    (rounds alive buffer init cleanup : ℕ) (u : Ucx) (h : History) (rs : List Resource)
    → ((w : Worker) (h' : History) → Quiet u w rounds h')
    → held u h ≡ some rs
    → Sets u rs (setup_default rounds alive buffer init cleanup u h)
unfolding setup_default nul_free
setup_default-Sets rounds alive buffer init cleanup u h rs quiet e =
    configured-Sets rounds alive buffer u quiet _ _ _ (read-held u h rs e)
