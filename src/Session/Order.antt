-- ===== src/Session/Order.antt =====
-- In which order a session gives back what it opened.
use ucx_rs.Base.{ℕ, ◌≡◌, refl, true, ◌∷◌, arith}
use ucx_rs.Ffi.{
  RawWorkerParams, RawEpParams, History, Ucx, M, zeroed, flag, store_flag, worker_create, cleanup,
  ep_create, ep_close_nbx,
}
use ucx_rs.Status.{Status, Result, ok, err, map_ok, status_to_result}
use ucx_rs.Context.{Config, Context}
use ucx_rs.Context
use ucx_rs.Context.Params.{Params}
use ucx_rs.Worker.{Worker}
use ucx_rs.Worker
use ucx_rs.Worker.Teardown.{Torn, drop-Torn}
use ucx_rs.Ep.{Ep}
use ucx_rs.Ep
use ucx_rs.Ep.Params.{conn_request_ptr, Params as EpParams}
use ucx_rs.Session.{session, leave_ep, leave_context}

module _ (body : Ep → Worker → M (Unit {0})) (ep_params : EpParams) (u : Ucx) where
  -- The struct that `create_ep` passes on.
  abbrev sent : RawEpParams
  sent = record (ep_params.handle) { conn_request = conn_request_ptr ep_params }

  abbrev pub asked_ep : Worker → History → History
  asked_ep w h = ep_create w.handle sent ∷ h

  abbrev pub made_ep : Worker → History → Ep
  made_ep w h = record { handle = u.out h (ep_create w.handle sent); worker_alive = w.alive }

  -- What becomes of a worker, from `h` on: it is torn down, without an endpoint or after its
  -- endpoint was closed.
  pub data LeavesWorker (w : Worker) (h : History) (r : Result (Unit {0}) × History) : Type 0 where
    no_ep :
        (e : Status) (h' : History)
        → status_to_result (u.status h (ep_create w.handle sent)) ≡ err e
        → Torn u w (asked_ep w h) h'
        → r ≡ (err e, h')
        → LeavesWorker w h r
    used :
        (h' : History)
        → status_to_result (u.status h (ep_create w.handle sent)) ≡ ok tt
        → Torn u w
            (ep_close_nbx (made_ep w h).handle zeroed ∷ (body (made_ep w h) w u (asked_ep w h)).1)
            h'
        → r ≡ (ok tt, h')
        → LeavesWorker w h r

  -- The use of an endpoint leaves the flag of its worker as it is.
  abbrev pub KeepsFlag : Type 0
  KeepsFlag = (ep : Ep) (w : Worker) (h : History) → flag w.alive (body ep w u h).1 ≡ flag w.alive h

  create-LeavesWorker :
      (w : Worker) (h : History) (a : Result (Unit {0}))
      → KeepsFlag
      → flag w.alive h ≡ true
      → status_to_result (u.status h (ep_create w.handle sent)) ≡ a
      → LeavesWorker w h (leave_ep body w (map_ok (λ _. made_ep w h) a) u (asked_ep w h))
  unfolding Ep.drop
  create-LeavesWorker w h (err e) keeps alive q = no_ep e _ q (drop-Torn w u (asked_ep w h)) refl
  create-LeavesWorker w h (ok t) keeps alive q =
      rw (keeps (made_ep w h) w (asked_ep w h), alive) (used _ q (drop-Torn w u _) refl)

module _ (body : Ep → Worker → M (Unit {0})) (ep_params : EpParams)
    (worker_params : RawWorkerParams) (alive : ℕ) (u : Ucx) where
  abbrev pub asked_worker : Context → History → History
  asked_worker c h = worker_create c.handle worker_params ∷ h

  abbrev pub made_worker : Context → History → Worker
  made_worker c h = record {
    handle = u.out h (worker_create c.handle worker_params);
    alive = alive;
  }

  -- What becomes of a context: it is cleaned up at the end, after its worker is torn down.
  pub data LeavesContext (c : Context) (h : History) (r : Result (Unit {0}) × History)
      : Type 0 where
    no_worker :
        (e : Status)
        → status_to_result (u.status h (worker_create c.handle worker_params)) ≡ err e
        → r ≡ (err e, cleanup c.handle ∷ asked_worker c h)
        → LeavesContext c h r
    had_worker :
        (end : Result (Unit {0}) × History)
        → status_to_result (u.status h (worker_create c.handle worker_params)) ≡ ok tt
        → LeavesWorker body ep_params u
            (made_worker c h)
            (store_flag alive true ∷ asked_worker c h)
            end
        → r ≡ (end.0, cleanup c.handle ∷ end.1)
        → LeavesContext c h r

  worker_create-LeavesContext :
      (c : Context) (h : History) (a : Result (Unit {0}))
      → KeepsFlag body ep_params u
      → status_to_result (u.status h (worker_create c.handle worker_params)) ≡ a
      → LeavesContext c h (leave_context body worker_params alive ep_params (ok c) u h)
  unfolding Context.worker_create Worker.new Context.drop Ep.create_ep Ep.new
  worker_create-LeavesContext c h (err e) keeps q = rw q (no_worker e q refl)
  worker_create-LeavesContext c h (ok t) keeps q = rw q (
      had_worker _ q
        (create-LeavesWorker body ep_params u (made_worker c h)
          (store_flag alive true ∷ asked_worker c h) _ keeps (ground arith) refl)
        refl)

  -- What becomes of a session.
  pub data Leaves (config : Config) (params : Params) (h : History)
      (r : Result (Unit {0}) × History) : Type 0 where
    no_context :
        (e : Status) (h' : History)
        → Context.new config params u h ≡ (err e, h')
        → r ≡ (err e, h')
        → Leaves config params h r
    had_context :
        (c : Context) (h' : History)
        → Context.new config params u h ≡ (ok c, h')
        → LeavesContext c h' r
        → Leaves config params h r

  leave_context-Leaves :
      (config : Config) (params : Params) (h h' : History) (a : Result Context)
      → KeepsFlag body ep_params u
      → Context.new config params u h ≡ (a, h')
      → Leaves config params h (leave_context body worker_params alive ep_params a u h')
  leave_context-Leaves config params h h' (err e) keeps q = no_context e h' q refl
  leave_context-Leaves config params h h' (ok c) keeps q =
      had_context c h' q (worker_create-LeavesContext c h' _ keeps refl)

-- A session gives back what it opened, in order and whatever UCX answers: when a step is refused,
-- what was opened before it is given back and the error is returned; otherwise the endpoint is
-- closed after its use, then the worker is torn down, and the context is cleaned up last. The use
-- of the endpoint may do anything that leaves the worker's flag as it was.
pub session-Leaves :
    (body : Ep → Worker → M (Unit {0})) (config : Config) (params : Params)
    (worker_params : RawWorkerParams) (alive : ℕ) (ep_params : EpParams) (u : Ucx) (h : History)
    → KeepsFlag body ep_params u
    → Leaves body ep_params worker_params alive u config params h
        (session body config params worker_params alive ep_params u h)
unfolding session
session-Leaves body config params worker_params alive ep_params u h keeps =
    leave_context-Leaves body ep_params worker_params alive u config params h _ _ keeps refl
