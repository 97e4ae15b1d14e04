-- ===== src/Worker/Waiting.antt =====
-- What `wait_request` comes to, for every answer of UCX and for a request that UCX does not hold.
use ucx_rs.Base.{ℕ, ◌≡◌, ◌<◌, ◌≢◌, refl, Bool, true, false, ◌∷◌}
use ucx_rs.Ffi.{RawStatus, History, Ucx, ucs_ok, ucs_in_progress, request_check_status}
use ucx_rs.Status.{Status, Result, ok, err, is_err}
use ucx_rs.Worker.{Worker, Polled, finished, timed_out, failed, poll, max_rounds, wait_request}
use ucx_rs.Worker.Polling.{owning, waited, answer, Busy, verdict, settles, expires, poll-Polls}

module _ (u : Ucx) (w : Worker) (p : ℕ) where
  -- The ends of a wait: the request completed, failed, or was in progress in every round. The
  -- request is not given back.
  pub data Waits (h : History) (r : Result Bool × History) : Type 0 where
    completed :
        (k : ℕ)
        → k < max_rounds
        → Busy u w p k h
        → answer u w p (waited u w p k h) ≡ ucs_ok
        → r ≡ (ok true, request_check_status p ∷ waited u w p k h)
        → Waits h r
    broke :
        (k : ℕ) (e : Status)
        → k < max_rounds
        → Busy u w p k h
        → is_err e ≡ true
        → answer u w p (waited u w p k h) ≡ e
        → r ≡ (err e, request_check_status p ∷ waited u w p k h)
        → Waits h r
    gave_up : Busy u w p max_rounds h → r ≡ (ok false, waited u w p max_rounds h) → Waits h r

  abbrev outcome : Polled → Result Bool
  outcome finished = ok true
  outcome (failed e) = err e
  outcome timed_out = ok false

  after_settling :
      (k : ℕ) (h : History) (s : RawStatus)
      → k < max_rounds
      → Busy u w p k h
      → s ≢ ucs_in_progress
      → answer u w p (waited u w p k h) ≡ s
      → Waits h (outcome (verdict u w p s), request_check_status p ∷ waited u w p k h)
  unfolding is_err
  after_settling k h ucs_ok lt busy ne e = completed k lt busy e refl
  after_settling k h ucs_in_progress lt busy ne e = absurd (ne refl)
  after_settling k h _ lt busy ne e = broke k _ lt busy refl e refl

  wait_request-outcome :
      (h : History)
      → wait_request w (owning p) u h
        ≡ (outcome (poll max_rounds (owning p) w u h).0, (poll max_rounds (owning p) w u h).1)
  unfolding wait_request
  wait_request-outcome h = refl

-- Waiting for a request that UCX holds progresses the worker while the answer is "in progress", for
-- at most a million rounds. It is true when the request completed, the error that UCX answered when
-- it failed, and false when every round found it in progress; the request is never given back.
pub wait_request-Waits :
    (w : Worker) (p : ℕ) (u : Ucx) (h : History) → Waits u w p h (wait_request w (owning p) u h)
wait_request-Waits w p u h = elim (poll-Polls u w p max_rounds h) [
  | settles k lt busy ne e ↦
      rw (wait_request-outcome u w p h, e) (after_settling u w p k h _ lt busy ne refl)
  | expires busy e ↦ rw (wait_request-outcome u w p h, e) (gave_up busy refl)
]
