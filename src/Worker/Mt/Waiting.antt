-- ===== src/Worker/Mt/Waiting.antt =====
-- What `MtWorker::wait_request` comes to when other threads use the worker between its rounds.
use ucx_rs.Base.{ℕ, zero, suc, ◌<◌, ◌≡◌, ◌≢◌, refl, ◌∙◌, Bool, true, false, ◌∷◌, arith}
use ucx_rs.Ffi.{
  RawStatus, History, Ucx, request_check_status, worker_progress, ucs_ok, ucs_in_progress,
}
use ucx_rs.Status.{Status, Result, ok, err, is_err}
use ucx_rs.Worker.{Polled, finished, timed_out, failed, max_rounds, progress}
use ucx_rs.Worker.Polling.{owning, answer, verdict, reading, check_finished-owning}
use ucx_rs.Worker.Mt.{MtWorker, Others, poll, next_round, wait_request}

module _ (others : Others) (u : Ucx) (m : MtWorker) (p : ℕ) where
  -- The history after round `i`, which starts at `h`.
  abbrev round : ℕ → History → History
  round i h =
      ((others i).1 u
        (worker_progress m.worker.handle ∷ ((others i).0 u (request_check_status p ∷ h)).1)).1

  -- The history after `k` more rounds, each with what the other threads do.
  unfoldable pub waited : ℕ → ℕ → History → History
  waited i zero h = h
  waited i (suc k) h = waited (suc i) k (round i h)

  abbrev said : History → RawStatus
  said h = answer u m.worker p h

  -- UCX answers "in progress" in each of these rounds.
  unfoldable pub Busy : ℕ → ℕ → History → Type 0
  Busy i zero h = Unit {0}
  Busy i (suc k) h = (said h ≡ ucs_in_progress) × Busy (suc i) k (round i h)

  -- The two ends of a loop of `n` rounds, in the form of those of a worker that is not shared.
  data Polls (i n : ℕ) (h : History) (r : Polled × History) : Type 0 where
    settles :
        (k : ℕ)
        → k < n
        → Busy i k h
        → said (waited i k h) ≢ ucs_in_progress
        → r ≡ (verdict u m.worker p (said (waited i k h)), request_check_status p ∷ waited i k h)
        → Polls i n h r
    expires : Busy i n h → r ≡ (timed_out, waited i n h) → Polls i n h r

  poll-suc :
      (i n : ℕ) (h : History)
      → poll others i (suc n) (owning p) m u h
        ≡ next_round
            (poll others (suc i) n (owning p) m)
            m
            (others i)
            (reading (said h))
            u
            (request_check_status p ∷ h)
  unfolding poll
  poll-suc i n h = rw (check_finished-owning p u h)

  one_round :
      (i n : ℕ) (h : History) (s : RawStatus)
      → said h ≡ s
      → Polls (suc i) n (round i h) (poll others (suc i) n (owning p) m u (round i h))
      → Polls i (suc n) h (poll others i (suc n) (owning p) m u h)
  unfolding progress waited Busy
  one_round i n h ucs_in_progress e (settles k lt busy ne r) =
      settles (suc k) (omega arith) (e, busy) ne (poll-suc i n h ∙ rw e r)
  one_round i n h ucs_in_progress e (expires busy r) = expires (e, busy) (poll-suc i n h ∙ rw e r)
  one_round i n h ucs_ok e rest = settles 0 (omega arith) tt (λ q. cc) (poll-suc i n h ∙ rw e)
  one_round i n h _ e rest = settles 0 (omega arith) tt (λ q. cc) (poll-suc i n h ∙ rw e)

  poll-Polls : (i n : ℕ) (h : History) → Polls i n h (poll others i n (owning p) m u h)
  unfolding waited Busy
  poll-Polls i zero h = expires tt (unfold poll in refl)
  poll-Polls i (suc n) h = one_round i n h (said h) refl (poll-Polls (suc i) n _)

  -- The ends of a wait of this thread.
  pub data Waits (h : History) (r : Result Bool × History) : Type 0 where
    completed :
        (k : ℕ)
        → k < max_rounds
        → Busy 0 k h
        → answer u m.worker p (waited 0 k h) ≡ ucs_ok
        → r ≡ (ok true, request_check_status p ∷ waited 0 k h)
        → Waits h r
    broke :
        (k : ℕ) (e : Status)
        → k < max_rounds
        → Busy 0 k h
        → is_err e ≡ true
        → answer u m.worker p (waited 0 k h) ≡ e
        → r ≡ (err e, request_check_status p ∷ waited 0 k h)
        → Waits h r
    gave_up : Busy 0 max_rounds h → r ≡ (ok false, waited 0 max_rounds h) → Waits h r

  abbrev outcome : Polled → Result Bool
  outcome finished = ok true
  outcome (failed e) = err e
  outcome timed_out = ok false

  after_settling :
      (k : ℕ) (h : History) (s : RawStatus)
      → k < max_rounds
      → Busy 0 k h
      → s ≢ ucs_in_progress
      → said (waited 0 k h) ≡ s
      → Waits h (outcome (verdict u m.worker p s), request_check_status p ∷ waited 0 k h)
  unfolding is_err
  after_settling k h ucs_ok lt busy ne e = completed k lt busy e refl
  after_settling k h ucs_in_progress lt busy ne e = absurd (ne refl)
  after_settling k h _ lt busy ne e = broke k _ lt busy refl e refl

  wait_request-outcome :
      (h : History)
      → wait_request others m (owning p) u h ≡ (
        outcome (poll others 0 max_rounds (owning p) m u h).0,
        (poll others 0 max_rounds (owning p) m u h).1,
      )
  unfolding wait_request
  wait_request-outcome h = refl

-- Whatever other threads do in between: a shared wait for a request that UCX holds asks and
-- progresses in turn, and ends at the first answer of UCX other than "in progress" within a million
-- rounds. It is true when that answer is success and the error itself when it is an error, and
-- false when every round was answered "in progress".
pub mt_wait_request-Waits :
    (others : Others) (m : MtWorker) (p : ℕ) (u : Ucx) (h : History)
    → Waits others u m p h (wait_request others m (owning p) u h)
mt_wait_request-Waits others m p u h = elim (poll-Polls others u m p 0 max_rounds h) [
  | settles k lt busy ne e ↦
      rw (wait_request-outcome others u m p h, e)
        (after_settling others u m p k h _ lt busy ne refl)
  | expires busy e ↦ rw (wait_request-outcome others u m p h, e) (gave_up busy refl)
]
