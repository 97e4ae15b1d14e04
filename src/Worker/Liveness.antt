-- ===== src/Worker/Liveness.antt =====
-- When a wait comes to an end before its rounds are over: UCX settles a request after some number
-- of progress calls.
use ucx_rs.Base.{Bool, ℕ, zero, suc, ◌<◌, ◌≤◌, ◌≡◌, ◌≢◌, ◌⊎◌, inl, inr, true, false, ◌∷◌, arith}
use ucx_rs.Ffi.{History, Ucx, ◌>>=◌, request_check_status, request_free, ucs_in_progress}
use ucx_rs.Status.{Result, ok, err}
use ucx_rs.Worker.{Worker, max_rounds, wait_request, poll, finish_guard}
use ucx_rs.Worker.Polling.{owning, waited, answer, Busy, freed, leaked, poll-finish_guard}
use ucx_rs.Worker.Waiting.{completed, broke, gave_up, wait_request-Waits}

module _ (u : Ucx) (w : Worker) (p : ℕ) where
  -- A busy stretch of rounds covers every earlier round.
  Busy-answer :
      (n k : ℕ) (h : History)
      → k < n
      → Busy u w p n h
      → answer u w p (waited u w p k h) ≡ ucs_in_progress
  unfolding Busy waited
  Busy-answer zero k h lt busy = absurd (omega arith)
  Busy-answer (suc n) zero h lt (e, busy) = e
  Busy-answer (suc n) (suc k) h lt (e, busy) = Busy-answer n k _ (omega arith) busy

  -- A stretch that ends no later than the first settled round.
  Busy-bound :
      (n k : ℕ) (h : History)
      → answer u w p (waited u w p k h) ≢ ucs_in_progress
      → Busy u w p n h
      → n ≤ k
  Busy-bound n k h ne busy = elim (le_or_lt n k) [
    | inl le ↦ le
    | inr lt ↦ absurd (ne (Busy-answer n k h lt busy))
  ]
    where
      le_or_lt : (n k : ℕ) → (n ≤ k) ⊎ (k < n)
      le_or_lt n k = ground arith

  -- A wait that ended in one of its first `k + 1` rounds, with success or with an error.
  pub data Ends (k : ℕ) (h : History) (r : Result Bool × History) : Type 0 where
    ends :
        (j : ℕ) (b : Result Bool)
        → j ≤ k
        → b ≢ ok false
        → r ≡ (b, request_check_status p ∷ waited u w p j h)
        → Ends k h r

-- A wait does not give up on a request that UCX settles in time: if UCX, asked after some number of
-- progress calls below a million, answers anything other than "in progress", then the wait ends
-- after at most that many calls, with success or with an error.
pub wait_request-Ends :
    (w : Worker) (p k : ℕ) (u : Ucx) (h : History)
    → k < max_rounds
    → answer u w p (waited u w p k h) ≢ ucs_in_progress
    → Ends u w p k h (wait_request w (owning p) u h)
wait_request-Ends w p k u h lt ne = elim (wait_request-Waits w p u h) [
  | completed j _ busy _ e ↦ ends j (ok true) (Busy-bound u w p j k h ne busy) (λ q. cc) e
  | broke j s _ busy _ _ e ↦ ends j (err s) (Busy-bound u w p j k h ne busy) (λ q. cc) e
  | gave_up busy e ↦ absurd (omega (arith, lt, Busy-bound u w p max_rounds k h ne busy))
]

-- The end of a guard whose request UCX settles in time.
pub finish_guard-frees :
    (w : Worker) (p k n : ℕ) (u : Ucx) (h : History)
    → k < n
    → answer u w p (waited u w p k h) ≢ ucs_in_progress
    → (j : ℕ) × (j ≤ k)
      × (((poll n (owning p) w >>= finish_guard (owning p)) u h).1
          ≡ request_free p ∷ request_check_status p ∷ waited u w p j h)
finish_guard-frees w p k n u h lt ne = elim (poll-finish_guard u w p n h) [
  | freed j _ busy _ e ↦ (j, Busy-bound u w p j k h ne busy, e)
  | leaked busy e ↦ absurd (omega (arith, lt, Busy-bound u w p n k h ne busy))
]
