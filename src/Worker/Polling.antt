-- ===== src/Worker/Polling.antt =====
-- What `poll` does, as a list of effects: it asks and progresses as long as the request is in
-- progress, up to its number of rounds, and its verdict is the first other answer.
use ucx_rs.Base.{ℕ, zero, suc, ◌<◌, ◌≡◌, refl, Bool, true, false, some}
use ucx_rs.Base.{if◌then◌else◌, ◌∷◌, ◌≢◌, ◌∙◌, arith}
use ucx_rs.Ffi.{
  RawStatus, History, Ucx, ◌>>=◌, request_free, request_check_status, worker_progress, ucs_ok,
  ucs_in_progress, discriminant, as_usize,
}
use ucx_rs.Status.{Result, ok, err, Request, status_ptr_is_err, status_from_ptr}
use ucx_rs.Request.{check_finished, is_ok, free}
use ucx_rs.Worker.{
  Worker, Polled, finished, timed_out, failed, poll, progress, next_round, finish_guard,
}

-- The request at `p`, as a value that owns it.
abbrev pub owning : ℕ → Request
owning p = record { handle = some p }

module _ (u : Ucx) (w : Worker) (p : ℕ) where
  -- The history after `k` rounds of asking and progressing.
  unfoldable pub waited : ℕ → History → History
  waited zero h = h
  waited (suc k) h = waited k (worker_progress w.handle ∷ request_check_status p ∷ h)

  abbrev pub answer : History → RawStatus
  answer h = u.status h (request_check_status p)

  -- In each of the first `k` rounds UCX answers that the request is in progress.
  unfoldable pub Busy : ℕ → History → Type 0
  Busy zero h = Unit {0}
  Busy (suc k) h =
      (answer h ≡ ucs_in_progress) × Busy k (worker_progress w.handle ∷ request_check_status p ∷ h)

  abbrev pub verdict : RawStatus → Polled
  verdict ucs_ok = finished
  verdict s = failed s

  -- The two ends of a loop of `n` rounds that starts at `h`.
  pub data Polls (n : ℕ) (h : History) (r : Polled × History) : Type 0 where
    settles :
        (k : ℕ)
        → k < n
        → Busy k h
        → answer (waited k h) ≢ ucs_in_progress
        → r ≡ (verdict (answer (waited k h)), request_check_status p ∷ waited k h)
        → Polls n h r
    expires : Busy n h → r ≡ (timed_out, waited n h) → Polls n h r

-- How `check_finished` reads the answer about a request that is alive.
abbrev pub reading : RawStatus → Result Bool
reading ucs_ok = ok true
reading ucs_in_progress = ok false
reading s = err s

reading_lem :
    (s : RawStatus)
    → (if status_ptr_is_err (as_usize (discriminant s))
        then err (status_from_ptr (as_usize (discriminant s)))
        else ok (is_ok s))
      ≡ reading s
unfolding status_ptr_is_err status_from_ptr
reading_lem ucs_ok = refl
reading_lem ucs_in_progress = refl
reading_lem _ = refl

-- `check_finished` asks UCX once; success, progress and every error status are told apart, and
-- an error comes back as the very status that UCX answered.
pub check_finished-owning :
    (p : ℕ) (u : Ucx) (h : History)
    → check_finished (owning p) u h
      ≡ (reading (u.status h (request_check_status p)), request_check_status p ∷ h)
unfolding check_finished
check_finished-owning p u h = rw reading_lem

module _ (u : Ucx) (w : Worker) (p : ℕ) where
  poll-suc :
      (n : ℕ) (h : History)
      → poll (suc n) (owning p) w u h
        ≡ next_round
            (poll n (owning p) w)
            w
            (reading (answer u w p h))
            u
            (request_check_status p ∷ h)
  unfolding poll
  poll-suc n h = rw (check_finished-owning p u h)

  one_round :
      (n : ℕ) (h : History) (s : RawStatus)
      → answer u w p h ≡ s
      → Polls u w p n
          (worker_progress w.handle ∷ request_check_status p ∷ h)
          (poll n (owning p) w u (worker_progress w.handle ∷ request_check_status p ∷ h))
      → Polls u w p (suc n) h (poll (suc n) (owning p) w u h)
  unfolding progress waited Busy
  one_round n h ucs_in_progress e (settles k lt busy ne r) =
      settles (suc k) (omega arith) (e, busy) ne (poll-suc n h ∙ rw e r)
  one_round n h ucs_in_progress e (expires busy r) = expires (e, busy) (poll-suc n h ∙ rw e r)
  one_round n h ucs_ok e rest = settles 0 (omega arith) tt (λ q. cc) (poll-suc n h ∙ rw e)
  one_round n h _ e rest = settles 0 (omega arith) tt (λ q. cc) (poll-suc n h ∙ rw e)

  -- The loop asks and progresses while the answer is "in progress". It stops at the first other
  -- answer within its rounds, with that answer as its verdict, and otherwise after all rounds.
  pub poll-Polls : (n : ℕ) (h : History) → Polls u w p n h (poll n (owning p) w u h)
  unfolding waited Busy
  poll-Polls zero h = expires tt (unfold poll in refl)
  poll-Polls (suc n) h = one_round n h (answer u w p h) refl (poll-Polls n _)

  -- The two ends of a guard that holds a request: it frees the request directly after an answer
  -- other than "in progress", or keeps it when all rounds found it in progress.
  pub data Guarded (n : ℕ) (h h' : History) : Type 0 where
    freed :
        (k : ℕ)
        → k < n
        → Busy u w p k h
        → answer u w p (waited u w p k h) ≢ ucs_in_progress
        → h' ≡ request_free p ∷ request_check_status p ∷ waited u w p k h
        → Guarded n h h'
    leaked : Busy u w p n h → h' ≡ waited u w p n h → Guarded n h h'

  finish_guard-verdict :
      (s : RawStatus) (h : History)
      → finish_guard (owning p) (verdict u w p s) u h ≡ (tt, request_free p ∷ h)
  unfolding free
  finish_guard-verdict ucs_ok h = refl
  finish_guard-verdict _ h = refl

  pub poll-finish_guard :
      (n : ℕ) (h : History) → Guarded n h ((poll n (owning p) w >>= finish_guard (owning p)) u h).1
  poll-finish_guard n h = elim (poll-Polls n h) [
    | settles k lt busy ne e ↦ freed k lt busy ne (rw (e, finish_guard-verdict))
    | expires busy e ↦ leaked busy (rw e)
  ]
