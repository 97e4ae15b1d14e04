-- ===== src/Tag/Completion.antt =====
-- What the completion loop of a tag guard does.
use ucx_rs.Base.{ℕ, zero, suc, ◌≤◌, ◌≡◌, refl, ◌∙◌, ◌≢◌, Option, none, some, ◌∷◌, arith}
use ucx_rs.Ffi.{
  RawStatus, History, Ucx, M, pure, ◌>>◌, call, ucs_ok, ucs_in_progress, worker_progress,
  request_check_status, request_free, abort_process,
}
use ucx_rs.Status.{Result, ok, err}
use ucx_rs.Request
use ucx_rs.Worker.{Worker, progress}
use ucx_rs.Worker.Polling.{owning, waited, answer, Busy, reading, check_finished-owning}
use ucx_rs.Tag.{TagRequest, check_finished, turn, complete_within, complete, free, drop, then_drop}

abbrev pub holding : Worker → ℕ → TagRequest
holding w p = record { worker = w; handle = some p }

module _ (u : Ucx) (w : Worker) (p : ℕ) where
  -- What the guard reports of a final answer.
  abbrev pub report : RawStatus → Result (Unit {0})
  report ucs_ok = ok tt
  report s = err s

  pub data Completes (n : ℕ) (h : History) (r : Option (Result (Unit {0})) × History) : Type 0 where
    completes :
        (k : ℕ)
        → k ≤ n
        → Busy u w p k h
        → answer u w p (waited u w p k h) ≢ ucs_in_progress
        → r ≡ (
          some (report (answer u w p (waited u w p k h))),
          request_free p ∷ request_check_status p ∷ waited u w p k h,
        )
        → Completes n h r
    aborts :
        Busy u w p (suc n) h
        → r ≡ (none, abort_process ∷ request_check_status p ∷ waited u w p n h)
        → Completes n h r

  abbrev after_wait : ℕ → M (Option (Result (Unit {0})))
  after_wait zero = call abort_process >> pure none
  after_wait (suc n) = progress w >> complete_within n (holding w p)

  complete-step :
      (n : ℕ) (h : History)
      → complete_within n (holding w p) u h
        ≡ turn (owning p) (after_wait n) (reading (answer u w p h)) u (request_check_status p ∷ h)
  unfolding complete_within check_finished
  complete-step zero h = rw (check_finished-owning p u h)
  complete-step (suc n) h = rw (check_finished-owning p u h)

  first_answer :
      (n : ℕ) (h : History) (s : RawStatus)
      → s ≢ ucs_in_progress
      → answer u w p h ≡ s
      → Completes n h (complete_within n (holding w p) u h)
  unfolding Request.drop Busy waited
  first_answer n h ucs_in_progress ne e = absurd (ne refl)
  first_answer n h ucs_ok ne e = completes 0 (omega arith) tt (λ q. cc) (complete-step n h ∙ rw e)
  first_answer n h _ ne e = completes 0 (omega arith) tt (λ q. cc) (complete-step n h ∙ rw e)

  at_last :
      (h : History) (s : RawStatus)
      → answer u w p h ≡ s
      → Completes 0 h (complete_within 0 (holding w p) u h)
  unfolding Busy waited
  at_last h ucs_in_progress e = aborts (e, tt) (complete-step 0 h ∙ rw e)
  at_last h ucs_ok e = first_answer 0 h ucs_ok (λ q. cc) e
  at_last h s e = first_answer 0 h s (λ q. cc) e

  next_turn :
      (n : ℕ) (h : History) (s : RawStatus)
      → answer u w p h ≡ s
      → Completes n (worker_progress w.handle ∷ request_check_status p ∷ h) (
          complete_within n (holding w p) u (worker_progress w.handle ∷ request_check_status p ∷ h))
      → Completes (suc n) h (complete_within (suc n) (holding w p) u h)
  unfolding Busy waited progress
  next_turn n h ucs_in_progress e (completes k le busy ne r) =
      completes (suc k) (omega arith) (e, busy) ne (complete-step (suc n) h ∙ rw e r)
  next_turn n h ucs_in_progress e (aborts busy r) =
      aborts (e, busy) (complete-step (suc n) h ∙ rw e r)
  next_turn n h ucs_ok e rest = first_answer (suc n) h ucs_ok (λ q. cc) e
  next_turn n h s e rest = first_answer (suc n) h s (λ q. cc) e

  complete_within-Completes :
      (n : ℕ) (h : History) → Completes n h (complete_within n (holding w p) u h)
  complete_within-Completes zero h = at_last h (answer u w p h) refl
  complete_within-Completes (suc n) h =
      next_turn n h (answer u w p h) refl (complete_within-Completes n _)

-- A tag guard progresses its worker while its request is in progress, at most a million times. At
-- the first other answer it frees the request and reports that answer; if the answer after the last
-- round is still "in progress", it ends the process and frees nothing.
pub complete-Completes :
    (w : Worker) (p : ℕ) (u : Ucx) (h : History)
    → Completes u w p 1000000 h (complete (holding w p) u h)
complete-Completes w p u h = unfold complete in complete_within-Completes u w p 1000000 h

complete_within-none :
    (n : ℕ) (w : Worker) (u : Ucx) (h : History)
    → complete_within n (record { worker = w; handle = none }) u h ≡ (some (ok tt), h)
unfolding complete_within check_finished Request.check_finished Request.drop
complete_within-none zero w u h = refl
complete_within-none (suc n) w u h = refl

complete-none :
    (w : Worker) (u : Ucx) (h : History)
    → complete (record { worker = w; handle = none }) u h ≡ (some (ok tt), h)
complete-none w u h = unfold complete in complete_within-none 1000000 w u h

drop-none :
    (w : Worker) (u : Ucx) (h : History) → drop (record { worker = w; handle = none }) u h ≡ (tt, h)
unfolding drop
drop-none w u h = rw (complete-none w u h)

then_drop_lem :
    (w : Worker) (p : ℕ) (u : Ucx) (r : Option (Result (Unit {0}))) (h : History)
    → then_drop (holding w p) r u h ≡ (r, h)
then_drop_lem w p u none h = refl
then_drop_lem w p u (some result) h = rw (drop-none w u h)

-- Freeing a tag guard is completing it: the drop of what is left of the guard asks nothing and
-- frees nothing. Dropping the guard has the same effects, and its result is ignored.
pub free-complete :
    (w : Worker) (p : ℕ) (u : Ucx) (h : History)
    → (free (holding w p) u h ≡ complete (holding w p) u h)
      × ((drop (holding w p) u h).1 ≡ (complete (holding w p) u h).1)
free-complete w p u h = (
  unfold free in then_drop_lem w p u (complete (holding w p) u h).0 (complete (holding w p) u h).1,
  unfold drop in refl,
)
