-- ===== src/Worker/Mt/Alone.antt =====
-- A shared worker that one thread uses: its wait is that of the worker inside.
use ucx_rs.Base.{ℕ, zero, suc, ◌≡◌, refl, Bool, true, false, ap}
use ucx_rs.Ffi.{Ucx, History, M, pure}
use ucx_rs.Status.{Result, ok, err, Request}
use ucx_rs.Request.{check_finished}
use ucx_rs.Worker.{Polled, finished, timed_out, failed, max_rounds}
use ucx_rs.Worker
use ucx_rs.Worker.Mt.{MtWorker, Others, next_round, poll, wait_request}

abbrev pub nobody : Others
nobody i = (pure tt, pure tt)

module _ (m : MtWorker) (r : Request) (u : Ucx) where
  next_round-alone :
      (rest here : M Polled) (i : ℕ)
      → ((h : History) → rest u h ≡ here u h)
      → (a : Result Bool) (h : History)
      → next_round rest m (nobody i) a u h ≡ Worker.next_round here m.worker a u h
  next_round-alone rest here i same (ok true) h = refl
  next_round-alone rest here i same (ok false) h = same _
  next_round-alone rest here i same (err e) h = refl

  poll-alone : (n i : ℕ) (h : History) → poll nobody i n r m u h ≡ Worker.poll n r m.worker u h
  unfolding poll Worker.poll
  poll-alone zero i h = refl
  poll-alone (suc n) i h =
      next_round-alone (poll nobody (suc i) n r m) (Worker.poll n r m.worker) i
        (poll-alone n (suc i)) (check_finished r u h).0 (check_finished r u h).1

-- With no other thread at work, waiting on a shared worker does exactly what waiting on the worker
-- inside does: the same calls in the same order, and the same result, for every request.
pub wait_request-alone :
    (m : MtWorker) (r : Request) (u : Ucx) (h : History)
    → wait_request nobody m r u h ≡ Worker.wait_request m.worker r u h
unfolding wait_request Worker.wait_request
wait_request-alone m r u h =
    ap
      (λ (t : Polled × History).
        (elim t.0 [ finished ↦ ok true | failed e ↦ err e | timed_out ↦ ok false ], t.1))
      (poll-alone m r u max_rounds 0 h)
