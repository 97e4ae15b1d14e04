-- ===== src/Worker/Mt/Runs.antt =====
-- A wait on a shared worker as a run of turns: it takes the mutex anew for each call of progress,
-- and asks about its request without it. In between, other threads take turns.
use ucx_rs.Base.{ℕ, zero, suc, ◌≡◌, Bool, true, false, List, [], ◌∷◌}
use ucx_rs.Ffi.{Ucx, History, M, pure, ◌>>◌, flag}
use ucx_rs.Status.{Result, ok, err, Request}
use ucx_rs.Worker.{Worker, max_rounds}
use ucx_rs.Worker.Mt.{MtWorker, Others, next_round, poll, wait_request}
use ucx_rs.Worker.Mt
use ucx_rs.Worker.Mt.Sharing.{
  Operation, Reach, later, used, operate, progress, check_finished, Keeps, held, shared-Shares,
  destroyed,
}

-- The operations of other threads in each round, before this thread's progress and after it.
abbrev pub Schedule : Type 0
Schedule = ℕ → List Operation × List Operation

module _ (bodies : ℕ → Worker → M (Unit {0})) where
  -- One turn after another, each at the history that the turns before it have led to.
  abbrev pub take_turns : List Operation → MtWorker → M (Unit {0})
  take_turns [] m = pure tt
  take_turns (op ∷ ops) m = operate bodies op m >> take_turns ops m

  abbrev pub scheduled : Schedule → MtWorker → Others
  scheduled turns m i = (take_turns (turns i).0 m, take_turns (turns i).1 m)

module _ (bodies : ℕ → Worker → M (Unit {0})) (m : MtWorker) (u : Ucx) (h₀ : History) (k : ℕ) where
  -- A history that turns lead to, with the handle of the thread that waits and `k` others.
  abbrev pub Arrives : History → Type 0
  Arrives h = Reach bodies m u h₀ (suc k, h)

  takes : (op : Operation) (h : History) → Arrives h → Arrives (operate bodies op m u h).1
  takes op h here = later here (used op k h)

  take_turns-Arrives :
      (ops : List Operation) (h : History) → Arrives h → Arrives (take_turns bodies ops m u h).1
  take_turns-Arrives [] h here = here
  take_turns-Arrives (op ∷ ops) h here = take_turns-Arrives ops _ (takes op h here)

  module _ (turns : Schedule) (r : Request) where
    abbrev others : Others
    others = scheduled bodies turns m

    next_round-Arrives :
        (i n : ℕ)
        → ((h : History) → Arrives h → Arrives (poll others (suc i) n r m u h).1)
        → (a : Result Bool) (h : History) → Arrives h
        → Arrives (next_round (poll others (suc i) n r m) m (others i) a u h).1
    unfolding operate Mt.progress
    next_round-Arrives i n rest (ok true) h here = here
    next_round-Arrives i n rest (ok false) h here = rest _ (
        take_turns-Arrives (turns i).1 _ (takes progress _ (take_turns-Arrives (turns i).0 h here)))
    next_round-Arrives i n rest (err e) h here = here

    poll-Arrives : (i n : ℕ) (h : History) → Arrives h → Arrives (poll others i n r m u h).1
    unfolding operate poll
    poll-Arrives i zero h here = here
    poll-Arrives i (suc n) h here =
        next_round-Arrives i n (poll-Arrives (suc i) n) _ _ (takes (check_finished r) h here)

    wait_request-Arrives : (h : History) → Arrives h → Arrives (wait_request others m r u h).1
    unfolding wait_request
    wait_request-Arrives h here = poll-Arrives 0 max_rounds h here

-- A wait on a shared worker, for any request and while other threads do any operations on the
-- worker in each round, before and after this thread's progress, is itself a run of turns: from a
-- history that clones, drops and uses of handles lead to, it leads on to such a history, with as
-- many handles. So when it returns, whatever its result, the worker has not been destroyed since
-- the start and its flag is up. At the start the flag is up, and the closures given to
-- `with_worker` neither destroy the worker nor clear its flag.
pub shared_wait-Arrives :
    (bodies : ℕ → Worker → M (Unit {0})) (m : MtWorker) (u : Ucx) (h₀ : History) (k : ℕ)
    (turns : Schedule) (r : Request) (h : History)
    → ((k : ℕ) → Keeps m.worker (bodies k m.worker))
    → flag m.worker.alive h₀ ≡ true
    → Reach bodies m u h₀ (suc k, h)
    → let after = (wait_request (scheduled bodies turns m) m r u h).1 in
      Reach bodies m u h₀ (suc k, after)
      × (destroyed m.worker.handle after ≡ destroyed m.worker.handle h₀)
      × (flag m.worker.alive after ≡ true)
shared_wait-Arrives bodies m u h₀ k turns r h keep up here =
    let run = wait_request-Arrives bodies m u h₀ k turns r h here in
    elim (shared-Shares bodies m u h₀ keep up run) [ held _ d f ↦ (run, d, f) ]
