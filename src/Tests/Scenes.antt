-- ===== src/Tests/Scenes.antt =====
-- Shared workers and set-ups, at concrete inputs.
use ucx_rs.Base.{List, true, ◌∷◌, ◌≡◌, some, ℕ, refl, []}
use ucx_rs.Ffi.{Ucx, History, M, pure, call, worker_signal, pos, flag, zeroed}
use ucx_rs.Context.Params as ContextParams
use ucx_rs.Worker.Params as WorkerParams
use ucx_rs.Ep.{Ep}
use ucx_rs.Session.{session}
use ucx_rs.Session.Programs.{Action, flushes, sends_am, with_key, puts, awaited, dropped, run}
use ucx_rs.Session.Programs.Held.{program-held}
use ucx_rs.Session.Balance.{session-held}
use ucx_rs.Worker.{Worker}
use ucx_rs.Worker
use ucx_rs.Worker.Mt.{MtWorker, wait_request}
use ucx_rs.Worker.Mt.Runs.{Schedule, scheduled, shared_wait-Arrives}
use ucx_rs.Worker.Mt.Alone.{nobody, wait_request-alone}
use ucx_rs.Worker.Polling.{owning}
use ucx_rs.Worker.Mt.Sharing.{
  Reach, start, later, cloned, used, released, Shares, Operation, operate, release, shared-Shares,
  destroyed,
}
use ucx_rs.Session.Ledger.{held, held-same}
use ucx_rs.Loopback.{setup_default}
use ucx_rs.Loopback.Steps.{now, Sets}
use ucx_rs.Loopback.Setup.{setup_default-Sets}
use ucx_rs.Tests.{ucx, worker, started, plain_ep}

abbrev two_threads : MtWorker
two_threads = record { worker = worker }

abbrev bodies : ℕ → Worker → M (Unit {0})
bodies k w = pure tt

-- A second handle is made, the worker is progressed, and both handles are dropped.
abbrev progressed : History
progressed = (operate bodies Operation.progress two_threads ucx started).1

abbrev ending : ℕ × History
ending = release two_threads 1 ucx progressed

two_threads_end : Reach bodies two_threads ucx started ending
unfolding release
two_threads_end =
    later
      (later (later (later start (cloned 0 started)) (used Operation.progress 1 started))
        (released 1 progressed))
      (released 0 progressed)

shared-Shares_example : Shares ucx two_threads started ending
shared-Shares_example =
    shared-Shares bodies two_threads ucx started (λ k u h. (refl, refl)) refl two_threads_end

-- In each round the other thread signals the worker and packs its address, before this thread's
-- progress, and progresses the worker itself, after it.
abbrev turns : Schedule
turns i = (Operation.signal ∷ Operation.pack_address ∷ [], Operation.progress ∷ [])

shared_wait-Arrives_example :
    let after =
      (wait_request
        (scheduled bodies turns two_threads)
        two_threads
        (owning 4096)
        ucx
        progressed).1 in
    Reach bodies two_threads ucx started (2, after)
    × (destroyed 16 after ≡ destroyed 16 started)
    × (flag 32 after ≡ true)
shared_wait-Arrives_example =
    shared_wait-Arrives bodies two_threads ucx started 1 turns (owning 4096) progressed
      (λ k u h. (refl, refl)) refl
      (later (later start (cloned 0 started)) (used Operation.progress 1 started))

wait_request-alone_example :
    wait_request nobody two_threads (owning 4096) ucx started
    ≡ Worker.wait_request worker (owning 4096) ucx started
wait_request-alone_example = wait_request-alone two_threads (owning 4096) ucx started

-- A UCX that never has anything to do.
abbrev idle : Ucx
idle = record ucx { word = λ h e. 0 }

setup_default-Sets_example : Sets idle [] (setup_default 1 32 64 4096 8192 idle [])
unfolding held
setup_default-Sets_example = setup_default-Sets 1 32 64 4096 8192 idle [] [] (λ w h. now refl) refl

-- The use of the endpoint signals the worker.
abbrev signals : Ep → Worker → M (Unit {0})
signals ep w = call (worker_signal w.handle)

signals-held : (ep : Ep) (w : Worker) (h : History) → held ucx (signals ep w ucx h).1 ≡ held ucx h
signals-held ep w h = held-same ucx h _ (λ rs. refl)

abbrev shared_context : ContextParams.Params
shared_context =
    (ContextParams.build
      (ContextParams.features 64 (ContextParams.mt_workers_shared (pos 1) ContextParams.new))).0

abbrev plain_worker : WorkerParams.Params
plain_worker = (WorkerParams.build WorkerParams.new).0

session-held_example :
    held ucx
      (session signals
        (record { handle = 8 })
        shared_context
        plain_worker.handle
        32
        plain_ep
        ucx
        []).1
    ≡ some []
unfolding held
session-held_example =
    session-held signals (record { handle = 8 }) shared_context plain_worker.handle 32 plain_ep ucx
      [] [] (λ e w h. refl) signals-held refl

-- A flush that is waited for, an active message, and a key with which a put is made.
abbrev program : List Action
program =
    flushes zeroed awaited
    ∷ sends_am 3 0 0 2048 8 zeroed dropped
    ∷ with_key (0 ∷ 0 ∷ 0 ∷ 0 ∷ []) ((puts 2048 8 1024 zeroed, awaited) ∷ [])
    ∷ []

program-held_example :
    held ucx
      (session
        (run program)
        (record { handle = 8 })
        shared_context
        plain_worker.handle
        32
        plain_ep
        ucx
        []).1
    ≡ some []
unfolding held
program-held_example =
    program-held program (record { handle = 8 }) shared_context plain_worker.handle 32 plain_ep ucx
      [] [] (λ e buffer h good q. cc) refl
