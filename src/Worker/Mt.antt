-- ===== src/Worker/Mt.antt =====
-- src/worker/worker.rs: `MtWorker`, a worker in a mutex that several threads share. `lock` passes
-- over a poisoned mutex, so it always gives the worker. Between two operations other threads may
-- act on their own, at the history at hand: `Others` says how.
pub mod Admission
pub mod Waiting
pub mod Sharing
pub mod Alone
pub mod Runs
use ucx_rs.Base.{ℕ, zero, suc, Bool, true, false, Option, none, some, List}
use ucx_rs.Ffi.{RawRequestParam, M, pure, ◌>>=◌, ◌>>◌, err_invalid_param}
use ucx_rs.Status.{Result, ok, err, map_ok, Request}
use ucx_rs.Request.{check_finished}
use ucx_rs.ThreadMode.{ThreadMode, single, serialized, multi, unknown}
use ucx_rs.Worker.{Worker, WorkerAddress, Polled, finished, failed, timed_out, max_rounds}
use ucx_rs.Worker
use ucx_rs.Ep.{Ep}
use ucx_rs.Ep
use ucx_rs.Ep.Params
use ucx_rs.Worker.Query.{WorkerAttr, query, attr_thread_mode}

pub record MtWorker : Type 0 where
  pub worker : Worker

-- The mode that UCX granted, or why there is none.
abbrev pub granted : Result WorkerAttr → Result ThreadMode
granted (err e) = err e
granted (ok attr) = elim attr.thread_mode [ none ↦ err err_invalid_param | some mode ↦ ok mode ]

-- The worker is moved in, so it is dropped where it is not wrapped.
abbrev pub admit : Worker → Result ThreadMode → M (Result MtWorker)
admit w (ok serialized) = pure (ok (record { worker = w }))
admit w (ok multi) = pure (ok (record { worker = w }))
admit w (ok _) = Worker.drop w >> pure (err err_invalid_param)
admit w (err e) = Worker.drop w >> pure (err e)

unfoldable pub new : Worker → M (Result MtWorker)
new w = do attr ← query w attr_thread_mode; admit w (granted attr)

abbrev pub lock : MtWorker → Worker
lock m = m.worker

abbrev pub with_worker : {A : Type 0} → MtWorker → (Worker → M A) → M A
with_worker m operation = operation (lock m)

pub progress : MtWorker → M Bool
progress m = Worker.progress (lock m)

pub flush : MtWorker → RawRequestParam → M (Result (Option Request))
flush m param = Worker.flush (lock m) param

pub fence : MtWorker → M (Result (Unit {0}))
fence m = Worker.fence (lock m)

pub wait : MtWorker → M (Result (Unit {0}))
wait m = Worker.wait (lock m)

pub arm : MtWorker → M (Result (Unit {0}))
arm m = Worker.arm (lock m)

unfoldable pub signal : MtWorker → M (Result (Unit {0}))
signal m = Worker.signal (lock m)

pub get_efd : MtWorker → M (Result ℕ)
get_efd m = Worker.get_efd (lock m)

unfoldable pub cancel_request : MtWorker → Request → M (Unit {0})
cancel_request m r = Worker.cancel_request (lock m) r

pub create_ep : MtWorker → Ep.Params.Params → M (Result Ep)
create_ep m params = Ep.create_ep (lock m) params

-- The bytes are copied, and the address of UCX is released at once.
unfoldable pub pack_address : MtWorker → M (Result (List ℕ))
pack_address m = Worker.pack_address (lock m) >>= copied
  where
    copied : Result WorkerAddress → M (Result (List ℕ))
    copied (ok address) = Worker.WorkerAddress_drop address >> pure (ok address.bytes)
    copied (err e) = pure (err e)

-- What other threads do in each round: before this thread's progress, and after it.
abbrev pub Others : Type 0
Others = ℕ → M (Unit {0}) × M (Unit {0})

abbrev pub next_round : M Polled → MtWorker → M (Unit {0}) × M (Unit {0}) → Result Bool → M Polled
next_round rest m acts (ok true) = pure finished
next_round rest m acts (ok false) = acts.0 >> Worker.progress (lock m) >> acts.1 >> rest
next_round rest m acts (err e) = pure (failed e)

-- The loop of `wait_request`, in which every `progress` takes the mutex and gives it back. `i`
-- counts the rounds so far.
unfoldable pub poll : Others → ℕ → ℕ → Request → MtWorker → M Polled
poll others i zero r m = pure timed_out
poll others i (suc rounds) r m =
    check_finished r >>= next_round (poll others (suc i) rounds r m) m (others i)

unfoldable pub wait_request : Others → MtWorker → Request → M (Result Bool)
wait_request others m r = do
  end ← poll others 0 max_rounds r m
  pure (elim end [ finished ↦ ok true | failed e ↦ err e | timed_out ↦ ok false ])
