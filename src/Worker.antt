-- ===== src/Worker.antt =====
-- src/worker/worker.rs and src/worker/address.rs: the operations of a worker. A worker is its UCX
-- handle and the address of its `alive` flag. `progress` is that of a release build; Debug has the
-- guard of a debug build. Polling is about the loop of a wait.
pub mod Polling
pub mod Teardown
pub mod Waiting
pub mod Params
pub mod Query
pub mod Mt
pub mod Liveness
pub mod Debug
pub mod Blind
use ucx_rs.Base.{length, List, ℕ, zero, suc, Bool, true, false, Option, none, some, ltb}
use ucx_rs.Ffi.{
  RawRequestParam, RawWorkerParams, zeroed, M, last_out, last_bytes, last_member, worker_create,
  worker_get_address, worker_release_address, worker_get_efd, worker_wait_mem, worker_address_query,
  pure, ◌>>=◌, ◌>>◌, call, call_status, call_word, request_cancel, worker_progress, worker_destroy,
  worker_fence, worker_wait, worker_arm, worker_signal, worker_flush_nbx, store_flag,
}
use ucx_rs.Status.{Status, Result, ok, err, map_ok, Request, status_to_result, status_ptr_to_result}
use ucx_rs.Request.{check_finished}
use ucx_rs.Request

pub record Worker : Type 0 where
  pub handle : ℕ
  pub alive : ℕ

-- The new worker's flag is made at `alive`.
unfoldable pub new : ℕ → RawWorkerParams → ℕ → M (Result Worker)
new context params alive = do
  status ← call_status (worker_create context params)
  worker ← last_out
  elim (status_to_result status) [
    | ok _ ↦ call (store_flag alive true) >> pure (ok (record { handle = worker; alive = alive }))
    | err e ↦ pure (err e)
  ]

-- The address of a worker, with the worker that it belongs to.
pub record WorkerAddress : Type 0 where
  pub handle : ℕ
  pub bytes : List ℕ
  pub parent : Worker

unfoldable pub pack_address : Worker → M (Result WorkerAddress)
pack_address w = do
  status ← call_status (worker_get_address w.handle)
  address ← last_out
  bytes ← last_bytes
  pure (
      map_ok (λ _. record { handle = address; bytes = bytes; parent = w })
        (status_to_result status))

unfoldable pub WorkerAddress_drop : WorkerAddress → M (Unit {0})
WorkerAddress_drop a = call (worker_release_address a.parent.handle a.handle)

-- The bytes of the address, as `to_vec` copies them.
abbrev pub to_vec : WorkerAddress → List ℕ
to_vec a = a.bytes

-- An address that came from elsewhere, in a vector at `buffer`.
pub record RemoteWorkerAddress : Type 0 where
  pub buffer : ℕ
  pub address : List ℕ

abbrev pub RemoteWorkerAddress_new : ℕ → List ℕ → RemoteWorkerAddress
RemoteWorkerAddress_new buffer address = record { buffer = buffer; address = address }

abbrev pub get_handle : RemoteWorkerAddress → ℕ × ℕ
get_handle a = (a.buffer, length a.address)

unfoldable pub get_efd : Worker → M (Result ℕ)
get_efd w = do
  status ← call_status (worker_get_efd w.handle)
  fd ← last_out
  pure (map_ok (λ _. fd) (status_to_result status))

pub wait_mem : Worker → ℕ → M (Unit {0})
wait_mem w address = call (worker_wait_mem w.handle address)

-- The identifier is the first member of the struct.
pub address_query : ℕ → M (Result ℕ)
address_query address = do
  status ← call_status (worker_address_query address)
  uid ← last_member 0
  pure (map_ok (λ _. uid) (status_to_result status))

unfoldable pub progress : Worker → M Bool
progress w = do n ← call_word (worker_progress w.handle); pure (ltb 0 n)

-- How a bounded loop over `check_finished` and `progress` comes to its end.
pub data Polled : Type 0 where
  finished timed_out : Polled
  failed : Status → Polled

abbrev pub next_round : M Polled → Worker → Result Bool → M Polled
next_round rest w (ok true) = pure finished
next_round rest w (ok false) = progress w >> rest
next_round rest w (err e) = pure (failed e)

-- `for _ in 0..rounds { match request.check_finished() { .. Ok(false) => worker.progress() .. } }`,
-- the loop of `wait_request`, of the guards of pending operations, of `Ep::close` and of the
-- worker's drop. Each of these says what it does at each end.
unfoldable pub poll : ℕ → Request → Worker → M Polled
poll zero r w = pure timed_out
poll (suc rounds) r w = check_finished r >>= next_round (poll rounds r w) w

-- `MAX_ROUNDS`, `MAX_PROGRESS` and `MAX_FLUSH_PROGRESS_ROUNDS`.
abbrev pub max_rounds : ℕ
max_rounds = 1000000

-- The ends of the loop in the guards of stream and fetching atomic operations. `forget` on a
-- time-out: the request stays with UCX.
abbrev pub finish_guard : Request → Polled → M (Unit {0})
finish_guard r finished = Request.free r
finish_guard r (failed e) = Request.free r
finish_guard r timed_out = pure tt

unfoldable pub wait_request : Worker → Request → M (Result Bool)
wait_request w r = do
  end ← poll max_rounds r w
  pure (elim end [ finished ↦ ok true | failed e ↦ err e | timed_out ↦ ok false ])

unfoldable pub cancel_request : Worker → Request → M (Unit {0})
cancel_request w r = elim r.handle [ none ↦ pure tt | some h ↦ call (request_cancel w.handle h) ]

unfoldable pub flush : Worker → RawRequestParam → M (Result (Option Request))
flush w param = do
  ptr ← call_word (worker_flush_nbx w.handle param)
  pure (status_ptr_to_result ptr)

pub fence : Worker → M (Result (Unit {0}))
fence w = do s ← call_status (worker_fence w.handle); pure (status_to_result s)

pub arm : Worker → M (Result (Unit {0}))
arm w = do s ← call_status (worker_arm w.handle); pure (status_to_result s)

pub wait : Worker → M (Result (Unit {0}))
wait w = do s ← call_status (worker_wait w.handle); pure (status_to_result s)

unfoldable pub signal : Worker → M (Result (Unit {0}))
signal w = do s ← call_status (worker_signal w.handle); pure (status_to_result s)

-- The request of the flush goes out of scope after its loop, whatever the loop's end.
abbrev pub finish_flush : Worker → Result (Option Request) → M (Unit {0})
finish_flush w (ok (some r)) = poll max_rounds r w >> Request.drop r
finish_flush w (ok none) = pure tt
finish_flush w (err e) = pure tt

-- The built parameter of `RequestParamBuilder::new().build()` is all zero.
unfoldable pub drop : Worker → M (Unit {0})
unfolding flush Request.drop
drop w = do
  call (store_flag w.alive false)
  result ← flush w zeroed
  finish_flush w result
  call (worker_destroy w.handle)
