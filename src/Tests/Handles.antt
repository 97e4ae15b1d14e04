-- ===== src/Tests/Handles.antt =====
-- Shared workers, waits that end, memory mappings, addresses and streams, at concrete inputs.
use ucx_rs.Base.{
  ◌&&◌, not, ℕ, ◌≡◌, ◌≤◌, refl, some, [], ◌∷◌, arith, length, ltb, ◌^◌, if◌then◌else◌,
}
use ucx_rs.Ffi.{
  Ucx, worker_signal, request_free, request_check_status, ucs_ok, mem_query, call, print_info,
  of_config, pos,
}
use ucx_rs.Status.{ok, err, status_from_ptr, status_to_result, status_value_is_err}
use ucx_rs.Worker.{wait_request}
use ucx_rs.Worker.Polling.{owning, waited}
use ucx_rs.Worker.Liveness.{Ends, wait_request-Ends}
use ucx_rs.Worker.Mt.{MtWorker}
use ucx_rs.Worker.Mt
use ucx_rs.Worker.Mt.Admission.{Admits, mt_new-Admits}
use ucx_rs.Worker.Mt.Waiting.{Waits, mt_wait_request-Waits}
use ucx_rs.Stream.{drop}
use ucx_rs.Stream.Guard.{holding, drop-frees}
use ucx_rs.Stream.Poll.{stream_poll, poll_call, filled_in, stream_poll-entries}
use ucx_rs.FileStream.{Closes, with_file_stream, with_file_stream-Closes}
use ucx_rs.Memh.{query}
use ucx_rs.Memh.Mapping.{Scoped, mapped_scope, mapped_scope-Scoped, query_unselected}
use ucx_rs.MemoryType.{raw_host}
use ucx_rs.SockAddr.{v4, v6, valid6, holds, unscoped, from_storage, from_storage-new, other_family}
use ucx_rs.SockAddr
use ucx_rs.Threading.{send, sync, fields, asserted, a_listener}
use ucx_rs.Threading.Matrix.{exposes, Agrees, belongs_to_worker, is_listener, traits_lem}
use ucx_rs.Tests.{ucx, worker}

abbrev shared : MtWorker
shared = record { worker = worker }

-- Another thread signals the worker in every round, before and after this thread's progress.
abbrev others : Mt.Others
others i = (call (worker_signal 16), call (worker_signal 16))

mt_new-Admits_example : Admits ucx worker [] (Mt.new worker ucx [])
mt_new-Admits_example = mt_new-Admits worker ucx []

mt_wait_request-Waits_example :
    Waits others ucx shared 4096 [] (Mt.wait_request others shared (owning 4096) ucx [])
mt_wait_request-Waits_example = mt_wait_request-Waits others shared 4096 ucx []

-- The test UCX settles a request after one call of progress.
wait_request-Ends_example : Ends ucx worker 4096 1 [] (wait_request worker (owning 4096) ucx [])
unfolding waited
wait_request-Ends_example = wait_request-Ends worker 4096 1 ucx [] (omega arith) (λ e. cc)

drop-frees_example :
    (j : ℕ) × (j ≤ 1)
    × ((drop (holding worker 4096 10) ucx []).1
        ≡ request_free 4096 ∷ request_check_status 4096 ∷ waited ucx worker 4096 j [])
unfolding waited
drop-frees_example = drop-frees worker 4096 10 1 ucx [] (omega arith) (λ e. cc)

stream_poll-entries_example :
    (stream_poll worker 2 ucx [] ≡ (
      (if ltb 4096 (2 ^ 63) then ok (filled_in worker 2 ucx []) else err (status_from_ptr 4096)),
      poll_call worker 2 ∷ [],
    ))
    × (length (filled_in worker 2 ucx []) ≤ 2)
stream_poll-entries_example = stream_poll-entries worker 2 ucx []

with_file_stream-Closes_example :
    Closes
      (pos 3)
      (λ stream. call (print_info of_config 24 stream))
      ucx
      []
      (with_file_stream (pos 3) (λ stream. call (print_info of_config 24 stream)) ucx [])
with_file_stream-Closes_example =
    with_file_stream-Closes (pos 3) (λ stream. call (print_info of_config 24 stream)) ucx []

mapped_scope-Scoped_example :
    Scoped 8 4096 64 1
      (λ m. call (worker_signal 16))
      ucx
      []
      (mapped_scope 8 4096 64 1 (λ m. call (worker_signal 16)) ucx [])
mapped_scope-Scoped_example = mapped_scope-Scoped 8 4096 64 1 (λ m. call (worker_signal 16)) ucx []

-- A UCX that writes nothing into a struct.
abbrev silent : Ucx
silent = record {
  status = λ h e. ucs_ok;
  word = λ h e. 0;
  out = λ h e. 0;
  bytes = λ h e. [];
  member = λ h e k. 0;
  storage = λ h e k. other_family 0;
}

query_unselected_example :
    query (record { context = 8; handle = 512 }) silent []
    ≡ (ok (record { address = 0; length = 0; mem_type = raw_host }), mem_query 512 0 ∷ [])
unfolding status_to_result status_value_is_err
query_unselected_example =
    query_unselected (record { context = 8; handle = 512 }) silent [] (λ h a m k e. refl) refl

from_storage-new_example :
    from_storage (holds (SockAddr.new (v6 (254 ∷ 128 ∷ []) 13337 5 2)))
    ≡ some (v6 (254 ∷ 128 ∷ []) 13337 0 0)
from_storage-new_example = from_storage-new (v6 (254 ∷ 128 ∷ []) 13337 5 2) (valid6 (omega arith))

traits_lem_example :
    (send (fields a_listener) ≡ not (exposes (fields a_listener)))
    × (sync (fields a_listener) ≡ not (exposes (fields a_listener)))
    × Agrees (asserted a_listener) (fields a_listener)
    × ((belongs_to_worker a_listener && send (fields a_listener)) ≡ is_listener a_listener)
traits_lem_example = traits_lem a_listener
