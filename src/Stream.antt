-- ===== src/Stream.antt =====
-- src/stream.rs: stream operations, and the guard that keeps a buffer borrowed until its operation
-- is over.
pub mod Guard
pub mod Poll
use ucx_rs.Base.{List, ℕ, Bool, true, false, Option, none, some, ◌==◌, if◌then◌else◌}
use ucx_rs.Ffi.{
  RawRequestParam, M, pure, ◌>>=◌, ◌>>◌, call, call_word, last_out, stream_send_nbx,
  stream_recv_nbx, stream_recv_data_nb, stream_data_release,
}
use ucx_rs.Status.{
  Result, ok, err, map_ok, Request, status_ptr_to_result, status_ptr_is_err, status_from_ptr,
}
use ucx_rs.Request
use ucx_rs.Worker.{Worker, poll, finish_guard, max_rounds}
use ucx_rs.Ep.{Ep}
use mathlib.Core.Option

pub record StreamRequest : Type 0 where
  pub request : Option Request
  pub worker : Worker
  pub length : ℕ

pub into_inner : StreamRequest → Option Request
into_inner s = s.request

unfoldable pub check_finished : StreamRequest → M (Result Bool)
check_finished s = elim s.request [ none ↦ pure (ok true) | some r ↦ Request.check_finished r ]

unfoldable pub stream_recv_test : StreamRequest → M (Result ℕ)
stream_recv_test s = elim s.request [
  | none ↦ pure (ok s.length)
  | some r ↦ Request.stream_recv_test r
]

unfoldable pub drop : StreamRequest → M (Unit {0})
unfolding Request.free
drop s = elim s.request [ none ↦ pure tt | some r ↦ poll max_rounds r s.worker >>= finish_guard r ]

-- What is left of the guard, without its request, is dropped at the end.
unfoldable pub free : StreamRequest → M (Unit {0})
unfolding Request.free drop
free s = elim s.request [
  | none ↦ drop s
  | some r ↦ poll max_rounds r s.worker >>= finish_guard r >> drop (record s { request = none })
]

unfoldable pub stream_send :
    Ep → Worker → ℕ → ℕ → RawRequestParam → M (Result (Option StreamRequest))
stream_send ep w buf len param = do
  ptr ← call_word (stream_send_nbx ep.handle buf len param)
  pure (
      map_ok (Option.map (λ r. record { request = some r; worker = w; length = 0 }))
        (status_ptr_to_result ptr))

unfoldable pub stream_recv : Ep → Worker → ℕ → ℕ → RawRequestParam → M (Result StreamRequest)
stream_recv ep w buf len param = do
  ptr ← call_word (stream_recv_nbx ep.handle buf len param)
  length ← last_out
  pure
      (map_ok (λ r. record { request = r; worker = w; length = length }) (status_ptr_to_result ptr))

pub record StreamData : Type 0 where
  pub ep : ℕ
  pub address : ℕ
  pub length : ℕ

unfoldable pub stream_recv_data : Ep → M (Result (Option StreamData))
stream_recv_data ep = do
  ptr ← call_word (stream_recv_data_nb ep.handle)
  length ← last_out
  pure (
      if ptr == 0
      then ok none
      else if status_ptr_is_err ptr
      then err (status_from_ptr ptr)
      else ok (some (record { ep = ep.handle; address = ptr; length = length })))

unfoldable pub StreamData_drop : StreamData → M (Unit {0})
StreamData_drop d = call (stream_data_release d.ep d.address)

-- The bytes of a descriptor, whose memory `bytes` gives, and its length.
abbrev pub as_bytes : (ℕ → ℕ → List ℕ) → StreamData → List ℕ
as_bytes bytes d = bytes d.address d.length

abbrev pub len : StreamData → ℕ
len d = d.length

abbrev pub is_empty : StreamData → Bool
is_empty d = d.length == 0
