-- ===== src/Stream/Poll.antt =====
-- src/stream.rs: `Worker::stream_poll`, and the older functions that pass a call on to UCX. An
-- entry of the array is three members of the struct that the call fills in: the endpoint, its user
-- data and its flags. `count` is an `isize`: a word from 2^63 on is negative.
use ucx_rs.Base.{
  ℕ, zero, suc, ◌+◌, ◌*◌, ◌^◌, ◌≤◌, ◌≡◌, refl, Option, none, some, List, [], ◌∷◌, ltb, ◌==◌,
  if◌then◌else◌, arith, ap,
}
use Prim.Native.Nat.{min}
use ucx_rs.Ffi.{
  RawRequestParam, Ucx, History, Effect, M, pure, ◌>>=◌, call, call_word, call_status,
  stream_worker_poll as ffi_stream_worker_poll, stream_send_nbx as ffi_stream_send_nbx,
  stream_recv_nbx as ffi_stream_recv_nbx, stream_recv_data_nb as ffi_stream_recv_data_nb,
  stream_recv_request_test as ffi_stream_recv_request_test,
  stream_data_release as ffi_stream_data_release,
}
use ucx_rs.Status.{
  Result, ok, err, Request, status_ptr_to_result, status_ptr_is_err, status_from_ptr,
  status_to_result,
}
use ucx_rs.Worker.{Worker}
use ucx_rs.Base.{length}
use ucx_rs.Ep.{Ep}

pub record StreamPollEvent : Type 0 where
  pub ep : ℕ
  pub user_data : ℕ
  pub flags : ℕ

abbrev entry : (ℕ → ℕ) → ℕ → StreamPollEvent
entry member i = record {
  ep = member (3 * i);
  user_data = member (3 * i + 1);
  flags = member (3 * i + 2);
}

-- The entries of the array from `i` on, after a call.
pub entries : (ℕ → ℕ) → ℕ → ℕ → List StreamPollEvent
entries member i zero = []
entries member i (suc n) =
    record { ep = member (3 * i); user_data = member (3 * i + 1); flags = member (3 * i + 2) }
    ∷ entries member (suc i) n

-- `Vec::truncate`.
truncate : {A : Type 0} → ℕ → List A → List A
truncate zero xs = []
truncate (suc n) [] = []
truncate (suc n) (x ∷ xs) = x ∷ truncate n xs

abbrev pub last_entries : ℕ → M (List StreamPollEvent)
last_entries n u [] = ([], [])
last_entries n u (e ∷ h) = (entries (u.member h e) 0 n, e ∷ h)

-- A release build: without the assertion that the count is at most `max_eps`.
unfoldable pub stream_poll : Worker → ℕ → M (Result (List StreamPollEvent))
unfolding truncate entries
stream_poll w max_eps = do
  count ← call_word (ffi_stream_worker_poll w.handle max_eps 0)
  poll_eps ← last_entries max_eps
  pure (
      if ltb count (2 ^ 63)
      then ok (truncate (min count max_eps) poll_eps)
      else err (status_from_ptr count))

pub stream_send_nbx : Ep → ℕ → ℕ → RawRequestParam → M (Result (Option Request))
stream_send_nbx ep buffer count param = do
  ptr ← call_word (ffi_stream_send_nbx ep.handle buffer count param)
  pure (status_ptr_to_result ptr)

pub stream_recv_nbx : Ep → ℕ → ℕ → RawRequestParam → M (Result (Option Request))
stream_recv_nbx ep buffer count param = do
  ptr ← call_word (ffi_stream_recv_nbx ep.handle buffer count param)
  pure (status_ptr_to_result ptr)

pub stream_worker_poll : Worker → ℕ → ℕ → M ℕ
stream_worker_poll w max_eps flags = call_word (ffi_stream_worker_poll w.handle max_eps flags)

pub stream_recv_data_nb : Ep → M (Result (Option ℕ))
stream_recv_data_nb ep = do
  ptr ← call_word (ffi_stream_recv_data_nb ep.handle)
  pure (
      if ptr == 0
      then ok none
      else if status_ptr_is_err ptr
      then err (status_from_ptr ptr)
      else ok (some ptr))

pub stream_recv_request_test : ℕ → M (Result (Unit {0}))
stream_recv_request_test request = do
  status ← call_status (ffi_stream_recv_request_test request)
  pure (status_to_result status)

pub stream_data_release : ℕ → ℕ → M (Unit {0})
stream_data_release ep data_pointer = call (ffi_stream_data_release ep data_pointer)

truncate-entries :
    (member : ℕ → ℕ) (i n k : ℕ) → k ≤ n → truncate k (entries member i n) ≡ entries member i k
unfolding truncate entries
truncate-entries member i n zero le = refl
truncate-entries member i zero (suc k) le = absurd (omega arith)
truncate-entries member i (suc n) (suc k) le =
    ap (λ (es : List StreamPollEvent). entry member i ∷ es)
      (truncate-entries member (suc i) n k (omega arith))

length-entries : (member : ℕ → ℕ) (i n : ℕ) → length (entries member i n) ≡ n
unfolding entries
length-entries member i zero = refl
length-entries member i (suc n) = omega (arith, length-entries member (suc i) n)

abbrev pub poll_call : Worker → ℕ → Effect
poll_call w max_eps = ffi_stream_worker_poll w.handle max_eps 0

-- The entries that UCX filled in, as far as the array holds them.
abbrev pub filled_in : Worker → ℕ → Ucx → History → List StreamPollEvent
filled_in w max_eps u h =
    entries (u.member h (poll_call w max_eps)) 0 (min (u.word h (poll_call w max_eps)) max_eps)

-- Polling makes one call. A negative count is the error that it encodes. Otherwise the result is as
-- many entries as UCX says that it filled in, from the first on, but never more than `max_eps`.
pub stream_poll-entries :
    (w : Worker) (max_eps : ℕ) (u : Ucx) (h : History)
    → (stream_poll w max_eps u h ≡ (
      (if ltb (u.word h (poll_call w max_eps)) (2 ^ 63)
          then ok (filled_in w max_eps u h)
          else err (status_from_ptr (u.word h (poll_call w max_eps)))),
      poll_call w max_eps ∷ h,
    ))
      × (length (filled_in w max_eps u h) ≤ max_eps)
unfolding stream_poll
stream_poll-entries w max_eps u h =
    let count = u.word h (poll_call w max_eps) in
    let member = u.member h (poll_call w max_eps) in
    (
      rw (truncate-entries member 0 max_eps (min count max_eps) (omega arith)),
      omega (arith, length-entries member 0 (min count max_eps)),
    )
