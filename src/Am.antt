-- ===== src/Am.antt =====
-- src/am.rs: the registration of handlers of active messages, and the trampoline that UCX calls for
-- each message. A closure is a function from what it was called with before to what it does with a
-- message. `retained` is the worker's field `am_handlers`, the addresses of the handlers.
pub mod Trampoline
pub mod Registration
pub mod Receive
pub mod Incoming
use ucx_rs.Base.{bit_and, ℕ, Bool, true, false, Option, none, some, List, [], ◌∷◌, ◌++◌, ◌||◌}
use ucx_rs.Base.{◌==◌, if◌then◌else◌, bit_or}
use ucx_rs.Ffi.{
  RawStatus, RawRequestParam, RawAmHandlerParam, AmCallback, no_callback, trampoline, M, pure,
  ◌>>=◌, call_status, call_word, set_am_recv_handler, am_send_nbx, call, am_recv_data_nbx,
  am_data_release as ffi_am_data_release, ucs_ok, err_invalid_param, err_io_error,
}
use ucx_rs.Status.{Status, Result, ok, err, Request, is_err, status_to_result, status_ptr_to_result}
use ucx_rs.Request.{from_raw}
use ucx_rs.Worker.{Worker}
use ucx_rs.Ep.{Ep}

-- A header and the data.
abbrev pub Message : Type 0
Message = List ℕ × List ℕ

-- What a call of a closure comes to: `Ok(())`, `Err(status)` or a panic.
pub data Outcome : Type 0 where
  done panicked : Outcome
  refused : Status → Outcome

-- `AmHandler`: a closure in a mutex. `calls` is what the closure has been called with, the last
-- call first.
pub record AmHandler : Type 0 where
  pub closure : List Message → Message → Outcome
  pub calls : List Message
  pub poisoned : Bool

-- A guard that is dropped while its thread panics poisons the mutex.
abbrev pub unlock : Bool → AmHandler → AmHandler
unlock panicking handler = record handler { poisoned = handler.poisoned || panicking }

-- The bytes at a pointer of UCX: `none` where a null pointer comes with a length.
unfoldable pub slice : (ℕ → ℕ → List ℕ) → ℕ → ℕ → Option (List ℕ)
slice memory pointer length =
    if pointer == 0 then (if length == 0 then some [] else none) else some (memory pointer length)

-- The `match` on the outcome.
unfoldable pub reply : Outcome → Status
reply done = ucs_ok
reply (refused status) = if is_err status then status else err_invalid_param
reply panicked = err_io_error

-- The call of the closure. `catch_unwind` ends the panic while the guard is still held, so that the
-- guard is dropped by a thread that does not panic.
abbrev pub invoke : AmHandler → Message → Status × AmHandler
invoke handler message = (
  reply (handler.closure handler.calls message),
  unlock false (record handler { calls = message ∷ handler.calls }),
)

abbrev pub invoke_unless_poisoned : Bool → AmHandler → Message → Status × AmHandler
invoke_unless_poisoned true handler message = (err_io_error, handler)
invoke_unless_poisoned false handler message = invoke handler message

-- What UCX passes to the trampoline: the pointers and lengths of the header and of the data.
pub record Delivery : Type 0 where
  pub header : ℕ
  pub header_length : ℕ
  pub data_pointer : ℕ
  pub data_length : ℕ

-- The early returns on a slice that there is not, and the call.
abbrev pub dispatch : Option (List ℕ) → Option (List ℕ) → AmHandler → Status × AmHandler
dispatch none bytes handler = (err_invalid_param, handler)
dispatch (some header) none handler = (err_invalid_param, handler)
dispatch (some header) (some bytes) handler =
    invoke_unless_poisoned handler.poisoned handler (header, bytes)

unfoldable pub am_trampoline : (ℕ → ℕ → List ℕ) → Delivery → AmHandler → Status × AmHandler
unfolding slice reply
am_trampoline memory d handler =
    dispatch (slice memory d.header d.header_length) (slice memory d.data_pointer d.data_length)
      handler

-- `HandlerParamsBuilder`, with the fields of `ucp_am_handler_param_field`.
abbrev pub field_id : ℕ
field_id = 1

abbrev pub field_flags : ℕ
field_flags = 2

abbrev pub field_cb : ℕ
field_cb = 4

abbrev pub field_arg : ℕ
field_arg = 8

pub record HandlerParamsBuilder : Type 0 where
  pub handle : RawAmHandlerParam
  pub mask : ℕ

unfoldable pub new : HandlerParamsBuilder
new = record {
  handle = record { field_mask = 0; id = 0; flags = 0; cb = no_callback; arg = 0 };
  mask = 0;
}

unfoldable pub id : ℕ → HandlerParamsBuilder → HandlerParamsBuilder
id n b = record { handle = record (b.handle) { id = n }; mask = bit_or b.mask field_id }

unfoldable pub flags : ℕ → HandlerParamsBuilder → HandlerParamsBuilder
flags f b = record { handle = record (b.handle) { flags = f }; mask = bit_or b.mask field_flags }

unfoldable pub cb : AmCallback → HandlerParamsBuilder → HandlerParamsBuilder
cb c b = record { handle = record (b.handle) { cb = c }; mask = bit_or b.mask field_cb }

unfoldable pub arg : ℕ → HandlerParamsBuilder → HandlerParamsBuilder
arg a b = record { handle = record (b.handle) { arg = a }; mask = bit_or b.mask field_arg }

unfoldable pub build : HandlerParamsBuilder → RawAmHandlerParam
build b = record (b.handle) { field_mask = b.mask }

-- `?` on the status, and the push.
abbrev pub push_if_ok : ℕ → List ℕ → Result (Unit {0}) → Result (Unit {0}) × List ℕ
push_if_ok handler retained (ok _) = (ok tt, retained ++ handler ∷ [])
push_if_ok handler retained (err e) = (err e, retained)

-- The parameters that `am_register_handler` builds for a handler at the address `handler`.
unfoldable pub handler_params : ℕ → ℕ → ℕ → RawAmHandlerParam
unfolding new id flags cb arg build
handler_params i f handler = build (arg handler (cb trampoline (flags f (id i new))))

unfoldable pub am_register_handler : Worker → ℕ → ℕ → ℕ → List ℕ → M (Result (Unit {0}) × List ℕ)
unfolding handler_params
am_register_handler w i f handler retained = do
  status ← call_status (set_am_recv_handler w.handle (handler_params i f handler))
  pure (push_if_ok handler retained (status_to_result status))

unfoldable pub am_register : Worker → RawAmHandlerParam → M (Result (Unit {0}))
am_register w param = do
  status ← call_status (set_am_recv_handler w.handle param)
  pure (status_to_result status)

abbrev pub clearing_params : ℕ → RawAmHandlerParam
clearing_params i = record {
  field_mask = bit_or field_id field_cb;
  id = i;
  flags = 0;
  cb = no_callback;
  arg = 0;
}

unfoldable pub am_unregister : Worker → ℕ → M (Result (Unit {0}))
am_unregister w i = do
  status ← call_status (set_am_recv_handler w.handle (clearing_params i))
  pure (status_to_result status)

unfoldable pub am_send : Ep → ℕ → ℕ → ℕ → ℕ → ℕ → RawRequestParam → M (Result (Option Request))
am_send ep i header header_len buffer len param = do
  ptr ← call_word (am_send_nbx ep.handle i header header_len buffer len param)
  pure (status_ptr_to_result ptr)

unfoldable pub am_recv_data : Worker → ℕ → ℕ → ℕ → RawRequestParam → M (Result (Option Request))
am_recv_data w data_desc buffer len param = do
  ptr ← call_word (am_recv_data_nbx w.handle data_desc buffer len (some param))
  pure (status_ptr_to_result ptr)

pub am_data_release : Worker → ℕ → M (Unit {0})
am_data_release w data_pointer = call (ffi_am_data_release w.handle data_pointer)

pub am_data_release_legacy : Worker → ℕ → M (Unit {0})
am_data_release_legacy w data_pointer = call (ffi_am_data_release w.handle data_pointer)

-- `worker_set_am_recv_handler_nbx` of src/worker/params.rs.
pub worker_set_am_recv_handler_nbx : Worker → RawAmHandlerParam → M (Result (Unit {0}))
worker_set_am_recv_handler_nbx w param = do
  status ← call_status (set_am_recv_handler w.handle param)
  pure (status_to_result status)

-- `CbFlags`, and its `from_bits_truncate`, which drops the bits that are not known.
abbrev pub whole_msg : ℕ
whole_msg = 1

abbrev pub persistent_data : ℕ
persistent_data = 2

abbrev pub CbFlags_from : ℕ → ℕ
CbFlags_from flag = bit_and flag (bit_or whole_msg persistent_data)

-- The deprecated form takes no parameters, and wraps the answer as it is.
unfoldable pub am_recv_data_legacy : Worker → ℕ → ℕ → ℕ → M Request
unfolding from_raw
am_recv_data_legacy w data_desc buffer count = do
  ptr ← call_word (am_recv_data_nbx w.handle data_desc buffer count none)
  pure (from_raw ptr)
