-- ===== src/Tag.antt =====
-- src/tag.rs: the tagged operations, and the guard that some of them return. A guard that cannot
-- see its request complete ends the process, rather than release the buffer.
pub mod Completion
pub mod Messages
use ucx_rs.Base.{ℕ, zero, suc, Bool, true, false, Option, none, some, not, ◌==◌, if◌then◌else◌}
use ucx_rs.Ffi.{
  RawRequestParam, M, pure, ◌>>=◌, ◌>>◌, call, call_word, tag_send_nbx, tag_recv_nbx, abort_process,
  tag_send_sync_nbx, tag_msg_recv_nb, tag_probe_nb, tag_msg_recv_nbx,
}
use ucx_rs.Status.{Result, ok, err, map_ok, Request, status_ptr_to_result}
use ucx_rs.Request.{TagInfo, from_ffi}
use ucx_rs.Request
use ucx_rs.Worker.{Worker, progress}
use ucx_rs.Ep.{Ep}
use mathlib.Core.Option

pub record TagRequest : Type 0 where
  pub worker : Worker
  pub handle : Option ℕ

abbrev pub request_of : TagRequest → Request
request_of t = record { handle = t.handle }

unfoldable pub check_finished : TagRequest → M (Result Bool)
check_finished t = Request.check_finished (request_of t)

-- What is left of the guard, without its handle, does nothing when it is dropped.
unfoldable pub into_inner : TagRequest → Request
into_inner t = request_of t

-- One turn of the loop. `waiting` is what it does on `Ok(false)`; any other result drops the
-- request and is returned. `none` is the end of the process.
abbrev pub turn :
    Request → M (Option (Result (Unit {0}))) → Result Bool → M (Option (Result (Unit {0})))
turn r waiting (ok false) = waiting
turn r waiting (ok true) = Request.drop r >> pure (some (ok tt))
turn r waiting (err e) = Request.drop r >> pure (some (err e))

-- The loop with `remaining` rounds of progress left.
unfoldable pub complete_within : ℕ → TagRequest → M (Option (Result (Unit {0})))
unfolding Request.drop check_finished
complete_within zero t = check_finished t >>= turn (request_of t) (call abort_process >> pure none)
complete_within (suc remaining) t =
    check_finished t >>= turn (request_of t) (progress t.worker >> complete_within remaining t)

unfoldable pub complete : TagRequest → M (Option (Result (Unit {0})))
complete t = complete_within 1000000 t

-- What is left of the guard has no handle when it is dropped, unless the process has ended.
unfoldable pub drop : TagRequest → M (Unit {0})
drop t = complete t >> pure tt

abbrev pub then_drop : TagRequest → Option (Result (Unit {0})) → M (Option (Result (Unit {0})))
then_drop t none = pure none
then_drop t (some result) = drop (record t { handle = none }) >> pure (some result)

unfoldable pub free : TagRequest → M (Option (Result (Unit {0})))
free t = complete t >>= then_drop t

unfoldable pub tag_send : Ep → Worker → ℕ → ℕ → ℕ → RawRequestParam → M (Result (Option TagRequest))
tag_send ep w buf len tag param = do
  ptr ← call_word (tag_send_nbx ep.handle buf len tag param)
  pure (
      map_ok (Option.map (λ r. record { worker = w; handle = r.handle }))
        (status_ptr_to_result ptr))

abbrev pub handle_of : Option Request → Option ℕ
handle_of none = none
handle_of (some r) = r.handle

unfoldable pub tag_recv : Worker → Worker → ℕ → ℕ → ℕ → ℕ → RawRequestParam → M (Result TagRequest)
tag_recv self w buf len tag mask param = do
  ptr ← call_word (tag_recv_nbx self.handle buf len tag mask param)
  pure (map_ok (λ r. record { worker = w; handle = handle_of r }) (status_ptr_to_result ptr))

-- The pointer forms return the bare request.
pub tag_send_ptr : Ep → ℕ → ℕ → ℕ → RawRequestParam → M (Result (Option Request))
tag_send_ptr ep ptr len tag param = do
  result ← call_word (tag_send_nbx ep.handle ptr len tag param)
  pure (status_ptr_to_result result)

pub tag_recv_ptr : Worker → ℕ → ℕ → ℕ → ℕ → RawRequestParam → M (Result (Option Request))
tag_recv_ptr w ptr len tag mask param = do
  result ← call_word (tag_recv_nbx w.handle ptr len tag mask param)
  pure (status_ptr_to_result result)

-- `unwrap_or(Request { handle: None })`.
abbrev pub or_inert : Option Request → Request
or_inert none = Request.inert
or_inert (some r) = r

unfoldable pub tag_send_sync : Ep → ℕ → ℕ → ℕ → M (Result Request)
tag_send_sync ep buf len tag = do
  ptr ← call_word (tag_send_sync_nbx ep.handle buf len tag)
  pure (map_ok or_inert (status_ptr_to_result ptr))

pub record MessageHandle : Type 0 where
  pub handle : ℕ
  pub info : TagInfo
  pub removed : Bool

abbrev pub TagInfo_is_empty : TagInfo → Bool
TagInfo_is_empty info = info.length == 0

abbrev pub MessageHandle_len : MessageHandle → ℕ
MessageHandle_len m = m.info.length

abbrev pub MessageHandle_is_empty : MessageHandle → Bool
MessageHandle_is_empty m = TagInfo_is_empty m.info

abbrev pub MessageHandle_sender_tag : MessageHandle → ℕ
MessageHandle_sender_tag m = m.info.sender_tag

unfoldable pub tag_probe : Worker → ℕ → ℕ → Bool → M (Option MessageHandle)
tag_probe w tag tag_mask remove = do
  handle ← call_word (tag_probe_nb w.handle tag tag_mask remove)
  info ← from_ffi
  pure (
      if handle == 0
      then none
      else some (record { handle = handle; info = info; removed = remove }))

-- `none` is the panic on a message that was not removed.
pub tag_msg_recv :
    Worker → ℕ → ℕ → MessageHandle → RawRequestParam → M (Option (Result (Option Request)))
tag_msg_recv w buf len message param = if not message.removed then pure none else do
  ptr ← call_word (tag_msg_recv_nbx w.handle buf len message.handle param)
  pure (some (status_ptr_to_result ptr))

-- The two older functions take the answer of UCX for a request, whatever it is.
unfoldable pub tag_send_sync_legacy : Ep → ℕ → ℕ → ℕ → M Request
unfolding Request.from_raw
tag_send_sync_legacy ep buffer count tag = do
  ptr ← call_word (tag_send_sync_nbx ep.handle buffer count tag)
  pure (Request.from_raw ptr)

unfoldable pub tag_msg_recv_legacy : Worker → ℕ → ℕ → ℕ → MessageHandle → M Request
unfolding Request.from_raw
tag_msg_recv_legacy w buffer count datatype message = do
  ptr ← call_word (tag_msg_recv_nb w.handle buffer count datatype message.handle)
  pure (Request.from_raw ptr)
