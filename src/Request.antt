-- ===== src/Request.antt =====
-- src/request.rs: the handle of a request that UCX owns. A method that consumes the request ends
-- with the drop of what is left of it. Params holds the builder, Life what becomes of a request.
pub mod Params
pub mod Life
pub mod Query
use ucx_rs.Base.{ℕ, Bool, true, false, Option, none, some, ltb, ◌==◌, if◌then◌else◌, not}
use ucx_rs.Base.{bit_and}
use ucx_rs.Ffi.{
  RawStatus, discriminant, as_usize, ucs_ok, M, pure, ◌>>=◌, ◌>>◌, call, call_status, call_word,
  last_out, last_member, request_check_status, request_is_completed, request_test, request_free,
  request_release, request_cancel, stream_recv_request_test, tag_recv_request_test,
  err_invalid_param, ucs_in_progress,
}
use ucx_rs.Status.{
  Status, Result, ok, err, map_ok, Request, non_null, status_to_result, status_ptr_is_err,
  status_from_ptr,
}

abbrev pub inert : Request
inert = record { handle = none }

unfoldable pub from_raw : ℕ → Request
from_raw p = record { handle = non_null p }

unfoldable pub as_ptr : Request → ℕ
as_ptr r = elim r.handle [ none ↦ 0 | some h ↦ h ]

unfoldable pub is_live : Request → Bool
is_live r = elim r.handle [ none ↦ false | some h ↦ true ]

-- `status == UCS_OK`.
abbrev pub is_ok : RawStatus → Bool
is_ok ucs_ok = true
is_ok _ = false

unfoldable pub check_finished : Request → M (Result Bool)
check_finished r = elim r.handle [
  | none ↦ pure (ok true)
  | some h ↦ do
    status ← call_status (request_check_status h)
    let status_ptr = as_usize (discriminant status)
    pure (
        if status_ptr_is_err status_ptr
        then err (status_from_ptr status_ptr)
        else ok (is_ok status))
]

unfoldable pub is_completed : Request → M Bool
is_completed r = elim r.handle [
  | none ↦ pure true
  | some h ↦ do n ← call_word (request_is_completed h); pure (not (n == 0))
]

-- `RequestState` has the one field `status`.
unfoldable pub test : Request → M (Result (Unit {0}))
test r = elim r.handle [
  | none ↦ pure (ok tt)
  | some h ↦ do status ← call_status (request_test h); pure (status_to_result status)
]

-- src/stream.rs and src/tag.rs add a test each.
unfoldable pub stream_recv_test : Request → M (Result ℕ)
stream_recv_test r = elim r.handle [
  | none ↦ pure (err err_invalid_param)
  | some h ↦ do
    status ← call_status (stream_recv_request_test h)
    length ← last_out
    pure (map_ok (λ _. length) (status_to_result status))
]

-- `TagInfo` of src/tag.rs: the members of `ucp_tag_recv_info_t` are numbered, the length first.
pub record TagInfo : Type 0 where
  pub length : ℕ
  pub sender_tag : ℕ

abbrev pub from_ffi : M TagInfo
from_ffi = do
  length ← last_member 0
  sender_tag ← last_member 1
  pure (record { length = length; sender_tag = sender_tag })

abbrev pub map_tag_recv_test_status : RawStatus → TagInfo → Result (Option TagInfo)
map_tag_recv_test_status ucs_ok info = ok (some info)
map_tag_recv_test_status ucs_in_progress info = ok none
map_tag_recv_test_status s info = err s

unfoldable pub tag_recv_test : Request → M (Result (Option TagInfo))
tag_recv_test r = elim r.handle [
  | none ↦ pure (ok none)
  | some h ↦ do
    status ← call_status (tag_recv_request_test h)
    info ← from_ffi
    pure (map_tag_recv_test_status status info)
]

unfoldable pub drop : Request → M (Unit {0})
drop r = elim r.handle [ none ↦ pure tt | some h ↦ call (request_free h) ]

unfoldable pub release : Request → M (Unit {0})
unfolding drop
release r = elim r.handle [
  | none ↦ drop r
  | some h ↦ call (request_release h) >> drop (record r { handle = none })
]

-- `&mut self`: the request stays, and is given back.
unfoldable pub cancel : ℕ → Request → M Request
cancel w r = elim r.handle [
  | none ↦ pure r
  | some h ↦ do call (request_cancel w h); call (request_free h); pure (record r { handle = none })
]

unfoldable pub free : Request → M (Unit {0})
unfolding drop
free r = elim r.handle [
  | none ↦ drop r
  | some h ↦ call (request_free h) >> drop (record r { handle = none })
]
