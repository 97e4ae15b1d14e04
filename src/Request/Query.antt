-- ===== src/Request/Query.antt =====
-- src/request.rs: requests of the user's own, and the query of a request's attributes. The status
-- is the number that UCX fills in, as the code of a status.
use ucx_rs.Base.{ℕ, bit_and, ◌==◌, if◌then◌else◌, Bool}
use ucx_rs.Ffi.{
  RawStatus, ucs_ok, ucs_in_progress, M, pure, ◌>>=◌, call_status, call_word, last_member,
  request_alloc as ffi_request_alloc, request_query as ffi_request_query,
}
use ucx_rs.Status.{Status, Result, Request, map_ok, status_from_ptr, status_to_result}
use ucx_rs.Request.{from_raw}
use ucx_rs.Worker.{Worker}

unfoldable pub request_alloc : Worker → M Request
unfolding from_raw
request_alloc w = do ptr ← call_word (ffi_request_alloc w.handle); pure (from_raw ptr)

-- `RequestAttrFields`.
abbrev pub info_string : ℕ
info_string = 1

abbrev pub info_string_size : ℕ
info_string_size = 2

abbrev pub status_field : ℕ
status_field = 4

abbrev pub mem_type : ℕ
mem_type = 8

-- `contains` of `RequestAttrFields`.
abbrev pub fields_contain : ℕ → ℕ → Bool
fields_contain self other = bit_and self other == other

-- The status whose code, as a word, is this member.
abbrev pub status_member : ℕ → RawStatus
status_member n = if n == 0 then ucs_ok else if n == 1 then ucs_in_progress else status_from_ptr n

-- `RequestAttr` has the one field `status`.
unfoldable pub request_query : ℕ → ℕ → M (Result Status)
request_query request mask = do
  status ← call_status (ffi_request_query request mask)
  filled_in ← last_member 0
  pure (
      map_ok (λ _. if bit_and mask 4 == 0 then ucs_ok else status_member filled_in)
        (status_to_result status))
