-- ===== src/Status.antt =====
-- src/status.rs, with `Request`, its constructor and the copy of `status_ptr_is_err` that
-- src/request.rs holds. `Status` is `#[repr(transparent)]` over the raw status, so both are one
-- type here. The debug assertion of `status_ptr_to_result` is a function of its own.
pub mod Decode
pub mod Classify
use ucx_rs.Base.{ℕ, suc, ◌≤◌, Bool, true, false, Option, none, some, List, [], ◌∷◌}
use ucx_rs.Base.{◌==◌, leb, if◌then◌else◌}
use ucx_rs.Ffi.{
  RawStatus, ℤ, pos, negsuc, discriminant, as_usize, as_i32, is_negative, ucs_ok, ucs_in_progress,
  err_no_message, err_no_resource, err_io_error, err_no_memory, err_invalid_param, err_unreachable,
  err_invalid_addr, err_not_implemented, err_message_truncated, err_no_progress,
  err_buffer_too_small, err_no_elem, err_some_connects_failed, err_no_device, err_busy,
  err_canceled, err_shmem_segment, err_already_exists, err_out_of_range, err_timed_out,
  err_exceeds_limit, err_unsupported, err_rejected, err_not_connected, err_connection_reset,
  err_first_link_failure, err_last_link_failure, err_first_endpoint_failure, err_endpoint_timeout,
  err_last_endpoint_failure, err_last,
}

abbrev pub Status : Type 0
Status = RawStatus

-- `Result<A, Status>`.
pub data Result (A : Type 0) : Type 0 where
  ok : A → Result A
  err : Status → Result A

abbrev pub map_ok : {A B : Type 0} → (A → B) → Result A → Result B
map_ok f (ok a) = ok (f a)
map_ok f (err e) = err e

unfoldable pub is_err : Status → Bool
is_err s = is_negative (discriminant s)

unfoldable pub status_value_is_err : RawStatus → Bool
status_value_is_err s = is_negative (discriminant s)

unfoldable pub status_to_result : RawStatus → Result (Unit {0})
unfolding status_value_is_err
status_to_result s = if status_value_is_err s then err s else ok tt

-- `None` is the inert request, of which UCX holds nothing.
pub record Request : Type 0 where
  pub handle : Option ℕ

-- `NonNull::new`.
abbrev pub non_null : ℕ → Option ℕ
non_null p = if p == 0 then none else some p

unfoldable pub Request_new : ℕ → Option Request
Request_new p = if p == 0 then none else some (record { handle = some p })

-- `ptr as usize >= UCS_ERR_LAST as isize as usize`.
unfoldable pub status_ptr_is_err : ℕ → Bool
status_ptr_is_err p = leb (as_usize (discriminant err_last)) p

-- The arms of the `match`, by the absolute value of their pattern.
abbrev pub decode_arms : List (ℕ × RawStatus)
decode_arms =
    (1, err_no_message)
    ∷ (2, err_no_resource)
    ∷ (3, err_io_error)
    ∷ (4, err_no_memory)
    ∷ (5, err_invalid_param)
    ∷ (6, err_unreachable)
    ∷ (7, err_invalid_addr)
    ∷ (8, err_not_implemented)
    ∷ (9, err_message_truncated)
    ∷ (10, err_no_progress)
    ∷ (11, err_buffer_too_small)
    ∷ (12, err_no_elem)
    ∷ (13, err_some_connects_failed)
    ∷ (14, err_no_device)
    ∷ (15, err_busy)
    ∷ (16, err_canceled)
    ∷ (17, err_shmem_segment)
    ∷ (18, err_already_exists)
    ∷ (19, err_out_of_range)
    ∷ (20, err_timed_out)
    ∷ (21, err_exceeds_limit)
    ∷ (22, err_unsupported)
    ∷ (23, err_rejected)
    ∷ (24, err_not_connected)
    ∷ (25, err_connection_reset)
    ∷ (40, err_first_link_failure)
    ∷ (59, err_last_link_failure)
    ∷ (60, err_first_endpoint_failure)
    ∷ (80, err_endpoint_timeout)
    ∷ (89, err_last_endpoint_failure)
    ∷ (100, err_last)
    ∷ []

-- The first arm that fits, and `UCS_ERR_LAST` for `_`.
pub first_arm : ℕ → List (ℕ × RawStatus) → RawStatus
first_arm k [] = err_last
first_arm k ((n, s) ∷ arms) = if k == n then s else first_arm k arms

decode : ℤ → RawStatus
decode (pos n) = err_last
decode (negsuc n) = first_arm (suc n) decode_arms

unfoldable pub status_from_ptr : ℕ → RawStatus
unfolding decode first_arm
status_from_ptr p = decode (as_i32 p)

-- A release build: without the assertion.
unfoldable pub status_ptr_to_result : ℕ → Result (Option Request)
status_ptr_to_result p =
    if status_ptr_is_err p
    then err (status_from_ptr p)
    else if leb p (as_usize (discriminant ucs_in_progress))
    then ok none
    else ok (Request_new p)

-- A debug build: `none` is the panic of `debug_assert!`.
unfoldable pub status_ptr_to_result_debug : ℕ → Option (Result (Option Request))
status_ptr_to_result_debug p =
    if status_ptr_is_err p
    then some (err (status_from_ptr p))
    else if p == as_usize (discriminant ucs_in_progress)
    then none
    else if leb p (as_usize (discriminant ucs_in_progress))
    then some (ok none)
    else some (ok (Request_new p))
