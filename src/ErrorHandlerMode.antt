-- ===== src/ErrorHandlerMode.antt =====
-- src/error_handler_mode.rs, and the raw enum of src/bindings.rs.
use ucx_rs.Base.{ℕ}

pub data ErrorHandlerMode : Type 0 where
  no_mode peer : ErrorHandlerMode

-- `ucp_err_handling_mode_t`.
pub data RawErrorHandlerMode : Type 0 where
  raw_none raw_peer : RawErrorHandlerMode

abbrev pub discriminant : RawErrorHandlerMode → ℕ
discriminant raw_none = 0
discriminant raw_peer = 1

abbrev pub to_ffi : ErrorHandlerMode → RawErrorHandlerMode
to_ffi no_mode = raw_none
to_ffi peer = raw_peer
