-- ===== src/Ffi.antt =====
-- src/bindings.rs, as far as the wrappers use it: the raw status codes, the request parameter
-- struct, and the calls of UCX. UCX itself is not part of the repository. It is a parameter of
-- every model function, `Ucx`: an answer to each call, which may depend on all that was done
-- before. A wrapper is a function in the monad `M`, which carries the list of effects so far,
-- newest first.
mod Structs
pub use Structs.*
use ucx_rs.SockAddr.{Storage, other_family}
use ucx_rs.Base.{Option, ℕ, ◌-◌, ◌%◌, ◌^◌, suc, Bool, true, false, List, [], ◌∷◌}
use ucx_rs.Base.{◌==◌, ltb, if◌then◌else◌}

-- `ucs_status_t`, an `#[repr(i8)]` enum.
pub data RawStatus : Type 0 where
  ucs_ok ucs_in_progress : RawStatus
  err_no_message err_no_resource err_io_error err_no_memory err_invalid_param : RawStatus
  err_unreachable err_invalid_addr err_not_implemented err_message_truncated : RawStatus
  err_no_progress err_buffer_too_small err_no_elem err_some_connects_failed : RawStatus
  err_no_device err_busy err_canceled err_shmem_segment err_already_exists : RawStatus
  err_out_of_range err_timed_out err_exceeds_limit err_unsupported err_rejected : RawStatus
  err_not_connected err_connection_reset err_first_link_failure err_last_link_failure : RawStatus
  err_first_endpoint_failure err_endpoint_timeout err_last_endpoint_failure err_last : RawStatus

abbrev pub discriminant : RawStatus → ℤ
discriminant ucs_ok = pos 0
discriminant ucs_in_progress = pos 1
discriminant err_no_message = negsuc 0
discriminant err_no_resource = negsuc 1
discriminant err_io_error = negsuc 2
discriminant err_no_memory = negsuc 3
discriminant err_invalid_param = negsuc 4
discriminant err_unreachable = negsuc 5
discriminant err_invalid_addr = negsuc 6
discriminant err_not_implemented = negsuc 7
discriminant err_message_truncated = negsuc 8
discriminant err_no_progress = negsuc 9
discriminant err_buffer_too_small = negsuc 10
discriminant err_no_elem = negsuc 11
discriminant err_some_connects_failed = negsuc 12
discriminant err_no_device = negsuc 13
discriminant err_busy = negsuc 14
discriminant err_canceled = negsuc 15
discriminant err_shmem_segment = negsuc 16
discriminant err_already_exists = negsuc 17
discriminant err_out_of_range = negsuc 18
discriminant err_timed_out = negsuc 19
discriminant err_exceeds_limit = negsuc 20
discriminant err_unsupported = negsuc 21
discriminant err_rejected = negsuc 22
discriminant err_not_connected = negsuc 23
discriminant err_connection_reset = negsuc 24
discriminant err_first_link_failure = negsuc 39
discriminant err_last_link_failure = negsuc 58
discriminant err_first_endpoint_failure = negsuc 59
discriminant err_endpoint_timeout = negsuc 79
discriminant err_last_endpoint_failure = negsuc 88
discriminant err_last = negsuc 99

-- `as isize as usize` on a 64-bit target, and `as isize as i32` of an address.
abbrev pub as_usize : ℤ → ℕ
as_usize (pos n) = n
as_usize (negsuc n) = 2 ^ 64 - suc n

abbrev pub as_i32 : ℕ → ℤ
as_i32 p = let w = p % 2 ^ 32 in if ltb w (2 ^ 31) then pos w else negsuc (2 ^ 32 - w - 1)

abbrev pub is_negative : ℤ → Bool
is_negative (pos n) = false
is_negative (negsuc n) = true

-- What UCX prints of.
pub data Printed : Type 0 where
  of_config of_context of_worker of_ep of_memory : Printed

-- What a wrapper does to the world: a call of UCX, with the handles and values that it is given,
-- a store to an atomic flag (named by the address of its `Arc`), or the end of the process.
pub data Effect : Type 0 where
  request_check_status request_is_completed request_test request_free request_release : ℕ → Effect
  stream_recv_request_test tag_recv_request_test : ℕ → Effect
  request_cancel : ℕ → ℕ → Effect
  worker_progress worker_destroy worker_fence worker_wait worker_arm worker_signal : ℕ → Effect
  worker_create : ℕ → RawWorkerParams → Effect
  worker_get_address worker_get_efd worker_address_query : ℕ → Effect
  worker_release_address worker_query worker_wait_mem : ℕ → ℕ → Effect
  config_read : List ℕ → List ℕ → Effect
  config_modify : ℕ → List ℕ → List ℕ → Effect
  init_version : RawContextParams → ℕ → Effect
  context_query : ℕ → ℕ → Effect
  config_release cleanup memh_buffer_release : ℕ → Effect
  mem_map : ℕ → RawMapParams → Effect
  mem_query : ℕ → ℕ → Effect
  mem_advise : ℕ → ℕ → RawAdviseParams → Effect
  memh_pack : ℕ → RawPackParams → Effect
  stream_worker_poll : ℕ → ℕ → ℕ → Effect
  tag_msg_recv_nb : ℕ → ℕ → ℕ → ℕ → ℕ → Effect
  dt_create_generic dt_query : ℕ → ℕ → Effect
  dt_destroy : ℕ → Effect
  listener_query get_version lib_query request_alloc : ℕ → Effect
  conn_request_query request_query ep_evaluate_perf : ℕ → ℕ → Effect
  dup fdopen close_fd : ℤ → Effect
  fclose : ℕ → Effect
  print_info : Printed → ℕ → ℕ → Effect
  worker_flush_nbx ep_flush_nbx ep_close_nbx : ℕ → RawRequestParam → Effect
  ep_destroy disconnect_nb : ℕ → Effect
  ep_create ep_modify_nb : ℕ → RawEpParams → Effect
  ep_query : ℕ → ℕ → Effect
  tag_send_nbx : ℕ → ℕ → ℕ → ℕ → RawRequestParam → Effect
  stream_send_nbx stream_recv_nbx : ℕ → ℕ → ℕ → RawRequestParam → Effect
  put_nbx get_nbx : ℕ → ℕ → ℕ → ℕ → ℕ → RawRequestParam → Effect
  atomic_op_nbx : ℕ → RawAtomicOp → List ℕ → ℕ → ℕ → ℕ → RawRequestParam → Effect
  mem_unmap rkey_pack : ℕ → ℕ → Effect
  rkey_buffer_release rkey_destroy : ℕ → Effect
  ep_rkey_unpack : ℕ → List ℕ → Effect
  stream_recv_data_nb : ℕ → Effect
  stream_data_release : ℕ → ℕ → Effect
  tag_recv_nbx : ℕ → ℕ → ℕ → ℕ → ℕ → RawRequestParam → Effect
  rkey_ptr : ℕ → ℕ → Effect
  rkey_compare : ℕ → ℕ → ℕ → Effect
  set_am_recv_handler : ℕ → RawAmHandlerParam → Effect
  am_send_nbx : ℕ → ℕ → ℕ → ℕ → ℕ → ℕ → RawRequestParam → Effect
  am_recv_data_nbx : ℕ → ℕ → ℕ → ℕ → Option RawRequestParam → Effect
  am_data_release : ℕ → ℕ → Effect
  tag_send_sync_nbx : ℕ → ℕ → ℕ → ℕ → Effect
  tag_probe_nb : ℕ → ℕ → ℕ → Bool → Effect
  tag_msg_recv_nbx : ℕ → ℕ → ℕ → ℕ → RawRequestParam → Effect
  listener_create : ℕ → RawListenerParams → Effect
  listener_destroy : ℕ → Effect
  listener_reject : ℕ → ℕ → Effect
  store_flag : ℕ → Bool → Effect
  get_version_string abort_process : Effect

abbrev pub History : Type 0
History = List Effect

-- UCX: the status, the number or address, the value written through an out pointer, the bytes at a
-- returned address, and the members and socket addresses of a
-- struct that is filled in, of a call that follows a history.
pub record Ucx : Type 0 where
  pub status : History → Effect → RawStatus
  pub word : History → Effect → ℕ
  pub out : History → Effect → ℕ
  pub bytes : History → Effect → List ℕ
  pub member : History → Effect → ℕ → ℕ
  pub storage : History → Effect → ℕ → Storage

abbrev pub M : Type 0 → Type 0
M A = Ucx → History → A × History

abbrev pub pure : {A : Type 0} → A → M A
pure a u h = (a, h)

infixl 5 ◌>>=◌ ◌>>◌
abbrev pub ◌>>=◌ : {A B : Type 0} → M A → (A → M B) → M B
◌>>=◌ m f u h = let r = m u h in f r.0 u r.1

abbrev pub ◌>>◌ : {A B : Type 0} → M A → M B → M B
m >> k = m >>= λ _. k

-- A call that returns a status, one that returns a number or an address, and one that returns
-- nothing of interest.
abbrev pub call_status : Effect → M RawStatus
call_status e u h = (u.status h e, e ∷ h)

abbrev pub call_word : Effect → M ℕ
call_word e u h = (u.word h e, e ∷ h)

abbrev pub call : Effect → M (Unit {0})
call e u h = (tt, e ∷ h)

-- An out parameter, and the bytes behind a returned address, of the last call.
abbrev pub last_out : M ℕ
last_out u [] = (0, [])
last_out u (e ∷ h) = (u.out h e, e ∷ h)

abbrev pub last_bytes : M (List ℕ)
last_bytes u [] = ([], [])
last_bytes u (e ∷ h) = (u.bytes h e, e ∷ h)

-- The member with this number of the struct that the last call filled in.
abbrev pub last_member : ℕ → M ℕ
last_member k u [] = (0, [])
last_member k u (e ∷ h) = (u.member h e k, e ∷ h)

abbrev pub last_storage : ℕ → M Storage
last_storage k u [] = (other_family 0, [])
last_storage k u (e ∷ h) = (u.storage h e k, e ∷ h)

-- An atomic flag holds what was stored last; it is made with a store.
abbrev pub flag : ℕ → History → Bool
flag a [] = false
flag a (store_flag b v ∷ h) = if a == b then v else flag a h
flag a (e ∷ h) = flag a h

abbrev pub load_flag : ℕ → M Bool
load_flag a u h = (flag a h, h)
