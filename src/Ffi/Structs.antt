-- ===== src/Ffi/Structs.antt =====
-- The structs of src/bindings.rs that the wrappers fill in. Pointers, callbacks and handles are
-- addresses, and 0 is null; a pointer to a C string is `none` for null, or the string.
use ucx_rs.Base.{ℕ, Option, List}
use ucx_rs.ThreadMode.{RawThreadMode}
use ucx_rs.MemoryType.{RawMemoryType}
use ucx_rs.ErrorHandlerMode.{RawErrorHandlerMode}

-- `negsuc n` is -(n + 1).
pub data ℤ : Type 0 where
  pos : ℕ → ℤ
  negsuc : ℕ → ℤ

-- `ucp_atomic_op_t`, without its end marker.
pub data RawAtomicOp : Type 0 where
  op_add op_swap op_cswap op_and op_or op_xor : RawAtomicOp

-- The fields of `ucp_request_param_t` that the wrappers write. Pointers are addresses, 0 is null.
pub record RawRequestParam : Type 0 where
  pub op_attr_mask : ℕ
  pub flags : ℕ
  pub reply_buffer : ℕ
  pub datatype : ℕ
  pub send_callback : ℕ
  pub memory_type : ℕ

-- `std::mem::zeroed()`.
abbrev pub zeroed : RawRequestParam
zeroed = record {
  op_attr_mask = 0;
  flags = 0;
  reply_buffer = 0;
  datatype = 0;
  send_callback = 0;
  memory_type = 0;
}

-- A callback of an active message: none, the crate's trampoline, or one of the user.
pub data AmCallback : Type 0 where
  no_callback trampoline : AmCallback
  user_callback : ℕ → AmCallback

-- `ucp_am_handler_param_t`.
pub record RawAmHandlerParam : Type 0 where
  pub field_mask : ℕ
  pub id : ℕ
  pub flags : ℕ
  pub cb : AmCallback
  pub arg : ℕ

-- `ucp_mem_advice_t`.
pub data RawMemAdvice : Type 0 where
  raw_normal raw_willneed : RawMemAdvice

-- `ucp_params_t`.
pub record RawContextParams : Type 0 where
  pub field_mask : ℕ
  pub features : ℕ
  pub request_size : ℕ
  pub request_init : ℕ
  pub request_cleanup : ℕ
  pub tag_sender_mask : ℕ
  pub mt_workers_shared : ℤ
  pub estimated_num_eps : ℕ
  pub estimated_num_ppn : ℕ
  pub name : Option (List ℕ)

-- `ucp_worker_params_t`.
pub record RawWorkerParams : Type 0 where
  pub field_mask : ℕ
  pub thread_mode : RawThreadMode
  pub cpu_mask : List ℕ
  pub events : ℕ
  pub user_data : ℕ
  pub event_fd : ℤ
  pub flags : ℕ
  pub name : Option (List ℕ)
  pub am_alignment : ℕ
  pub client_id : ℕ

-- `ucp_ep_params_t`.
pub record RawEpParams : Type 0 where
  pub field_mask : ℕ
  pub address : ℕ
  pub err_mode : RawErrorHandlerMode
  pub err_handler_cb : ℕ
  pub err_handler_arg : ℕ
  pub user_data : ℕ
  pub sockaddr_addr : ℕ
  pub sockaddr_addrlen : ℕ
  pub flags : ℕ
  pub conn_request : ℕ
  pub name : Option (List ℕ)

-- `ucp_mem_map_params_t`.
pub record RawMapParams : Type 0 where
  pub field_mask : ℕ
  pub address : ℕ
  pub length : ℕ
  pub flags : ℕ
  pub prot : ℕ
  pub memory_type : RawMemoryType
  pub exported_memh_buffer : ℕ

-- `ucp_mem_advise_params_t`.
pub record RawAdviseParams : Type 0 where
  pub field_mask : ℕ
  pub address : ℕ
  pub length : ℕ
  pub advice : RawMemAdvice

-- `ucp_memh_pack_params_t`.
pub record RawPackParams : Type 0 where
  pub field_mask : ℕ
  pub flags : ℕ

-- `ucp_listener_params`.
pub record RawListenerParams : Type 0 where
  pub field_mask : ℕ
  pub sockaddr_addr : ℕ
  pub sockaddr_addrlen : ℕ
  pub accept_handler_cb : ℕ
  pub accept_handler_arg : ℕ
  pub conn_handler_cb : ℕ
  pub conn_handler_arg : ℕ
