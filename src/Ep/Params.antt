-- ===== src/Ep/Params.antt =====
-- src/ep/params.rs: `ParamsBuilder`, with the fields of `ucp_ep_params_field`. A remote address, a
-- callback and a connection request are pointers.
pub mod Chain
use ucx_rs.SockAddr.{RawSockAddr}
use ucx_rs.Ffi.{RawEpParams}
use ucx_rs.Base.{ℕ, ◌%◌, ◌^◌, Option, none, some, List, bit_or, if◌then◌else◌}
use ucx_rs.ErrorHandlerMode.{ErrorHandlerMode, raw_none, to_ffi}
use ucx_rs.Masked.{nul_free, kept_or}

abbrev pub field_address : ℕ
field_address = 1

abbrev pub field_err_mode : ℕ
field_err_mode = 2

abbrev pub field_err_handler : ℕ
field_err_handler = 4

abbrev pub field_user_data : ℕ
field_user_data = 8

abbrev pub field_sockaddr : ℕ
field_sockaddr = 16

abbrev pub field_params_flags : ℕ
field_params_flags = 32

abbrev pub field_conn_request : ℕ
field_conn_request = 64

abbrev pub field_name : ℕ
field_name = 128

pub record ParamsBuilder : Type 0 where
  pub uninit_handle : RawEpParams
  pub field_mask : ℕ
  pub name : Option (List ℕ)
  pub conn_request : Option ℕ

-- All zero.
abbrev pub new : ParamsBuilder
new = record {
  uninit_handle = record {
    field_mask = 0;
    address = 0;
    err_mode = raw_none;
    err_handler_cb = 0;
    err_handler_arg = 0;
    user_data = 0;
    sockaddr_addr = 0;
    sockaddr_addrlen = 0;
    flags = 0;
    conn_request = 0;
    name = none;
  };
  field_mask = 0;
  name = none;
  conn_request = none;
}

abbrev pub address : ℕ → ParamsBuilder → ParamsBuilder
address p b = record b {
  field_mask = bit_or b.field_mask field_address;
  uninit_handle = record (b.uninit_handle) { address = p };
}

abbrev pub err_mode : ErrorHandlerMode → ParamsBuilder → ParamsBuilder
err_mode m b = record b {
  field_mask = bit_or b.field_mask field_err_mode;
  uninit_handle = record (b.uninit_handle) { err_mode = to_ffi m };
}

abbrev pub err_handler : ℕ → ParamsBuilder → ParamsBuilder
err_handler cb b = record b {
  field_mask = bit_or b.field_mask field_err_handler;
  uninit_handle = record (b.uninit_handle) { err_handler_cb = cb };
}

abbrev pub err_handler_arg : ℕ → ParamsBuilder → ParamsBuilder
err_handler_arg p b = record b { uninit_handle = record (b.uninit_handle) { err_handler_arg = p } }

abbrev pub user_data : ℕ → ParamsBuilder → ParamsBuilder
user_data p b = record b {
  field_mask = bit_or b.field_mask field_user_data;
  uninit_handle = record (b.uninit_handle) { user_data = p };
}

abbrev pub sockaddr : RawSockAddr → ParamsBuilder → ParamsBuilder
sockaddr a b = record b {
  field_mask = bit_or b.field_mask field_sockaddr;
  uninit_handle = record (b.uninit_handle) { sockaddr_addr = a.addr; sockaddr_addrlen = a.addrlen };
}

abbrev pub params_flags : ℕ → ParamsBuilder → ParamsBuilder
params_flags f b = record b {
  field_mask = bit_or b.field_mask field_params_flags;
  uninit_handle = record (b.uninit_handle) { flags = f % 2 ^ 32 };
}

abbrev pub conn_request : ℕ → ParamsBuilder → ParamsBuilder
conn_request r b = record b {
  field_mask = bit_or b.field_mask field_conn_request;
  uninit_handle = record (b.uninit_handle) { conn_request = r };
  conn_request = some r;
}

abbrev pub name : List ℕ → ParamsBuilder → Option ParamsBuilder
name s b =
    if nul_free s
    then some (record b { field_mask = bit_or b.field_mask field_name; name = some s })
    else none

-- The parameters own the string that the struct points at and the connection request. The builder
-- gives both away.
pub record Params : Type 0 where
  pub handle : RawEpParams
  pub name : Option (List ℕ)
  pub conn_request : Option ℕ

abbrev pub build : ParamsBuilder → Params × ParamsBuilder
build b =
    let filled = record (b.uninit_handle) { field_mask = b.field_mask } in
    (
      record {
        handle = record filled { name = kept_or b.name filled.name };
        name = b.name;
        conn_request = b.conn_request;
      },
      record b { uninit_handle = filled; name = none; conn_request = none },
    )

abbrev pub conn_request_ptr : Params → ℕ
conn_request_ptr p = elim p.conn_request [ none ↦ 0 | some r ↦ r ]
