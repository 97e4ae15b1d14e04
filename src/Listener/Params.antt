-- ===== src/Listener/Params.antt =====
-- src/listener.rs: `ParamsBuilder`, with the fields of `ucp_listener_params_field`. Its mask stands
-- in the struct from the start. The setters of a handler set its callback and its argument.
pub mod Chain
use ucx_rs.Base.{ℕ, bit_or}
use ucx_rs.Ffi.{RawListenerParams}
use ucx_rs.SockAddr.{RawSockAddr}

abbrev pub field_sock_addr : ℕ
field_sock_addr = 1

abbrev pub field_accept_handler : ℕ
field_accept_handler = 2

abbrev pub field_conn_handler : ℕ
field_conn_handler = 4

pub record ParamsBuilder : Type 0 where
  pub params : RawListenerParams

pub record ListenerParams : Type 0 where
  pub params : RawListenerParams

abbrev pub new : ParamsBuilder
new = record {
  params = record {
    field_mask = 0;
    sockaddr_addr = 0;
    sockaddr_addrlen = 0;
    accept_handler_cb = 0;
    accept_handler_arg = 0;
    conn_handler_cb = 0;
    conn_handler_arg = 0;
  };
}

abbrev pub sockaddr : RawSockAddr → ParamsBuilder → ParamsBuilder
sockaddr a b = record {
  params = record (b.params) {
    field_mask = bit_or b.params.field_mask field_sock_addr;
    sockaddr_addr = a.addr;
    sockaddr_addrlen = a.addrlen;
  };
}

abbrev pub accept_handler : ℕ → ℕ → ParamsBuilder → ParamsBuilder
accept_handler callback arg b = record {
  params = record (b.params) {
    field_mask = bit_or b.params.field_mask field_accept_handler;
    accept_handler_cb = callback;
    accept_handler_arg = arg;
  };
}

abbrev pub conn_handler : ℕ → ℕ → ParamsBuilder → ParamsBuilder
conn_handler callback arg b = record {
  params = record (b.params) {
    field_mask = bit_or b.params.field_mask field_conn_handler;
    conn_handler_cb = callback;
    conn_handler_arg = arg;
  };
}

abbrev pub build : ParamsBuilder → ListenerParams
build b = record { params = b.params }
