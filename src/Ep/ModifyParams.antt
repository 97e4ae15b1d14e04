-- ===== src/Ep/ModifyParams.antt =====
-- src/ep/modify.rs: the struct of the endpoint parameters again, whose mask stands in the struct
-- from the start.
use ucx_rs.Base.{ℕ, bit_or, none}
use ucx_rs.Ffi.{RawEpParams}
use ucx_rs.ErrorHandlerMode.{raw_none}
use ucx_rs.Ep.Params.{field_err_handler, field_user_data}

pub record ModifyParamsBuilder : Type 0 where
  pub handle : RawEpParams

pub record ModifyParams : Type 0 where
  pub handle : RawEpParams

abbrev pub new : ModifyParamsBuilder
new = record {
  handle = record {
    field_mask = 0;
    address = 0;
    err_mode = raw_none;
    err_handler_cb = 0;
    err_handler_arg = 0;
    user_data = 0;
    sockaddr_addr = 0;
    sockaddr_addrlen = 0;
    flags = 0;
    conn_request = 0;
    name = none;
  };
}

abbrev pub err_handler : ℕ → ModifyParamsBuilder → ModifyParamsBuilder
err_handler cb b = record {
  handle = record (b.handle) {
    field_mask = bit_or b.handle.field_mask field_err_handler;
    err_handler_cb = cb;
  };
}

abbrev pub err_handler_arg : ℕ → ModifyParamsBuilder → ModifyParamsBuilder
err_handler_arg p b = record { handle = record (b.handle) { err_handler_arg = p } }

abbrev pub user_data : ℕ → ModifyParamsBuilder → ModifyParamsBuilder
user_data p b = record {
  handle = record (b.handle) {
    field_mask = bit_or b.handle.field_mask field_user_data;
    user_data = p;
  };
}

abbrev pub build : ModifyParamsBuilder → ModifyParams
build b = record { handle = b.handle }
