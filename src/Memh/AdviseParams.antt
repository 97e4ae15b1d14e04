-- ===== src/Memh/AdviseParams.antt =====
-- src/memh.rs: `MemAdviseParamsBuilder`, with the fields of `ucp_mem_advise_params_field`.
pub mod Chain
use ucx_rs.Base.{ℕ, bit_or}
use ucx_rs.Ffi.{RawMemAdvice, raw_normal, raw_willneed, RawAdviseParams}

pub data MemAdvice : Type 0 where
  normal will_need : MemAdvice

abbrev pub discriminant : RawMemAdvice → ℕ
discriminant raw_normal = 0
discriminant raw_willneed = 1

abbrev pub to_ffi : MemAdvice → RawMemAdvice
to_ffi normal = raw_normal
to_ffi will_need = raw_willneed

abbrev pub field_address : ℕ
field_address = 1

abbrev pub field_length : ℕ
field_length = 2

abbrev pub field_advice : ℕ
field_advice = 4

pub record MemAdviseParamsBuilder : Type 0 where
  pub uninit_handle : RawAdviseParams
  pub field_mask : ℕ

-- All zero.
abbrev pub new : MemAdviseParamsBuilder
new = record {
  uninit_handle = record { field_mask = 0; address = 0; length = 0; advice = raw_normal };
  field_mask = 0;
}

abbrev pub address : ℕ → MemAdviseParamsBuilder → MemAdviseParamsBuilder
address p b = record b {
  field_mask = bit_or b.field_mask field_address;
  uninit_handle = record (b.uninit_handle) { address = p };
}

abbrev pub length : ℕ → MemAdviseParamsBuilder → MemAdviseParamsBuilder
length n b = record b {
  field_mask = bit_or b.field_mask field_length;
  uninit_handle = record (b.uninit_handle) { length = n };
}

abbrev pub advice : MemAdvice → MemAdviseParamsBuilder → MemAdviseParamsBuilder
advice a b = record b {
  field_mask = bit_or b.field_mask field_advice;
  uninit_handle = record (b.uninit_handle) { advice = to_ffi a };
}

pub record MemAdviseParams : Type 0 where
  pub handle : RawAdviseParams

abbrev pub build : MemAdviseParamsBuilder → MemAdviseParams × MemAdviseParamsBuilder
build b =
    let filled = record (b.uninit_handle) { field_mask = b.field_mask } in
    (record { handle = filled }, record b { uninit_handle = filled })
