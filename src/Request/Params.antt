-- ===== src/Request/Params.antt =====
-- src/request.rs: `RequestParamBuilder`. A builder is its struct and the mask of the fields set so
-- far; `none` is the panic of the two flags that exclude each other.
pub mod Mask
use ucx_rs.Base.{ℕ, ◌^◌, Option, none, some, bit_and, bit_or, ◌==◌, if◌then◌else◌}
use ucx_rs.Ffi.{RawRequestParam, zeroed}
use ucx_rs.MemoryType.{MemoryType}
use ucx_rs.MemoryType

pub record Builder : Type 0 where
  pub handle : RawRequestParam
  pub field_mask : ℕ

abbrev pub field_callback : ℕ
field_callback = 2

abbrev pub field_datatype : ℕ
field_datatype = 8

abbrev pub field_flags : ℕ
field_flags = 16

abbrev pub field_reply_buffer : ℕ
field_reply_buffer = 32

abbrev pub field_memory_type : ℕ
field_memory_type = 64

abbrev pub flag_no_imm_cmpl : ℕ
flag_no_imm_cmpl = 65536

abbrev pub flag_force_imm_cmpl : ℕ
flag_force_imm_cmpl = 262144

abbrev pub new : Builder
new = record { handle = zeroed; field_mask = 0 }

abbrev pub force_imm_cmpl : Builder → Option Builder
force_imm_cmpl b =
    if bit_and b.field_mask flag_no_imm_cmpl == 0
    then some (record b { field_mask = bit_or b.field_mask flag_force_imm_cmpl })
    else none

abbrev pub no_imm_cmpl : Builder → Option Builder
no_imm_cmpl b =
    if bit_and b.field_mask flag_force_imm_cmpl == 0
    then some (record b { field_mask = bit_or b.field_mask flag_no_imm_cmpl })
    else none

abbrev pub flags : ℕ → Builder → Builder
flags f b = record b {
  field_mask = bit_or b.field_mask field_flags;
  handle = record (b.handle) { flags = f };
}

abbrev pub reply_buffer : ℕ → Builder → Builder
reply_buffer p b = record b {
  field_mask = bit_or b.field_mask field_reply_buffer;
  handle = record (b.handle) { reply_buffer = p };
}

abbrev pub datatype : ℕ → Builder → Builder
datatype dt b = record b {
  field_mask = bit_or b.field_mask field_datatype;
  handle = record (b.handle) { datatype = dt };
}

abbrev pub send_callback : ℕ → Builder → Builder
send_callback cb b = record b {
  field_mask = bit_or b.field_mask field_callback;
  handle = record (b.handle) { send_callback = cb };
}

abbrev pub memory_type : MemoryType → Builder → Builder
memory_type m b = record b {
  field_mask = bit_or b.field_mask field_memory_type;
  handle = record (b.handle) { memory_type = MemoryType.discriminant (MemoryType.to_ffi m) };
}

abbrev pub build : Builder → RawRequestParam
build b = record (b.handle) { op_attr_mask = b.field_mask }

abbrev pub fetch_params : ℕ → RawRequestParam
fetch_params reply = build (reply_buffer reply new)
