-- ===== src/Memh/MapParams.antt =====
-- src/memh.rs: `MemMapParamsBuilder`, with the fields of `ucp_mem_map_params_field`.
pub mod Chain
use ucx_rs.Base.{ℕ, bit_or}
use ucx_rs.Ffi.{RawMapParams}
use ucx_rs.MemoryType.{MemoryType, raw_host, to_ffi}

abbrev pub field_address : ℕ
field_address = 1

abbrev pub field_length : ℕ
field_length = 2

abbrev pub field_flags : ℕ
field_flags = 4

abbrev pub field_prot : ℕ
field_prot = 8

abbrev pub field_memory_type : ℕ
field_memory_type = 16

abbrev pub field_exported_memh_buffer : ℕ
field_exported_memh_buffer = 32

pub record MemMapParamsBuilder : Type 0 where
  pub uninit_handle : RawMapParams
  pub field_mask : ℕ

-- All zero.
abbrev pub new : MemMapParamsBuilder
new = record {
  uninit_handle = record {
    field_mask = 0;
    address = 0;
    length = 0;
    flags = 0;
    prot = 0;
    memory_type = raw_host;
    exported_memh_buffer = 0;
  };
  field_mask = 0;
}

abbrev pub address : ℕ → MemMapParamsBuilder → MemMapParamsBuilder
address p b = record b {
  field_mask = bit_or b.field_mask field_address;
  uninit_handle = record (b.uninit_handle) { address = p };
}

abbrev pub length : ℕ → MemMapParamsBuilder → MemMapParamsBuilder
length n b = record b {
  field_mask = bit_or b.field_mask field_length;
  uninit_handle = record (b.uninit_handle) { length = n };
}

abbrev pub flags : ℕ → MemMapParamsBuilder → MemMapParamsBuilder
flags f b = record b {
  field_mask = bit_or b.field_mask field_flags;
  uninit_handle = record (b.uninit_handle) { flags = f };
}

abbrev pub prot : ℕ → MemMapParamsBuilder → MemMapParamsBuilder
prot v b = record b {
  field_mask = bit_or b.field_mask field_prot;
  uninit_handle = record (b.uninit_handle) { prot = v };
}

abbrev pub memory_type : MemoryType → MemMapParamsBuilder → MemMapParamsBuilder
memory_type m b = record b {
  field_mask = bit_or b.field_mask field_memory_type;
  uninit_handle = record (b.uninit_handle) { memory_type = to_ffi m };
}

abbrev pub exported_memh_buffer : ℕ → MemMapParamsBuilder → MemMapParamsBuilder
exported_memh_buffer p b = record b {
  field_mask = bit_or b.field_mask field_exported_memh_buffer;
  uninit_handle = record (b.uninit_handle) { exported_memh_buffer = p };
}

-- A slice is its address and its length.
abbrev pub address_slice : ℕ → ℕ → MemMapParamsBuilder → MemMapParamsBuilder
address_slice p n b = length n (address p b)

pub record MemMapParams : Type 0 where
  pub handle : RawMapParams

abbrev pub build : MemMapParamsBuilder → MemMapParams × MemMapParamsBuilder
build b =
    let filled = record (b.uninit_handle) { field_mask = b.field_mask } in
    (record { handle = filled }, record b { uninit_handle = filled })
