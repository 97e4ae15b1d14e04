-- ===== src/Memh/PackParams.antt =====
-- src/memh.rs: `MemhPackParamsBuilder`.
use ucx_rs.Base.{ℕ, bit_or}
use ucx_rs.Ffi.{RawPackParams}

abbrev pub field_flags : ℕ
field_flags = 1

pub record MemhPackParamsBuilder : Type 0 where
  pub uninit_handle : RawPackParams
  pub field_mask : ℕ

-- All zero.
abbrev pub new : MemhPackParamsBuilder
new = record { uninit_handle = record { field_mask = 0; flags = 0 }; field_mask = 0 }

abbrev pub flags : ℕ → MemhPackParamsBuilder → MemhPackParamsBuilder
flags f b = record b {
  field_mask = bit_or b.field_mask field_flags;
  uninit_handle = record (b.uninit_handle) { flags = f };
}

pub record MemhPackParams : Type 0 where
  pub handle : RawPackParams

abbrev pub build : MemhPackParamsBuilder → MemhPackParams × MemhPackParamsBuilder
build b =
    let filled = record (b.uninit_handle) { field_mask = b.field_mask } in
    (record { handle = filled }, record b { uninit_handle = filled })
