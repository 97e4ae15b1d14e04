-- ===== src/Context/Params.antt =====
-- src/context.rs: `ParamsBuilder`, with the fields of `ucp_params_field`. A string is its bytes,
-- and a C string pointer of the struct is `none` for null or the string that it points at.
pub mod Chain
use ucx_rs.Base.{ℕ, Bool, true, false, Option, none, some, List, bit_or, if◌then◌else◌, ◌==◌, not}
use ucx_rs.Ffi.{ℤ, pos, negsuc, RawContextParams}
use ucx_rs.Masked.{nul_free, kept_or}

abbrev pub is_nonzero : ℤ → Bool
is_nonzero (pos n) = not (n == 0)
is_nonzero (negsuc n) = true

abbrev pub field_features : ℕ
field_features = 1

abbrev pub field_request_size : ℕ
field_request_size = 2

abbrev pub field_request_init : ℕ
field_request_init = 4

abbrev pub field_request_cleanup : ℕ
field_request_cleanup = 8

abbrev pub field_tag_sender_mask : ℕ
field_tag_sender_mask = 16

abbrev pub field_mt_workers_shared : ℕ
field_mt_workers_shared = 32

abbrev pub field_estimated_num_eps : ℕ
field_estimated_num_eps = 64

abbrev pub field_estimated_num_ppn : ℕ
field_estimated_num_ppn = 128

abbrev pub field_name : ℕ
field_name = 256

-- The features of `Flags`, a set of bits.
abbrev pub feature_tag : ℕ
feature_tag = 1

abbrev pub feature_rma : ℕ
feature_rma = 2

abbrev pub feature_amo32 : ℕ
feature_amo32 = 4

abbrev pub feature_amo64 : ℕ
feature_amo64 = 8

abbrev pub feature_wakeup : ℕ
feature_wakeup = 16

abbrev pub feature_stream : ℕ
feature_stream = 32

abbrev pub feature_am : ℕ
feature_am = 64

abbrev pub feature_exported_memh : ℕ
feature_exported_memh = 128

pub record ParamsBuilder : Type 0 where
  pub uninit_handle : RawContextParams
  pub field_mask : ℕ
  pub name : Option (List ℕ)
  pub mt_workers_shared : Bool

-- All zero.
abbrev pub new : ParamsBuilder
new = record {
  uninit_handle = record {
    field_mask = 0;
    features = 0;
    request_size = 0;
    request_init = 0;
    request_cleanup = 0;
    tag_sender_mask = 0;
    mt_workers_shared = pos 0;
    estimated_num_eps = 0;
    estimated_num_ppn = 0;
    name = none;
  };
  field_mask = 0;
  name = none;
  mt_workers_shared = false;
}

abbrev pub features : ℕ → ParamsBuilder → ParamsBuilder
features f b = record b {
  field_mask = bit_or b.field_mask field_features;
  uninit_handle = record (b.uninit_handle) { features = f };
}

abbrev pub request_size : ℕ → ParamsBuilder → ParamsBuilder
request_size n b = record b {
  field_mask = bit_or b.field_mask field_request_size;
  uninit_handle = record (b.uninit_handle) { request_size = n };
}

abbrev pub request_init : ℕ → ParamsBuilder → ParamsBuilder
request_init cb b = record b {
  field_mask = bit_or b.field_mask field_request_init;
  uninit_handle = record (b.uninit_handle) { request_init = cb };
}

abbrev pub request_cleanup : ℕ → ParamsBuilder → ParamsBuilder
request_cleanup cb b = record b {
  field_mask = bit_or b.field_mask field_request_cleanup;
  uninit_handle = record (b.uninit_handle) { request_cleanup = cb };
}

abbrev pub tag_sender_mask : ℕ → ParamsBuilder → ParamsBuilder
tag_sender_mask m b = record b {
  field_mask = bit_or b.field_mask field_tag_sender_mask;
  uninit_handle = record (b.uninit_handle) { tag_sender_mask = m };
}

abbrev pub mt_workers_shared : ℤ → ParamsBuilder → ParamsBuilder
mt_workers_shared v b = record b {
  field_mask = bit_or b.field_mask field_mt_workers_shared;
  uninit_handle = record (b.uninit_handle) { mt_workers_shared = v };
  mt_workers_shared = is_nonzero v;
}

abbrev pub estimated_num_eps : ℕ → ParamsBuilder → ParamsBuilder
estimated_num_eps n b = record b {
  field_mask = bit_or b.field_mask field_estimated_num_eps;
  uninit_handle = record (b.uninit_handle) { estimated_num_eps = n };
}

abbrev pub estimated_num_ppn : ℕ → ParamsBuilder → ParamsBuilder
estimated_num_ppn n b = record b {
  field_mask = bit_or b.field_mask field_estimated_num_ppn;
  uninit_handle = record (b.uninit_handle) { estimated_num_ppn = n };
}

abbrev pub name : List ℕ → ParamsBuilder → Option ParamsBuilder
name s b =
    if nul_free s
    then some (record b { field_mask = bit_or b.field_mask field_name; name = some s })
    else none

-- The parameters own the string that the struct points at. The builder gives it away.
pub record Params : Type 0 where
  pub handle : RawContextParams
  pub name : Option (List ℕ)
  pub mt_workers_shared : Bool

abbrev pub build : ParamsBuilder → Params × ParamsBuilder
build b =
    let filled = record (b.uninit_handle) { field_mask = b.field_mask } in
    (
      record {
        handle = record filled { name = kept_or b.name filled.name };
        name = b.name;
        mt_workers_shared = b.mt_workers_shared;
      },
      record b { uninit_handle = filled; name = none },
    )
