-- ===== src/Worker/Params.antt =====
-- src/worker/params.rs: `ParamsBuilder`, with the fields of `ucp_worker_params_field`. A CPU set is
-- its words; that of the new builder has no words, which stand for zeros.
pub mod Chain
use ucx_rs.Base.{ℕ, Option, none, some, List, [], bit_or, if◌then◌else◌}
use ucx_rs.Ffi.{ℤ, pos, RawWorkerParams}
use ucx_rs.ThreadMode.{ThreadMode, raw_single, to_ffi}
use ucx_rs.Masked.{nul_free, kept_or}

abbrev pub field_thread_mode : ℕ
field_thread_mode = 1

abbrev pub field_cpu_mask : ℕ
field_cpu_mask = 2

abbrev pub field_events : ℕ
field_events = 4

abbrev pub field_user_data : ℕ
field_user_data = 8

abbrev pub field_event_fd : ℕ
field_event_fd = 16

abbrev pub field_flags : ℕ
field_flags = 32

abbrev pub field_name : ℕ
field_name = 64

abbrev pub field_am_alignment : ℕ
field_am_alignment = 128

abbrev pub field_client_id : ℕ
field_client_id = 256

pub record ParamsBuilder : Type 0 where
  pub uninit_handle : RawWorkerParams
  pub field_mask : ℕ
  pub name : Option (List ℕ)

-- All zero.
abbrev pub new : ParamsBuilder
new = record {
  uninit_handle = record {
    field_mask = 0;
    thread_mode = raw_single;
    cpu_mask = [];
    events = 0;
    user_data = 0;
    event_fd = pos 0;
    flags = 0;
    name = none;
    am_alignment = 0;
    client_id = 0;
  };
  field_mask = 0;
  name = none;
}

abbrev pub thread_mode : ThreadMode → ParamsBuilder → ParamsBuilder
thread_mode m b = record b {
  field_mask = bit_or b.field_mask field_thread_mode;
  uninit_handle = record (b.uninit_handle) { thread_mode = to_ffi m };
}

abbrev pub cpu_set : List ℕ → ParamsBuilder → ParamsBuilder
cpu_set c b = record b {
  field_mask = bit_or b.field_mask field_cpu_mask;
  uninit_handle = record (b.uninit_handle) { cpu_mask = c };
}

abbrev pub events : ℕ → ParamsBuilder → ParamsBuilder
events e b = record b {
  field_mask = bit_or b.field_mask field_events;
  uninit_handle = record (b.uninit_handle) { events = e };
}

abbrev pub user_data : ℕ → ParamsBuilder → ParamsBuilder
user_data p b = record b {
  field_mask = bit_or b.field_mask field_user_data;
  uninit_handle = record (b.uninit_handle) { user_data = p };
}

abbrev pub event_fd : ℤ → ParamsBuilder → ParamsBuilder
event_fd v b = record b {
  field_mask = bit_or b.field_mask field_event_fd;
  uninit_handle = record (b.uninit_handle) { event_fd = v };
}

abbrev pub flags : ℕ → ParamsBuilder → ParamsBuilder
flags f b = record b {
  field_mask = bit_or b.field_mask field_flags;
  uninit_handle = record (b.uninit_handle) { flags = f };
}

abbrev pub name : List ℕ → ParamsBuilder → Option ParamsBuilder
name s b =
    if nul_free s
    then some (record b { field_mask = bit_or b.field_mask field_name; name = some s })
    else none

abbrev pub am_alignment : ℕ → ParamsBuilder → ParamsBuilder
am_alignment n b = record b {
  field_mask = bit_or b.field_mask field_am_alignment;
  uninit_handle = record (b.uninit_handle) { am_alignment = n };
}

abbrev pub client_id : ℕ → ParamsBuilder → ParamsBuilder
client_id c b = record b {
  field_mask = bit_or b.field_mask field_client_id;
  uninit_handle = record (b.uninit_handle) { client_id = c };
}

-- The parameters own the string that the struct points at. The builder gives it away.
pub record Params : Type 0 where
  pub handle : RawWorkerParams
  pub name : Option (List ℕ)

abbrev pub build : ParamsBuilder → Params × ParamsBuilder
build b =
    let filled = record (b.uninit_handle) { field_mask = b.field_mask } in
    (
      record { handle = record filled { name = kept_or b.name filled.name }; name = b.name },
      record b { uninit_handle = filled; name = none },
    )
