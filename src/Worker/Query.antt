-- ===== src/Worker/Query.antt =====
-- src/worker/worker.rs: `Worker::query`, and `WorkerAttr` of src/worker/address.rs. The struct that
-- UCX fills in has the members thread mode, address, address length, address flags, longest header
-- and longest information string, numbered from 0; the bytes of the call are those of the name.
use ucx_rs.Base.{ℕ, Option, List}
use ucx_rs.Ffi.{M, pure, ◌>>=◌, call_status, last_bytes, last_member, worker_query}
use ucx_rs.Status.{Result, map_ok, status_to_result}
use ucx_rs.ThreadMode.{ThreadMode, from_ffi, from_discriminant}
use ucx_rs.Worker.{Worker}
use ucx_rs.Masked.{contains, then_some}

-- `WorkerAttrFields`.
abbrev pub attr_thread_mode : ℕ
attr_thread_mode = 1

abbrev pub attr_address : ℕ
attr_address = 2

abbrev pub attr_address_flags : ℕ
attr_address_flags = 4

abbrev pub attr_max_am_header : ℕ
attr_max_am_header = 8

abbrev pub attr_name : ℕ
attr_name = 16

abbrev pub attr_max_info_string : ℕ
attr_max_info_string = 32

pub record WorkerAddressAttr : Type 0 where
  pub address : ℕ
  pub length : ℕ

pub record WorkerAttr : Type 0 where
  pub thread_mode : Option ThreadMode
  pub address : Option WorkerAddressAttr
  pub address_flags : Option ℕ
  pub max_am_header : Option ℕ
  pub name : Option (List ℕ)
  pub max_info_string : Option ℕ

unfoldable pub query : Worker → ℕ → M (Result WorkerAttr)
query w mask = do
  status ← call_status (worker_query w.handle mask)
  mode ← last_member 0
  address ← last_member 1
  address_length ← last_member 2
  address_flags ← last_member 3
  max_am_header ← last_member 4
  max_debug_string ← last_member 5
  name ← last_bytes
  pure (
      map_ok
        (λ _. record {
          thread_mode =
              then_some (contains mask attr_thread_mode) (from_ffi (from_discriminant mode));
          address =
              then_some (contains mask attr_address)
                (record { address = address; length = address_length });
          address_flags = then_some (contains mask attr_address_flags) address_flags;
          max_am_header = then_some (contains mask attr_max_am_header) max_am_header;
          name = then_some (contains mask attr_name) name;
          max_info_string = then_some (contains mask attr_max_info_string) max_debug_string;
        })
        (status_to_result status))
