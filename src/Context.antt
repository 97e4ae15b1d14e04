-- ===== src/Context.antt =====
-- src/context.rs, and the calls on a configuration and on a context of src/config.rs. The strings
-- are lists of bytes.
pub mod Params
pub mod Opening
use ucx_rs.Base.{
  ℕ, Bool, true, false, Option, none, some, List, [], ◌||◌, not, bit_and, ◌==◌, if◌then◌else◌,
}
use ucx_rs.Ffi.{
  M, pure, ◌>>=◌, ◌>>◌, call, call_status, last_out, last_bytes, last_member, config_read,
  config_modify, config_release, init_version, cleanup, context_query as ffi_context_query,
  RawWorkerParams, err_invalid_param,
}
use ucx_rs.Status.{Status, Result, ok, err, map_ok, status_to_result}
use ucx_rs.Masked.{nul_free}
use ucx_rs.ThreadMode.{ThreadMode, from_ffi, from_discriminant}
use ucx_rs.Worker.{Worker}
use ucx_rs.Worker
use Params.{Params as ContextParams, field_features, field_mt_workers_shared, is_nonzero}

-- `ConfigError`. The position of the zero byte is left out.
pub data ConfigError : Type 0 where
  nul : ConfigError
  ucs : Status → ConfigError

pub data Configured (A : Type 0) : Type 0 where
  configured : A → Configured A
  rejected : ConfigError → Configured A

-- `map_err(ConfigError::Ucs)`.
abbrev pub map_err : {A B : Type 0} → (A → B) → Result A → Configured B
map_err f (ok a) = configured (f a)
map_err f (err e) = rejected (ucs e)

pub record Config : Type 0 where
  pub handle : ℕ

unfoldable pub read : List ℕ → List ℕ → M (Configured Config)
read name file = if not (nul_free name) || not (nul_free file) then pure (rejected nul) else do
  status ← call_status (config_read name file)
  config ← last_out
  pure (map_err (λ _. record { handle = config }) (status_to_result status))

unfoldable pub Config_drop : Config → M (Unit {0})
Config_drop c = call (config_release c.handle)

unfoldable pub modify : ℕ → List ℕ → List ℕ → M (Configured (Unit {0}))
modify config name value =
    if not (nul_free name) || not (nul_free value) then pure (rejected nul) else do
      status ← call_status (config_modify config name value)
      pure (map_err (λ _. tt) (status_to_result status))

pub record Context : Type 0 where
  pub handle : ℕ

-- The two tests at the start of `new`: `true` refuses.
abbrev pub lacks_features : ContextParams → Bool
lacks_features params =
    bit_and params.handle.field_mask field_features == 0 || params.handle.features == 0

abbrev pub lacks_sharing : ContextParams → Bool
lacks_sharing params =
    not params.mt_workers_shared
    || bit_and params.handle.field_mask field_mt_workers_shared == 0
    || not (is_nonzero params.handle.mt_workers_shared)

abbrev pub init : Config → ContextParams → M (Result Context)
init config params = do
  status ← call_status (init_version params.handle config.handle)
  context ← last_out
  pure (map_ok (λ _. record { handle = context }) (status_to_result status))

unfoldable pub new : Config → ContextParams → M (Result Context)
new config params =
    if lacks_features params
    then pure (err err_invalid_param)
    else if lacks_sharing params
    then pure (err err_invalid_param)
    else init config params

-- The flag of the new worker is at `alive`.
unfoldable pub worker_create : Context → RawWorkerParams → ℕ → M (Result Worker)
worker_create context params alive = Worker.new context.handle params alive

unfoldable pub drop : Context → M (Unit {0})
drop context = call (cleanup context.handle)

abbrev pub attr_field_request_size : ℕ
attr_field_request_size = 1

abbrev pub attr_field_thread_mode : ℕ
attr_field_thread_mode = 2

abbrev pub attr_field_memory_types : ℕ
attr_field_memory_types = 4

abbrev pub attr_field_name : ℕ
attr_field_name = 8

-- The members of `ucp_context_attr` that are read: the size, the mode and the types are numbered
-- from 0. The bytes of the call are those of the name.
pub record ContextAttr : Type 0 where
  pub request_size : ℕ
  pub thread_mode : ThreadMode
  pub memory_types : ℕ
  pub name : List ℕ

unfoldable pub context_query : ℕ → ℕ → M (Result ContextAttr)
context_query context mask = do
  status ← call_status (ffi_context_query context mask)
  size ← last_member 0
  mode ← last_member 1
  types ← last_member 2
  name ← last_bytes
  pure (
      map_ok
        (λ _. record {
          request_size = size;
          thread_mode = from_ffi (from_discriminant mode);
          memory_types = types;
          name = if bit_and mask attr_field_name == 0 then [] else name;
        })
        (status_to_result status))
