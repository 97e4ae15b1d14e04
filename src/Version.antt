-- ===== src/Version.antt =====
-- src/version.rs
use ucx_rs.Base.{ℕ, List}
use ucx_rs.Ffi.{
  M, pure, ◌>>=◌, ◌>>◌, call, call_status, last_member, get_version as ffi_get_version,
  get_version_string as ffi_get_version_string, last_bytes, lib_query as ffi_lib_query,
  err_unsupported,
}
use ucx_rs.Status.{Result, err, map_ok, status_to_result}
use ucx_rs.ThreadMode.{ThreadMode, from_ffi, from_discriminant}

-- The three out parameters are the members of the call.
pub get_version : M (ℕ × ℕ × ℕ)
get_version = do
  call (ffi_get_version 0)
  major ← last_member 0
  minor ← last_member 1
  release ← last_member 2
  pure (major, minor, release)

-- The bytes behind the pointer that UCX returns, up to the zero byte, as a string: `lossy` is
-- `to_string_lossy`.
pub get_version_string : (List ℕ → List ℕ) → M (List ℕ)
get_version_string lossy = do call ffi_get_version_string; bytes ← last_bytes; pure (lossy bytes)

abbrev pub lib_attr_field_max_thread_level : ℕ
lib_attr_field_max_thread_level = 1

-- `LibAttr` has the one field `max_thread_level`.
pub lib_query : M (Result ThreadMode)
lib_query = do
  status ← call_status (ffi_lib_query lib_attr_field_max_thread_level)
  level ← last_member 0
  pure (map_ok (λ _. from_ffi (from_discriminant level)) (status_to_result status))

-- A context is its handle.
abbrev pub init_raw : Result ℕ
init_raw = err err_unsupported
