-- ===== src/Memh.antt =====
-- src/memh.rs: memory handles, and packed handles. Building leaves a builder as it was but for the
-- mask in its struct, which the next building writes again, so builders are only read here. The
-- packed remote keys of that file are in Rma/Key.
pub mod MapParams
pub mod AdviseParams
pub mod PackParams
pub mod Mapping
use ucx_rs.Base.{length, ℕ, ◌^◌, Bool, Option, none, some, List, [], ltb, ◌||◌, ◌==◌, if◌then◌else◌}
use ucx_rs.Ffi.{
  M, pure, ◌>>=◌, ◌>>◌, call, call_status, last_out, last_bytes, last_member, mem_map, mem_unmap,
  mem_query, mem_advise, memh_pack, memh_buffer_release, err_invalid_param,
}
use ucx_rs.Status.{Result, ok, err, map_ok, status_to_result}
use ucx_rs.MemoryType.{MemoryType, RawMemoryType, from_ffi, from_discriminant}
use ucx_rs.Rma.Key.{u32_try_from}
use MapParams.{MemMapParamsBuilder, address_slice}
use MapParams
use AdviseParams.{MemAdviseParamsBuilder}
use AdviseParams
use PackParams.{MemhPackParamsBuilder}
use PackParams

pub record MemHandle : Type 0 where
  pub context : ℕ
  pub handle : ℕ

unfoldable pub map : ℕ → MemMapParamsBuilder → M (Result MemHandle)
map context params = do
  status ← call_status (mem_map context (MapParams.build params).0.handle)
  memh ← last_out
  pure (map_ok (λ _. record { context = context; handle = memh }) (status_to_result status))

-- A slice is its address and its length. The guard of the slice is its handle.
unfoldable pub map_slice : ℕ → ℕ → ℕ → ℕ → M (Result MemHandle)
unfolding map
map_slice context address length flags = elim (u32_try_from flags) [
  | none ↦ pure (err err_invalid_param)
  | some flags32 ↦
      map context (MapParams.flags flags32 (address_slice address length MapParams.new))
]

-- The members of `ucp_mem_attr_t` that are read: address, length and memory type, numbered from 0.
pub record MemAttr : Type 0 where
  pub address : ℕ
  pub length : ℕ
  pub mem_type : RawMemoryType

abbrev pub MemAttr_from_ffi : ℕ → ℕ → ℕ → MemAttr
MemAttr_from_ffi address length mem_type = record {
  address = address;
  length = length;
  mem_type = from_discriminant mem_type;
}

-- The struct is all zero when UCX gets it, its mask included.
unfoldable pub query : MemHandle → M (Result MemAttr)
query m = do
  status ← call_status (mem_query m.handle 0)
  address ← last_member 0
  length ← last_member 1
  mem_type ← last_member 2
  pure (map_ok (λ _. MemAttr_from_ffi address length mem_type) (status_to_result status))

abbrev pub MemAttr_mem_type : MemAttr → MemoryType
MemAttr_mem_type attr = from_ffi attr.mem_type

pub advise : MemHandle → MemAdviseParamsBuilder → M (Result (Unit {0}))
advise m params = do
  status ← call_status (mem_advise m.context m.handle (AdviseParams.build params).0.handle)
  pure (status_to_result status)

unfoldable pub drop : MemHandle → M (Unit {0})
drop m = call (mem_unmap m.context m.handle)

-- A packed handle, with the bytes that stand in its buffer.
pub record PackedMemhBuffer : Type 0 where
  pub buffer : ℕ
  pub contents : List ℕ

unfoldable pub pack_memh : MemHandle → MemhPackParamsBuilder → M (Result PackedMemhBuffer)
pack_memh m params = do
  status ← call_status (memh_pack m.handle (PackParams.build params).0.handle)
  buffer ← last_out
  contents ← last_bytes
  pure (map_ok (λ _. record { buffer = buffer; contents = contents }) (status_to_result status))

abbrev pub as_bytes : PackedMemhBuffer → List ℕ
as_bytes b = if b.buffer == 0 then [] else b.contents

unfoldable pub PackedMemhBuffer_drop : PackedMemhBuffer → M (Unit {0})
PackedMemhBuffer_drop b = if b.buffer == 0 then pure tt else call (memh_buffer_release b.buffer)

abbrev pub PackedMemhBuffer_as_ptr : PackedMemhBuffer → ℕ
PackedMemhBuffer_as_ptr b = b.buffer

abbrev pub PackedMemhBuffer_len : PackedMemhBuffer → ℕ
PackedMemhBuffer_len b = length b.contents

abbrev pub PackedMemhBuffer_is_empty : PackedMemhBuffer → Bool
PackedMemhBuffer_is_empty b = length b.contents == 0
