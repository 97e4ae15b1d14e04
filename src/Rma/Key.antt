-- ===== src/Rma/Key.antt =====
-- src/rma/remote_key.rs and `PackedRkeyBuffer` of src/memh.rs: a remote key on the wire is
-- `[4-byte little-endian payload length][payload]`. A byte is a number below 256.
pub mod Framing
pub mod Handles
use ucx_rs.Base.{
  ℕ, zero, suc, ◌-◌, ◌+◌, ◌*◌, ◌/◌, ◌%◌, ◌^◌, Bool, true, false, Option, none, some, List, [], ◌∷◌,
  ◌++◌, ◌&&◌, ◌||◌, not, length, ltb, ◌==◌, if◌then◌else◌,
}
use ucx_rs.Ffi.{
  M, pure, ◌>>=◌, ◌>>◌, call, call_status, last_out, last_bytes, load_flag, rkey_pack,
  rkey_buffer_release, ep_rkey_unpack, rkey_destroy, rkey_compare, err_out_of_range, rkey_ptr,
  err_invalid_param, err_invalid_addr,
}
use ucx_rs.Status.{Result, ok, err, map_ok, status_to_result}
use ucx_rs.Ep.{Ep}
use ucx_rs.Worker.{Worker}

-- `u32::to_le_bytes` and `u32::from_le_bytes`.
pub to_le_bytes : ℕ → List ℕ
to_le_bytes n = n % 256 ∷ (n / 2 ^ 8) % 256 ∷ (n / 2 ^ 16) % 256 ∷ (n / 2 ^ 24) % 256 ∷ []

pub from_le_bytes : ℕ → ℕ → ℕ → ℕ → ℕ
from_le_bytes a b c d = a + b * 2 ^ 8 + c * 2 ^ 16 + d * 2 ^ 24

-- `u32::try_from`.
abbrev pub u32_try_from : ℕ → Option ℕ
u32_try_from n = if ltb n (2 ^ 32) then some n else none

unfoldable pub frame_rkey_payload : List ℕ → Result (List ℕ)
unfolding to_le_bytes
frame_rkey_payload payload = elim (u32_try_from (length payload)) [
  | none ↦ err err_out_of_range
  | some payload_len ↦ ok (to_le_bytes payload_len ++ payload)
]

unfoldable pub unframe_rkey_payload : List ℕ → Result (List ℕ)
unfolding from_le_bytes
unframe_rkey_payload (a ∷ b ∷ c ∷ d ∷ rest) =
    if from_le_bytes a b c d == length (a ∷ b ∷ c ∷ d ∷ rest) - 4
    then ok rest
    else err err_invalid_param
unframe_rkey_payload _ = err err_invalid_param

-- A packed key: the buffer of UCX, the size of its payload and the bytes for the wire.
pub record PackedRkeyBuffer : Type 0 where
  pub buffer : ℕ
  pub size : ℕ
  pub framed : List ℕ

-- `payload` is what stands in the buffer.
unfoldable pub from_raw_parts : ℕ → List ℕ → Result PackedRkeyBuffer
unfolding to_le_bytes
from_raw_parts buffer payload = elim (u32_try_from (length payload)) [
  | none ↦ err err_out_of_range
  | some payload_len ↦ ok (record {
    buffer = buffer;
    size = length payload;
    framed = to_le_bytes payload_len ++ payload;
  })
]

abbrev pub release_on_error : ℕ → Result PackedRkeyBuffer → M (Result PackedRkeyBuffer)
release_on_error buffer (ok packed) = pure (ok packed)
release_on_error buffer (err e) = call (rkey_buffer_release buffer) >> pure (err e)

-- `pack_rkey` of src/memh.rs, for the handles of the context and of the memory.
unfoldable pub pack_rkey : ℕ → ℕ → M (Result PackedRkeyBuffer)
pack_rkey context memh = do
  status ← call_status (rkey_pack context memh)
  buffer ← last_out
  payload ← last_bytes
  elim (status_to_result status) [
    | ok _ ↦ release_on_error buffer (from_raw_parts buffer payload)
    | err e ↦ pure (err e)
  ]

unfoldable pub PackedRkeyBuffer_drop : PackedRkeyBuffer → M (Unit {0})
PackedRkeyBuffer_drop b = if b.buffer == 0 then pure tt else call (rkey_buffer_release b.buffer)

abbrev pub PackedRkeyBuffer_size : PackedRkeyBuffer → ℕ
PackedRkeyBuffer_size b = b.size

abbrev pub PackedRkeyBuffer_as_bytes : PackedRkeyBuffer → List ℕ
PackedRkeyBuffer_as_bytes b = b.framed

pub record RemoteKey : Type 0 where
  pub handle : ℕ
  pub worker_alive : ℕ

-- `RemoteKey::pack`: the buffer is released whether or not its payload could be framed.
unfoldable pub pack : ℕ → ℕ → M (Result (List ℕ))
pack context memh = do
  status ← call_status (rkey_pack context memh)
  buffer ← last_out
  payload ← last_bytes
  elim (status_to_result status) [
    | ok _ ↦ call (rkey_buffer_release buffer) >> pure (frame_rkey_payload payload)
    | err e ↦ pure (err e)
  ]

unfoldable pub unpack : Ep → List ℕ → M (Result RemoteKey)
unpack ep rkey_buffer = elim (unframe_rkey_payload rkey_buffer) [
  | err e ↦ pure (err e)
  | ok payload ↦ do
    status ← call_status (ep_rkey_unpack ep.handle payload)
    rkey ← last_out
    pure (
        map_ok (λ _. record { handle = rkey; worker_alive = ep.worker_alive })
          (status_to_result status))
]

-- The slice at the returned address, as its address and length.
unfoldable pub rkey_slice : RemoteKey → ℕ → ℕ → M (Result (ℕ × ℕ))
rkey_slice key remote_addr len = do
  status ← call_status (rkey_ptr key.handle remote_addr)
  addr ← last_out
  pure (elim (status_to_result status) [
    | err e ↦ err e
    | ok _ ↦ if addr == 0 then err err_invalid_addr else ok (addr, len)
  ])

-- The test that guards `compare`: `true` refuses.
abbrev pub refuses : Bool → Bool → RemoteKey → RemoteKey → Worker → Bool
refuses self_alive other_alive self other w =
    not self_alive
    || not other_alive
    || not (self.worker_alive == other.worker_alive)
    || not (self.worker_alive == w.alive)

unfoldable pub compare : RemoteKey → RemoteKey → Worker → M (Result Bool)
compare self other w = do
  self_alive ← load_flag self.worker_alive
  other_alive ← load_flag other.worker_alive
  if refuses self_alive other_alive self other w then pure (err err_invalid_param) else do
    status ← call_status (rkey_compare w.handle self.handle other.handle)
    result ← last_out
    pure (map_ok (λ _. result == 0) (status_to_result status))

unfoldable pub drop : RemoteKey → M (Unit {0})
drop key = if key.handle == 0 then pure tt else call (rkey_destroy key.handle)
