-- ===== src/Rma/Key/Framing.antt =====
-- The wire format of a remote key: what is framed can be unframed, and nothing else.
use ucx_rs.Base.{
  ℕ, ◌↔◌, ◌+◌, ◌/◌, ◌%◌, ◌^◌, ◌≤◌, ◌<◌, ◌≡◌, List, [], ◌∷◌, ◌++◌, arith, length, All, lt→ltb,
}
use ucx_rs.Ffi.{err_out_of_range}
use ucx_rs.Status.{ok, err, map_ok}
use ucx_rs.Rma.Key.{
  PackedRkeyBuffer, to_le_bytes, from_le_bytes, frame_rkey_payload, unframe_rkey_payload,
  from_raw_parts,
}

abbrev pub IsByte : ℕ → Type 0
IsByte b = b < 256

from_le_bytes-to_le_bytes :
    (n : ℕ)
    → n < 2 ^ 32
    → from_le_bytes (n % 256) ((n / 2 ^ 8) % 256) ((n / 2 ^ 16) % 256) ((n / 2 ^ 24) % 256) ≡ n
unfolding from_le_bytes
from_le_bytes-to_le_bytes n h = omega arith

-- A payload shorter than 2^32 bytes can be framed, and unframing gives it back.
pub unframe-frame :
    (payload : List ℕ)
    → length payload < 2 ^ 32
    → (framed : List ℕ) × (frame_rkey_payload payload ≡ ok framed)
      × (unframe_rkey_payload framed ≡ ok payload)
      × (length framed ≡ length payload + 4)
unfolding frame_rkey_payload unframe_rkey_payload
unframe-frame payload h = (
  to_le_bytes (length payload) ++ payload,
  rw (lt→ltb _ _ h, frame_rkey_payload),
  ground (arith, from_le_bytes-to_le_bytes (length payload) h),
  unfold to_le_bytes in omega arith,
)

-- A longer payload is refused.
pub frame_too_long :
    (payload : List ℕ) → 2 ^ 32 ≤ length payload → frame_rkey_payload payload ≡ err err_out_of_range
unfolding frame_rkey_payload
frame_too_long payload h = ground arith

-- Only framed payloads are accepted: a buffer of bytes that unframes to a payload is what that
-- payload is framed as. So a header that is cut off, or a length that does not match, is refused.
pub frame-unframe :
    (buffer payload : List ℕ)
    → All IsByte buffer
    → unframe_rkey_payload buffer ≡ ok payload
    → frame_rkey_payload payload ≡ ok buffer
unfolding frame_rkey_payload unframe_rkey_payload
frame-unframe [] payload bytes e = cc
frame-unframe (a ∷ []) payload bytes e = cc
frame-unframe (a ∷ b ∷ []) payload bytes e = cc
frame-unframe (a ∷ b ∷ c ∷ []) payload bytes e = cc
frame-unframe (a ∷ b ∷ c ∷ d ∷ rest) payload bytes e = ground arith

frame-short :
    (buffer payload : List ℕ) → frame_rkey_payload payload ≡ ok buffer → length payload < 2 ^ 32
unfolding frame_rkey_payload
frame-short buffer payload e = ground arith

-- Framing and unframing are exact inverses: a buffer of bytes is what a payload is framed as
-- exactly when it unframes to that payload. So a header that is cut off, a length that does not
-- match, and a payload of 2^32 bytes or more are all refused.
pub frame_iff :
    (buffer payload : List ℕ)
    → All IsByte buffer
    → (frame_rkey_payload payload ≡ ok buffer) ↔ (unframe_rkey_payload buffer ≡ ok payload)
frame_iff buffer payload bytes = (unframes, frame-unframe buffer payload bytes)
  where
    unframes : frame_rkey_payload payload ≡ ok buffer → unframe_rkey_payload buffer ≡ ok payload
    unframes e =
        let (framed, f, back, len) = unframe-frame payload (frame-short buffer payload e) in cc

-- The two packers agree: the bytes that a `PackedRkeyBuffer` exposes are those that
-- `RemoteKey::pack` would return for the same payload, and both refuse the same payloads.
from_raw_parts-frame :
    (buffer : ℕ) (payload : List ℕ)
    → map_ok (λ (b : PackedRkeyBuffer). b.framed) (from_raw_parts buffer payload)
      ≡ frame_rkey_payload payload
unfolding from_raw_parts frame_rkey_payload
from_raw_parts-frame buffer payload = ground arith
