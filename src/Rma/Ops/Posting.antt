-- ===== src/Rma/Ops/Posting.antt =====
-- What the atomic operations hand to UCX.
use ucx_rs.Base.{ℕ, ◌*◌, ◌≡◌, refl, List, [], ◌∷◌, length, bit}
use ucx_rs.Ffi.{
  RawRequestParam, RawAtomicOp, op_add, op_swap, op_cswap, op_and, op_or, op_xor, History, Ucx,
  atomic_op_nbx,
}
use ucx_rs.Status.{map_ok, status_ptr_to_result}
use ucx_rs.Request.Params.{fetch_params}
use ucx_rs.Worker.{Worker}
use ucx_rs.Ep.{Ep}
use ucx_rs.Rma.Key.{RemoteKey}
use ucx_rs.Rma.Fetch.{fetch_amo_result}
use ucx_rs.Rma.Ops.{
  Posted, Fetching, amo_add64, amo_xor64, amo_swap64, amo_and64, amo_or64, amo_cswap64, amo_add32,
  amo_xor32, amo_swap32, amo_and32, amo_or32, amo_cswap32, amo_fadd64, amo_fxor64, amo_fswap64,
  amo_fcswap64, amo_fadd32, amo_fxor32, amo_fswap32, amo_fcswap32,
}

-- The bytes of a word.
pub data Width : Type 0 where
  four eight : Width

abbrev pub bytes : Width → ℕ
bytes four = 4
bytes eight = 8

-- An atomic operation without its target.
pub data Amo : Type 0 where
  add xor swap and or : Width → ℕ → Amo
  cswap : Width → ℕ → ℕ → Amo

abbrev pub width : Amo → Width
width (add w v) = w
width (xor w v) = w
width (swap w v) = w
width (and w v) = w
width (or w v) = w
width (cswap w e r) = w

abbrev pub opcode : Amo → RawAtomicOp
opcode (add w v) = op_add
opcode (xor w v) = op_xor
opcode (swap w v) = op_swap
opcode (and w v) = op_and
opcode (or w v) = op_or
opcode (cswap w e r) = op_cswap

abbrev pub operand : Amo → List ℕ
operand (add w v) = v ∷ []
operand (xor w v) = v ∷ []
operand (swap w v) = v ∷ []
operand (and w v) = v ∷ []
operand (or w v) = v ∷ []
operand (cswap w e r) = e ∷ r ∷ []

-- The method for each operation.
pub method : Amo → Ep → ℕ → RemoteKey → RawRequestParam → Posted
unfolding amo_add64 amo_xor64 amo_swap64 amo_and64 amo_or64 amo_cswap64 amo_add32 amo_xor32
    amo_swap32 amo_and32 amo_or32 amo_cswap32
method (add eight v) ep a k param = amo_add64 ep v a k param
method (add four v) ep a k param = amo_add32 ep v a k param
method (xor eight v) ep a k param = amo_xor64 ep v a k param
method (xor four v) ep a k param = amo_xor32 ep v a k param
method (swap eight v) ep a k param = amo_swap64 ep v a k param
method (swap four v) ep a k param = amo_swap32 ep v a k param
method (and eight v) ep a k param = amo_and64 ep v a k param
method (and four v) ep a k param = amo_and32 ep v a k param
method (or eight v) ep a k param = amo_or64 ep v a k param
method (or four v) ep a k param = amo_or32 ep v a k param
method (cswap eight e r) ep a k param = amo_cswap64 ep e r a k param
method (cswap four e r) ep a k param = amo_cswap32 ep e r a k param

-- Each of the twelve methods makes one call: with its own operation, the operand words, the size of
-- the operand buffer in bytes as the count, and the parameters as they were given; and it
-- returns what the answer of that call decodes to.
pub method_lem :
    (x : Amo) (ep : Ep) (a : ℕ) (k : RemoteKey) (param : RawRequestParam) (u : Ucx) (h : History)
    → let posted =
        atomic_op_nbx ep.handle
          (opcode x)
          (operand x)
          (bytes (width x) * length (operand x))
          a
          k.handle
          param in
      method x ep a k param u h ≡ (status_ptr_to_result (u.word h posted), posted ∷ h)
unfolding method
method_lem (add eight v) ep a k param u h = refl
method_lem (add four v) ep a k param u h = refl
method_lem (xor eight v) ep a k param u h = refl
method_lem (xor four v) ep a k param u h = refl
method_lem (swap eight v) ep a k param u h = refl
method_lem (swap four v) ep a k param u h = refl
method_lem (and eight v) ep a k param u h = refl
method_lem (and four v) ep a k param u h = refl
method_lem (or eight v) ep a k param u h = refl
method_lem (or four v) ep a k param u h = refl
method_lem (cswap eight e r) ep a k param u h = refl
method_lem (cswap four e r) ep a k param u h = refl

-- The operations that have a fetching form.
pub data Fetch : Type 0 where
  fetch_add fetch_xor fetch_swap : Width → ℕ → Fetch
  fetch_cswap : Width → ℕ → ℕ → Fetch

abbrev pub plain : Fetch → Amo
plain (fetch_add w v) = add w v
plain (fetch_xor w v) = xor w v
plain (fetch_swap w v) = swap w v
plain (fetch_cswap w e r) = cswap w e r

pub fetching : Fetch → Ep → Worker → ℕ → RemoteKey → ℕ → Fetching
unfolding amo_fadd64 amo_fxor64 amo_fswap64 amo_fcswap64 amo_fadd32 amo_fxor32 amo_fswap32
    amo_fcswap32
fetching (fetch_add eight v) ep w a k reply = amo_fadd64 ep w v a k reply
fetching (fetch_add four v) ep w a k reply = amo_fadd32 ep w v a k reply
fetching (fetch_xor eight v) ep w a k reply = amo_fxor64 ep w v a k reply
fetching (fetch_xor four v) ep w a k reply = amo_fxor32 ep w v a k reply
fetching (fetch_swap eight v) ep w a k reply = amo_fswap64 ep w v a k reply
fetching (fetch_swap four v) ep w a k reply = amo_fswap32 ep w v a k reply
fetching (fetch_cswap eight c s) ep w a k reply = amo_fcswap64 ep w c s a k reply
fetching (fetch_cswap four c s) ep w a k reply = amo_fcswap32 ep w c s a k reply

-- Each fetching method posts what the method without a fetch posts, with parameters that carry the
-- reply buffer, select it in their mask and select no data type; and it returns a guard on the
-- given worker for the same request.
pub fetching_lem :
    (x : Fetch) (ep : Ep) (w : Worker) (a : ℕ) (k : RemoteKey) (reply : ℕ) (u : Ucx) (h : History)
    → let plainly = method (plain x) ep a k (fetch_params reply) u h in
      (fetching x ep w a k reply u h
        ≡ (map_ok (λ request. fetch_amo_result request w) (plainly.0), plainly.1))
      × ((fetch_params reply).reply_buffer ≡ reply)
      × (bit 5 (fetch_params reply).op_attr_mask ≡ 1)
      × (bit 3 (fetch_params reply).op_attr_mask ≡ 0)
unfolding fetching method bit
fetching_lem (fetch_add eight v) ep w a k reply u h = (refl, refl, refl, refl)
fetching_lem (fetch_add four v) ep w a k reply u h = (refl, refl, refl, refl)
fetching_lem (fetch_xor eight v) ep w a k reply u h = (refl, refl, refl, refl)
fetching_lem (fetch_xor four v) ep w a k reply u h = (refl, refl, refl, refl)
fetching_lem (fetch_swap eight v) ep w a k reply u h = (refl, refl, refl, refl)
fetching_lem (fetch_swap four v) ep w a k reply u h = (refl, refl, refl, refl)
fetching_lem (fetch_cswap eight c s) ep w a k reply u h = (refl, refl, refl, refl)
fetching_lem (fetch_cswap four c s) ep w a k reply u h = (refl, refl, refl, refl)
