-- ===== src/Rma/Atomic/Compared.antt =====
-- The older free functions beside one another, and beside the methods that replace them.
use ucx_rs.Base.{ℕ, ◌≡◌, ◌≢◌, refl}
use ucx_rs.Ffi.{RawRequestParam, History, Ucx}
use ucx_rs.Dt.{dt_make_contig}
use ucx_rs.Ep.{Ep}
use ucx_rs.Rma.Key.{RemoteKey}
use ucx_rs.Rma.Ops.{amo_add32, amo_swap32, amo_xor32, amo_add64, amo_swap64, amo_xor64}
use ucx_rs.Rma.Atomic.{
  with_datatype, atomic_add32, atomic_fadd32, atomic_swap32, atomic_fswap32, atomic_xor32,
  atomic_fxor32, atomic_add64, atomic_fadd64, atomic_swap64, atomic_fswap64, atomic_xor64,
  atomic_fxor64,
}

-- Every older "fetch" function does exactly what the function without a fetch does: whatever reply
-- buffer it is given, it makes the same call and has the same result.
fetch_without_reply :
    (ep : Ep) (v reply a : ℕ) (k : RemoteKey) (param : RawRequestParam)
    → (atomic_fadd32 ep v reply a k param ≡ atomic_add32 ep v a k param)
      × (atomic_fswap32 ep v reply a k param ≡ atomic_swap32 ep v a k param)
      × (atomic_fxor32 ep v reply a k param ≡ atomic_xor32 ep v a k param)
      × (atomic_fadd64 ep v reply a k param ≡ atomic_add64 ep v a k param)
      × (atomic_fswap64 ep v reply a k param ≡ atomic_swap64 ep v a k param)
      × (atomic_fxor64 ep v reply a k param ≡ atomic_xor64 ep v a k param)
unfolding atomic_add32 atomic_fadd32 atomic_swap32 atomic_fswap32 atomic_xor32 atomic_fxor32
    atomic_add64 atomic_fadd64 atomic_swap64 atomic_fswap64 atomic_xor64 atomic_fxor64
fetch_without_reply ep v reply a k param = (refl, refl, refl, refl, refl, refl)

-- The methods that the older functions without a fetch are deprecated for do not make the calls
-- that those make: whatever the operand, target and parameters, the two calls differ.
amo_ne_atomic :
    (ep : Ep) (v a : ℕ) (k : RemoteKey) (param : RawRequestParam) (u : Ucx) (h : History)
    → ((amo_add32 ep v a k param u h).1 ≢ (atomic_add32 ep v a k param u h).1)
      × ((amo_swap32 ep v a k param u h).1 ≢ (atomic_swap32 ep v a k param u h).1)
      × ((amo_xor32 ep v a k param u h).1 ≢ (atomic_xor32 ep v a k param u h).1)
      × ((amo_add64 ep v a k param u h).1 ≢ (atomic_add64 ep v a k param u h).1)
      × ((amo_swap64 ep v a k param u h).1 ≢ (atomic_swap64 ep v a k param u h).1)
      × ((amo_xor64 ep v a k param u h).1 ≢ (atomic_xor64 ep v a k param u h).1)
unfolding atomic_add32 amo_add32 atomic_swap32 amo_swap32 atomic_xor32 amo_xor32 atomic_add64
    amo_add64 atomic_swap64 amo_swap64 atomic_xor64 amo_xor64
amo_ne_atomic ep v a k param u h = (λ e. cc, λ e. cc, λ e. cc, λ e. cc, λ e. cc, λ e. cc)

-- The typed functions write the data type into the parameters, and leave the mask as the caller
-- built it: a caller that did not select the data type has not selected it after that.
pub with_datatype_mask :
    (size : ℕ) (param : RawRequestParam)
    → ((with_datatype size param).datatype ≡ dt_make_contig size)
      × ((with_datatype size param).op_attr_mask ≡ param.op_attr_mask)
with_datatype_mask size param = (refl, refl)
