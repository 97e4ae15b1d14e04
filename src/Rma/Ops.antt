-- ===== src/Rma/Ops.antt =====
-- src/rma/ep_ops.rs: put, get and the atomic operations of an endpoint. An operand is the list of
-- the words that the operand buffer holds; a slice is its address and length.
pub mod Posting
use ucx_rs.Base.{ℕ, ◌*◌, Option, List, [], ◌∷◌}
use ucx_rs.Ffi.{
  RawRequestParam, RawAtomicOp, op_add, op_swap, op_cswap, op_and, op_or, op_xor, M, pure, ◌>>=◌,
  call_word, put_nbx, get_nbx, atomic_op_nbx,
}
use ucx_rs.Status.{Result, map_ok, Request, status_ptr_to_result}
use ucx_rs.Request.Params.{fetch_params}
use ucx_rs.Worker.{Worker}
use ucx_rs.Ep.{Ep}
use ucx_rs.Rma.Key.{RemoteKey}
use ucx_rs.Rma.Fetch.{FetchAmoRequest, fetch_amo_result}

abbrev pub Posted : Type 0
Posted = M (Result (Option Request))

unfoldable pub rma_put : Ep → ℕ → ℕ → ℕ → RemoteKey → RawRequestParam → Posted
rma_put ep buffer len remote_addr rkey param = do
  ptr ← call_word (put_nbx ep.handle buffer len remote_addr rkey.handle param)
  pure (status_ptr_to_result ptr)

unfoldable pub rma_get : Ep → ℕ → ℕ → ℕ → RemoteKey → RawRequestParam → Posted
rma_get ep buffer len remote_addr rkey param = do
  ptr ← call_word (get_nbx ep.handle buffer len remote_addr rkey.handle param)
  pure (status_ptr_to_result ptr)

unfoldable pub rma_put_ptr : Ep → ℕ → ℕ → ℕ → RemoteKey → RawRequestParam → Posted
rma_put_ptr ep ptr len remote_addr rkey param = do
  result ← call_word (put_nbx ep.handle ptr len remote_addr rkey.handle param)
  pure (status_ptr_to_result result)

unfoldable pub rma_get_ptr : Ep → ℕ → ℕ → ℕ → RemoteKey → RawRequestParam → Posted
rma_get_ptr ep ptr len remote_addr rkey param = do
  result ← call_word (get_nbx ep.handle ptr len remote_addr rkey.handle param)
  pure (status_ptr_to_result result)

-- The call that all atomic operations end in.
abbrev pub post : Ep → RawAtomicOp → List ℕ → ℕ → ℕ → RemoteKey → RawRequestParam → Posted
post ep op operand count remote_addr rkey param = do
  ptr ← call_word (atomic_op_nbx ep.handle op operand count remote_addr rkey.handle param)
  pure (status_ptr_to_result ptr)

-- `size_of::<u64>()`, `size_of::<u32>()` and those of arrays of two.
abbrev pub size_of_u64 : ℕ
size_of_u64 = 8

abbrev pub size_of_u32 : ℕ
size_of_u32 = 4

abbrev pub size_of_two_u64 : ℕ
size_of_two_u64 = 16

abbrev pub size_of_two_u32 : ℕ
size_of_two_u32 = 8

unfoldable pub amo_add64 : Ep → ℕ → ℕ → RemoteKey → RawRequestParam → Posted
amo_add64 ep operand remote_addr rkey param =
    post ep op_add (operand ∷ []) size_of_u64 remote_addr rkey param

unfoldable pub amo_xor64 : Ep → ℕ → ℕ → RemoteKey → RawRequestParam → Posted
amo_xor64 ep operand remote_addr rkey param =
    post ep op_xor (operand ∷ []) size_of_u64 remote_addr rkey param

unfoldable pub amo_swap64 : Ep → ℕ → ℕ → RemoteKey → RawRequestParam → Posted
amo_swap64 ep operand remote_addr rkey param =
    post ep op_swap (operand ∷ []) size_of_u64 remote_addr rkey param

unfoldable pub amo_and64 : Ep → ℕ → ℕ → RemoteKey → RawRequestParam → Posted
amo_and64 ep operand remote_addr rkey param =
    post ep op_and (operand ∷ []) size_of_u64 remote_addr rkey param

unfoldable pub amo_or64 : Ep → ℕ → ℕ → RemoteKey → RawRequestParam → Posted
amo_or64 ep operand remote_addr rkey param =
    post ep op_or (operand ∷ []) size_of_u64 remote_addr rkey param

unfoldable pub amo_cswap64 : Ep → ℕ → ℕ → ℕ → RemoteKey → RawRequestParam → Posted
amo_cswap64 ep expected replacement remote_addr rkey param =
    post ep op_cswap (expected ∷ replacement ∷ []) size_of_two_u64 remote_addr rkey param

unfoldable pub amo_add32 : Ep → ℕ → ℕ → RemoteKey → RawRequestParam → Posted
amo_add32 ep operand remote_addr rkey param =
    post ep op_add (operand ∷ []) size_of_u32 remote_addr rkey param

unfoldable pub amo_xor32 : Ep → ℕ → ℕ → RemoteKey → RawRequestParam → Posted
amo_xor32 ep operand remote_addr rkey param =
    post ep op_xor (operand ∷ []) size_of_u32 remote_addr rkey param

unfoldable pub amo_swap32 : Ep → ℕ → ℕ → RemoteKey → RawRequestParam → Posted
amo_swap32 ep operand remote_addr rkey param =
    post ep op_swap (operand ∷ []) size_of_u32 remote_addr rkey param

unfoldable pub amo_and32 : Ep → ℕ → ℕ → RemoteKey → RawRequestParam → Posted
amo_and32 ep operand remote_addr rkey param =
    post ep op_and (operand ∷ []) size_of_u32 remote_addr rkey param

unfoldable pub amo_or32 : Ep → ℕ → ℕ → RemoteKey → RawRequestParam → Posted
amo_or32 ep operand remote_addr rkey param =
    post ep op_or (operand ∷ []) size_of_u32 remote_addr rkey param

unfoldable pub amo_cswap32 : Ep → ℕ → ℕ → ℕ → RemoteKey → RawRequestParam → Posted
amo_cswap32 ep expected replacement remote_addr rkey param =
    post ep op_cswap (expected ∷ replacement ∷ []) size_of_two_u32 remote_addr rkey param

-- A fetching operation writes the old value to `reply`, an address, and is guarded.
abbrev pub Fetching : Type 0
Fetching = M (Result FetchAmoRequest)

abbrev pub post_fetch : Ep → Worker → RawAtomicOp → List ℕ → ℕ → ℕ → RemoteKey → ℕ → Fetching
post_fetch ep w op operand count remote_addr rkey reply = do
  result ← post ep op operand count remote_addr rkey (fetch_params reply)
  pure (map_ok (λ request. fetch_amo_result request w) result)

unfoldable pub amo_fadd64 : Ep → Worker → ℕ → ℕ → RemoteKey → ℕ → Fetching
amo_fadd64 ep w operand remote_addr rkey reply =
    post_fetch ep w op_add (operand ∷ []) size_of_u64 remote_addr rkey reply

unfoldable pub amo_fxor64 : Ep → Worker → ℕ → ℕ → RemoteKey → ℕ → Fetching
amo_fxor64 ep w operand remote_addr rkey reply =
    post_fetch ep w op_xor (operand ∷ []) size_of_u64 remote_addr rkey reply

unfoldable pub amo_fswap64 : Ep → Worker → ℕ → ℕ → RemoteKey → ℕ → Fetching
amo_fswap64 ep w operand remote_addr rkey reply =
    post_fetch ep w op_swap (operand ∷ []) size_of_u64 remote_addr rkey reply

unfoldable pub amo_fcswap64 : Ep → Worker → ℕ → ℕ → ℕ → RemoteKey → ℕ → Fetching
amo_fcswap64 ep w compare swap remote_addr rkey reply =
    post_fetch ep w op_cswap (compare ∷ swap ∷ []) size_of_two_u64 remote_addr rkey reply

unfoldable pub amo_fadd32 : Ep → Worker → ℕ → ℕ → RemoteKey → ℕ → Fetching
amo_fadd32 ep w operand remote_addr rkey reply =
    post_fetch ep w op_add (operand ∷ []) size_of_u32 remote_addr rkey reply

unfoldable pub amo_fxor32 : Ep → Worker → ℕ → ℕ → RemoteKey → ℕ → Fetching
amo_fxor32 ep w operand remote_addr rkey reply =
    post_fetch ep w op_xor (operand ∷ []) size_of_u32 remote_addr rkey reply

unfoldable pub amo_fswap32 : Ep → Worker → ℕ → ℕ → RemoteKey → ℕ → Fetching
amo_fswap32 ep w operand remote_addr rkey reply =
    post_fetch ep w op_swap (operand ∷ []) size_of_u32 remote_addr rkey reply

unfoldable pub amo_fcswap32 : Ep → Worker → ℕ → ℕ → ℕ → RemoteKey → ℕ → Fetching
amo_fcswap32 ep w compare swap remote_addr rkey reply =
    post_fetch ep w op_cswap (compare ∷ swap ∷ []) size_of_two_u32 remote_addr rkey reply
