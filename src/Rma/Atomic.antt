-- ===== src/Rma/Atomic.antt =====
-- src/rma/atomic.rs: the older free functions. Each typed one copies the parameters and sets the
-- data type in the copy; the reply buffer that a fetching one is given goes unused.
pub mod Compared
use ucx_rs.Base.{ℕ, List, [], ◌∷◌, ◌==◌, if◌then◌else◌}
use ucx_rs.Ffi.{
  RawRequestParam, RawAtomicOp, op_add, op_swap, op_cswap, op_and, op_or, op_xor, M, pure, ◌>>=◌,
  call, call_status, call_word, last_out, put_nbx as ffi_put_nbx, get_nbx as ffi_get_nbx,
  atomic_op_nbx as ffi_atomic_op_nbx, rkey_ptr as ffi_rkey_ptr, rkey_destroy as ffi_rkey_destroy,
  ep_rkey_unpack as ffi_ep_rkey_unpack, err_invalid_param,
}
use ucx_rs.Status.{Result, ok, err, map_ok, status_to_result, status_ptr_to_result}
use ucx_rs.Dt.{dt_make_contig}
use ucx_rs.Ep.{Ep}
use ucx_rs.Rma.Key.{RemoteKey}
use ucx_rs.Rma.Ops.{Posted}

pub data AtomicOp : Type 0 where
  add swap cswap and or xor : AtomicOp

unfoldable pub to_ffi : AtomicOp → RawAtomicOp
to_ffi add = op_add
to_ffi swap = op_swap
to_ffi cswap = op_cswap
to_ffi and = op_and
to_ffi or = op_or
to_ffi xor = op_xor

unfoldable pub put_nbx : Ep → ℕ → ℕ → ℕ → RemoteKey → RawRequestParam → Posted
put_nbx ep buffer count remote_addr rkey param = do
  ptr ← call_word (ffi_put_nbx ep.handle buffer count remote_addr rkey.handle param)
  pure (status_ptr_to_result ptr)

unfoldable pub get_nbx : Ep → ℕ → ℕ → ℕ → RemoteKey → RawRequestParam → Posted
get_nbx ep buffer count remote_addr rkey param = do
  ptr ← call_word (ffi_get_nbx ep.handle buffer count remote_addr rkey.handle param)
  pure (status_ptr_to_result ptr)

unfoldable pub atomic_op_nbx : Ep → AtomicOp → List ℕ → ℕ → ℕ → RemoteKey → RawRequestParam → Posted
unfolding to_ffi
atomic_op_nbx ep opcode buffer count remote_addr rkey param = do
  ptr ←
      call_word
        (ffi_atomic_op_nbx ep.handle (to_ffi opcode) buffer count remote_addr rkey.handle param)
  pure (status_ptr_to_result ptr)

unfoldable pub atomic_fetch_nbx :
    Ep → AtomicOp → List ℕ → ℕ → ℕ → ℕ → RemoteKey → RawRequestParam → Posted
unfolding to_ffi
atomic_fetch_nbx ep opcode operand _ count remote_addr rkey param = do
  ptr ←
      call_word
        (ffi_atomic_op_nbx ep.handle (to_ffi opcode) operand count remote_addr rkey.handle param)
  pure (status_ptr_to_result ptr)

-- `payload` is what the caller's pointer points at.
unfoldable pub ep_rkey_unpack : Ep → List ℕ → M (Result RemoteKey)
ep_rkey_unpack ep payload = do
  status ← call_status (ffi_ep_rkey_unpack ep.handle payload)
  rkey ← last_out
  pure (
      map_ok (λ _. record { handle = rkey; worker_alive = ep.worker_alive })
        (status_to_result status))

abbrev rkey_ptr_live : RemoteKey → ℕ → M (Result ℕ)
rkey_ptr_live rkey raddr = do
  status ← call_status (ffi_rkey_ptr rkey.handle raddr)
  addr ← last_out
  pure (map_ok (λ _. addr) (status_to_result status))

unfoldable pub rkey_ptr : RemoteKey → ℕ → M (Result ℕ)
rkey_ptr rkey raddr =
    if rkey.handle == 0 then pure (err err_invalid_param) else rkey_ptr_live rkey raddr

unfoldable pub rkey_destroy : RemoteKey → M (Unit {0})
rkey_destroy rkey = call (ffi_rkey_destroy rkey.handle)

-- `param.handle.datatype = dt_make_contig(size)` on a copy: the mask stays as it was.
abbrev pub with_datatype : ℕ → RawRequestParam → RawRequestParam
with_datatype size param = record param { datatype = dt_make_contig size }

unfoldable pub atomic_fadd32 : Ep → ℕ → ℕ → ℕ → RemoteKey → RawRequestParam → Posted
unfolding atomic_op_nbx
atomic_fadd32 ep operand _ remote_addr rkey param =
    atomic_op_nbx ep add (operand ∷ []) 1 remote_addr rkey (with_datatype 4 param)

unfoldable pub atomic_add32 : Ep → ℕ → ℕ → RemoteKey → RawRequestParam → Posted
unfolding atomic_op_nbx
atomic_add32 ep operand remote_addr rkey param =
    atomic_op_nbx ep add (operand ∷ []) 1 remote_addr rkey (with_datatype 4 param)

unfoldable pub atomic_fswap32 : Ep → ℕ → ℕ → ℕ → RemoteKey → RawRequestParam → Posted
unfolding atomic_op_nbx
atomic_fswap32 ep operand _ remote_addr rkey param =
    atomic_op_nbx ep swap (operand ∷ []) 1 remote_addr rkey (with_datatype 4 param)

unfoldable pub atomic_swap32 : Ep → ℕ → ℕ → RemoteKey → RawRequestParam → Posted
unfolding atomic_op_nbx
atomic_swap32 ep operand remote_addr rkey param =
    atomic_op_nbx ep swap (operand ∷ []) 1 remote_addr rkey (with_datatype 4 param)

unfoldable pub atomic_fxor32 : Ep → ℕ → ℕ → ℕ → RemoteKey → RawRequestParam → Posted
unfolding atomic_op_nbx
atomic_fxor32 ep operand _ remote_addr rkey param =
    atomic_op_nbx ep xor (operand ∷ []) 1 remote_addr rkey (with_datatype 4 param)

unfoldable pub atomic_xor32 : Ep → ℕ → ℕ → RemoteKey → RawRequestParam → Posted
unfolding atomic_op_nbx
atomic_xor32 ep operand remote_addr rkey param =
    atomic_op_nbx ep xor (operand ∷ []) 1 remote_addr rkey (with_datatype 4 param)

unfoldable pub atomic_fcswap32 : Ep → ℕ → ℕ → ℕ → ℕ → RemoteKey → RawRequestParam → Posted
unfolding atomic_op_nbx
atomic_fcswap32 ep expected replacement _ remote_addr rkey param =
    atomic_op_nbx ep cswap (expected ∷ replacement ∷ []) 1 remote_addr rkey (with_datatype 4 param)

unfoldable pub atomic_fadd64 : Ep → ℕ → ℕ → ℕ → RemoteKey → RawRequestParam → Posted
unfolding atomic_op_nbx
atomic_fadd64 ep operand _ remote_addr rkey param =
    atomic_op_nbx ep add (operand ∷ []) 1 remote_addr rkey (with_datatype 8 param)

unfoldable pub atomic_add64 : Ep → ℕ → ℕ → RemoteKey → RawRequestParam → Posted
unfolding atomic_op_nbx
atomic_add64 ep operand remote_addr rkey param =
    atomic_op_nbx ep add (operand ∷ []) 1 remote_addr rkey (with_datatype 8 param)

unfoldable pub atomic_fswap64 : Ep → ℕ → ℕ → ℕ → RemoteKey → RawRequestParam → Posted
unfolding atomic_op_nbx
atomic_fswap64 ep operand _ remote_addr rkey param =
    atomic_op_nbx ep swap (operand ∷ []) 1 remote_addr rkey (with_datatype 8 param)

unfoldable pub atomic_swap64 : Ep → ℕ → ℕ → RemoteKey → RawRequestParam → Posted
unfolding atomic_op_nbx
atomic_swap64 ep operand remote_addr rkey param =
    atomic_op_nbx ep swap (operand ∷ []) 1 remote_addr rkey (with_datatype 8 param)

unfoldable pub atomic_fxor64 : Ep → ℕ → ℕ → ℕ → RemoteKey → RawRequestParam → Posted
unfolding atomic_op_nbx
atomic_fxor64 ep operand _ remote_addr rkey param =
    atomic_op_nbx ep xor (operand ∷ []) 1 remote_addr rkey (with_datatype 8 param)

unfoldable pub atomic_xor64 : Ep → ℕ → ℕ → RemoteKey → RawRequestParam → Posted
unfolding atomic_op_nbx
atomic_xor64 ep operand remote_addr rkey param =
    atomic_op_nbx ep xor (operand ∷ []) 1 remote_addr rkey (with_datatype 8 param)

unfoldable pub atomic_fcswap64 : Ep → ℕ → ℕ → ℕ → ℕ → RemoteKey → RawRequestParam → Posted
unfolding atomic_op_nbx
atomic_fcswap64 ep expected replacement _ remote_addr rkey param =
    atomic_op_nbx ep cswap (expected ∷ replacement ∷ []) 1 remote_addr rkey (with_datatype 8 param)
