-- ===== src/MemoryType.antt =====
-- src/memory_type.rs, and the raw enum of src/bindings.rs.
use ucx_rs.Base.{ℕ, ◌==◌, if◌then◌else◌, ◌≡◌, refl}

pub data MemoryType : Type 0 where
  host cuda cuda_managed rocm rocm_managed rdma ze_host ze_device ze_managed unknown : MemoryType

-- `last` is `UCS_MEMORY_TYPE_LAST`, which is also `UCS_MEMORY_TYPE_UNKNOWN`.
pub data RawMemoryType : Type 0 where
  raw_host raw_cuda raw_cuda_managed raw_rocm raw_rocm_managed raw_rdma : RawMemoryType
  raw_ze_host raw_ze_device raw_ze_managed raw_last : RawMemoryType

unfoldable pub discriminant : RawMemoryType → ℕ
discriminant raw_host = 0
discriminant raw_cuda = 1
discriminant raw_cuda_managed = 2
discriminant raw_rocm = 3
discriminant raw_rocm_managed = 4
discriminant raw_rdma = 5
discriminant raw_ze_host = 6
discriminant raw_ze_device = 7
discriminant raw_ze_managed = 8
discriminant raw_last = 9

-- The type that a number in a struct of UCX stands for. UCX writes no number above 9.
abbrev pub from_discriminant : ℕ → RawMemoryType
from_discriminant n =
    if n == 0
    then raw_host
    else if n == 1
    then raw_cuda
    else if n == 2
    then raw_cuda_managed
    else if n == 3
    then raw_rocm
    else if n == 4
    then raw_rocm_managed
    else if n == 5
    then raw_rdma
    else if n == 6
    then raw_ze_host
    else if n == 7
    then raw_ze_device
    else if n == 8
    then raw_ze_managed
    else raw_last

unfoldable pub to_ffi : MemoryType → RawMemoryType
to_ffi host = raw_host
to_ffi cuda = raw_cuda
to_ffi cuda_managed = raw_cuda_managed
to_ffi rocm = raw_rocm
to_ffi rocm_managed = raw_rocm_managed
to_ffi rdma = raw_rdma
to_ffi ze_host = raw_ze_host
to_ffi ze_device = raw_ze_device
to_ffi ze_managed = raw_ze_managed
to_ffi unknown = raw_last

unfoldable pub from_ffi : RawMemoryType → MemoryType
from_ffi raw_host = host
from_ffi raw_cuda = cuda
from_ffi raw_cuda_managed = cuda_managed
from_ffi raw_rocm = rocm
from_ffi raw_rocm_managed = rocm_managed
from_ffi raw_rdma = rdma
from_ffi raw_ze_host = ze_host
from_ffi raw_ze_device = ze_device
from_ffi raw_ze_managed = ze_managed
from_ffi _ = unknown

from_ffi-to_ffi : (m : MemoryType) → from_ffi (to_ffi m) ≡ m
unfolding from_ffi to_ffi
from_ffi-to_ffi host = refl
from_ffi-to_ffi _ = refl

to_ffi-from_ffi : (r : RawMemoryType) → to_ffi (from_ffi r) ≡ r
unfolding from_ffi to_ffi
to_ffi-from_ffi raw_host = refl
to_ffi-from_ffi _ = refl

-- The memory types of the crate and of UCX correspond one to one, "unknown" included: each
-- conversion undoes the other.
to_ffi_bijective :
    (m : MemoryType) (r : RawMemoryType) → (from_ffi (to_ffi m) ≡ m) × (to_ffi (from_ffi r) ≡ r)
to_ffi_bijective m r = (from_ffi-to_ffi m, to_ffi-from_ffi r)
