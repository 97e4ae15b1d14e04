-- ===== src/ThreadMode.antt =====
-- src/thread_mode.rs and the raw enum of src/bindings.rs.
use ucx_rs.Base.{ℕ, ◌==◌, if◌then◌else◌, ◌≡◌, ◌≢◌, refl}

pub data ThreadMode : Type 0 where
  single serialized multi unknown : ThreadMode

pub data RawThreadMode : Type 0 where
  raw_single raw_serialized raw_multi raw_last : RawThreadMode

abbrev pub discriminant : RawThreadMode → ℕ
discriminant raw_single = 0
discriminant raw_serialized = 1
discriminant raw_multi = 2
discriminant raw_last = 3

-- The mode that a number in a struct of UCX stands for. UCX writes no number above 3.
abbrev pub from_discriminant : ℕ → RawThreadMode
from_discriminant n =
    if n == 0
    then raw_single
    else if n == 1
    then raw_serialized
    else if n == 2
    then raw_multi
    else raw_last

unfoldable pub to_ffi : ThreadMode → RawThreadMode
to_ffi single = raw_single
to_ffi serialized = raw_serialized
to_ffi multi = raw_multi
to_ffi unknown = raw_multi

unfoldable pub from_ffi : RawThreadMode → ThreadMode
from_ffi raw_single = single
from_ffi raw_serialized = serialized
from_ffi raw_multi = multi
from_ffi _ = unknown

-- The mode that is asked for where `m` is given.
abbrev pub requested : ThreadMode → ThreadMode
requested unknown = multi
requested m = m

-- Asking for a mode and reading it back gives the mode, but that "unknown" is asked for as
-- "multi"; and "unknown" is read for no mode that is ever asked for.
pub from_ffi-to_ffi :
    (m : ThreadMode) → (from_ffi (to_ffi m) ≡ requested m) × (from_ffi (to_ffi m) ≢ unknown)
unfolding from_ffi to_ffi
from_ffi-to_ffi single = (refl, λ e. cc)
from_ffi-to_ffi _ = (refl, λ e. cc)
