-- ===== src/Status/Classify.antt =====
-- What the two status helpers make of each answer of UCX.
use ucx_rs.Base.{ℕ, ◌-◌, ◌^◌, ◌≤◌, ◌<◌, ◌≡◌, refl, true, Option, none, some, arith}
use ucx_rs.Base.{◌==◌, leb, if◌then◌else◌, Bool-cases, inl, inr}
use ucx_rs.Ffi.{RawStatus, discriminant, as_usize, ucs_ok}
use ucx_rs.Status.{
  Status, Result, ok, err, map_ok, Request, Request_new, is_err, status_to_result, status_from_ptr,
  status_ptr_is_err, status_ptr_to_result, status_ptr_to_result_debug,
}
use ucx_rs.Status.Decode.{status_from_ptr-is_err}

-- The ranges of an address: codes of errors at the top, two immediate successes at the bottom,
-- requests between them.
pub data Kind (p : ℕ) : Type 0 where
  failure : 2 ^ 64 - 100 ≤ p → Kind p
  immediate : p ≤ 1 → Kind p
  pending : 1 < p → p < 2 ^ 64 - 100 → Kind p

pub kind : (p : ℕ) → Kind p
kind p = elim (Bool-cases (leb (2 ^ 64 - 100) p)) [
  | inl e ↦ failure (ground arith)
  | inr e ↦ elim (Bool-cases (leb p 1)) [
    | inl f ↦ immediate (ground arith)
    | inr f ↦ pending (ground arith) (ground arith)
  ]
]

-- What a status pointer has to become: an error status, completion without a request, or the
-- request at that address.
abbrev pub IsClassified : {p : ℕ} → Kind p → Result (Option Request) → Type 0
IsClassified {p} (failure h) r = (e : Status) × (r ≡ err e) × (is_err e ≡ true)
IsClassified {p} (immediate h) r = r ≡ ok none
IsClassified {p} (pending h h') r = r ≡ ok (some (record { handle = some p }))

-- Every answer of UCX that is a status pointer is read by its range: from 2^64 - 100 on it is an
-- error, with a status that is one; 0 and 1 are a success without a request; any other address is a
-- success with the request at that address.
pub status_ptr_to_result-IsClassified : (p : ℕ) → IsClassified (kind p) (status_ptr_to_result p)
status_ptr_to_result-IsClassified p = by_kind (kind p)
  where
    by_kind : (k : Kind p) → IsClassified k (status_ptr_to_result p)
    by_kind (failure h) = (
      status_from_ptr p,
      unfold status_ptr_to_result status_ptr_is_err in ground arith,
      status_from_ptr-is_err p,
    )
    by_kind (immediate h) = unfold status_ptr_to_result status_ptr_is_err in ground arith
    by_kind (pending h h') =
        unfold status_ptr_to_result status_ptr_is_err Request_new in ground arith

-- A status and a status pointer that holds its code are judged alike: both are an error with that
-- status, or both succeed, and then the pointer form has no request.
status_ptr_to_result-as_usize :
    (s : RawStatus)
    → status_ptr_to_result (as_usize (discriminant s)) ≡ map_ok (λ _. none) (status_to_result s)
unfolding status_ptr_to_result status_ptr_is_err status_from_ptr status_to_result
status_ptr_to_result-as_usize ucs_ok = refl
status_ptr_to_result-as_usize _ = refl

-- A debug build panics exactly on the pointer that holds `UCS_INPROGRESS`; on every other it
-- gives what a release build gives.
status_ptr_to_result_debug_lem :
    (p : ℕ)
    → status_ptr_to_result_debug p ≡ (if p == 1 then none else some (status_ptr_to_result p))
unfolding status_ptr_to_result_debug status_ptr_to_result
status_ptr_to_result_debug_lem p = unfold status_ptr_is_err in ground arith
