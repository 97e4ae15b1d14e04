-- ===== src/Tests/Requests.antt =====
-- Statuses, requests, request parameters and the enums, at concrete inputs.
use ucx_rs.Base.{List, ◌↔◌, ◌-◌, ◌^◌, ◌≡◌, refl, ◌⊎◌, some, [], ◌∷◌, arith}
use ucx_rs.Ffi.{call, pure, worker_signal, discriminant, as_usize, err_last, err_canceled}
use ucx_rs.Status.{is_err, status_from_ptr, status_ptr_is_err, status_ptr_to_result}
use ucx_rs.Status.Decode.{status_from_ptr_iff}
use ucx_rs.Status.Classify.{kind, IsClassified, status_ptr_to_result-IsClassified}
use ucx_rs.Request.Life.{
  Use, waits, mt_waits, queries, checks, tests, cancels, worker_cancels, releases, live,
  times_given_back, uses_after_free, given_back_once,
}
use ucx_rs.Tests.{ucx, worker}

-- Checked, waited for on the worker and, while another thread signals it, on a shared worker,
-- queried, cancelled on the worker, tested, cancelled, checked again and released.
abbrev uses : List Use
uses =
    checks
    ∷ waits worker
    ∷ mt_waits (λ i. (call (worker_signal 16), pure tt)) (record { worker = worker })
    ∷ queries 4
    ∷ worker_cancels worker
    ∷ tests
    ∷ cancels 16
    ∷ checks
    ∷ []

given_back_once_example :
    let h' = (live uses releases (record { handle = some 4096 }) ucx []).1 in
    (times_given_back 4096 h' ≡ 1) × (uses_after_free 4096 h' ≡ 0)
given_back_once_example =
    given_back_once 4096 uses releases ucx []
      (
        tt,
        (tt, (λ i. (λ u h. (refl, refl), λ u h. (refl, refl)), (tt, (tt, (tt, (tt, (tt, tt))))))),
      )
      refl refl

status_from_ptr_iff_example :
    ((status_from_ptr (2 ^ 64 - 16) ≡ err_canceled)
      ↔ (as_usize (discriminant err_canceled) ≡ 2 ^ 64 - 16))
    × ((status_from_ptr (2 ^ 64 - 16) ≡ err_last)
        ⊎ (as_usize (discriminant (status_from_ptr (2 ^ 64 - 16))) ≡ 2 ^ 64 - 16))
status_from_ptr_iff_example =
    status_from_ptr_iff (2 ^ 64 - 16) err_canceled (unfold status_ptr_is_err in refl) (omega arith)
      (unfold is_err in refl) (λ q. cc)

status_ptr_to_result-IsClassified_example : IsClassified (kind 4096) (status_ptr_to_result 4096)
status_ptr_to_result-IsClassified_example = status_ptr_to_result-IsClassified 4096
