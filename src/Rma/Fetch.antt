-- ===== src/Rma/Fetch.antt =====
-- `FetchAmoRequest` of src/rma/remote_key.rs: the guard of a fetching atomic operation.
use ucx_rs.Base.{ℕ, ◌≡◌, refl, Bool, true, Option, none, some}
use ucx_rs.Ffi.{History, Ucx, M, pure, ◌>>=◌, ◌>>◌}
use ucx_rs.Status.{Result, ok, Request}
use ucx_rs.Request
use ucx_rs.Worker.{Worker, poll, finish_guard, max_rounds}
use ucx_rs.Worker.Polling.{owning, Guarded, poll-finish_guard}

pub record FetchAmoRequest : Type 0 where
  pub request : Option Request
  pub worker : Worker

abbrev pub fetch_amo_result : Option Request → Worker → FetchAmoRequest
fetch_amo_result request w = record { request = request; worker = w }

pub into_inner : FetchAmoRequest → Option Request
into_inner f = f.request

pub check_finished : FetchAmoRequest → M (Result Bool)
check_finished f = elim f.request [ none ↦ pure (ok true) | some r ↦ Request.check_finished r ]

pub drop : FetchAmoRequest → M (Unit {0})
drop f = elim f.request [ none ↦ pure tt | some r ↦ poll max_rounds r f.worker >>= finish_guard r ]

-- What is left of the guard, without its request, is dropped at the end.
pub free : FetchAmoRequest → M (Unit {0})
unfolding drop
free f = elim f.request [
  | none ↦ drop f
  | some r ↦ poll max_rounds r f.worker >>= finish_guard r >> drop (record f { request = none })
]

-- Giving up the guard of a fetching atomic operation, by `free` or by a drop, asks UCX and
-- progresses the worker until the answer is no longer "in progress" and frees the request directly
-- after it; when a million rounds all found it in progress, the request is not freed.
pub free-Guarded :
    (w : Worker) (p : ℕ) (u : Ucx) (h : History)
    → Guarded u w p max_rounds h (free (fetch_amo_result (some (owning p)) w) u h).1
      × (drop (fetch_amo_result (some (owning p)) w) u h
          ≡ free (fetch_amo_result (some (owning p)) w) u h)
unfolding free drop
free-Guarded w p u h = (poll-finish_guard u w p max_rounds h, refl)
