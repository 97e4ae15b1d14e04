-- ===== src/Stream/Guard.antt =====
-- What becomes of the request that a stream guard holds.
use ucx_rs.Base.{ℕ, ◌<◌, ◌≤◌, ◌≡◌, ◌≢◌, refl, Option, none, some, ◌∷◌}
use ucx_rs.Ffi.{History, Ucx, request_free, request_check_status, ucs_in_progress}
use ucx_rs.Worker.Liveness.{finish_guard-frees}
use ucx_rs.Status.{Request}
use ucx_rs.Worker.{Worker, max_rounds}
use ucx_rs.Worker.Polling.{owning, answer, waited, Guarded, poll-finish_guard}
use ucx_rs.Stream.{StreamRequest, drop, free}

abbrev pub holding : Worker → ℕ → ℕ → StreamRequest
holding w p length = record { request = some (owning p); worker = w; length = length }

-- Dropping a stream guard asks UCX about its request and progresses the worker until the answer is
-- no longer "in progress", frees the request directly after that answer, and, when a million
-- rounds all found it in progress, does not free it at all.
drop-Guarded :
    (w : Worker) (p length : ℕ) (u : Ucx) (h : History)
    → Guarded u w p max_rounds h (drop (holding w p length) u h).1
unfolding drop
drop-Guarded w p length u h = poll-finish_guard u w p max_rounds h

-- `free` has the same effects as letting the guard drop, whether or not a request is held.
free-drop : (s : StreamRequest) (u : Ucx) (h : History) → free s u h ≡ drop s u h
free-drop s u h = by_request s.request refl
  where
    by_request : (r : Option Request) → s.request ≡ r → free s u h ≡ drop s u h
    by_request none e = unfold free drop in rw e
    by_request (some r) e = unfold free drop in rw e

-- Dropping a stream guard gives the request back whenever UCX settles it in time: if UCX, asked
-- after some number of progress calls below a million, answers anything other than "in progress",
-- then the drop frees the request, after at most that many progress calls.
pub drop-frees :
    (w : Worker) (p length k : ℕ) (u : Ucx) (h : History)
    → k < max_rounds
    → answer u w p (waited u w p k h) ≢ ucs_in_progress
    → (j : ℕ) × (j ≤ k)
      × ((drop (holding w p length) u h).1
          ≡ request_free p ∷ request_check_status p ∷ waited u w p j h)
unfolding drop
drop-frees w p length k u h lt ne = finish_guard-frees w p k max_rounds u h lt ne
