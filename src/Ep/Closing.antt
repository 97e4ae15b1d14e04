-- ===== src/Ep/Closing.antt =====
-- What a graceful close does, for every answer of UCX.
use ucx_rs.Base.{ℕ, ◌≡◌, ◌<◌, ◌≢◌, refl, ◌∷◌, true}
use ucx_rs.Base.{◌≤◌}
use ucx_rs.Ffi.{
  RawStatus, History, Ucx, ucs_ok, ucs_in_progress, err_timed_out, ep_close_nbx, ◌>>=◌,
  request_check_status, request_free,
}
use ucx_rs.Status.{Status, Result, ok, err, is_err, status_ptr_to_result}
use ucx_rs.Status.Classify.{
  Kind, kind, failure, immediate, pending, IsClassified, status_ptr_to_result-IsClassified,
}
use ucx_rs.Request
use ucx_rs.Worker.{Worker, poll, max_rounds}
use ucx_rs.Worker.Polling.{owning, waited, answer, Busy, verdict, settles, expires, poll-Polls}
use ucx_rs.Ep.{Ep, close_param, close, await_close, finish_close}

module _ (u : Ucx) (w : Worker) (p : ℕ) where
  abbrev Closed : Type 0
  Closed = Result (Unit {0}) × History

  -- The ends of the wait for a close request at `p`: success frees the request; an error is
  -- returned and a time-out reported, and then the request is not freed.
  pub data Awaits (n : ℕ) (h : History) (r : Closed) : Type 0 where
    succeeds :
        (k : ℕ)
        → k < n
        → Busy u w p k h
        → answer u w p (waited u w p k h) ≡ ucs_ok
        → r ≡ (ok tt, request_free p ∷ request_check_status p ∷ waited u w p k h)
        → Awaits n h r
    fails :
        (k : ℕ) (e : Status)
        → k < n
        → Busy u w p k h
        → is_err e ≡ true
        → answer u w p (waited u w p k h) ≡ e
        → r ≡ (err e, request_check_status p ∷ waited u w p k h)
        → Awaits n h r
    gives_up : Busy u w p n h → r ≡ (err err_timed_out, waited u w p n h) → Awaits n h r

  after_settling :
      (n k : ℕ) (h : History) (s : RawStatus)
      → k < n
      → Busy u w p k h
      → s ≢ ucs_in_progress
      → answer u w p (waited u w p k h) ≡ s
      → Awaits n h
          (finish_close (owning p) (verdict u w p s) u (request_check_status p ∷ waited u w p k h))
  unfolding Request.free is_err
  after_settling n k h ucs_ok lt busy ne e = succeeds k lt busy e refl
  after_settling n k h ucs_in_progress lt busy ne e = absurd (ne refl)
  after_settling n k h _ lt busy ne e = fails k _ lt busy refl e refl

  await-Awaits :
      (n : ℕ) (h : History) → Awaits n h ((poll n (owning p) w >>= finish_close (owning p)) u h)
  await-Awaits n h = elim (poll-Polls u w p n h) [
    | settles k lt busy ne e ↦ rw e (after_settling n k h _ lt busy ne refl)
    | expires busy e ↦ rw e (gives_up busy refl)
  ]

-- What closing must come to, by the kind of status pointer that UCX answers with.
pub data Closes (u : Ucx) (w : Worker) (p : ℕ) (h : History) (r : Result (Unit {0}) × History)
    : Type 0 where
  refused : (e : Status) → is_err e ≡ true → r ≡ (err e, h) → Closes u w p h r
  at_once : p ≤ 1 → r ≡ (ok tt, h) → Closes u w p h r
  later : 1 < p → Awaits u w p max_rounds h r → Closes u w p h r

await_close-Closes :
    (u : Ucx) (w : Worker) (p : ℕ) (h : History)
    → Closes u w p h (await_close w (status_ptr_to_result p) u h)
await_close-Closes u w p h = by_kind (kind p) (status_ptr_to_result-IsClassified p)
  where
    by_kind :
        (k : Kind p)
        → IsClassified k (status_ptr_to_result p)
        → Closes u w p h (await_close w (status_ptr_to_result p) u h)
    by_kind (failure _) (e, q, bad) = rw q (refused e bad refl)
    by_kind (immediate le) q = rw q (at_once le refl)
    by_kind (pending lt _) q = rw q (later lt (await-Awaits u w p max_rounds h))

-- The one call that starts a close. Its flags are in the struct, and its mask is zero.
abbrev pub close_call : Ep → ℕ → History → History
close_call ep flags h = ep_close_nbx ep.handle (close_param flags) ∷ h

-- Closing makes one close call, with any flags, on any endpoint. An error of that call is
-- returned; completion at once is success; otherwise the worker is progressed until the close
-- request has an answer other than "in progress", or for a million rounds. The request is freed
-- when it succeeded, and left alone when it failed or timed out.
pub close-Closes :
    (ep : Ep) (w : Worker) (flags : ℕ) (u : Ucx) (h : History)
    → Closes u w
        (u.word h (ep_close_nbx ep.handle (close_param flags)))
        (close_call ep flags h)
        (close ep w flags u h)
unfolding close
close-Closes ep w flags u h = await_close-Closes u w _ (close_call ep flags h)
