-- ===== src/Worker/Teardown.antt =====
-- What the drop of a worker does, and what is left of it for others to see.
use ucx_rs.Base.{ℕ, zero, suc, ◌≡◌, refl, ◌∙◌, false, some, ◌∷◌, arith}
use ucx_rs.Ffi.{
  History, Ucx, zeroed, flag, store_flag, worker_flush_nbx, worker_destroy, request_check_status,
  request_free,
}
use ucx_rs.Status.{ok, status_ptr_to_result}
use ucx_rs.Status.Classify.{
  Kind, kind, failure, immediate, pending, IsClassified, status_ptr_to_result-IsClassified,
}
use ucx_rs.Request
use ucx_rs.Worker.{Worker, max_rounds, finish_flush, drop}
use ucx_rs.Worker.Polling.{owning, waited, Busy, settles, expires, poll-Polls}

pub flag-waited :
    (u : Ucx) (w : Worker) (p a k : ℕ) (h : History) → flag a (waited u w p k h) ≡ flag a h
unfolding waited
flag-waited u w p a zero h = refl
flag-waited u w p a (suc k) h = flag-waited u w p a k _

-- The history after the flush of a drop: nothing more, or a wait for the flush request at `p`,
-- which ends with its release.
pub data Flushed (u : Ucx) (w : Worker) (h h' : History) : Type 0 where
  no_wait : h' ≡ h → Flushed u w h h'
  answered :
      (p k : ℕ)
      → Busy u w p k h
      → h' ≡ request_free p ∷ request_check_status p ∷ waited u w p k h
      → Flushed u w h h'
  unanswered :
      (p : ℕ)
      → Busy u w p max_rounds h
      → h' ≡ request_free p ∷ waited u w p max_rounds h
      → Flushed u w h h'

finish_flush-Flushed :
    (u : Ucx) (w : Worker) (p : ℕ) (h : History)
    → Flushed u w h (finish_flush w (status_ptr_to_result p) u h).1
finish_flush-Flushed u w p h = by_kind (kind p) (status_ptr_to_result-IsClassified p)
  where
    waits : Flushed u w h (finish_flush w (ok (some (owning p))) u h).1
    waits = elim (poll-Polls u w p max_rounds h) [
      | settles k lt busy ne e ↦ answered p k busy (unfold Request.drop in rw e)
      | expires busy e ↦ unanswered p busy (unfold Request.drop in rw e)
    ]

    by_kind :
        (k : Kind p)
        → IsClassified k (status_ptr_to_result p)
        → Flushed u w h (finish_flush w (status_ptr_to_result p) u h).1
    by_kind (failure _) (e, q, bad) = rw q (no_wait refl)
    by_kind (immediate _) q = rw q (no_wait refl)
    by_kind (pending _ _) q = rw q waits

flag-Flushed :
    (u : Ucx) (w : Worker) (a : ℕ) {h h' : History} → Flushed u w h h' → flag a h' ≡ flag a h
flag-Flushed u w a (no_wait e) = rw e
flag-Flushed u w a {h} (answered p k busy e) = rw e (flag-waited u w p a k h)
flag-Flushed u w a {h} (unanswered p busy e) = rw e (flag-waited u w p a max_rounds h)

-- Where a drop starts to wait: the flag is cleared before the flush is posted.
abbrev pub flush_posted : Worker → History → History
flush_posted w h = worker_flush_nbx w.handle zeroed ∷ store_flag w.alive false ∷ h

pub data Torn (u : Ucx) (w : Worker) (h h' : History) : Type 0 where
  torn :
      (mid : History)
      → Flushed u w (flush_posted w h) mid
      → h' ≡ worker_destroy w.handle ∷ mid
      → Torn u w h h'

-- Dropping a worker clears its `alive` flag first and destroys the worker last. Between them it
-- posts one flush; a request of that flush is waited for, for at most a million rounds, and is
-- released on every path.
pub drop-Torn : (w : Worker) (u : Ucx) (h : History) → Torn u w h (drop w u h).1
unfolding drop
drop-Torn w u h = torn _ (finish_flush-Flushed u w _ (flush_posted w h)) refl

-- After the drop the flag reads false, for all that share it.
pub flag-drop : (w : Worker) (u : Ucx) (h : History) → flag w.alive (drop w u h).1 ≡ false
flag-drop w u h = elim (drop-Torn w u h) [
  | torn mid f e ↦ rw e (flag-Flushed u w w.alive f ∙ ground arith)
]
