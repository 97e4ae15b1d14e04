-- ===== src/Worker/Blind.antt =====
-- Views of a history that do not look at the effects of a wait: what they show is the same before
-- and after a wait, a worker's last flush, or the wait of a close.
use ucx_rs.Base.{ℕ, zero, suc, ◌≡◌, refl, ◌∙◌, ◌∷◌, Bool, true, false, Option-cases, inl, inr}
use ucx_rs.Ffi.{History, Ucx, worker_progress, request_check_status, request_free}
use ucx_rs.Status.{Result, ok, err, Request}
use ucx_rs.Request
use ucx_rs.Worker.{Worker, max_rounds}
use ucx_rs.Worker
use ucx_rs.Worker.Polling.{waited}
use ucx_rs.Worker.Teardown.{Flushed, no_wait, answered, unanswered}
use ucx_rs.Ep.Closing.{Awaits, succeeds, fails, gives_up, Closes, refused, at_once, later}

pub record IsBlind {X : Type 0} (view : History → X) : Type 0 where
  pub progress : (w : ℕ) (h : History) → view (worker_progress w ∷ h) ≡ view h
  pub check : (p : ℕ) (h : History) → view (request_check_status p ∷ h) ≡ view h
  pub free : (p : ℕ) (h : History) → view (request_free p ∷ h) ≡ view h

module _ {X : Type 0} {view : History → X} (blind : IsBlind view) (u : Ucx) (w : Worker) where
  pub waited-IsBlind : (p k : ℕ) (h : History) → view (waited u w p k h) ≡ view h
  unfolding waited
  waited-IsBlind p zero h = refl
  waited-IsBlind p (suc k) h = waited-IsBlind p k _ ∙ blind.progress w.handle _ ∙ blind.check p h

  pub Flushed-IsBlind : {h h' : History} → Flushed u w h h' → view h' ≡ view h
  Flushed-IsBlind (no_wait e) = rw e refl
  Flushed-IsBlind {h} (answered p k busy e) =
      rw e (blind.free p _ ∙ blind.check p _ ∙ waited-IsBlind p k h)
  Flushed-IsBlind {h} (unanswered p busy e) = rw e (blind.free p _ ∙ waited-IsBlind p max_rounds h)

  Awaits-IsBlind :
      (p n : ℕ) (h : History) {r : Result (Unit {0}) × History}
      → Awaits u w p n h r
      → view r.1 ≡ view h
  Awaits-IsBlind p n h (succeeds k lt busy good e) =
      rw e (blind.free p _ ∙ blind.check p _ ∙ waited-IsBlind p k h)
  Awaits-IsBlind p n h (fails k s lt busy bad same e) =
      rw e (blind.check p _ ∙ waited-IsBlind p k h)
  Awaits-IsBlind p n h (gives_up busy e) = rw e (waited-IsBlind p n h)

  pub Closes-IsBlind :
      (p : ℕ) (h : History) {r : Result (Unit {0}) × History} → Closes u w p h r → view r.1 ≡ view h
  Closes-IsBlind p h (refused e bad q) = rw q refl
  Closes-IsBlind p h (at_once le q) = rw q refl
  Closes-IsBlind p h (later lt a) = Awaits-IsBlind p max_rounds h a

  check_finished-IsBlind :
      (r : Request) (h : History) → view (Request.check_finished r u h).1 ≡ view h
  unfolding Request.check_finished
  check_finished-IsBlind r h = elim (Option-cases r.handle) [
    | inl q ↦ rw q
    | inr (p, q) ↦ rw q (blind.check p h)
  ]

  next_round-IsBlind :
      (n : ℕ) (r : Request)
      → ((h : History) → view (Worker.poll n r w u h).1 ≡ view h)
      → (a : Result Bool) (h : History)
      → view (Worker.next_round (Worker.poll n r w) w a u h).1 ≡ view h
  unfolding Worker.progress
  next_round-IsBlind n r rest (ok true) h = refl
  next_round-IsBlind n r rest (ok false) h = rest _ ∙ blind.progress w.handle h
  next_round-IsBlind n r rest (err e) h = refl

  poll-IsBlind : (n : ℕ) (r : Request) (h : History) → view (Worker.poll n r w u h).1 ≡ view h
  unfolding Worker.poll
  poll-IsBlind zero r h = refl
  poll-IsBlind (suc n) r h =
      next_round-IsBlind n r (poll-IsBlind n r) _ _ ∙ check_finished-IsBlind r h

  -- A wait for any request, and its drop.
  pub wait_request-IsBlind :
      (r : Request) (h : History) → view (Worker.wait_request w r u h).1 ≡ view h
  unfolding Worker.wait_request
  wait_request-IsBlind r h = poll-IsBlind max_rounds r h

  pub drop-IsBlind : (r : Request) (h : History) → view (Request.drop r u h).1 ≡ view h
  unfolding Request.drop
  drop-IsBlind r h = elim (Option-cases r.handle) [
    | inl q ↦ rw q
    | inr (p, q) ↦ rw q (blind.free p h)
  ]
