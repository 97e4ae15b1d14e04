-- ===== src/Am/Registration.antt =====
-- The handlers that a worker retains, over any sequence of registrations.
use ucx_rs.Base.{ℕ, ◌≡◌, refl, ◌∙◌, Bool, true, false, List, [], ◌∷◌, ◌++◌}
use ucx_rs.Ffi.{
  History, Ucx, RawStatus, AmCallback, no_callback, trampoline, user_callback, RawAmHandlerParam, M,
  pure, ◌>>=◌, set_am_recv_handler,
}
use ucx_rs.Status.{status_to_result, status_value_is_err}
use ucx_rs.Worker.{Worker}
use ucx_rs.Am.{
  new, id, flags, cb, arg, build, push_if_ok, handler_params, am_register_handler, am_register,
  am_unregister,
}

-- A registration or a removal: of a closure, whose handler is at an address, of a raw callback with
-- its argument, or of what an id has.
pub data Step : Type 0 where
  registers_handler : ℕ → ℕ → ℕ → Step
  registers : ℕ → ℕ → ℕ → ℕ → Step
  unregisters : ℕ → Step

abbrev user_params : ℕ → ℕ → ℕ → ℕ → RawAmHandlerParam
user_params i f callback a = build (arg a (cb (user_callback callback) (flags f (id i new))))

-- One step, and the worker's list of handlers after it.
pub step : Worker → Step → List ℕ → M (List ℕ)
unfolding am_register_handler am_register am_unregister
step w (registers_handler i f handler) retained = do
  r ← am_register_handler w i f handler retained
  pure (r.1)
step w (registers i f callback a) retained = do
  _ ← am_register w (user_params i f callback a)
  pure retained
step w (unregisters i) retained = do _ ← am_unregister w i; pure retained

pub steps : Worker → List Step → List ℕ → M (List ℕ)
steps w [] retained = pure retained
steps w (x ∷ xs) retained = do r ← step w x retained; steps w xs r

-- The handlers that UCX has been given for the trampoline and has accepted, the first one first:
-- those whose address UCX may still pass to it.
abbrev accepted : Bool → AmCallback → ℕ → List ℕ → List ℕ
accepted false trampoline handler rest = rest ++ handler ∷ []
accepted _ _ handler rest = rest

unfoldable pub dispatchable : Ucx → History → List ℕ
unfolding status_value_is_err
dispatchable u [] = []
dispatchable u (set_am_recv_handler w param ∷ h) =
    accepted (status_value_is_err (u.status h (set_am_recv_handler w param))) param.cb param.arg
      (dispatchable u h)
dispatchable u (_ ∷ h) = dispatchable u h

accepted-push :
    (handler : ℕ) (retained : List ℕ) (failed : Bool) (s : RawStatus)
    → status_value_is_err s ≡ failed
    → accepted (status_value_is_err s) trampoline handler retained
      ≡ (push_if_ok handler retained (status_to_result s)).1
unfolding status_to_result
accepted-push handler retained true s e = rw e
accepted-push handler retained false s e = rw e

accepted-user :
    (callback a : ℕ) (retained : List ℕ) (failed : Bool)
    → accepted failed (user_callback callback) a retained ≡ retained
accepted-user callback a retained true = refl
accepted-user callback a retained false = refl

accepted-none :
    (retained : List ℕ) (failed : Bool) → accepted failed no_callback 0 retained ≡ retained
accepted-none retained true = refl
accepted-none retained false = refl

step-retains :
    (w : Worker) (x : Step) (retained : List ℕ) (u : Ucx) (h : History)
    → dispatchable u h ≡ retained
    → dispatchable u (step w x retained u h).1 ≡ (step w x retained u h).0
unfolding step dispatchable status_to_result handler_params build arg cb flags id new
step-retains w (registers_handler i f handler) retained u h e =
    rw e (accepted-push handler retained _ _ refl)
step-retains w (registers i f callback a) retained u h e = accepted-user callback a _ _ ∙ e
step-retains w (unregisters i) retained u h e = accepted-none _ _ ∙ e

-- From a list of handlers that agrees with what was done before, whatever sequence of registrations
-- and removals is made, and whatever UCX answers, the worker retains exactly the handlers that UCX
-- has accepted for the trampoline, in the order of their registration: none is freed by a
-- replacement or a removal, and none is kept that UCX refused.
pub steps-retains :
    (w : Worker) (xs : List Step) (u : Ucx) (h : History) (retained : List ℕ)
    → dispatchable u h ≡ retained
    → dispatchable u (steps w xs retained u h).1 ≡ (steps w xs retained u h).0
unfolding steps
steps-retains w [] u h retained e = e
steps-retains w (x ∷ xs) u h retained e = steps-retains w xs u _ _ (step-retains w x retained u h e)
