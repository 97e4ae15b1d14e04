-- ===== src/Session/Programs/Quiet.antt =====
-- What a program leaves alone: views of a history that look neither at waits nor at what an
-- endpoint is asked to do.
use ucx_rs.Base.{ℕ, ◌≡◌, refl, ◌∙◌, Option, none, some, List, [], ◌∷◌}
use ucx_rs.Ffi.{
  RawRequestParam, History, Ucx, RawEpParams, RawAtomicOp, ep_flush_nbx, ep_modify_nb, ep_query,
  ep_evaluate_perf, am_send_nbx, put_nbx, get_nbx, atomic_op_nbx,
}
use ucx_rs.Status.{Result, ok, err, Request}
use ucx_rs.Worker.{Worker}
use ucx_rs.Worker
use ucx_rs.Worker.Blind.{IsBlind, wait_request-IsBlind, drop-IsBlind}
use ucx_rs.Ep.{Ep}
use ucx_rs.Ep
use ucx_rs.Ep.Query
use ucx_rs.Am
use ucx_rs.Rma.Key.{RemoteKey}
use ucx_rs.Rma.Ops
use ucx_rs.Rma.Ops.Posting.{method_lem}
use ucx_rs.Session.Programs.{
  Fate, awaited, dropped, settle, KeyUse, puts, gets, posts, use_key, use_all, Action, flushes,
  modifies, sends_am, queries, evaluates, progresses, with_key, act, run,
}

-- Views of a history that look neither at a wait nor at what an endpoint is asked to do.
pub record IsQuiet {X : Type 0} (view : History → X) : Type 0 where
  pub blind : IsBlind view
  pub flush : (e : ℕ) (p : RawRequestParam) (h : History) → view (ep_flush_nbx e p ∷ h) ≡ view h
  pub modify : (e : ℕ) (p : RawEpParams) (h : History) → view (ep_modify_nb e p ∷ h) ≡ view h
  pub query : (e mask : ℕ) (h : History) → view (ep_query e mask ∷ h) ≡ view h
  pub evaluate : (e size : ℕ) (h : History) → view (ep_evaluate_perf e size ∷ h) ≡ view h
  pub send :
      (e i header header_len buf len : ℕ) (p : RawRequestParam) (h : History)
      → view (am_send_nbx e i header header_len buf len p ∷ h) ≡ view h
  pub put :
      (e buf len remote_addr k : ℕ) (p : RawRequestParam) (h : History)
      → view (put_nbx e buf len remote_addr k p ∷ h) ≡ view h
  pub get :
      (e buf len remote_addr k : ℕ) (p : RawRequestParam) (h : History)
      → view (get_nbx e buf len remote_addr k p ∷ h) ≡ view h
  pub atomic :
      (e : ℕ) (op : RawAtomicOp) (operand : List ℕ) (count remote_addr k : ℕ) (p : RawRequestParam)
      (h : History)
      → view (atomic_op_nbx e op operand count remote_addr k p ∷ h) ≡ view h

module _ {X : Type 0} {view : History → X} (quiet : IsQuiet view) (u : Ucx) (ep : Ep)
    (w : Worker) where
  settle-IsQuiet :
      (fate : Fate) (r : Result (Option Request)) (h : History)
      → view (settle fate w r u h).1 ≡ view h
  unfolding settle
  settle-IsQuiet fate (err e) h = refl
  settle-IsQuiet fate (ok none) h = refl
  settle-IsQuiet awaited (ok (some r)) h =
      drop-IsBlind quiet.blind u w r _ ∙ wait_request-IsBlind quiet.blind u w r h
  settle-IsQuiet dropped (ok (some r)) h = drop-IsBlind quiet.blind u w r h

  use_key-IsQuiet :
      (x : KeyUse) (k : RemoteKey) (h : History) → view (use_key x ep k u h).1 ≡ view h
  unfolding use_key Ops.rma_put Ops.rma_get
  use_key-IsQuiet (puts buf len remote_addr param) k h = quiet.put _ _ _ _ _ _ h
  use_key-IsQuiet (gets buf len remote_addr param) k h = quiet.get _ _ _ _ _ _ h
  use_key-IsQuiet (posts x remote_addr param) k h =
      rw (method_lem x ep remote_addr k param u h) (quiet.atomic _ _ _ _ _ _ _ h)

  pub use_all-IsQuiet :
      (xs : List (KeyUse × Fate)) (k : RemoteKey) (h : History)
      → view (use_all xs ep w k u h).1 ≡ view h
  unfolding use_all
  use_all-IsQuiet [] k h = refl
  use_all-IsQuiet ((x, fate) ∷ xs) k h =
      use_all-IsQuiet xs k _ ∙ settle-IsQuiet fate _ _ ∙ use_key-IsQuiet x k h

  -- With what a key's scope does left open.
  act-IsQuiet :
      ((buffer : List ℕ) (xs : List (KeyUse × Fate)) (h : History)
        → view (act (with_key buffer xs) ep w u h).1 ≡ view h)
      → (x : Action) (h : History) → view (act x ep w u h).1 ≡ view h
  unfolding act Ep.flush Ep.modify Query.query Query.evaluate_perf Am.am_send Worker.progress
  act-IsQuiet scope (flushes param fate) h = settle-IsQuiet fate _ _ ∙ quiet.flush _ _ h
  act-IsQuiet scope (modifies params fate) h = settle-IsQuiet fate _ _ ∙ quiet.modify _ _ h
  act-IsQuiet scope (sends_am i header header_len buf len param fate) h =
      settle-IsQuiet fate _ _ ∙ quiet.send _ _ _ _ _ _ _ h
  act-IsQuiet scope (queries mask) h = quiet.query _ _ h
  act-IsQuiet scope (evaluates size) h = quiet.evaluate _ _ h
  act-IsQuiet scope progresses h = quiet.blind.progress w.handle h
  act-IsQuiet scope (with_key buffer xs) h = scope buffer xs h

  pub run-IsQuiet :
      ((buffer : List ℕ) (xs : List (KeyUse × Fate)) (h : History)
        → view (act (with_key buffer xs) ep w u h).1 ≡ view h)
      → (xs : List Action) (h : History) → view (run xs ep w u h).1 ≡ view h
  unfolding run
  run-IsQuiet scope [] h = refl
  run-IsQuiet scope (x ∷ xs) h = run-IsQuiet scope xs _ ∙ act-IsQuiet scope x h
