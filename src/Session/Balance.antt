-- ===== src/Session/Balance.antt =====
-- What the wrappers do to the ledger, and the ledger of a whole session.
use ucx_rs.Base.{ℕ, ◌≡◌, refl, ◌∙◌, ap, sym, some, List, ◌∷◌, inl, inr, Bool-cases}
use ucx_rs.Ffi.{RawWorkerParams, History, Ucx, M}
use ucx_rs.Status.{Result, ok, err, map_ok}
use ucx_rs.Context.{Config, Context, lacks_features, lacks_sharing}
use ucx_rs.Context
use ucx_rs.Context.Params.{Params}
use ucx_rs.Worker.{Worker}
use ucx_rs.Worker.Teardown.{Torn, torn}
use ucx_rs.Worker.Blind.{Flushed-IsBlind}
use ucx_rs.Ep.{Ep}
use ucx_rs.Ep.Params.{Params as EpParams}
use ucx_rs.Session.{session}
use ucx_rs.Session.Order.{
  KeepsFlag, LeavesWorker, no_ep, used, LeavesContext, no_worker, had_worker, Leaves, no_context,
  made_ep, asked_ep, had_context, session-Leaves,
}
use ucx_rs.Session.Ledger.{
  Resource, context, worker, endpoint, acquire, strike, strike-head, held, held-IsBlind,
}

-- Tearing a worker down gives back the worker, and nothing else.
pub held-Torn :
    (u : Ucx) (w : Worker) {h h' : History} {rs : List Resource}
    → Torn u w h h'
    → held u h ≡ some rs
    → held u h' ≡ strike (worker w.handle) rs
unfolding held
held-Torn u w {rs} (torn mid f q) e = rw (q, Flushed-IsBlind (held-IsBlind u) u w f, e) refl

-- What is held after a value was asked for that stands for a resource.
abbrev pub grown : {A : Type 0} → (A → Resource) → Result A → List Resource → List Resource
grown f (ok a) rs = f a ∷ rs
grown f (err e) rs = rs

pub acquire-grown :
    {A : Type 0} (g : Unit {0} → A) (f : A → Resource) (r : Result (Unit {0})) (rs : List Resource)
    → acquire r (f (g tt)) rs ≡ some (grown f (map_ok g r) rs)
acquire-grown g f (ok a) rs = refl
acquire-grown g f (err e) rs = refl

abbrev pub of_context : Context → Resource
of_context c = context c.handle

init-held :
    (config : Config) (params : Params) (u : Ucx) (h : History) (rs : List Resource)
    → held u h ≡ some rs
    → let r = Context.init config params u h in held u r.1 ≡ some (grown of_context r.0 rs)
unfolding held
init-held config params u h rs e = rw e (acquire-grown _ of_context _ rs)

pub new-held :
    (config : Config) (params : Params) (u : Ucx) (h : History) (rs : List Resource)
    → held u h ≡ some rs
    → let r = Context.new config params u h in held u r.1 ≡ some (grown of_context r.0 rs)
unfolding Context.new
new-held config params u h rs e = elim (Bool-cases (lacks_features params)) [
  | inl t ↦ rw (t, e)
  | inr t ↦ elim (Bool-cases (lacks_sharing params)) [
    | inl s ↦ rw (t, s, e)
    | inr s ↦ rw (t, s) (init-held config params u h rs e)
  ]
]

opened-held :
    (config : Config) (params : Params) (u : Ucx) (h : History) (rs : List Resource)
    {r : Result Context} {h' : History}
    → Context.new config params u h ≡ (r, h')
    → held u h ≡ some rs
    → held u h' ≡ some (grown of_context r rs)
opened-held config params u h rs q e =
    ap (λ (t : Result Context × History). held u t.1) (sym q)
    ∙ new-held config params u h rs e
    ∙ ap (λ (t : Result Context × History). some (grown of_context t.0 rs)) q

module _ (body : Ep → Worker → M (Unit {0})) (ep_params : EpParams) (u : Ucx)
    (neutral : (ep : Ep) (w : Worker) (h : History) → held u (body ep w u h).1 ≡ held u h) where
  -- The worker is given back, and the endpoint as well if there was one.
  LeavesWorker-held :
      (w : Worker) {h : History} {rs : List Resource} {r : Result (Unit {0}) × History}
      → LeavesWorker body ep_params u w h r
      → held u h ≡ some (worker w.handle ∷ rs)
      → held u r.1 ≡ some rs
  unfolding held
  LeavesWorker-held w {h} {rs} (no_ep e h' q t p) k =
      let asked : held u (asked_ep body ep_params u w h) ≡ some (worker w.handle ∷ rs) =
        rw (k, q) refl in
      rw p (held-Torn u w t asked ∙ strike-head (worker w.handle) rs)
  LeavesWorker-held w {h} {rs} (used h' q t p) k =
      let ep = made_ep body ep_params u w h in
      let asked : held u (asked_ep body ep_params u w h)
          ≡ some (endpoint ep.handle ∷ worker w.handle ∷ rs) =
        rw (k, q) refl in
      rw p (
        held-Torn u w {rs = worker w.handle ∷ rs} t (
          rw (neutral ep w (asked_ep body ep_params u w h), asked)
            (strike-head (endpoint ep.handle) (worker w.handle ∷ rs)))
        ∙ strike-head (worker w.handle) rs)

  LeavesContext-held :
      (worker_params : RawWorkerParams) (alive : ℕ) (c : Context) {h : History} {rs : List Resource}
      {r : Result (Unit {0}) × History}
      → LeavesContext body ep_params worker_params alive u c h r
      → held u h ≡ some (context c.handle ∷ rs)
      → held u r.1 ≡ some rs
  unfolding held
  LeavesContext-held worker_params alive c {h} {rs} (no_worker e q p) k =
      rw (p, k, q) (strike-head (context c.handle) rs)
  LeavesContext-held worker_params alive c {h} {rs} (had_worker end q l p) k =
      rw (p, LeavesWorker-held _ {rs = context c.handle ∷ rs} l (rw (k, q) refl))
        (strike-head (context c.handle) rs)

-- A session holds nothing when it ends that it did not hold before: whatever UCX answers, each
-- context, worker and endpoint that it was given is given back exactly once, also where a step is
-- refused. The use of the endpoint may do anything that leaves the ledger and the worker's flag as
-- they were.
pub session-held :
    (body : Ep → Worker → M (Unit {0})) (config : Config) (params : Params)
    (worker_params : RawWorkerParams) (alive : ℕ) (ep_params : EpParams) (u : Ucx) (h : History)
    (rs : List Resource)
    → KeepsFlag body ep_params u
    → ((ep : Ep) (w : Worker) (h' : History) → held u (body ep w u h').1 ≡ held u h')
    → held u h ≡ some rs
    → held u (session body config params worker_params alive ep_params u h).1 ≡ some rs
session-held body config params worker_params alive ep_params u h rs keeps neutral e =
    of_end (session-Leaves body config params worker_params alive ep_params u h keeps)
  where
    of_end :
        {r : Result (Unit {0}) × History}
        → Leaves body ep_params worker_params alive u config params h r
        → held u r.1 ≡ some rs
    of_end (no_context s h' q p) = rw p (opened-held config params u h rs q e)
    of_end (had_context c h' q l) =
        LeavesContext-held body ep_params u neutral worker_params alive c l
          (opened-held config params u h rs q e)
