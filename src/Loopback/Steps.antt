-- ===== src/Loopback/Steps.antt =====
-- The steps of a set-up on the ledger.
use ucx_rs.Base.{
  ℕ, zero, suc, ◌≡◌, refl, ◌∙◌, true, Option, some, List, [], ◌∷◌, ltb, inl, inr, Bool-cases,
}
use ucx_rs.Ffi.{History, Ucx, zeroed, flag, worker_progress, ep_close_nbx, worker_release_address}
use ucx_rs.Status.{Result, ok, err}
use ucx_rs.Context.{Config, Context, Configured, configured, rejected, map_err}
use ucx_rs.Context
use ucx_rs.Worker.{Worker, WorkerAddress}
use ucx_rs.Masked.{nul_free}
use ucx_rs.Worker
use ucx_rs.Worker.Teardown.{drop-Torn}
use ucx_rs.Ep.{Ep}
use ucx_rs.Ep
use ucx_rs.Session.Ledger.{
  Resource, context, worker, address, endpoint, acquire, strike-head, held, held-IsBlind,
}
use ucx_rs.Session.Balance.{held-Torn}
use ucx_rs.Loopback.{Outcome, done, panicked, CommsContext, drain, drop}

-- Of at most `n` calls of progress from here on, one has nothing to do.
pub data Quiet (u : Ucx) (w : Worker) : ℕ → History → Type 0 where
  now : {n : ℕ} {h : History} → u.word h (worker_progress w.handle) ≡ 0 → Quiet u w (suc n) h
  soon : {n : ℕ} {h : History} → Quiet u w n (worker_progress w.handle ∷ h) → Quiet u w (suc n) h

-- The loop ends there, and leaves the ledger and the flags alone.
pub data Drains (u : Ucx) (h : History) (r : Option (Unit {0}) × History) : Type 0 where
  drains : r.0 ≡ some tt → held u r.1 ≡ held u h → ((a : ℕ) → flag a r.1 ≡ flag a h) → Drains u h r

pub drain-Drains :
    (u : Ucx) (w : Worker) (n : ℕ) (h : History) → Quiet u w n h → Drains u h (drain n w u h)
unfolding drain Worker.progress
drain-Drains u w zero h q = elim q [ ]
drain-Drains u w (suc n) h (now e) =
    rw e (drains refl ((held-IsBlind u).progress w.handle h) (λ a. refl))
drain-Drains u w (suc n) h (soon q) =
    elim (Bool-cases (ltb 0 (u.word h (worker_progress w.handle)))) [
      | inl more ↦ rw more (elim (drain-Drains u w n _ q) [
        | drains e k f ↦ drains e (k ∙ (held-IsBlind u).progress w.handle h) (λ a. f a ∙ refl)
      ])
      | inr none_left ↦
          rw none_left (drains refl ((held-IsBlind u).progress w.handle h) (λ a. refl))
    ]

-- A set-up that is open: it holds its three handles on top of what was held, and its drop gives
-- them back.
pub record IsOpen (u : Ucx) (rs : List Resource) (c : CommsContext) (h : History) : Type 0 where
  pub holds :
      held u h
      ≡ some (endpoint c.ep.handle ∷ worker c.worker.handle ∷ context c.context.handle ∷ rs)
  pub returns : held u (drop c u h).1 ≡ some rs

-- The two ends of a set-up.
pub data Sets (u : Ucx) (rs : List Resource) (r : Outcome CommsContext × History) : Type 0 where
  ready : (c : CommsContext) → r.0 ≡ done c → IsOpen u rs c r.1 → Sets u rs r
  failed : r.0 ≡ panicked → held u r.1 ≡ some rs → Sets u rs r

-- The ledger where a worker and its context are the last that were opened, once both are dropped.
pub held-dropped :
    (u : Ucx) (w : Worker) (c : Context) (h : History) {rs : List Resource}
    → held u h ≡ some (worker w.handle ∷ context c.handle ∷ rs)
    → held u (Context.drop c u (Worker.drop w u h).1).1 ≡ some rs
unfolding held Context.drop
held-dropped u w c h {rs} e =
    rw (held-Torn u w (drop-Torn w u h) e, strike-head (worker w.handle) (context c.handle ∷ rs))
      (strike-head (context c.handle) rs)

pub held-close :
    (u : Ucx) (ep : ℕ) (h : History) {rs : List Resource}
    → held u h ≡ some (endpoint ep ∷ rs)
    → held u (ep_close_nbx ep zeroed ∷ h) ≡ some rs
unfolding held
held-close u ep h {rs} e = rw e (strike-head (endpoint ep) rs)

pub opened_IsOpen :
    (u : Ucx) (c : CommsContext) (h : History) {rs : List Resource}
    → held u h
      ≡ some (endpoint c.ep.handle ∷ worker c.worker.handle ∷ context c.context.handle ∷ rs)
    → flag c.ep.worker_alive h ≡ true
    → IsOpen u rs c h
unfolding drop Ep.drop
opened_IsOpen u c h {rs} e alive = record {
  holds = e;
  returns = rw alive (held-dropped u c.worker c.context _ (held-close u c.ep.handle h e));
}

abbrev pub of_ep : Ep → Resource
of_ep ep = endpoint ep.handle

abbrev pub of_config : Config → Resource
of_config config = Resource.config config.handle

abbrev pub of_worker : Worker → Resource
of_worker w = worker w.handle

abbrev pub of_address : WorkerAddress → Resource
of_address a = address a.handle

pub held-release :
    (u : Ucx) (a : WorkerAddress) (h : History) {rs : List Resource}
    → held u h ≡ some (address a.handle ∷ rs)
    → held u (worker_release_address a.parent.handle a.handle ∷ h) ≡ some rs
unfolding held
held-release u a h {rs} e = rw e (strike-head (address a.handle) rs)

pub held-release_below :
    (u : Ucx) (a : WorkerAddress) (ep : ℕ) (h : History) {rs : List Resource}
    → held u h ≡ some (endpoint ep ∷ address a.handle ∷ rs)
    → held u (worker_release_address a.parent.handle a.handle ∷ h) ≡ some (endpoint ep ∷ rs)
unfolding held
held-release_below u a ep h {rs} e = rw (e, strike-head (address a.handle) rs) refl

abbrev pub with_config : Configured Config → List Resource → List Resource
with_config (configured config) rs = of_config config ∷ rs
with_config (rejected e) rs = rs

pub acquire-with_config :
    (config : Unit {0} → Config) (r : Result (Unit {0})) (rs : List Resource)
    → acquire r (of_config (config tt)) rs ≡ some (with_config (map_err config r) rs)
acquire-with_config config (ok t) rs = refl
acquire-with_config config (err e) rs = refl

pub read-held :
    (u : Ucx) (h : History) (rs : List Resource)
    → held u h ≡ some rs
    → let r = Context.read [] [] u h in held u r.1 ≡ some (with_config r.0 rs)
unfolding Context.read held nul_free
read-held u h rs e = rw e (acquire-with_config _ _ rs)
