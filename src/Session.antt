-- ===== src/Session.antt =====
-- The wrappers of src/context.rs, src/worker/worker.rs and src/ep/mod.rs together: a scope that
-- opens a context, a worker and an endpoint, uses them, and leaves. What was opened goes out of
-- scope in the order of THREADING.md, the endpoint first and the context last, at the end and at
-- each `?`.
pub mod Order
pub mod Ledger
pub mod Balance
pub mod Endpoints
pub mod Programs
use ucx_rs.Base.{ℕ}
use ucx_rs.Ffi.{RawWorkerParams, M, pure, ◌>>=◌, ◌>>◌}
use ucx_rs.Status.{Result, ok, err}
use ucx_rs.Context.{Config, Context}
use ucx_rs.Context
use ucx_rs.Context.Params.{Params}
use ucx_rs.Worker.{Worker}
use ucx_rs.Worker
use ucx_rs.Ep.{Ep}
use ucx_rs.Ep
use ucx_rs.Ep.Params.{Params as EpParams}

module _ (body : Ep → Worker → M (Unit {0})) where
  abbrev pub leave_ep : Worker → Result Ep → M (Result (Unit {0}))
  leave_ep w (ok ep) = body ep w >> Ep.drop ep >> Worker.drop w >> pure (ok tt)
  leave_ep w (err e) = Worker.drop w >> pure (err e)

  abbrev pub leave_worker : EpParams → Context → Result Worker → M (Result (Unit {0}))
  leave_worker ep_params context (ok w) =
      Ep.create_ep w ep_params >>= leave_ep w >>= λ result. Context.drop context >> pure result
  leave_worker ep_params context (err e) = Context.drop context >> pure (err e)

  abbrev pub leave_context : RawWorkerParams → ℕ → EpParams → Result Context → M (Result (Unit {0}))
  leave_context worker_params alive ep_params (ok context) =
      Context.worker_create context worker_params alive >>= leave_worker ep_params context
  leave_context worker_params alive ep_params (err e) = pure (err e)

  -- The flag of the worker is made at `alive`.
  unfoldable pub session : Config → Params → RawWorkerParams → ℕ → EpParams → M (Result (Unit {0}))
  session config params worker_params alive ep_params =
      Context.new config params >>= leave_context worker_params alive ep_params
