-- ===== src/Loopback.antt =====
-- src/tests.rs: a context, a worker and an endpoint that is connected to that worker itself, set up
-- as the unit tests do it. A refused step panics, and what was opened goes out of scope in the
-- reverse of the order in which it was declared.
pub mod Steps
pub mod Setup
use ucx_rs.Base.{
  ℕ, zero, suc, Bool, true, false, Option, none, some, List, [], ◌∷◌, bit_or, ◌-◌, ◌^◌,
}
use mathlib.Core.Option
use ucx_rs.Ffi.{pos, M, pure, ◌>>=◌, ◌>>◌}
use ucx_rs.Status.{Result, ok, err}
use ucx_rs.ThreadMode.{multi}
use ucx_rs.Context.{Config, Context, Configured, configured, rejected}
use ucx_rs.Context
use ucx_rs.Context.Params.{feature_am, feature_rma, feature_amo32, feature_amo64, feature_tag}
use ucx_rs.Context.Params as ContextParams
use ucx_rs.Worker.{Worker, WorkerAddress, RemoteWorkerAddress, to_vec, get_handle}
use ucx_rs.Worker
use ucx_rs.Worker.Params as WorkerParams
use ucx_rs.Ep.{Ep}
use ucx_rs.Ep
use ucx_rs.Ep.Params as EpParams

-- How the function ends, or that its loop has not ended within the given number of rounds.
pub data Outcome (A : Type 0) : Type 0 where
  done : A → Outcome A
  panicked unfinished : Outcome A

pub record CommsContext : Type 0 where
  pub ep : Ep
  pub worker : Worker
  pub context : Context

-- The fields go out of scope in the order of their declaration.
unfoldable pub drop : CommsContext → M (Unit {0})
drop c = Ep.drop c.ep >> Worker.drop c.worker >> Context.drop c.context

-- `My Awesome Test`
abbrev name : List ℕ
name = 77 ∷ 121 ∷ 32 ∷ 65 ∷ 119 ∷ 101 ∷ 115 ∷ 111 ∷ 109 ∷ 101 ∷ 32 ∷ 84 ∷ 101 ∷ 115 ∷ 116 ∷ []

abbrev features : ℕ
features =
    bit_or (bit_or (bit_or (bit_or feature_am feature_rma) feature_amo32) feature_amo64) feature_tag

-- `None` stands for the panic of the name's `expect`. The callbacks are at the given addresses.
abbrev pub context_params : ℕ → ℕ → Option ContextParams.Params
context_params init cleanup =
    Option.map
      (λ b.
        (ContextParams.build (
          ContextParams.estimated_num_ppn 2
            (ContextParams.estimated_num_eps 4 (ContextParams.tag_sender_mask (2 ^ 64 - 1) b)))).0)
      (ContextParams.name name (
        ContextParams.request_size 8 (
          ContextParams.request_cleanup cleanup (
            ContextParams.request_init init (
              ContextParams.mt_workers_shared (pos 1)
                (ContextParams.features features ContextParams.new))))))

abbrev pub worker_features : WorkerParams.Params
worker_features = (WorkerParams.build (WorkerParams.thread_mode multi WorkerParams.new)).0

abbrev pub ep_param : RemoteWorkerAddress → EpParams.Params
ep_param address = (EpParams.build (EpParams.address (get_handle address).0 EpParams.new)).0

-- `while progressed { progressed = worker.progress() }`, for a number of rounds.
abbrev go_on : M (Option (Unit {0})) → Bool → M (Option (Unit {0}))
go_on rest true = rest
go_on rest false = pure (some tt)

unfoldable pub drain : ℕ → Worker → M (Option (Unit {0}))
drain zero w = pure none
drain (suc n) w = Worker.progress w >>= go_on (drain n w)

abbrev pub drained : CommsContext → Option (Unit {0}) → Outcome CommsContext
drained c none = unfinished
drained c (some _) = done c

-- The flag of the worker is made at `alive`, and the copy of its address at `buffer`.
module _ (rounds alive buffer : ℕ) where
  abbrev pub connected : Context → Worker → WorkerAddress → Result Ep → M (Outcome CommsContext)
  connected context worker packed_addr (ok ep) = do
    Worker.WorkerAddress_drop packed_addr
    end ← drain rounds worker
    pure (drained (record { ep = ep; worker = worker; context = context }) end)
  connected context worker packed_addr (err e) =
      Worker.WorkerAddress_drop packed_addr
      >> Worker.drop worker
      >> Context.drop context
      >> pure panicked

  abbrev pub packed : Context → Worker → Result WorkerAddress → M (Outcome CommsContext)
  packed context worker (ok packed_addr) =
      Ep.create_ep worker (ep_param (Worker.RemoteWorkerAddress_new buffer (to_vec packed_addr)))
      >>= connected context worker packed_addr
  packed context worker (err e) = Worker.drop worker >> Context.drop context >> pure panicked

  abbrev pub started : Context → Result Worker → M (Outcome CommsContext)
  started context (ok worker) = Worker.pack_address worker >>= packed context worker
  started context (err e) = Context.drop context >> pure panicked

  -- The configuration is a temporary of the statement that opens the context.
  abbrev pub opened : Config → Result Context → M (Outcome CommsContext)
  opened config (ok context) =
      Context.Config_drop config
      >> Context.worker_create context worker_features.handle alive
      >>= started context
  opened config (err e) = Context.Config_drop config >> pure panicked

  abbrev pub configured_with : ContextParams.Params → Configured Config → M (Outcome CommsContext)
  configured_with params (configured config) = Context.new config params >>= opened config
  configured_with params (rejected e) = pure panicked

  unfoldable pub setup_default : ℕ → ℕ → M (Outcome CommsContext)
  setup_default init cleanup = elim (context_params init cleanup) [
    | none ↦ pure panicked
    | some params ↦ Context.read [] [] >>= configured_with params
  ]
