-- ===== src/Tests/Builders.antt =====
-- The parameter builders, at concrete chains of setters.
use ucx_rs.Base.{ℕ, ◌≡◌, refl, none, List, [], ◌∷◌, bit, ◌&&◌, not, ◌==◌, if◌then◌else◌}
use ucx_rs.Ffi.{call, worker_signal, pos, err_invalid_param}
use ucx_rs.Status.{err}
use ucx_rs.Masked.{chain, called, left, nul_free}
use ucx_rs.Context.{Config, init}
use ucx_rs.Context
use ucx_rs.Context.Opening.{features_of, shared_of, new-chain}
use ucx_rs.Ep
use ucx_rs.Worker
use ucx_rs.Ep.Creating.{created, build_again}
use ucx_rs.ThreadMode.{multi}
use ucx_rs.ErrorHandlerMode.{peer}
use ucx_rs.Session.{session}
use ucx_rs.Session.Order.{Leaves, session-Leaves}
use ucx_rs.Request.Params as RequestParams
use ucx_rs.Request.Params.Mask
use ucx_rs.Tests.{ucx, worker}

-- Features twice, a name, and shared workers.
abbrev context_calls : List Context.Params.Chain.Setter
context_calls =
    Context.Params.Chain.sets_features 1
    ∷ Context.Params.Chain.sets_name (97 ∷ [])
    ∷ Context.Params.Chain.sets_mt_workers_shared (pos 1)
    ∷ Context.Params.Chain.sets_features 64
    ∷ []

abbrev context_builder : Context.Params.ParamsBuilder
context_builder = Context.Params.features 64 (
    Context.Params.mt_workers_shared (pos 1) (
      Context.Params.Chain.run (Context.Params.Chain.sets_name (97 ∷ []))
        (Context.Params.features 1 Context.Params.new)))

abbrev config : Config
config = record { handle = 24 }

new-chain_example : Context.new config (Context.Params.build context_builder).0 ucx [] ≡ (
    if not (features_of context_calls 0 == 0)
      && Context.Params.is_nonzero (shared_of context_calls (pos 0))
    then init config (Context.Params.build context_builder).0 ucx []
    else (err err_invalid_param, []))
unfolding chain nul_free
new-chain_example = new-chain config context_calls context_builder ucx [] refl

-- A thread mode, twice, and a name.
abbrev worker_calls : List Worker.Params.Chain.Setter
worker_calls =
    Worker.Params.Chain.sets_flags 1
    ∷ Worker.Params.Chain.sets_thread_mode multi
    ∷ Worker.Params.Chain.sets_name (98 ∷ [])
    ∷ []

abbrev worker_builder : Worker.Params.ParamsBuilder
worker_builder =
    Worker.Params.Chain.run (Worker.Params.Chain.sets_name (98 ∷ []))
      (Worker.Params.thread_mode multi (Worker.Params.flags 1 Worker.Params.new))

-- An error mode, a connection request and a name.
abbrev ep_calls : List Ep.Params.Chain.Setter
ep_calls =
    Ep.Params.Chain.sets_err_mode peer
    ∷ Ep.Params.Chain.sets_conn_request 400
    ∷ Ep.Params.Chain.sets_name (99 ∷ [])
    ∷ []

abbrev ep_builder : Ep.Params.ParamsBuilder
ep_builder =
    Ep.Params.Chain.run (Ep.Params.Chain.sets_name (99 ∷ []))
      (Ep.Params.conn_request 400 (Ep.Params.err_mode peer Ep.Params.new))

ep_params-chain_example :
    ((k : ℕ)
      → bit k (Ep.Params.build ep_builder).0.handle.field_mask
        ≡ called Ep.Params.Chain.layout k ep_calls)
    × ((f : Ep.Params.Chain.Field)
        → Ep.Params.Chain.look f (Ep.Params.build ep_builder).0.handle
          ≡ left Ep.Params.Chain.layout f ep_calls
              (Ep.Params.Chain.look f (Ep.Params.build Ep.Params.new).0.handle))
unfolding chain nul_free
ep_params-chain_example = Ep.Params.Chain.ep_params-chain ep_calls ep_builder refl

abbrev again : Ep.Params.Params
again = (Ep.Params.build (Ep.Params.build ep_builder).1).0

build_again_example :
    ((k : ℕ) → bit k again.handle.field_mask ≡ called Ep.Params.Chain.layout k ep_calls)
    × (again.handle.name ≡ none)
    × (again.conn_request ≡ none)
    × (Ep.create_ep worker again ucx []
        ≡ created worker (record (again.handle) { conn_request = 0 }) ucx [])
    × (Ep.new again worker ucx []
        ≡ created worker (record (again.handle) { conn_request = 400 }) ucx [])
unfolding chain nul_free
build_again_example = build_again ep_calls ep_builder worker ucx [] refl

-- The use of the endpoint signals the worker.
session-Leaves_example :
    Leaves
      (λ e w. call (worker_signal w.handle))
      (Ep.Params.build ep_builder).0
      (Worker.Params.build worker_builder).0.handle
      32
      ucx
      config
      (Context.Params.build context_builder).0
      []
      (session
        (λ e w. call (worker_signal w.handle))
        config
        (Context.Params.build context_builder).0
        (Worker.Params.build worker_builder).0.handle
        32
        (Ep.Params.build ep_builder).0
        ucx
        [])
session-Leaves_example =
    session-Leaves (λ e w. call (worker_signal w.handle)) config
      (Context.Params.build context_builder).0 (Worker.Params.build worker_builder).0.handle 32
      (Ep.Params.build ep_builder).0 ucx [] (λ e w h. refl)

-- The two flags that exclude each other, with another setter in between.
abbrev request_calls : List Mask.Setter
request_calls = Mask.no_imms ∷ Mask.sets_flags 3 ∷ Mask.forces ∷ []

request-chain_example : Mask.Ends request_calls (chain Mask.layout request_calls RequestParams.new)
request-chain_example = Mask.request-chain request_calls
