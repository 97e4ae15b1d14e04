-- ===== src/Session/Programs.antt =====
-- What a program does with an endpoint inside its scope: operations of src/ep/mod.rs, src/am.rs and
-- src/rma/ep_ops.rs whose requests are dropped, at once or after a wait, and remote keys that are
-- unpacked, used and dropped.
pub mod Quiet
pub mod Held
use ucx_rs.Base.{
  ℕ, ◌≡◌, refl, ◌∙◌, true, Bool, false, Option, none, some, List, [], ◌∷◌, inl, inr, Bool-cases,
  Option-cases, ◌==◌, ◌≢◌, ap, sym, map, ==_iff,
}
use ucx_rs.Ffi.{
  RawRequestParam, RawWorkerParams, History, Ucx, Effect, M, pure, ◌>>=◌, ◌>>◌, flag, RawEpParams,
  RawAtomicOp, ep_flush_nbx, ep_modify_nb, ep_query, ep_evaluate_perf, am_send_nbx, put_nbx,
  get_nbx, atomic_op_nbx, ep_rkey_unpack, rkey_destroy,
}
use ucx_rs.Status.{Result, ok, err, map_ok, status_to_result, Request}
use ucx_rs.Request
use ucx_rs.Context.{Config}
use ucx_rs.Context.Params.{Params}
use ucx_rs.Worker.{Worker}
use ucx_rs.Worker
use ucx_rs.Worker.Blind.{IsBlind, wait_request-IsBlind, drop-IsBlind}
use ucx_rs.Ep.{Ep}
use ucx_rs.Ep
use ucx_rs.Ep.Params.{Params as EpParams}
use ucx_rs.Ep.ModifyParams.{ModifyParams}
use ucx_rs.Ep.Query
use ucx_rs.Am
use ucx_rs.Rma.Key.{RemoteKey}
use ucx_rs.Rma.Key
use ucx_rs.Rma.Key.Handles.{Unpacks, malformed, asked, unpack-Unpacks, GivesKeys}
use ucx_rs.Rma.Ops
use ucx_rs.Rma.Ops.Posting.{Amo, method, method_lem}
use ucx_rs.Session.{session}
use ucx_rs.Session.Ledger.{Resource, key, acquire, held, held-same, held-IsBlind, strike-head}
use ucx_rs.Session.Balance.{session-held}

-- What becomes of a request: it goes out of scope, after a wait or without one.
pub data Fate : Type 0 where
  awaited dropped : Fate

unfoldable pub settle : Fate → Worker → Result (Option Request) → M (Unit {0})
settle fate w (err e) = pure tt
settle fate w (ok none) = pure tt
settle awaited w (ok (some r)) = Worker.wait_request w r >> Request.drop r
settle dropped w (ok (some r)) = Request.drop r

-- What is done with a key.
pub data KeyUse : Type 0 where
  puts gets : ℕ → ℕ → ℕ → RawRequestParam → KeyUse
  posts : Amo → ℕ → RawRequestParam → KeyUse

unfoldable pub use_key : KeyUse → Ep → RemoteKey → M (Result (Option Request))
use_key (puts buf len remote_addr param) ep k = Ops.rma_put ep buf len remote_addr k param
use_key (gets buf len remote_addr param) ep k = Ops.rma_get ep buf len remote_addr k param
use_key (posts x remote_addr param) ep k = method x ep remote_addr k param

unfoldable pub use_all : List (KeyUse × Fate) → Ep → Worker → RemoteKey → M (Unit {0})
use_all [] ep w k = pure tt
use_all ((x, fate) ∷ xs) ep w k = use_key x ep k >>= settle fate w >> use_all xs ep w k

-- A key that was not unpacked is not used.
abbrev pub in_scope : List (KeyUse × Fate) → Ep → Worker → Result RemoteKey → M (Unit {0})
in_scope xs ep w (ok k) = use_all xs ep w k >> Key.drop k
in_scope xs ep w (err e) = pure tt

pub data Action : Type 0 where
  flushes : RawRequestParam → Fate → Action
  modifies : ModifyParams → Fate → Action
  sends_am : ℕ → ℕ → ℕ → ℕ → ℕ → RawRequestParam → Fate → Action
  queries evaluates : ℕ → Action
  progresses : Action
  with_key : List ℕ → List (KeyUse × Fate) → Action

unfoldable pub act : Action → Ep → Worker → M (Unit {0})
act (flushes param fate) ep w = Ep.flush ep param >>= settle fate w
act (modifies params fate) ep w = Ep.modify ep params >>= settle fate w
act (sends_am i header header_len buf len param fate) ep w =
    Am.am_send ep i header header_len buf len param >>= settle fate w
act (queries mask) ep w = Query.query ep mask >> pure tt
act (evaluates size) ep w = Query.evaluate_perf ep size >> pure tt
act progresses ep w = Worker.progress w >> pure tt
act (with_key buffer xs) ep w = Key.unpack ep buffer >>= in_scope xs ep w

unfoldable pub run : List Action → Ep → Worker → M (Unit {0})
run [] ep w = pure tt
run (x ∷ xs) ep w = act x ep w >> run xs ep w
