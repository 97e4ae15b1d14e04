-- ===== src/Ep.antt =====
-- src/ep/mod.rs: an endpoint, which shares the `alive` flag of its worker, and its four ways of
-- teardown. The children Params and
-- ModifyParams build what it is made and modified with. Messages to stderr are left out.
pub mod Closing
pub mod Teardown
pub mod Params
pub mod ModifyParams
pub mod Query
pub mod Creating
use ucx_rs.Base.{ℕ, Bool, true, false, Option, none, some, not, if◌then◌else◌}
use ucx_rs.Ffi.{
  RawRequestParam, zeroed, M, pure, ◌>>=◌, ◌>>◌, call, call_status, call_word, last_out, load_flag,
  ep_create, ep_destroy, disconnect_nb, ep_flush_nbx, ep_close_nbx, ep_modify_nb, err_timed_out,
}
use ucx_rs.Status.{Status, Result, ok, err, map_ok, Request, status_to_result, status_ptr_to_result}
use ucx_rs.Request
use Params.{Params as EpParams, conn_request_ptr}
use ModifyParams.{ModifyParams as EpModifyParams}
use ucx_rs.Worker.{Worker, Polled, finished, timed_out, failed, poll, max_rounds}

pub record Ep : Type 0 where
  pub handle : ℕ
  pub worker_alive : ℕ

unfoldable pub new : EpParams → Worker → M (Result Ep)
new ep_params w = do
  status ← call_status (ep_create w.handle ep_params.handle)
  ep ← last_out
  pure (map_ok (λ _. record { handle = ep; worker_alive = w.alive }) (status_to_result status))

-- `Worker::create_ep`: the pointer in the struct is that of the request which the parameters own.
unfoldable pub create_ep : Worker → EpParams → M (Result Ep)
unfolding new
create_ep w p =
    new (record p { handle = record (p.handle) { conn_request = conn_request_ptr p } }) w

unfoldable pub flush : Ep → RawRequestParam → M (Result (Option Request))
flush ep param = do ptr ← call_word (ep_flush_nbx ep.handle param); pure (status_ptr_to_result ptr)

unfoldable pub modify : Ep → EpModifyParams → M (Result (Option Request))
modify ep params = do
  ptr ← call_word (ep_modify_nb ep.handle params.handle)
  pure (status_ptr_to_result ptr)

-- `ManuallyDrop`: the endpoint's own drop does not run after `destroy`, `disconnect_nb` and
-- `close`.
unfoldable pub destroy : Ep → M (Unit {0})
destroy ep = do
  alive ← load_flag ep.worker_alive
  if alive then call (ep_destroy ep.handle) else pure tt

abbrev pub destroy_on_error : Ep → Result (Option Request) → M (Result (Option Request))
destroy_on_error ep (ok r) = pure (ok r)
destroy_on_error ep (err e) = call (ep_destroy ep.handle) >> pure (err e)

abbrev pub disconnect_alive : Ep → M (Result (Option Request))
disconnect_alive ep = do
  ptr ← call_word (disconnect_nb ep.handle)
  destroy_on_error ep (status_ptr_to_result ptr)

unfoldable pub disconnect : Ep → M (Result (Option Request))
disconnect ep = do
  alive ← load_flag ep.worker_alive
  if not alive then pure (ok none) else disconnect_alive ep

-- `forget` keeps the request that may be in flight.
abbrev pub finish_close : Request → Polled → M (Result (Unit {0}))
finish_close r finished = Request.free r >> pure (ok tt)
finish_close r (failed e) = pure (err e)
finish_close r timed_out = pure (err err_timed_out)

abbrev pub await_close : Worker → Result (Option Request) → M (Result (Unit {0}))
await_close w (err e) = pure (err e)
await_close w (ok none) = pure (ok tt)
await_close w (ok (some r)) = poll max_rounds r w >>= finish_close r

-- Only the field `flags` of the struct is set: its mask stays zero.
abbrev pub close_param : ℕ → RawRequestParam
close_param flags = record zeroed { flags = flags }

unfoldable pub close : Ep → Worker → ℕ → M (Result (Unit {0}))
unfolding Request.free
close ep w flags = do
  ptr ← call_word (ep_close_nbx ep.handle (close_param flags))
  await_close w (status_ptr_to_result ptr)

unfoldable pub drop : Ep → M (Unit {0})
drop ep = do
  alive ← load_flag ep.worker_alive
  if not alive then pure tt else (call_word (ep_close_nbx ep.handle zeroed) >> pure tt)
