-- ===== src/Session/Endpoints.antt =====
-- A worker and the endpoints made from it, in a program that ends them in any order. An endpoint
-- does not borrow its worker, so it may outlive it: `Ep::drop`, `Ep::destroy` and
-- `Ep::disconnect_nb` of src/ep/mod.rs then rely on the flag that the drop of the worker of
-- src/worker/worker.rs clears. A remote key of src/rma/remote_key.rs is unpacked for an endpoint,
-- belongs to its worker as well, and may be dropped at any time.
pub mod Counting
pub mod Effects
pub mod Keys
pub mod Steps
pub mod Sound
pub mod Keyed
pub mod Safe
use ucx_rs.Base.{
  count, strike, ℕ, ◌≡◌, Bool, true, false, Option, none, some, List, [], ◌∷◌, ◌++◌, ◌==◌,
  if◌then◌else◌,
}
use ucx_rs.Ffi.{
  Effect, History, Ucx, M, pure, ◌>>=◌, ep_create, ep_close_nbx, ep_destroy, disconnect_nb,
  worker_destroy, ep_flush_nbx, ep_modify_nb, ep_query, tag_send_nbx, am_send_nbx, put_nbx, get_nbx,
  RawRequestParam, tag_send_sync_nbx, stream_send_nbx, stream_recv_nbx, stream_recv_data_nb,
  ep_evaluate_perf, ep_rkey_unpack, atomic_op_nbx,
}
use ucx_rs.Status.{Status, Request, Result, ok, err, status_to_result, status_ptr_to_result}
use ucx_rs.Worker.{Worker}
use ucx_rs.Worker
use ucx_rs.Ep.{Ep}
use ucx_rs.Ep
use ucx_rs.Ep.Params.{Params}
use ucx_rs.Ep.ModifyParams.{ModifyParams as EpModifyParams}
use ucx_rs.Ep.Query
use ucx_rs.Tag
use ucx_rs.Stream
use ucx_rs.Am
use ucx_rs.Rma.Key.{RemoteKey}
use ucx_rs.Rma.Key
use ucx_rs.Rma.Ops
use ucx_rs.Rma.Ops.Posting.{Amo, Fetch, method, fetching}

abbrev pub acquire : Result (Unit {0}) → ℕ → List ℕ → Option (List ℕ)
acquire (ok _) e rs = some (e ∷ rs)
acquire (err _) e rs = some rs

abbrev pub give_up : Result (Option Request) → ℕ → List ℕ → Option (List ℕ)
give_up (ok _) e rs = strike e rs
give_up (err _) e rs = some rs

-- UCX is asked to use an endpoint, which it must have.
abbrev pub needs : ℕ → List ℕ → Option (List ℕ)
needs e rs = if count e rs == 0 then none else some rs

module _ (u : Ucx) (w : Worker) where
  -- The endpoints of the worker that UCX has, as one effect changes them. UCX destroys them with
  -- the worker.
  abbrev pub entry : History → Effect → List ℕ → Option (List ℕ)
  entry h (ep_create v p) rs =
      if v == w.handle
      then acquire (status_to_result (u.status h (ep_create v p))) (u.out h (ep_create v p)) rs
      else some rs
  entry h (ep_close_nbx e p) rs = strike e rs
  entry h (ep_destroy e) rs = strike e rs
  entry h (disconnect_nb e) rs = give_up (status_ptr_to_result (u.word h (disconnect_nb e))) e rs
  entry h (ep_flush_nbx e p) rs = needs e rs
  entry h (ep_modify_nb e p) rs = needs e rs
  entry h (ep_query e mask) rs = needs e rs
  entry h (tag_send_nbx e buf len tag p) rs = needs e rs
  entry h (am_send_nbx e i header header_len buf len p) rs = needs e rs
  entry h (put_nbx e buf len remote_addr key p) rs = needs e rs
  entry h (get_nbx e buf len remote_addr key p) rs = needs e rs
  entry h (atomic_op_nbx e op operand count remote_addr key p) rs = needs e rs
  entry h (tag_send_sync_nbx e buf len tag) rs = needs e rs
  entry h (stream_send_nbx e buf len p) rs = needs e rs
  entry h (stream_recv_nbx e buf len p) rs = needs e rs
  entry h (stream_recv_data_nb e) rs = needs e rs
  entry h (ep_evaluate_perf e size) rs = needs e rs
  entry h (ep_rkey_unpack e buf) rs = needs e rs
  entry h (worker_destroy v) rs = if v == w.handle then some [] else some rs
  entry h _ rs = some rs

  abbrev pub enter : History → Effect → Option (List ℕ) → Option (List ℕ)
  enter h e none = none
  enter h e (some rs) = entry h e rs

  -- `none` once UCX was asked to end or to use an endpoint that it no longer had.
  unfoldable pub live : History → Option (List ℕ)
  live [] = some []
  live (e ∷ h) = enter h e (live h)

-- The ways in which an endpoint ends that need no worker.
pub data Ending : Type 0 where
  drops destroys disconnects : Ending

unfoldable pub end_by : Ending → Ep → M (Unit {0})
end_by drops ep = Ep.drop ep
end_by destroys ep = Ep.destroy ep
end_by disconnects ep = Ep.disconnect ep >>= λ r. pure tt

-- What can be asked of an endpoint without a key. A send or receive that is guarded is given the
-- worker that its guard progresses.
pub data Call : Type 0 where
  flushes : RawRequestParam → Call
  modifies : EpModifyParams → Call
  queries evaluates : ℕ → Call
  sends_tag : Worker → ℕ → ℕ → ℕ → RawRequestParam → Call
  sends_sync : ℕ → ℕ → ℕ → Call
  sends_am : ℕ → ℕ → ℕ → ℕ → ℕ → RawRequestParam → Call
  sends_stream receives_stream : Worker → ℕ → ℕ → RawRequestParam → Call
  receives_data : Call

abbrev forget : {A : Type 0} → M A → M (Unit {0})
forget m = m >>= λ _. pure tt

unfoldable pub call_by : Call → Ep → M (Unit {0})
call_by (flushes param) ep = forget (Ep.flush ep param)
call_by (modifies params) ep = forget (Ep.modify ep params)
call_by (queries mask) ep = forget (Query.query ep mask)
call_by (evaluates size) ep = forget (Query.evaluate_perf ep size)
call_by (sends_tag v buf len tag param) ep = forget (Tag.tag_send ep v buf len tag param)
call_by (sends_sync buf len tag) ep = forget (Tag.tag_send_sync ep buf len tag)
call_by (sends_am i header header_len buf len param) ep =
    forget (Am.am_send ep i header header_len buf len param)
call_by (sends_stream v buf len param) ep = forget (Stream.stream_send ep v buf len param)
call_by (receives_stream v buf len param) ep = forget (Stream.stream_recv ep v buf len param)
call_by receives_data ep = forget (Stream.stream_recv_data ep)

-- What an endpoint and a key do together. The guard of a fetching operation has a worker, too.
pub data Transfer : Type 0 where
  puts gets : ℕ → ℕ → ℕ → RawRequestParam → Transfer
  posts : Amo → ℕ → RawRequestParam → Transfer
  fetches : Fetch → Worker → ℕ → ℕ → Transfer

unfoldable pub transfer_by : Transfer → Ep → RemoteKey → M (Unit {0})
transfer_by (puts buf len remote_addr param) ep key =
    forget (Ops.rma_put ep buf len remote_addr key param)
transfer_by (gets buf len remote_addr param) ep key =
    forget (Ops.rma_get ep buf len remote_addr key param)
transfer_by (posts x remote_addr param) ep key = forget (method x ep remote_addr key param)
transfer_by (fetches x v remote_addr reply) ep key = forget (fetching x ep v remote_addr key reply)
