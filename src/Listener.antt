-- ===== src/Listener.antt =====
-- src/listener.rs: a listener, the connection requests that its callback is given, and the state in
-- an `Arc` that they share. The state is destroyed by the last of its owners. An operation takes
-- the shared state and gives back what becomes of it.
pub mod Steps
pub mod Ownership
pub mod Query
pub mod Params
use ucx_rs.Base.{ℕ, suc, ◌-◌, Bool, true, false}
use ucx_rs.Base.{◌==◌, if◌then◌else◌}
use Params.{ListenerParams}
use ucx_rs.SockAddr.{RawSockAddr}
use ucx_rs.Ffi.{
  RawListenerParams, M, pure, ◌>>=◌, ◌>>◌, call, call_status, last_out, listener_create,
  listener_destroy, listener_reject, err_invalid_param,
}
use ucx_rs.Status.{Result, ok, err, status_to_result}
use ucx_rs.Worker.{Worker}

-- `conn_handler`: no closure, or one in a mutex, which may be poisoned.
pub data ConnHandler : Type 0 where
  no_handler : ConnHandler
  handler : Bool → ConnHandler

-- The state, with the count of its `Arc`.
pub record ListenerState : Type 0 where
  pub handle : ℕ
  pub conn_handler : ConnHandler
  pub strong : ℕ

-- `Drop for ListenerState`.
unfoldable pub state_drop : ListenerState → M ListenerState
state_drop s =
    if s.handle == 0
    then pure s
    else (call (listener_destroy s.handle) >> pure (record s { handle = 0 }))

abbrev pub clone : ListenerState → ListenerState
clone s = record s { strong = suc s.strong }

-- The drop of one owner, and of the state with the last.
abbrev pub drop_arc : ListenerState → M ListenerState
drop_arc s =
    if s.strong == 1
    then state_drop (record s { strong = 0 })
    else pure (record s { strong = s.strong - 1 })

-- What a closure does with its request: it drops it, in a panic or not, or moves it out.
pub data Kept : Type 0 where
  kept not_kept : Kept

-- The call of the closure, which owns the request. A panic is caught while the guard is held, so
-- the mutex is not poisoned.
abbrev pub call_handler : ConnHandler → Kept → ListenerState → M ListenerState
call_handler no_handler k s = drop_arc s
call_handler (handler true) k s = drop_arc s
call_handler (handler false) kept s = pure s
call_handler (handler false) not_kept s = drop_arc s

-- Whether the request lives on after the call.
abbrev pub lives_on : ConnHandler → Kept → Bool
lives_on (handler false) kept = true
lives_on _ _ = false

-- One owner for the request and one for the duration of the call.
unfoldable pub take_request : Kept → ListenerState → M ListenerState
unfolding state_drop
take_request k s = do after ← call_handler s.conn_handler k (clone (clone s)); drop_arc after

-- `arg` is the address of the state.
unfoldable pub conn_trampoline : ℕ → Kept → ListenerState → M ListenerState
unfolding take_request
conn_trampoline arg k s = if arg == 0 then pure s else take_request k s

abbrev pub publish : ListenerState → ℕ → Result (Unit {0}) → Result ListenerState
publish s handle (ok _) = ok (record s { handle = handle })
publish s handle (err e) = err e

abbrev pub unpublished : ConnHandler → ListenerState
unpublished c = record { handle = 0; conn_handler = c; strong = 1 }

-- A listener with or without a closure. On a failure the state, whose handle is still null, is
-- dropped.
unfoldable pub create : ConnHandler → Worker → RawListenerParams → M (Result ListenerState)
create c w params = do
  status ← call_status (listener_create w.handle params)
  handle ← last_out
  pure (publish (unpublished c) handle (status_to_result status))

-- `Listener::create`, `create_with_params` and `create_with_conn_handler`. The callback of the last
-- is the trampoline, whose argument is the address of the state.
pub create_at : Worker → RawSockAddr → M (Result ListenerState)
create_at w sockaddr =
    create no_handler w (Params.build (Params.sockaddr sockaddr Params.new)).params

pub create_with_params : Worker → ListenerParams → M (Result ListenerState)
create_with_params w params = create no_handler w params.params

pub create_with_conn_handler : ℕ → Worker → RawSockAddr → ℕ → M (Result ListenerState)
create_with_conn_handler trampoline w sockaddr state =
    let params = Params.conn_handler trampoline state (Params.sockaddr sockaddr Params.new) in
    create (handler false) w (Params.build params).params

-- `Listener::reject`, for a request of the same listener: the request is consumed.
unfoldable pub reject : ℕ → ListenerState → M (Result (Unit {0}) × ListenerState)
unfolding state_drop
reject request s = do
  status ← call_status (listener_reject s.handle request)
  after ← drop_arc s
  pure (status_to_result status, after)

abbrev reject_live : ℕ → ListenerState → M (Result (Unit {0}))
reject_live request s = do
  status ← call_status (listener_reject s.handle request)
  pure (status_to_result status)

-- `ConnRequest::reject_owned`.
unfoldable pub reject_owned : ℕ → ListenerState → M (Result (Unit {0}) × ListenerState)
unfolding state_drop
reject_owned request s = do
  result ← if s.handle == 0 then pure (err err_invalid_param) else reject_live request s
  after ← drop_arc s
  pure (result, after)

-- `Listener::drop` is empty, and then its owner of the state goes; so with `ConnRequest`.
unfoldable pub drop : ListenerState → M ListenerState
unfolding state_drop
drop s = drop_arc s

pub is_active : ListenerState → Bool
is_active s = if s.handle == 0 then false else true

abbrev pub as_raw : ListenerState → ℕ
as_raw s = s.handle

-- `ConnRequest::from_raw`: a request and a state of its own, without a listener.
abbrev pub conn_request_from_raw : ℕ → ℕ × ListenerState
conn_request_from_raw handle = (handle, unpublished no_handler)
