-- ===== src/Listener/Query.antt =====
-- src/listener.rs: the queries of a listener and of a connection request. A struct that UCX fills
-- in has one address, and the client's identifier as its member 0.
use ucx_rs.Base.{ℕ, Option, none, if◌then◌else◌}
use ucx_rs.Ffi.{
  M, pure, ◌>>=◌, call_status, last_member, last_storage, listener_query,
  conn_request_query as ffi_conn_request_query,
}
use ucx_rs.Status.{Result, map_ok, status_to_result}
use ucx_rs.SockAddr.{Storage, SocketAddr, from_storage}
use ucx_rs.Masked.{contains, then_some}
use ucx_rs.Listener.{ListenerState}

pub record ListenerAttr : Type 0 where
  pub sockaddr : Storage
  pub socket_addr : Option SocketAddr

-- The mask of the struct selects its one field.
unfoldable pub query : ListenerState → M (Result ListenerAttr)
query s = do
  status ← call_status (listener_query s.handle)
  storage ← last_storage 0
  pure (
      map_ok (λ _. record { sockaddr = storage; socket_addr = from_storage storage })
        (status_to_result status))

abbrev pub field_client_addr : ℕ
field_client_addr = 1

abbrev pub field_client_id : ℕ
field_client_id = 2

pub record ConnRequestAttr : Type 0 where
  pub client_address : Option SocketAddr
  pub client_id : Option ℕ

-- `ConnRequest::query` and `conn_request_query`.
unfoldable pub conn_request_query : ℕ → ℕ → M (Result ConnRequestAttr)
conn_request_query request fields = do
  status ← call_status (ffi_conn_request_query request fields)
  storage ← last_storage 0
  client_id ← last_member 0
  pure (
      map_ok
        (λ _. record {
          client_address = if contains fields field_client_addr then from_storage storage else none;
          client_id = then_some (contains fields field_client_id) client_id;
        })
        (status_to_result status))
