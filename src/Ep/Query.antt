-- ===== src/Ep/Query.antt =====
-- src/ep/mod.rs: the queries of an endpoint. The members of `ucp_ep_attr` are the transports and
-- the user data, numbered from 0, and the local and the remote address; the bytes of the call are
-- those of the name. A time is the bits of its `f64`.
use ucx_rs.Base.{ℕ, Option, List, [], if◌then◌else◌}
use ucx_rs.Ffi.{
  M, pure, ◌>>=◌, call_status, last_bytes, last_member, last_storage, ep_query, ep_evaluate_perf,
}
use ucx_rs.Status.{Result, map_ok, status_to_result}
use ucx_rs.SockAddr.{Storage}
use ucx_rs.Masked.{contains, then_some}
use ucx_rs.Ep.{Ep}

-- `EpAttrFields`.
abbrev pub attr_name : ℕ
attr_name = 1

abbrev pub attr_local_sockaddr : ℕ
attr_local_sockaddr = 2

abbrev pub attr_remote_sockaddr : ℕ
attr_remote_sockaddr = 4

abbrev pub attr_transports : ℕ
attr_transports = 8

abbrev pub attr_user_data : ℕ
attr_user_data = 16

pub record EpAttr : Type 0 where
  pub name : List ℕ
  pub local_sockaddr : Option Storage
  pub remote_sockaddr : Option Storage
  pub transports : Option ℕ
  pub user_data : Option ℕ

unfoldable pub query : Ep → ℕ → M (Result EpAttr)
query ep mask = do
  status ← call_status (ep_query ep.handle mask)
  name ← last_bytes
  local ← last_storage 0
  remote ← last_storage 1
  transports ← last_member 0
  user_data ← last_member 1
  pure (
      map_ok
        (λ _. record {
          name = if contains mask attr_name then name else [];
          local_sockaddr = then_some (contains mask attr_local_sockaddr) local;
          remote_sockaddr = then_some (contains mask attr_remote_sockaddr) remote;
          transports = then_some (contains mask attr_transports) transports;
          user_data = then_some (contains mask attr_user_data) user_data;
        })
        (status_to_result status))

-- The masks of the two structs select the one field of each that is used.
unfoldable pub evaluate_perf : Ep → ℕ → M (Result ℕ)
evaluate_perf ep message_size = do
  status ← call_status (ep_evaluate_perf ep.handle message_size)
  estimated_time ← last_member 0
  pure (map_ok (λ _. estimated_time) (status_to_result status))
