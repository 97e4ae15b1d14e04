-- ===== src/Tests.antt =====
-- Test data: a UCX that answers "in progress" until the worker has been progressed, and handles of
-- one worker. The children apply the theorems to it.
mod Requests
mod Endpoints
mod Remote
mod Callbacks
mod Builders
mod Handles
mod Scenes
mod Lifetimes
mod Builds
mod Messages
use ucx_rs.SockAddr.{other_family}
use ucx_rs.Base.{ℕ, true, Option, some, List, [], ◌∷◌}
use ucx_rs.Ffi.{
  RawStatus, RawRequestParam, zeroed, Effect, History, Ucx, ucs_ok, ucs_in_progress,
  request_check_status, worker_progress, store_flag,
}
use ucx_rs.Worker.{Worker}
use ucx_rs.Ep.{Ep}
use ucx_rs.Ep.Params as EpParams
use ucx_rs.Rma.Key.{RemoteKey}

abbrev pub answer_to : History → Effect → RawStatus
answer_to (worker_progress w ∷ h) (request_check_status p) = ucs_ok
answer_to h (request_check_status p) = ucs_in_progress
answer_to h e = ucs_ok

abbrev pub ucx : Ucx
ucx = record {
  status = answer_to;
  word = λ h e. 4096;
  out = λ h e. 512;
  bytes = λ h e. 7 ∷ 8 ∷ 9 ∷ [];
  member = λ h e k. k;
  storage = λ h e k. other_family 0;
}

abbrev pub worker : Worker
worker = record { handle = 16; alive = 32 }

abbrev pub ep : Ep
ep = record { handle = 48; worker_alive = 32 }

abbrev pub key : RemoteKey
key = record { handle = 64; worker_alive = 32 }

abbrev pub other_key : RemoteKey
other_key = record { handle = 80; worker_alive = 32 }

-- A key of another worker.
abbrev pub foreign_key : RemoteKey
foreign_key = record { handle = 96; worker_alive = 33 }

abbrev pub started : History
started = store_flag 32 true ∷ []

abbrev pub param : RawRequestParam
param = zeroed

abbrev pub plain_ep : EpParams.Params
plain_ep = (EpParams.build (EpParams.address 128 EpParams.new)).0
