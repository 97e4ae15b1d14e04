-- ===== src/Tests/Lifetimes.antt =====
-- A worker with an endpoint and a key, at concrete inputs.
use ucx_rs.Base.{◌∷◌, none, false, ◌≡◌, some, ℕ, refl, []}
use ucx_rs.Ffi.{History, pure, err_invalid_param}
use ucx_rs.Ep.{Ep}
use ucx_rs.Ep
use ucx_rs.Status.{ok, err, status_to_result}
use ucx_rs.Worker
use ucx_rs.Rma.Key.{RemoteKey}
use ucx_rs.Rma.Key
use ucx_rs.Session.Endpoints.{drops, end_by, live, Transfer, transfer_by}
use ucx_rs.Rma.Key.Handles.{GivesKeys}
use ucx_rs.Session.Endpoints.Steps.{Step, Reach}
use ucx_rs.Session.Endpoints.Keys.{kept}
use ucx_rs.Session.Endpoints.Sound.{Sound}
use ucx_rs.Session.Endpoints.Keyed.{Keyed}
use ucx_rs.Session.Endpoints.Safe.{Reach-Sound, key_after_worker}
use ucx_rs.Tests.{ucx, worker, started, plain_ep}

abbrev made_ep : Ep
made_ep = record { handle = 512; worker_alive = 32 }

-- An endpoint is opened and a key unpacked, which is dropped; the worker is dropped, and then the
-- endpoint is.
abbrev open_history : History
open_history = (Ep.create_ep worker plain_ep ucx started).1

abbrev made_key : RemoteKey
made_key = record { handle = 512; worker_alive = 32 }

abbrev key_history : History
key_history = (Key.unpack made_ep (0 ∷ 0 ∷ 0 ∷ 0 ∷ []) ucx open_history).1

abbrev keyless_history : History
keyless_history = (Key.drop made_key ucx key_history).1

abbrev left_history : History
left_history = (end_by drops made_ep ucx (Worker.drop worker ucx keyless_history).1).1

first_opened : Ep.create_ep worker plain_ep ucx started ≡ (ok made_ep, open_history)
unfolding Ep.create_ep Ep.new status_to_result
first_opened = refl

first_unpacked :
    Key.unpack made_ep (0 ∷ 0 ∷ 0 ∷ 0 ∷ []) ucx open_history ≡ (ok made_key, key_history)
unfolding Key.unpack Key.unframe_rkey_payload Ep.create_ep Ep.new status_to_result
first_unpacked = refl

outlives : Reach ucx worker (λ k. pure tt) started (false, [], [], left_history)
outlives =
    Reach.later
      (Reach.later
        (Reach.later
          (Reach.later
            (Reach.later Reach.start
              (Step.opened plain_ep [] [] made_ep {h = started} {h' = open_history} first_opened))
            (Step.unpacked [] made_ep [] (made_ep ∷ []) [] (0 ∷ 0 ∷ 0 ∷ 0 ∷ []) made_key
              {h = open_history} {h' = key_history} refl first_unpacked))
          (Step.key_dropped (made_ep ∷ []) [] made_key [] (made_key ∷ []) key_history refl))
        (Step.gone (made_ep ∷ []) [] keyless_history))
      (Step.ended drops false [] made_ep [] (made_ep ∷ []) []
        (Worker.drop worker ucx keyless_history).1 refl)

gives_keys : GivesKeys ucx
gives_keys e buffer h good = λ q. cc

Reach-Sound_example :
    Sound ucx worker (false, [], [], left_history) × Keyed ucx worker (false, [], [], left_history)
unfolding live kept
Reach-Sound_example =
    Reach-Sound ucx worker (λ k. pure tt) started (λ k h. (refl, refl)) (λ k h. refl) gives_keys
      refl refl refl outlives

key_after_worker_example :
    (Key.compare made_key made_key worker ucx (Worker.drop worker ucx key_history).1
      ≡ (err err_invalid_param, (Worker.drop worker ucx key_history).1))
    × (kept ucx worker (Worker.drop worker ucx key_history).1 ≡ some [])
    × (kept ucx worker (Key.drop made_key ucx (Worker.drop worker ucx key_history).1).1 ≡ none)
    × ((remote_addr len : ℕ)
        → kept ucx worker
            (Key.rkey_slice made_key remote_addr len ucx (Worker.drop worker ucx key_history).1).1
          ≡ none)
    × ((t : Transfer)
        → kept ucx worker
            (transfer_by t made_ep made_key ucx (Worker.drop worker ucx key_history).1).1
          ≡ none)
unfolding kept Key.unpack Key.unframe_rkey_payload Ep.create_ep Ep.new status_to_result
key_after_worker_example =
    key_after_worker ucx worker worker made_key made_key made_ep key_history (512 ∷ []) refl
      (λ q. cc) refl
