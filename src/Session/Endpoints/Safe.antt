-- ===== src/Session/Endpoints/Safe.antt =====
-- What UCX has of a worker's endpoints and keys, in whatever order the worker and its endpoints go.
use ucx_rs.Base.{ℕ, ◌≡◌, ◌≢◌, refl, ◌∙◌, true, some, List, [], none, ap}
use ucx_rs.Ffi.{History, Ucx, M, flag, err_invalid_param}
use ucx_rs.Status.{err}
use ucx_rs.Worker.{Worker}
use ucx_rs.Worker
use ucx_rs.Worker.Teardown.{drop-Torn, flag-drop}
use ucx_rs.Ep.{Ep}
use ucx_rs.Ep
use ucx_rs.Rma.Key.{RemoteKey}
use ucx_rs.Rma.Key
use ucx_rs.Session.Endpoints.{Transfer, transfer_by, live}
use ucx_rs.Rma.Key.Handles.{GivesKeys}
use ucx_rs.Session.Endpoints.Steps.{World, Reach, start, later}
use ucx_rs.Session.Endpoints.Keys.{
  kept, Torn-kept, transfer_by-kept, rkey_slice-kept, drop-kept, compare-over,
}
use ucx_rs.Session.Endpoints.Sound.{Sound, running, IsIdle, Step-Sound}
use ucx_rs.Session.Endpoints.Keyed.{Keyed, keyed, SparesKeys, Step-Keyed}

-- A program gives UCX no endpoint and no key to end or to use that UCX no longer has, provided that
-- it does the following and no more. While a worker is there, in any order: endpoints are opened,
-- dropped, destroyed, disconnected, and closed with this or any other worker; they flush, are
-- modified and queried, send, receive, put, get and do atomic operations; and keys are unpacked,
-- used, compared and dropped. Then the worker is dropped. After that, in any order: endpoints are
-- dropped, destroyed and disconnected, and keys are compared. At any time anything else may happen
-- that leaves the flag of the worker, its endpoints and its keys alone. While the worker is there,
-- UCX has exactly the endpoints and the keys that the program has; once it is dropped UCX has none.
-- The worker starts with its flag up and with no endpoint and no key. It is assumed that UCX never
-- answers an unpacking with success and a null key.
pub Reach-Sound :
    (u : Ucx) (w : Worker) (others : ℕ → M (Unit {0})) (h₀ : History)
    → IsIdle u w others
    → SparesKeys u w others
    → GivesKeys u
    → flag w.alive h₀ ≡ true
    → live u w h₀ ≡ some []
    → kept u w h₀ ≡ some []
    → {s : World} → Reach u w others h₀ s
    → Sound u w s × Keyed u w s
Reach-Sound u w others h₀ idle spares gives up no_ep no_key start =
    (running [] [] [] tt up no_ep (λ q. refl), keyed [] [] [] tt no_key (λ q. refl))
Reach-Sound u w others h₀ idle spares gives up no_ep no_key (later r step) =
    let (sound, keys) = Reach-Sound u w others h₀ idle spares gives up no_ep no_key r in
    (Step-Sound u w others idle step sound, Step-Keyed u w others spares gives step sound keys)

-- After the drop of its worker a remote key is compared with any key, on any worker, without a call
-- of UCX; but a pointer from it, a transfer with it and its drop give UCX a key that it no longer
-- has: `RemoteKey::drop` calls UCX also then, where the drop of an endpoint does not.
pub key_after_worker :
    (u : Ucx) (w v : Worker) (key other : RemoteKey) (ep : Ep) (h : History) (rs : List ℕ)
    → key.worker_alive ≡ w.alive
    → key.handle ≢ 0
    → kept u w h ≡ some rs
    → let gone_by = (Worker.drop w u h).1 in
      (Key.compare key other v u gone_by ≡ (err err_invalid_param, gone_by))
      × (kept u w gone_by ≡ some [])
      × (kept u w (Key.drop key u gone_by).1 ≡ none)
      × ((remote_addr len : ℕ) → kept u w (Key.rkey_slice key remote_addr len u gone_by).1 ≡ none)
      × ((t : Transfer) → kept u w (transfer_by t ep key u gone_by).1 ≡ none)
key_after_worker u w v key other ep h rs own ne k =
    let none_left = Torn-kept u w (drop-Torn w u h) k in
    (
      compare-over u key other v _
          (ap (λ (a : ℕ). flag a (Worker.drop w u h).1) own ∙ flag-drop w u h),
      none_left,
      drop-kept u w key _ ne none_left,
      λ remote_addr len. rkey_slice-kept u w key remote_addr len _ none_left,
      λ t. transfer_by-kept u w t ep key _ none_left,
    )
