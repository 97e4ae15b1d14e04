-- ===== src/Listener/Steps.antt =====
-- What can happen to a listener and its requests, one step after another.
use ucx_rs.Base.{ℕ, suc, ◌≡◌, ◌≢◌, Bool, true, false, [], ◌∷◌}
use ucx_rs.Base.{◌==◌, if◌then◌else◌, ltb, ◌&&◌}
use ucx_rs.Ffi.{History, Ucx, listener_destroy, listener_reject}
use ucx_rs.Listener.{ListenerState, Kept, conn_trampoline, lives_on, reject, reject_owned, drop}

-- The shared state, whether the listener still exists, the number of requests that do, and what
-- was done.
pub record World : Type 0 where
  pub state : ListenerState
  pub listening : Bool
  pub requests : ℕ
  pub history : History

abbrev pub one_more_if : Bool → ℕ → ℕ
one_more_if true n = suc n
one_more_if false n = n

-- What can happen next. UCX delivers a request only to a listener that has not been destroyed, with
-- the argument that it was created with, the address of the state;
-- owners are dropped once each.
pub data Step (u : Ucx) (w : World) : World → Type 0 where
  delivers :
      (address : ℕ) (k : Kept)
      → address ≢ 0
      → w.state.handle ≢ 0
      → Step u w (record {
        state = (conn_trampoline address k w.state u w.history).0;
        listening = w.listening;
        requests = one_more_if (lives_on w.state.conn_handler k) w.requests;
        history = (conn_trampoline address k w.state u w.history).1;
      })
  drops_listener :
      w.listening ≡ true
      → Step u w (record {
        state = (drop w.state u w.history).0;
        listening = false;
        requests = w.requests;
        history = (drop w.state u w.history).1;
      })
  drops_request :
      (n : ℕ)
      → w.requests ≡ suc n
      → Step u w (record {
        state = (drop w.state u w.history).0;
        listening = w.listening;
        requests = n;
        history = (drop w.state u w.history).1;
      })
  rejects :
      (n request : ℕ)
      → w.listening ≡ true
      → w.requests ≡ suc n
      → Step u w (record {
        state = (reject request w.state u w.history).0.1;
        listening = w.listening;
        requests = n;
        history = (reject request w.state u w.history).1;
      })
  rejects_owned :
      (n request : ℕ)
      → w.requests ≡ suc n
      → Step u w (record {
        state = (reject_owned request w.state u w.history).0.1;
        listening = w.listening;
        requests = n;
        history = (reject_owned request w.state u w.history).1;
      })

pub data Steps (u : Ucx) (w : World) : World → Type 0 where
  here : Steps u w w
  onward : {v v' : World} → Steps u w v → Step u v v' → Steps u w v'

abbrev pub times_destroyed : ℕ → History → ℕ
times_destroyed p [] = 0
times_destroyed p (listener_destroy q ∷ h) =
    if p == q then suc (times_destroyed p h) else times_destroyed p h
times_destroyed p (_ ∷ h) = times_destroyed p h

-- Rejections at a listener that has been destroyed before.
abbrev pub late_rejections : ℕ → History → ℕ
late_rejections p [] = 0
late_rejections p (listener_reject q r ∷ h) =
    if p == q && ltb 0 (times_destroyed p h) then suc (late_rejections p h) else late_rejections p h
late_rejections p (_ ∷ h) = late_rejections p h

abbrev pub owners : World → ℕ
owners w = one_more_if w.listening w.requests

-- With `n` owners: the count of the `Arc` is `n`; the listener of UCX has been destroyed once when
-- there is no owner, and not before; and none was rejected at it after that.
pub record Sound (p n : ℕ) (s : ListenerState) (h : History) : Type 0 where
  pub counted : s.strong ≡ n
  pub published : s.handle ≡ (if n == 0 then 0 else p)
  pub destroyed : times_destroyed p h ≡ (if n == 0 then 1 else 0)
  pub orderly : late_rejections p h ≡ 0

-- The owners are counted by the `Arc`.
abbrev pub Consistent : ℕ → World → Type 0
Consistent p w = Sound p (owners w) w.state w.history
