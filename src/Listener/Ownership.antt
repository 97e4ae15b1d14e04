-- ===== src/Listener/Ownership.antt =====
-- The state of a listener is destroyed by its last owner.
use ucx_rs.Base.{ℕ, suc, zero, ◌≡◌, ◌≢◌, refl, sym, ap, ◌∙◌, Bool, true, false, ◌∷◌, arith}
use mathlib.Core.Path.{subst}
use ucx_rs.Ffi.{RawListenerParams, History, Ucx, listener_reject}
use ucx_rs.Listener.{
  ConnHandler, no_handler, handler, ListenerState, Kept, kept, not_kept, conn_trampoline,
  take_request, lives_on, reject, reject_owned, drop, state_drop, publish, unpublished, create,
  drop_arc, clone, call_handler,
}
use ucx_rs.Status.{Result, ok, err}
use ucx_rs.Worker.{Worker}
use ucx_rs.Listener.Steps.{
  World, Step, delivers, drops_listener, drops_request, rejects, rejects_owned, Steps, here, onward,
  one_more_if, times_destroyed, late_rejections, owners, Sound, Consistent,
}

module _ (p : ℕ) (not_null : p ≢ 0) (u : Ucx) where
  drop_arc-Sound :
      (n : ℕ) (s : ListenerState) (h : History)
      → Sound p (suc n) s h
      → Sound p n (drop_arc s u h).0 (drop_arc s u h).1
  unfolding state_drop
  drop_arc-Sound zero s h c = ground arith
  drop_arc-Sound (suc n) s h c = ground arith

  clone-Sound :
      (n : ℕ) (s : ListenerState) (h : History)
      → Sound p (suc n) s h
      → Sound p (suc (suc n)) (clone s) h
  clone-Sound n s h c = ground arith

  reject-Sound :
      (n request : ℕ) (s : ListenerState) (h : History)
      → Sound p (suc n) s h
      → Sound p (suc n) s (listener_reject s.handle request ∷ h)
  reject-Sound n request s h c = ground arith

  call_handler-Sound :
      (c : ConnHandler) (k : Kept) (n : ℕ) (s : ListenerState) (h : History)
      → Sound p (suc (suc n)) s h
      → Sound p
          (suc (one_more_if (lives_on c k) n))
          (call_handler c k s u h).0
          (call_handler c k s u h).1
  call_handler-Sound no_handler k n s h o = drop_arc-Sound (suc n) s h o
  call_handler-Sound (handler true) k n s h o = drop_arc-Sound (suc n) s h o
  call_handler-Sound (handler false) kept n s h o = o
  call_handler-Sound (handler false) not_kept n s h o = drop_arc-Sound (suc n) s h o

  -- An owner is there when the handle is not null.
  owned :
      (n : ℕ) (s : ListenerState) (h : History)
      → Sound p n s h
      → s.handle ≢ 0
      → (m : ℕ) × (n ≡ suc m)
  owned zero s h c live = absurd (live c.published)
  owned (suc m) s h c live = (m, refl)

  take_request-Sound :
      (k : Kept) (m : ℕ) (s : ListenerState) (h : History)
      → Sound p (suc m) s h
      → Sound p
          (one_more_if (lives_on s.conn_handler k) (suc m))
          (take_request k s u h).0
          (take_request k s u h).1
  unfolding take_request
  take_request-Sound k m s h c = drop_arc-Sound _ _ _ (
      call_handler-Sound s.conn_handler k (suc m) _ h
        (clone-Sound (suc m) _ h (clone-Sound m s h c)))

  reject_owned-Sound :
      (n request : ℕ) (s : ListenerState) (h : History)
      → Sound p (suc n) s h
      → Sound p n (reject_owned request s u h).0.1 (reject_owned request s u h).1
  unfolding reject_owned
  reject_owned-Sound n request s h c =
      drop_arc-Sound n s _ (ground (arith, reject-Sound n request s h c))

conn_trampoline-take_request :
    (address : ℕ) (k : Kept) (s : ListenerState)
    → address ≢ 0
    → conn_trampoline address k s ≡ take_request k s
unfolding conn_trampoline
conn_trampoline-take_request address k s ne = ground arith

one_more_if-suc : (b : Bool) (n : ℕ) → one_more_if b (suc n) ≡ suc (one_more_if b n)
one_more_if-suc true n = refl
one_more_if-suc false n = refl

one_more_if-swap :
    (b c : Bool) (n : ℕ) → one_more_if b (one_more_if c n) ≡ one_more_if c (one_more_if b n)
one_more_if-swap true true n = refl
one_more_if-swap true false n = refl
one_more_if-swap false true n = refl
one_more_if-swap false false n = refl

recount : {p n m : ℕ} {s : ListenerState} {h : History} → n ≡ m → Sound p n s h → Sound p m s h
recount {p} {s} {h} e c = subst (λ k. Sound p k s h) e c

module _ (p : ℕ) (not_null : p ≢ 0) (u : Ucx) where
  less_one :
      (w : World) (n : ℕ)
      → w.requests ≡ suc n
      → Consistent p w
      → Sound p (suc (one_more_if w.listening n)) w.state w.history
  less_one w n e c = recount (ap (one_more_if w.listening) e ∙ one_more_if-suc w.listening n) c

  delivers-Consistent :
      (w : World) (k : Kept)
      → w.state.handle ≢ 0
      → Consistent p w
      → Sound p
          (one_more_if w.listening (one_more_if (lives_on w.state.conn_handler k) w.requests))
          (take_request k w.state u w.history).0
          (take_request k w.state u w.history).1
  delivers-Consistent w k live c =
      let (m, e) = owned p not_null u (owners w) w.state w.history c live in
      recount
        (ap (one_more_if (lives_on w.state.conn_handler k)) (sym e)
          ∙ one_more_if-swap (lives_on w.state.conn_handler k) w.listening w.requests)
        (take_request-Sound p not_null u k m w.state w.history (recount e c))

  step-Consistent : {w w' : World} → Step u w w' → Consistent p w → Consistent p w'
  unfolding reject drop
  step-Consistent {w} (delivers address k ne live) c =
      rw (conn_trampoline-take_request address k w.state ne) (delivers-Consistent w k live c)
  step-Consistent {w} (drops_listener e) c =
      drop_arc-Sound p not_null u w.requests w.state w.history
        (recount (ap (λ b. one_more_if b w.requests) e) c)
  step-Consistent {w} (drops_request n e) c =
      drop_arc-Sound p not_null u _ w.state w.history (less_one w n e c)
  step-Consistent {w} (rejects n request e e') c =
      drop_arc-Sound p not_null u _ w.state _
        (reject-Sound p not_null u _ request w.state w.history (less_one w n e' c))
  step-Consistent {w} (rejects_owned n request e) c =
      reject_owned-Sound p not_null u _ request w.state w.history (less_one w n e c)

  Steps-Consistent : {w w' : World} → Steps u w w' → Consistent p w → Consistent p w'
  Steps-Consistent here c = c
  Steps-Consistent (onward ss x) c = step-Consistent x (Steps-Consistent ss c)

publish-ok :
    (s s' : ListenerState) (handle : ℕ) (r : Result (Unit {0}))
    → publish s handle r ≡ ok s'
    → s.strong ≡ s'.strong
publish-ok s s' handle (ok _) e = cc
publish-ok s s' handle (err x) e = cc

-- A world that starts with a listener as `create` returns it.
abbrev pub listening_world : ListenerState → History → World
listening_world s h = record { state = s; listening = true; requests = 0; history = h }

-- Once a listener has been created, and however deliveries, drops and rejections follow, UCX's
-- listener is destroyed once when the last of the listener and its requests is gone and not before,
-- no rejection is made at it after that, and the count of the shared state is the number of owners.
-- The handle is not null, and nothing was destroyed or rejected late at it before.
pub create-Sound :
    (c : ConnHandler) (wk : Worker) (params : RawListenerParams) (u : Ucx) (h : History)
    → (s : ListenerState) (w : World) → (create c wk params u h).0 ≡ ok s
    → s.handle ≢ 0
    → times_destroyed s.handle h ≡ 0
    → late_rejections s.handle h ≡ 0
    → Steps u (listening_world s (create c wk params u h).1) w
    → Sound s.handle (owners w) w.state w.history
unfolding create
create-Sound c wk params u h s w made not_null fresh orderly ss =
    Steps-Consistent s.handle not_null u ss (record {
      counted = sym (publish-ok (unpublished c) s _ _ made);
      published = refl;
      destroyed = fresh;
      orderly = orderly;
    })
