-- ===== src/Session/Programs/Held.antt =====
-- The ledger of a session in which a program uses the endpoint.
use ucx_rs.Base.{
  ℕ, ◌≡◌, refl, ◌∙◌, none, some, List, ◌∷◌, inl, inr, Bool-cases, Option-cases, ◌==◌, ◌≢◌, ==_iff,
}
use ucx_rs.Ffi.{RawWorkerParams, History, Ucx, Effect, flag, ep_rkey_unpack}
use ucx_rs.Status.{Result, ok, err, map_ok, status_to_result}
use ucx_rs.Context.{Config}
use ucx_rs.Context.Params.{Params}
use ucx_rs.Worker.{Worker}
use ucx_rs.Ep.{Ep}
use ucx_rs.Ep.Params.{Params as EpParams}
use ucx_rs.Rma.Key.{RemoteKey}
use ucx_rs.Rma.Key
use ucx_rs.Rma.Key.Handles.{malformed, asked, unpack-Unpacks, GivesKeys}
use ucx_rs.Session.{session}
use ucx_rs.Session.Ledger.{Resource, key, acquire, held, held-same, held-IsBlind, strike-head}
use ucx_rs.Session.Balance.{session-held}
use ucx_rs.Session.Programs.{Fate, KeyUse, in_scope, Action, with_key, act, run}
use ucx_rs.Session.Programs.Quiet.{IsQuiet, use_all-IsQuiet, run-IsQuiet}

flag-IsQuiet : (a : ℕ) → IsQuiet (flag a)
flag-IsQuiet a = record {
  blind = record { progress = λ w h. refl; check = λ p h. refl; free = λ p h. refl };
  flush = λ e p h. refl;
  modify = λ e p h. refl;
  query = λ e mask h. refl;
  evaluate = λ e size h. refl;
  send = λ e i header header_len buf len p h. refl;
  put = λ e buf len remote_addr k p h. refl;
  get = λ e buf len remote_addr k p h. refl;
  atomic = λ e op operand count remote_addr k p h. refl;
}

held-IsQuiet : (u : Ucx) → IsQuiet (held u)
held-IsQuiet u = record {
  blind = held-IsBlind u;
  flush = λ e p h. held-same u h _ (λ rs. refl);
  modify = λ e p h. held-same u h _ (λ rs. refl);
  query = λ e mask h. held-same u h _ (λ rs. refl);
  evaluate = λ e size h. held-same u h _ (λ rs. refl);
  send = λ e i header header_len buf len p h. held-same u h _ (λ rs. refl);
  put = λ e buf len remote_addr k p h. held-same u h _ (λ rs. refl);
  get = λ e buf len remote_addr k p h. held-same u h _ (λ rs. refl);
  atomic = λ e op operand count remote_addr k p h. held-same u h _ (λ rs. refl);
}

module _ (u : Ucx) (ep : Ep) (w : Worker) where
  drop-flag : (a : ℕ) (k : RemoteKey) (h : History) → flag a (Key.drop k u h).1 ≡ flag a h
  unfolding Key.drop
  drop-flag a k h = elim (Bool-cases (k.handle == 0)) [ inl q ↦ rw q | inr q ↦ rw q ]

  in_scope-flag :
      (a : ℕ) (xs : List (KeyUse × Fate)) (r : Result RemoteKey) (h : History)
      → flag a (in_scope xs ep w r u h).1 ≡ flag a h
  in_scope-flag a xs (ok k) h = drop-flag a k _ ∙ use_all-IsQuiet (flag-IsQuiet a) u ep w xs k h
  in_scope-flag a xs (err e) h = refl

  unpack-flag :
      (a : ℕ) (buffer : List ℕ) (h : History) → flag a (Key.unpack ep buffer u h).1 ≡ flag a h
  unpack-flag a buffer h = elim (unpack-Unpacks ep buffer u h) [
    | malformed e f q ↦ rw q
    | asked payload f q ↦ rw q
  ]

  run-flag : (a : ℕ) (xs : List Action) (h : History) → flag a (run xs ep w u h).1 ≡ flag a h
  unfolding act
  run-flag a = run-IsQuiet (flag-IsQuiet a) u ep w λ buffer xs h.
      in_scope-flag a xs (Key.unpack ep buffer u h).0 (Key.unpack ep buffer u h).1
      ∙ unpack-flag a buffer h

  held-none : (h : History) (e : Effect) → held u h ≡ none → held u (e ∷ h) ≡ none
  unfolding held
  held-none h e q = rw q refl

  drop-none : (k : RemoteKey) (h : History) → held u h ≡ none → held u (Key.drop k u h).1 ≡ none
  unfolding Key.drop
  drop-none k h q = elim (Bool-cases (k.handle == 0)) [
    | inl z ↦ rw z q
    | inr z ↦ rw z (held-none h _ q)
  ]

  -- A key that is made goes on the ledger, and its drop takes it off.
  drop-held :
      (k : RemoteKey) (h : History) (rs : List Resource)
      → k.handle ≢ 0
      → held u h ≡ some (key k.handle ∷ rs)
      → held u (Key.drop k u h).1 ≡ some rs
  unfolding Key.drop held
  drop-held k h rs ne q = elim (Bool-cases (k.handle == 0)) [
    | inl z ↦ absurd (ne ((==_iff k.handle 0).0 z))
    | inr z ↦ rw (z, q) (strike-head (key k.handle) rs)
  ]

  -- After an answer of UCX to an unpacking, which it gave at `h`.
  answered-held :
      (xs : List (KeyUse × Fate)) (n alive : ℕ) (a : Result (Unit {0})) (h : History)
      (rs : List Resource)
      → (a ≡ ok tt → n ≢ 0)
      → held u h ≡ acquire a (key n) rs
      → held u
          (in_scope xs ep w (map_ok (λ _. record { handle = n; worker_alive = alive }) a) u h).1
        ≡ some rs
  answered-held xs n alive (ok t) h rs good q =
      drop-held _ _ rs (good refl) (use_all-IsQuiet (held-IsQuiet u) u ep w xs _ h ∙ q)
  answered-held xs n alive (err e) h rs good q = q

  answered-none :
      (xs : List (KeyUse × Fate)) (n alive : ℕ) (a : Result (Unit {0})) (h : History)
      → held u h ≡ none
      → held u
          (in_scope xs ep w (map_ok (λ _. record { handle = n; worker_alive = alive }) a) u h).1
        ≡ none
  answered-none xs n alive (ok t) h q =
      drop-none _ _ (use_all-IsQuiet (held-IsQuiet u) u ep w xs _ h ∙ q)
  answered-none xs n alive (err e) h q = q

  with_key-held :
      (buffer : List ℕ) (xs : List (KeyUse × Fate)) (h : History)
      → GivesKeys u
      → held u (act (with_key buffer xs) ep w u h).1 ≡ held u h
  unfolding act held
  with_key-held buffer xs h gives = elim (unpack-Unpacks ep buffer u h) [
    | malformed e f q ↦ rw q refl
    | asked payload f q ↦ elim (Option-cases (held u h)) [
      | inl z ↦
          let call = ep_rkey_unpack ep.handle payload in
          rw (q, z)
            (answered-none xs (u.out h call) ep.worker_alive (status_to_result (u.status h call))
              (call ∷ h) (held-none h call z))
      | inr (rs, z) ↦
          rw (q, z)
            (answered-held xs _ ep.worker_alive _ (ep_rkey_unpack ep.handle payload ∷ h) rs
              (gives ep.handle payload h) (rw z refl))
    ]
  ]

  run-held : (xs : List Action) (h : History) → GivesKeys u → held u (run xs ep w u h).1 ≡ held u h
  run-held xs h gives =
      run-IsQuiet (held-IsQuiet u) u ep w (λ buffer ys h'. with_key-held buffer ys h' gives) xs h

-- A session whose program flushes, modifies and queries the endpoint, estimates times, sends active
-- messages, progresses the worker, and unpacks remote keys for puts, gets and atomic operations, in
-- any order and as often as it likes, holds nothing when it ends that it did not hold before,
-- whatever UCX answers: each context, worker, endpoint and remote key that it was given is given
-- back exactly once, also where a step is refused. Requests are dropped at once or after a wait,
-- and keys at the end of their scope. It is assumed that UCX never answers an unpacking with success
-- and a null key.
pub program-held :
    (xs : List Action) (config : Config) (params : Params) (worker_params : RawWorkerParams)
    (alive : ℕ) (ep_params : EpParams) (u : Ucx) (h : History) (rs : List Resource)
    → GivesKeys u
    → held u h ≡ some rs
    → held u (session (run xs) config params worker_params alive ep_params u h).1 ≡ some rs
program-held xs config params worker_params alive ep_params u h rs gives e =
    session-held (run xs) config params worker_params alive ep_params u h rs
      (λ ep w h'. run-flag u ep w w.alive xs h') (λ ep w h'. run-held u ep w xs h' gives) e
