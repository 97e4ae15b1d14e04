-- ===== src/Session/Endpoints/Effects.antt =====
-- What each operation does to the endpoints that UCX has of a worker.
use ucx_rs.Base.{
  strike, ℕ, ◌≡◌, refl, ◌∙◌, true, false, some, List, [], ◌∷◌, inl, inr, Option, Option-cases, ap,
  ==_refl, Bool-cases, ◌==◌,
}
use ucx_rs.Ffi.{History, Ucx, Effect, flag, disconnect_nb}
use ucx_rs.Status.{Result, ok, err, map_ok, Request, status_ptr_to_result}
use ucx_rs.Worker.{Worker}
use ucx_rs.Worker.Blind.{IsBlind, Flushed-IsBlind, Closes-IsBlind}
use ucx_rs.Worker.Teardown.{Torn, torn}
use ucx_rs.Ep.{Ep}
use ucx_rs.Ep
use ucx_rs.Ep.Params.{Params}
use ucx_rs.Ep.Closing.{close-Closes}
use ucx_rs.Ep.Teardown.{disconnected, teardown_alive, teardown_after_worker}
use ucx_rs.Ep.Query
use ucx_rs.Tag
use ucx_rs.Am
use ucx_rs.Stream
use ucx_rs.Rma.Key.{RemoteKey}
use ucx_rs.Rma.Key
use ucx_rs.Rma.Key.Handles.{malformed, asked, unpack-Unpacks}
use ucx_rs.Rma.Ops
use ucx_rs.Rma.Ops.Posting.{method_lem, fetching_lem, plain}
use ucx_rs.Request.Params.{fetch_params}
use ucx_rs.Session.Endpoints.{
  Call, flushes, Transfer, puts, gets, posts, fetches, transfer_by, call_by, needs, Ending, drops,
  destroys, disconnects, end_by, acquire, entry, live,
}

flag-IsBlind : (a : ℕ) → IsBlind (flag a)
flag-IsBlind a = record { progress = λ w h. refl; check = λ p h. refl; free = λ p h. refl }

-- The endpoint shares the worker's flag.
abbrev pub IsOf : Worker → Ep → Type 0
IsOf w ep = ep.worker_alive ≡ w.alive

module _ (u : Ucx) (w : Worker) where
  live-same :
      (h : History) (e : Effect)
      → ((rs : List ℕ) → entry u w h e rs ≡ some rs)
      → live u w (e ∷ h) ≡ live u w h
  unfolding live
  live-same h e idle = elim (Option-cases (live u w h)) [
    | inl q ↦ rw q
    | inr (rs, q) ↦ rw q (idle rs)
  ]

  pub live-IsBlind : IsBlind (live u w)
  live-IsBlind = record {
    progress = λ v h. live-same h _ (λ rs. refl);
    check = λ p h. live-same h _ (λ rs. refl);
    free = λ p h. live-same h _ (λ rs. refl);
  }

  abbrev pub joined : Result Ep → List ℕ → List ℕ
  joined (ok ep) rs = ep.handle ∷ rs
  joined (err e) rs = rs

  abbrev pub OfWorker : Result Ep → Type 0
  OfWorker (ok ep) = IsOf w ep
  OfWorker (err e) = Unit

  abbrev pub Fits : History → List ℕ → Result Ep × History → Type 0
  Fits h rs r =
      (live u w r.1 ≡ some (joined r.0 rs)) × (flag w.alive r.1 ≡ flag w.alive h) × OfWorker r.0

  answered-Fits :
      (h h' : History) (rs : List ℕ) (n : ℕ) (a : Result (Unit {0}))
      → live u w h' ≡ acquire a n rs
      → flag w.alive h' ≡ flag w.alive h
      → Fits h rs (map_ok (λ _. record { handle = n; worker_alive = w.alive }) a, h')
  answered-Fits h h' rs n (ok t) k f = (k, f, refl)
  answered-Fits h h' rs n (err e) k f = (k, f, tt)

  pub create_ep-Fits :
      (params : Params) (h : History) (rs : List ℕ)
      → live u w h ≡ some rs
      → Fits h rs (Ep.create_ep w params u h)
  unfolding Ep.create_ep Ep.new live
  create_ep-Fits params h rs k =
      answered-Fits h (Ep.create_ep w params u h).1 rs _ _ (rw (k, ==_refl w.handle) refl) refl

  disconnected-live :
      (ep : Ep) (h : History) {rs : List ℕ} (r : Result (Option Request))
      → live u w h ≡ some rs
      → status_ptr_to_result (u.word h (disconnect_nb ep.handle)) ≡ r
      → live u w (disconnected ep h r).1 ≡ strike ep.handle rs
  unfolding live
  disconnected-live ep h (ok o) k q = rw (k, q) refl
  disconnected-live ep h (err e) k q = rw (k, q) refl

  flag-disconnected :
      (a : ℕ) (ep : Ep) (h : History) (r : Result (Option Request))
      → flag a (disconnected ep h r).1 ≡ flag a h
  flag-disconnected a ep h (ok o) = refl
  flag-disconnected a ep h (err e) = refl

  pub end_by-live :
      (by : Ending) (ep : Ep) (h : History) {rs : List ℕ}
      → flag ep.worker_alive h ≡ true
      → live u w h ≡ some rs
      → (live u w (end_by by ep u h).1 ≡ strike ep.handle rs)
        × ((a : ℕ) → flag a (end_by by ep u h).1 ≡ flag a h)
  unfolding end_by live
  end_by-live drops ep h alive k = rw (teardown_alive ep u h alive).1 (rw k refl, λ a. refl)
  end_by-live destroys ep h alive k = rw (teardown_alive ep u h alive).0 (rw k refl, λ a. refl)
  end_by-live disconnects ep h alive k =
      rw (teardown_alive ep u h alive).2
        (disconnected-live ep h _ k refl, λ a. flag-disconnected a ep h _)

  pub end_by-over :
      (by : Ending) (ep : Ep) (h : History)
      → flag ep.worker_alive h ≡ false
      → (end_by by ep u h).1 ≡ h
  unfolding end_by
  end_by-over drops ep h dead =
      ap (λ (r : Unit {0} × History). r.1) (teardown_after_worker ep u h dead).2
  end_by-over destroys ep h dead =
      ap (λ (r : Unit {0} × History). r.1) (teardown_after_worker ep u h dead).0
  end_by-over disconnects ep h dead =
      ap (λ (r : Result (Option Request) × History). r.1) (teardown_after_worker ep u h dead).1

  pub Torn-live :
      {h h' : History} {rs : List ℕ} → Torn u w h h' → live u w h ≡ some rs → live u w h' ≡ some []
  unfolding live
  Torn-live (torn mid f q) k = rw (q, Flushed-IsBlind live-IsBlind u w f, k, ==_refl w.handle) refl

  pub close-live :
      (flags : ℕ) (v : Worker) (ep : Ep) (h : History) {rs : List ℕ}
      → live u w h ≡ some rs
      → (live u w (Ep.close ep v flags u h).1 ≡ strike ep.handle rs)
        × (flag w.alive (Ep.close ep v flags u h).1 ≡ flag w.alive h)
  unfolding live
  close-live flags v ep h k =
      let c = close-Closes ep v flags u h in
      (
        Closes-IsBlind live-IsBlind u v _ _ c ∙ rw k refl,
        Closes-IsBlind (flag-IsBlind w.alive) u v _ _ c,
      )

  -- Each call asks UCX once, for that endpoint.
  pub call_by-live :
      (c : Call) (ep : Ep) (h : History) {rs : List ℕ}
      → live u w h ≡ some rs
      → (live u w (call_by c ep u h).1 ≡ needs ep.handle rs)
        × ((a : ℕ) → flag a (call_by c ep u h).1 ≡ flag a h)
  unfolding call_by live Ep.flush Ep.modify Query.query Query.evaluate_perf Tag.tag_send
      Tag.tag_send_sync Am.am_send Stream.stream_send Stream.stream_recv Stream.stream_recv_data
  call_by-live (flushes param) ep h k = (rw k refl, λ a. refl)
  call_by-live _ ep h k = (rw k refl, λ a. refl)

  pub transfer_by-live :
      (t : Transfer) (ep : Ep) (key : RemoteKey) (h : History) {rs : List ℕ}
      → live u w h ≡ some rs
      → (live u w (transfer_by t ep key u h).1 ≡ needs ep.handle rs)
        × ((a : ℕ) → flag a (transfer_by t ep key u h).1 ≡ flag a h)
  unfolding transfer_by live Ops.rma_put Ops.rma_get
  transfer_by-live (puts buf len remote_addr param) ep key h k = (rw k refl, λ a. refl)
  transfer_by-live (gets buf len remote_addr param) ep key h k = (rw k refl, λ a. refl)
  transfer_by-live (posts x remote_addr param) ep key h k =
      rw (method_lem x ep remote_addr key param u h) (rw k refl, λ a. refl)
  transfer_by-live (fetches x v remote_addr reply) ep key h k =
      rw
        (
          (fetching_lem x ep v remote_addr key reply u h).0,
          method_lem (plain x) ep remote_addr key (fetch_params reply) u h,
        )
        (rw k refl, λ a. refl)

  -- What is done with keys leaves the endpoints and the flags alone.
  abbrev pub Idle : History → History → Type 0
  Idle h h' = (live u w h' ≡ live u w h) × ((a : ℕ) → flag a h' ≡ flag a h)

  pub unpack-Idle :
      (ep : Ep) (buffer : List ℕ) (h : History) {rs : List ℕ}
      → needs ep.handle rs ≡ some rs
      → live u w h ≡ some rs
      → Idle h (Key.unpack ep buffer u h).1
  unfolding live
  unpack-Idle ep buffer h needed k = elim (unpack-Unpacks ep buffer u h) [
    | malformed e f q ↦ rw q (refl, λ a. refl)
    | asked payload f q ↦ rw q (rw (k, needed) refl, λ a. refl)
  ]

  pub rkey_slice-Idle :
      (key : RemoteKey) (remote_addr len : ℕ) (h : History)
      → Idle h (Key.rkey_slice key remote_addr len u h).1
  unfolding Key.rkey_slice
  rkey_slice-Idle key remote_addr len h = (live-same h _ (λ rs. refl), λ a. refl)

  pub compare-Idle :
      (key other : RemoteKey) (v : Worker) (h : History) → Idle h (Key.compare key other v u h).1
  unfolding Key.compare
  compare-Idle key other v h =
      elim (Bool-cases
        (Key.refuses (flag key.worker_alive h) (flag other.worker_alive h) key other v)) [
          | inl e ↦ rw e (refl, λ a. refl)
          | inr e ↦ rw e (live-same h _ (λ rs. refl), λ a. refl)
        ]

  pub drop_key-Idle : (key : RemoteKey) (h : History) → Idle h (Key.drop key u h).1
  unfolding Key.drop
  drop_key-Idle key h = elim (Bool-cases (key.handle == 0)) [
    | inl e ↦ rw e (refl, λ a. refl)
    | inr e ↦ rw e (live-same h _ (λ rs. refl), λ a. refl)
  ]
