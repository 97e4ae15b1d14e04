-- ===== src/Session/Endpoints/Keys.antt =====
-- The remote keys of a worker that UCX has, and what the wrappers do to them. UCX has a key until it
-- is destroyed, or its worker is: `RemoteKey::compare` of src/rma/remote_key.rs takes a key to be of
-- use only while the `alive` flag of its worker is up.
use ucx_rs.Base.{
  count, strike, ℕ, ◌≡◌, ◌≢◌, refl, ◌∙◌, false, Option, none, some, List, [], ◌∷◌, arith, inl, inr,
  Option-cases, Bool-cases, ◌==◌, if◌then◌else◌, ==_refl,
}
use ucx_rs.Ffi.{
  Effect, History, Ucx, flag, worker_destroy, ep_rkey_unpack, rkey_destroy, put_nbx, get_nbx,
  atomic_op_nbx, rkey_ptr, rkey_compare, disconnect_nb, err_invalid_param,
}
use ucx_rs.Status.{Result, ok, err, map_ok, Request, status_to_result}
use ucx_rs.Worker.{Worker}
use ucx_rs.Worker.Blind.{IsBlind, Flushed-IsBlind, Closes-IsBlind}
use ucx_rs.Worker.Teardown.{Torn, torn}
use ucx_rs.Ep.{Ep}
use ucx_rs.Ep
use ucx_rs.Ep.Params.{Params}
use ucx_rs.Ep.Closing.{close-Closes}
use ucx_rs.Rma.Key.{RemoteKey, unframe_rkey_payload}
use ucx_rs.Rma.Key
use ucx_rs.Rma.Ops
use ucx_rs.Rma.Ops.Posting.{method_lem, fetching_lem, plain}
use ucx_rs.Request.Params.{fetch_params}
use ucx_rs.Rma.Key.Handles.{malformed, asked, unpack-Unpacks, GivesKeys}
use ucx_rs.Ep.Query
use ucx_rs.Tag
use ucx_rs.Am
use ucx_rs.Stream
use ucx_rs.Session.Endpoints.{
  Call, call_by, Transfer, puts, gets, posts, fetches, transfer_by, needs, Ending, drops, destroys,
  disconnects, end_by, acquire, flushes,
}

module _ (u : Ucx) (w : Worker) where
  abbrev pub key_entry : History → Effect → List ℕ → Option (List ℕ)
  key_entry h (ep_rkey_unpack e buf) rs =
      acquire (status_to_result (u.status h (ep_rkey_unpack e buf)))
        (u.out h (ep_rkey_unpack e buf)) rs
  key_entry h (rkey_destroy k) rs = strike k rs
  key_entry h (put_nbx e buf len remote_addr k p) rs = needs k rs
  key_entry h (get_nbx e buf len remote_addr k p) rs = needs k rs
  key_entry h (atomic_op_nbx e op operand count remote_addr k p) rs = needs k rs
  key_entry h (rkey_ptr k remote_addr) rs = needs k rs
  key_entry h (rkey_compare v k other) rs = if count k rs == 0 then none else needs other rs
  key_entry h (worker_destroy v) rs = if v == w.handle then some [] else some rs
  key_entry h _ rs = some rs

  abbrev key_enter : History → Effect → Option (List ℕ) → Option (List ℕ)
  key_enter h e none = none
  key_enter h e (some rs) = key_entry h e rs

  -- `none` once UCX was asked to destroy or to use a key that it did not have.
  unfoldable pub kept : History → Option (List ℕ)
  kept [] = some []
  kept (e ∷ h) = key_enter h e (kept h)

  kept-same :
      (h : History) (e : Effect)
      → ((rs : List ℕ) → key_entry h e rs ≡ some rs)
      → kept (e ∷ h) ≡ kept h
  unfolding kept
  kept-same h e idle = elim (Option-cases (kept h)) [ inl q ↦ rw q | inr (rs, q) ↦ rw q (idle rs) ]

  kept-IsBlind : IsBlind kept
  kept-IsBlind = record {
    progress = λ v h. kept-same h _ (λ rs. refl);
    check = λ p h. kept-same h _ (λ rs. refl);
    free = λ p h. kept-same h _ (λ rs. refl);
  }

  -- What is done to endpoints leaves the keys alone.
  pub create_ep-kept : (params : Params) (h : History) → kept (Ep.create_ep w params u h).1 ≡ kept h
  unfolding Ep.create_ep
  create_ep-kept params h = kept-same h _ (λ rs. refl)

  disconnected-kept :
      (ep : Ep) (h : History) (r : Result (Option Request))
      → kept (Ep.destroy_on_error ep r u (disconnect_nb ep.handle ∷ h)).1 ≡ kept h
  disconnected-kept ep h (ok o) = kept-same h _ (λ rs. refl)
  disconnected-kept ep h (err e) =
      kept-same (disconnect_nb ep.handle ∷ h) _ (λ rs. refl) ∙ kept-same h _ (λ rs. refl)

  pub end_by-kept : (by : Ending) (ep : Ep) (h : History) → kept (end_by by ep u h).1 ≡ kept h
  unfolding end_by Ep.drop Ep.destroy Ep.disconnect
  end_by-kept drops ep h = elim (Bool-cases (flag ep.worker_alive h)) [
    | inl t ↦ rw t (kept-same h _ (λ rs. refl))
    | inr t ↦ rw t
  ]
  end_by-kept destroys ep h = elim (Bool-cases (flag ep.worker_alive h)) [
    | inl t ↦ rw t (kept-same h _ (λ rs. refl))
    | inr t ↦ rw t
  ]
  end_by-kept disconnects ep h = elim (Bool-cases (flag ep.worker_alive h)) [
    | inl t ↦ rw t (disconnected-kept ep h _)
    | inr t ↦ rw t
  ]

  pub close-kept :
      (flags : ℕ) (v : Worker) (ep : Ep) (h : History) → kept (Ep.close ep v flags u h).1 ≡ kept h
  close-kept flags v ep h =
      Closes-IsBlind kept-IsBlind u v _ _ (close-Closes ep v flags u h) ∙ kept-same h _ (λ rs. refl)

  pub call_by-kept : (c : Call) (ep : Ep) (h : History) → kept (call_by c ep u h).1 ≡ kept h
  unfolding call_by Ep.flush Ep.modify Query.query Query.evaluate_perf Tag.tag_send
      Tag.tag_send_sync Am.am_send Stream.stream_send Stream.stream_recv Stream.stream_recv_data
  call_by-kept (flushes param) ep h = kept-same h _ (λ rs. refl)
  call_by-kept _ ep h = kept-same h _ (λ rs. refl)

  pub Torn-kept :
      {h h' : History} {rs : List ℕ} → Torn u w h h' → kept h ≡ some rs → kept h' ≡ some []
  unfolding kept
  Torn-kept (torn mid f q) k = rw (q, Flushed-IsBlind kept-IsBlind u w f, k, ==_refl w.handle) refl

  -- The key shares the worker's flag and is not null.
  abbrev pub IsKeyOf : RemoteKey → Type 0
  IsKeyOf key = (key.worker_alive ≡ w.alive) × (key.handle ≢ 0)

  abbrev pub KeyFits : History → List ℕ → Result RemoteKey × History → Type 0
  KeyFits h rs (ok key, h') = (kept h' ≡ some (key.handle ∷ rs)) × IsKeyOf key
  KeyFits h rs (err e, h') = kept h' ≡ some rs

  answered-KeyFits :
      (h h' : History) (rs : List ℕ) (n alive : ℕ) (a : Result (Unit {0}))
      → alive ≡ w.alive
      → (a ≡ ok tt → n ≢ 0)
      → kept h' ≡ acquire a n rs
      → KeyFits h rs (map_ok (λ _. record { handle = n; worker_alive = alive }) a, h')
  answered-KeyFits h h' rs n alive (ok t) own good k = (k, (own, good refl))
  answered-KeyFits h h' rs n alive (err e) own good k = k

  pub unpack-KeyFits :
      (ep : Ep) (buffer : List ℕ) (h : History) (rs : List ℕ)
      → GivesKeys u
      → ep.worker_alive ≡ w.alive
      → kept h ≡ some rs
      → KeyFits h rs (Key.unpack ep buffer u h)
  unfolding kept
  unpack-KeyFits ep buffer h rs gives own k = elim (unpack-Unpacks ep buffer u h) [
    | malformed e f q ↦ rw q k
    | asked payload f q ↦ rw q (
        answered-KeyFits h (ep_rkey_unpack ep.handle payload ∷ h) rs _ _ _ own
          (gives ep.handle payload h) (rw k refl))
  ]

  -- What the program may use.
  pub transfer_by-kept :
      (t : Transfer) (ep : Ep) (key : RemoteKey) (h : History) {rs : List ℕ}
      → kept h ≡ some rs
      → kept (transfer_by t ep key u h).1 ≡ needs key.handle rs
  unfolding kept transfer_by Ops.rma_put Ops.rma_get
  transfer_by-kept (puts buf len remote_addr param) ep key h k = rw k refl
  transfer_by-kept (gets buf len remote_addr param) ep key h k = rw k refl
  transfer_by-kept (posts x remote_addr param) ep key h k =
      rw (method_lem x ep remote_addr key param u h, k) refl
  transfer_by-kept (fetches x v remote_addr reply) ep key h k =
      rw
        (
          (fetching_lem x ep v remote_addr key reply u h).0,
          method_lem (plain x) ep remote_addr key (fetch_params reply) u h,
          k,
        )
        refl

  pub rkey_slice-kept :
      (key : RemoteKey) (remote_addr len : ℕ) (h : History) {rs : List ℕ}
      → kept h ≡ some rs
      → kept (Key.rkey_slice key remote_addr len u h).1 ≡ needs key.handle rs
  unfolding kept Key.rkey_slice
  rkey_slice-kept key remote_addr len h k = rw k refl

  pub drop-kept :
      (key : RemoteKey) (h : History) {rs : List ℕ}
      → key.handle ≢ 0
      → kept h ≡ some rs
      → kept (Key.drop key u h).1 ≡ strike key.handle rs
  unfolding kept Key.drop
  drop-kept key h ne k = ground (arith, ne, k)

  pub compare-kept :
      (key other : RemoteKey) (v : Worker) (h : History) {rs : List ℕ}
      → needs key.handle rs ≡ some rs
      → needs other.handle rs ≡ some rs
      → kept h ≡ some rs
      → kept (Key.compare key other v u h).1 ≡ some rs
  unfolding kept Key.compare
  compare-kept key other v h one two k = ground (arith, one, two, k)

-- A key of a worker that is gone is compared without a call.
pub compare-over :
    (u : Ucx) (key other : RemoteKey) (v : Worker) (h : History)
    → flag key.worker_alive h ≡ false
    → Key.compare key other v u h ≡ (err err_invalid_param, h)
unfolding Key.compare
compare-over u key other v h dead = rw dead refl
