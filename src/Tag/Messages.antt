-- ===== src/Tag/Messages.antt =====
-- Messages that `tag_probe` has found: which of them UCX keeps for a receive. A message that was
-- removed from the queue is received with `tag_msg_recv`, which borrows its handle.
use ucx_rs.Base.{
  ℕ, ◌≡◌, refl, Bool, true, false, Option, none, some, List, [], ◌∷◌, ◌==◌, if◌then◌else◌, arith,
  ==_refl, ◌∙◌, strike, count, strike_absent, sym, Bool-cases, inl, inr,
}
use ucx_rs.Ffi.{
  RawRequestParam, Effect, History, Ucx, tag_probe_nb, tag_msg_recv_nbx, tag_msg_recv_nb,
}
use ucx_rs.Worker.{Worker}
use ucx_rs.Tag.{MessageHandle, tag_probe, tag_msg_recv, tag_msg_recv_legacy}

abbrev found : Bool → ℕ → List ℕ → Option (List ℕ)
found true message ms = if message == 0 then some ms else some (message ∷ ms)
found false message ms = some ms

module _ (u : Ucx) where
  abbrev entry : History → Effect → List ℕ → Option (List ℕ)
  entry h (tag_probe_nb w tag mask remove) ms =
      found remove (u.word h (tag_probe_nb w tag mask remove)) ms
  entry h (tag_msg_recv_nbx w buf len message param) ms = strike message ms
  entry h (tag_msg_recv_nb w buf len datatype message) ms = strike message ms
  entry h _ ms = some ms

  abbrev enter : History → Effect → Option (List ℕ) → Option (List ℕ)
  enter h e none = none
  enter h e (some ms) = entry h e ms

  -- The messages that were removed from the queue and not received; `none` once a receive named
  -- another.
  unfoldable pub pending : History → Option (List ℕ)
  pending [] = some []
  pending (e ∷ h) = enter h e (pending h)

abbrev pub is_some : {A : Type 0} → Option A → Bool
is_some none = false
is_some (some a) = true

-- What the probe of a message found: its handle is not null, and it remembers whether it was
-- removed.
probed :
    (w : Worker) (tag mask : ℕ) (remove : Bool) (m : MessageHandle) (u : Ucx) (h : History)
    → (tag_probe w tag mask remove u h).0 ≡ some m
    → (m.handle ≡ u.word h (tag_probe_nb w.handle tag mask remove))
      × ((m.handle == 0) ≡ false)
      × (m.removed ≡ remove)
unfolding tag_probe
probed w tag mask remove m u h e = ground arith

module _ (u : Ucx) (v : Worker) (m : MessageHandle) (h : History) where
  -- A receive is made exactly of a message that was removed; of another the code panics.
  received :
      (buf len : ℕ) (param : RawRequestParam) {ms : List ℕ}
      → pending u h ≡ some ms
      → (is_some (tag_msg_recv v buf len m param u h).0 ≡ m.removed)
        × (pending u (tag_msg_recv v buf len m param u h).1
            ≡ (if m.removed then strike m.handle ms else some ms))
  unfolding tag_msg_recv pending
  received buf len param k = elim (Bool-cases m.removed) [
    | inl r ↦ rw (r, k) (refl, refl)
    | inr r ↦ rw (r, k) (refl, refl)
  ]

  received_legacy :
      (buffer len datatype : ℕ) {ms : List ℕ}
      → pending u h ≡ some ms
      → pending u (tag_msg_recv_legacy v buffer len datatype m u h).1 ≡ strike m.handle ms
  unfolding tag_msg_recv_legacy pending
  received_legacy buffer len datatype k = rw k refl

tag_probe-pending :
    (w : Worker) (tag mask : ℕ) (remove : Bool) (m : MessageHandle) (u : Ucx) (h : History)
    (ms : List ℕ)
    → (tag_probe w tag mask remove u h).0 ≡ some m
    → pending u h ≡ some ms
    → pending u (tag_probe w tag mask remove u h).1 ≡ some (if remove then m.handle ∷ ms else ms)
unfolding tag_probe pending
tag_probe-pending w tag mask true m u h ms e k =
    let (same, there, r) = probed w tag mask true m u h e in rw (k, sym same, there) refl
tag_probe-pending w tag mask false m u h ms e k = rw k refl

-- A message that a probe has found, of which UCX kept none with its handle before. If the probe
-- removed it, UCX keeps it until it is received: `tag_msg_recv` receives it, but a second one,
-- which the borrowed handle allows, asks UCX for a message that it no longer keeps. If the probe
-- left it in the queue, `tag_msg_recv` panics and asks for nothing, while the older function asks
-- for a message that was never removed.
pub probed_message :
    (w v : Worker) (tag mask : ℕ) (remove : Bool) (m : MessageHandle) (buf len datatype : ℕ)
    (param : RawRequestParam) (u : Ucx) (h : History) (ms : List ℕ)
    → (tag_probe w tag mask remove u h).0 ≡ some m
    → pending u h ≡ some ms
    → count m.handle ms ≡ 0
    → let h₁ = (tag_probe w tag mask remove u h).1 in
      let r = tag_msg_recv v buf len m param u h₁ in
      (pending u h₁ ≡ some (if remove then m.handle ∷ ms else ms))
      × (is_some r.0 ≡ remove)
      × (pending u r.1 ≡ some ms)
      × (pending u (tag_msg_recv v buf len m param u r.1).1 ≡ (if remove then none else some ms))
      × (pending u (tag_msg_recv_legacy v buf len datatype m u h₁).1
          ≡ (if remove then some ms else none))
probed_message w v tag mask true m buf len datatype param u h ms e k absent =
    let (same, there, r) = probed w tag mask true m u h e in
    let kept = tag_probe-pending w tag mask true m u h ms e k in
    let (some_, left) = received u v m _ buf len param kept in
    let once = left ∙ rw (r, ==_refl m.handle) refl in
    (
      kept,
      some_ ∙ r,
      once,
      (received u v m _ buf len param once).1 ∙ rw r (strike_absent m.handle ms absent),
      received_legacy u v m _ buf len datatype kept ∙ rw (==_refl m.handle) refl,
    )
probed_message w v tag mask false m buf len datatype param u h ms e k absent =
    let (same, there, r) = probed w tag mask false m u h e in
    let kept = tag_probe-pending w tag mask false m u h ms e k in
    let (some_, left) = received u v m _ buf len param kept in
    let once = left ∙ rw r refl in
    (
      kept,
      some_ ∙ r,
      once,
      (received u v m _ buf len param once).1 ∙ rw r refl,
      received_legacy u v m _ buf len datatype kept ∙ strike_absent m.handle ms absent,
    )
