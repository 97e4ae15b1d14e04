-- ===== src/Am/Trampoline.antt =====
-- What the trampoline does over the life of a handler.
use ucx_rs.Base.{
  ℕ, ◌≡◌, refl, ◌⊎◌, inl, inr, Bool, true, false, Option, none, some, List, [], ◌∷◌, ◌++◌, ◌∙◌, sym,
}
use ucx_rs.Base.{if◌then◌else◌}
use mathlib.Core.List.{append_assoc}
use ucx_rs.Ffi.{ucs_ok, err_invalid_param}
use ucx_rs.Status.{Status, is_err}
use ucx_rs.Am.{
  Message, Outcome, done, panicked, refused, AmHandler, slice, reply, Delivery, am_trampoline,
  dispatch, invoke_unless_poisoned, invoke,
}

refused_is_final :
    (s : Status) (b : Bool)
    → is_err s ≡ b
    → is_err (if is_err s then s else err_invalid_param) ≡ true
refused_is_final s true e = rw e e
refused_is_final s false e = rw e (unfold is_err in refl)

reply-IsFinal : (o : Outcome) → (reply o ≡ ucs_ok) ⊎ (is_err (reply o) ≡ true)
unfolding reply
reply-IsFinal done = inl refl
reply-IsFinal panicked = inr (unfold is_err in refl)
reply-IsFinal (refused s) = inr (refused_is_final s (is_err s) refl)

abbrev both : Option (List ℕ) → Option (List ℕ) → Option Message
both none bytes = none
both (some header) none = none
both (some header) (some bytes) = some (header, bytes)

-- The message that a delivery carries, if its pointers are well-formed.
abbrev pub message_of : (ℕ → ℕ → List ℕ) → Delivery → Option Message
message_of memory d =
    both (slice memory d.header d.header_length) (slice memory d.data_pointer d.data_length)

-- What a delivery comes to: a message that is not well-formed is refused.
abbrev pub delivered : Bool → AmHandler → Option Message → Status × AmHandler
delivered poisoned handler none = (err_invalid_param, handler)
delivered poisoned handler (some m) = invoke_unless_poisoned poisoned handler m

dispatch-both :
    (o o' : Option (List ℕ)) (handler : AmHandler)
    → dispatch o o' handler ≡ delivered handler.poisoned handler (both o o')
dispatch-both none o' handler = refl
dispatch-both (some a) none handler = refl
dispatch-both (some a) (some b) handler = refl

am_trampoline-delivered :
    (memory : ℕ → ℕ → List ℕ) (d : Delivery) (handler : AmHandler)
    → am_trampoline memory d handler ≡ delivered handler.poisoned handler (message_of memory d)
unfolding am_trampoline
am_trampoline-delivered memory d handler =
    dispatch-both (slice memory d.header d.header_length)
      (slice memory d.data_pointer d.data_length) handler

-- The end of an exchange: success, or an error.
abbrev pub IsFinal : Status → Type 0
IsFinal s = (s ≡ ucs_ok) ⊎ (is_err s ≡ true)

invoke-IsFinal :
    (poisoned : Bool) (handler : AmHandler) (m : Message)
    → IsFinal (invoke_unless_poisoned poisoned handler m).0
invoke-IsFinal true handler m = inr (unfold is_err in refl)
invoke-IsFinal false handler m = reply-IsFinal (handler.closure handler.calls m)

delivered-IsFinal :
    (handler : AmHandler) (o : Option Message) → IsFinal (delivered handler.poisoned handler o).0
delivered-IsFinal handler none = inr (unfold is_err in refl)
delivered-IsFinal handler (some m) = invoke-IsFinal handler.poisoned handler m

-- The status that UCX sees is success or an error, and never "in progress", whatever the closure
-- returns and whether or not it panics, for every message and every handler.
pub am_trampoline-IsFinal :
    (memory : ℕ → ℕ → List ℕ) (d : Delivery) (handler : AmHandler)
    → IsFinal (am_trampoline memory d handler).0
am_trampoline-IsFinal memory d handler =
    rw (am_trampoline-delivered memory d handler) (delivered-IsFinal handler (message_of memory d))

-- All deliveries of a list, in order.
pub deliver_all : (ℕ → ℕ → List ℕ) → List Delivery → AmHandler → AmHandler
deliver_all memory [] handler = handler
deliver_all memory (d ∷ ds) handler = deliver_all memory ds (am_trampoline memory d handler).1

abbrev heard_first : Option Message → List Message → List Message
heard_first none ms = ms
heard_first (some m) ms = ms ++ m ∷ []

-- The messages of well-formed deliveries, the last first.
pub heard : (ℕ → ℕ → List ℕ) → List Delivery → List Message
heard memory [] = []
heard memory (d ∷ ds) = heard_first (message_of memory d) (heard memory ds)

-- A handler that is not poisoned never becomes so, and its closure is called with every well-formed
-- message, in order and once: also with those that come after a message on which it panicked.
pub deliver_all-heard :
    (memory : ℕ → ℕ → List ℕ) (ds : List Delivery) (handler : AmHandler)
    → handler.poisoned ≡ false
    → ((deliver_all memory ds handler).calls ≡ heard memory ds ++ handler.calls)
      × ((deliver_all memory ds handler).poisoned ≡ false)
unfolding deliver_all heard
deliver_all-heard memory [] handler healthy = (refl, healthy)
deliver_all-heard memory (d ∷ ds) handler healthy =
    rw (am_trampoline-delivered memory d handler, deliver_all)
      (by_message handler.poisoned healthy (message_of memory d)
        (λ handler'. deliver_all-heard memory ds handler'))
  where
    by_message :
        (poisoned : Bool)
        → poisoned ≡ false
        → (o : Option Message)
        → ((handler' : AmHandler)
            → handler'.poisoned ≡ false
            → ((deliver_all memory ds handler').calls ≡ heard memory ds ++ handler'.calls)
              × ((deliver_all memory ds handler').poisoned ≡ false))
        → ((deliver_all memory ds (delivered poisoned handler o).1).calls
            ≡ heard_first o (heard memory ds) ++ handler.calls)
          × ((deliver_all memory ds (delivered poisoned handler o).1).poisoned ≡ false)
    by_message poisoned e none rest = rest handler healthy
    by_message true e (some m) rest = cc
    by_message false e (some m) rest =
        let (calls, clean) = rest (invoke handler m).1 (rw healthy) in
        (calls ∙ sym (append_assoc (heard memory ds) (m ∷ []) handler.calls), clean)
