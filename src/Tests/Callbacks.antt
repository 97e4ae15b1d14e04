-- ===== src/Tests/Callbacks.antt =====
-- Active messages and listeners, at concrete inputs.
use ucx_rs.SockAddr.{other_family}
use ucx_rs.Listener.Params
use ucx_rs.Base.{ℕ, ◌≡◌, ◌⊎◌, refl, true, false, List, [], ◌∷◌, ◌++◌, arith}
use ucx_rs.Ffi.{RawListenerParams, ucs_ok, ucs_in_progress, listener_create, listener_destroy}
use ucx_rs.Status.{is_err, status_to_result, status_value_is_err}
use ucx_rs.Am.{Message, Outcome, panicked, refused, AmHandler, Delivery, am_trampoline}
use ucx_rs.Am.Trampoline.{am_trampoline-IsFinal, deliver_all, heard, deliver_all-heard}
use ucx_rs.Am.Registration.{
  registers_handler, registers, unregisters, steps, dispatchable, steps-retains,
}
use ucx_rs.Am.Registration
use ucx_rs.Listener.{
  handler, kept, ListenerState, create, conn_trampoline, take_request, drop, state_drop,
}
use ucx_rs.Listener.Steps.{World, here, onward, delivers, drops_listener, drops_request, Sound}
use ucx_rs.Listener.Ownership.{create-Sound}
use ucx_rs.Ffi.{Ucx, err_timed_out}
use ucx_rs.Base.{◌-◌, ◌^◌}
use ucx_rs.Tests.{ucx, worker}

-- A closure that panics on its first message and then answers "in progress".
abbrev fragile : List Message → Message → Outcome
fragile [] m = panicked
fragile (_ ∷ _) m = refused ucs_in_progress

abbrev fresh_handler : AmHandler
fresh_handler = record { closure = fragile; calls = []; poisoned = false }

abbrev memory : ℕ → ℕ → List ℕ
memory pointer length = pointer ∷ length ∷ []

-- A header without data, and data without a header.
abbrev with_header : Delivery
with_header = record { header = 100; header_length = 4; data_pointer = 0; data_length = 0 }

abbrev with_data : Delivery
with_data = record { header = 0; header_length = 0; data_pointer = 200; data_length = 8 }

-- A null pointer with a length.
abbrev malformed : Delivery
malformed = record { header = 0; header_length = 4; data_pointer = 200; data_length = 8 }

am_trampoline-IsFinal_example :
    ((am_trampoline memory with_data fresh_handler).0 ≡ ucs_ok)
    ⊎ (is_err (am_trampoline memory with_data fresh_handler).0 ≡ true)
am_trampoline-IsFinal_example = am_trampoline-IsFinal memory with_data fresh_handler

deliver_all-heard_example :
    ((deliver_all memory (with_header ∷ malformed ∷ with_data ∷ []) fresh_handler).calls
      ≡ heard memory (with_header ∷ malformed ∷ with_data ∷ []) ++ [])
    × ((deliver_all memory (with_header ∷ malformed ∷ with_data ∷ []) fresh_handler).poisoned
        ≡ false)
deliver_all-heard_example =
    deliver_all-heard memory (with_header ∷ malformed ∷ with_data ∷ []) fresh_handler refl

abbrev registrations : List Registration.Step
registrations =
    registers_handler 5 1 8192 ∷ unregisters 5 ∷ registers 6 0 1 2 ∷ registers_handler 5 1 8256 ∷ []

steps-retains_example :
    dispatchable ucx (steps worker registrations [] ucx []).1
    ≡ (steps worker registrations [] ucx []).0
steps-retains_example = steps-retains worker registrations ucx [] [] (unfold dispatchable in refl)

abbrev listening_params : RawListenerParams
listening_params =
    (Params.build (
      Params.conn_handler 2048 4096
        (Params.sockaddr (record { addr = 640; addrlen = 16 }) Params.new))).params

abbrev made : ListenerState
made = record { handle = 512; conn_handler = handler false; strong = 1 }

-- After the listener and then its one request have been dropped.
abbrev over : World
over = record {
  state = record { handle = 0; conn_handler = handler false; strong = 0 };
  listening = false;
  requests = 0;
  history = listener_destroy 512 ∷ listener_create 16 listening_params ∷ [];
}

create-Sound_example :
    Sound 512 0
      (record { handle = 0; conn_handler = handler false; strong = 0 })
      (listener_destroy 512 ∷ listener_create 16 listening_params ∷ [])
unfolding create conn_trampoline take_request drop state_drop status_to_result status_value_is_err
create-Sound_example =
    create-Sound (handler false) worker listening_params ucx [] made over refl (λ e. omega arith)
      refl refl
      (onward
        (onward (onward here (delivers 4096 kept (λ e. omega arith) (λ e. omega arith)))
          (drops_listener refl))
        (drops_request 0 refl))

-- A UCX that answers each call with the code of a time-out.
abbrev refusing : Ucx
refusing = record {
  status = λ h e. err_timed_out;
  word = λ h e. 2 ^ 64 - 20;
  out = λ h e. 0;
  bytes = λ h e. [];
  member = λ h e k. 0;
  storage = λ h e k. other_family 0;
}
