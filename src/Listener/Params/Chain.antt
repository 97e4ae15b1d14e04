-- ===== src/Listener/Params/Chain.antt =====
-- Chains of setters of the listener parameters: which bits and fields they leave for UCX.
use ucx_rs.Base.{ℕ, ◌≡◌, refl, true, Option, none, some, List, bit, bit-zero}
use ucx_rs.Ffi.{RawListenerParams}
use ucx_rs.SockAddr.{RawSockAddr}
use ucx_rs.Masked.{Value, number, Layout, marked, written, chain, called, left, new-Built}
use ucx_rs.Listener.Params.{ParamsBuilder, new, sockaddr, accept_handler, conn_handler, build}

-- A call of a setter.
pub data Setter : Type 0 where
  sets_sockaddr : RawSockAddr → Setter
  sets_accept_handler : ℕ → ℕ → Setter
  sets_conn_handler : ℕ → ℕ → Setter

pub data Field : Type 0 where
  in_sockaddr_addr in_sockaddr_addrlen in_accept_handler_cb in_accept_handler_arg in_conn_handler_cb
        in_conn_handler_arg :
      Field

abbrev run : Setter → ParamsBuilder → ParamsBuilder
run (sets_sockaddr a) b = sockaddr a b
run (sets_accept_handler callback arg) b = accept_handler callback arg b
run (sets_conn_handler callback arg) b = conn_handler callback arg b

abbrev look : Field → RawListenerParams → Value
look in_sockaddr_addr p = number p.sockaddr_addr
look in_sockaddr_addrlen p = number p.sockaddr_addrlen
look in_accept_handler_cb p = number p.accept_handler_cb
look in_accept_handler_arg p = number p.accept_handler_arg
look in_conn_handler_cb p = number p.conn_handler_cb
look in_conn_handler_arg p = number p.conn_handler_arg

-- The bit of the mask that a setter sets, and what it writes into the fields.
abbrev marks : Setter → Option ℕ
marks (sets_sockaddr _) = some 0
marks (sets_accept_handler _ _) = some 1
marks (sets_conn_handler _ _) = some 2

abbrev writes : Setter → Field → Option Value
writes (sets_sockaddr a) in_sockaddr_addr = some (number a.addr)
writes (sets_sockaddr a) in_sockaddr_addrlen = some (number a.addrlen)
writes (sets_accept_handler callback arg) in_accept_handler_cb = some (number callback)
writes (sets_accept_handler callback arg) in_accept_handler_arg = some (number arg)
writes (sets_conn_handler callback arg) in_conn_handler_cb = some (number callback)
writes (sets_conn_handler callback arg) in_conn_handler_arg = some (number arg)
writes _ _ = none

abbrev pub layout : Layout
layout = record {
  Builder = ParamsBuilder;
  Setter = Setter;
  Field = Field;
  new = new;
  apply = λ x b. some (run x b);
  mask = λ b. (build b).params.field_mask;
  look = λ f b. look f (build b).params;
  admits = λ x b. true;
  run = run;
  marks = marks;
  writes = writes;
  apply-run = λ x b. refl;
  mask-run = mask-run;
  look-run = look-run;
  mask-new = bit-zero;
}
  where
    mask-run :
        (x : Setter) (b : ParamsBuilder)
        → (build (run x b)).params.field_mask ≡ marked (marks x) (build b).params.field_mask
    mask-run (sets_sockaddr _) b = refl
    mask-run _ b = refl

    look-run :
        (x : Setter) (b : ParamsBuilder) (f : Field)
        → look f (build (run x b)).params ≡ written (writes x f) (look f (build b).params)
    look-run (sets_sockaddr _) b in_sockaddr_addr = refl
    look-run _ b in_sockaddr_addr = refl
    look-run _ b _ = refl

-- What a chain of setters on a new builder of listener parameters builds: a bit of the mask is set
-- exactly when one of its setters was called, and every field of the struct has the value that was
-- given last, or is zero.
listener_params-chain :
    (xs : List Setter) (b : ParamsBuilder)
    → chain layout xs new ≡ some b
    → ((k : ℕ) → bit k (build b).params.field_mask ≡ called layout k xs)
      × ((f : Field) → look f (build b).params ≡ left layout f xs (look f (build new).params))
listener_params-chain xs b e = new-Built layout xs b e
