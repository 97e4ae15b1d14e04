-- ===== src/Ep/Params/Chain.antt =====
-- Chains of setters of the endpoint parameters: which bits and fields they leave for UCX.
use ucx_rs.Base.{
  ℕ, ◌≡◌, refl, Bool, true, Option, none, some, List, bit, bit_or, bit-zero, if◌then◌else◌,
}
use ucx_rs.Ffi.{RawEpParams}
use ucx_rs.Base.{◌%◌, ◌^◌}
use ucx_rs.ErrorHandlerMode.{ErrorHandlerMode, to_ffi, discriminant}
use ucx_rs.Masked.{
  Value, number, text, pointee, nul_free, Layout, marked, written, chain, called, left, new-Built,
}
use ucx_rs.SockAddr.{RawSockAddr}
use ucx_rs.Ep.Params.{
  ParamsBuilder, field_name, new, build, address, err_mode, err_handler, err_handler_arg, user_data,
  sockaddr, params_flags, conn_request, name,
}

-- A call of a setter.
pub data Setter : Type 0 where
  sets_address : ℕ → Setter
  sets_err_mode : ErrorHandlerMode → Setter
  sets_err_handler : ℕ → Setter
  sets_err_handler_arg : ℕ → Setter
  sets_user_data : ℕ → Setter
  sets_sockaddr : RawSockAddr → Setter
  sets_params_flags : ℕ → Setter
  sets_conn_request : ℕ → Setter
  sets_name : List ℕ → Setter

pub data Field : Type 0 where
  in_address in_err_mode in_err_handler_cb in_err_handler_arg in_user_data in_sockaddr_addr
        in_sockaddr_addrlen in_flags in_conn_request in_name :
      Field

abbrev pub run : Setter → ParamsBuilder → ParamsBuilder
run (sets_address p) b = address p b
run (sets_err_mode m) b = err_mode m b
run (sets_err_handler cb) b = err_handler cb b
run (sets_err_handler_arg p) b = err_handler_arg p b
run (sets_user_data p) b = user_data p b
run (sets_sockaddr a) b = sockaddr a b
run (sets_params_flags f) b = params_flags f b
run (sets_conn_request r) b = conn_request r b
run (sets_name s) b = record b { field_mask = bit_or b.field_mask field_name; name = some s }

abbrev apply : Setter → ParamsBuilder → Option ParamsBuilder
apply (sets_name s) b = name s b
apply (sets_address p) b = some (address p b)
apply (sets_err_mode m) b = some (err_mode m b)
apply (sets_err_handler cb) b = some (err_handler cb b)
apply (sets_err_handler_arg p) b = some (err_handler_arg p b)
apply (sets_user_data p) b = some (user_data p b)
apply (sets_sockaddr a) b = some (sockaddr a b)
apply (sets_params_flags f) b = some (params_flags f b)
apply (sets_conn_request r) b = some (conn_request r b)

abbrev pub look : Field → RawEpParams → Value
look in_address p = number p.address
look in_err_mode p = number (discriminant p.err_mode)
look in_err_handler_cb p = number p.err_handler_cb
look in_err_handler_arg p = number p.err_handler_arg
look in_user_data p = number p.user_data
look in_sockaddr_addr p = number p.sockaddr_addr
look in_sockaddr_addrlen p = number p.sockaddr_addrlen
look in_flags p = number p.flags
look in_conn_request p = number p.conn_request
look in_name p = pointee p.name

abbrev admits : Setter → Bool
admits (sets_name s) = nul_free s
admits _ = true

-- The bit of the mask that a setter sets, and what it writes into the fields.
abbrev marks : Setter → Option ℕ
marks (sets_address _) = some 0
marks (sets_err_mode _) = some 1
marks (sets_err_handler _) = some 2
marks (sets_err_handler_arg _) = none
marks (sets_user_data _) = some 3
marks (sets_sockaddr _) = some 4
marks (sets_params_flags _) = some 5
marks (sets_conn_request _) = some 6
marks (sets_name _) = some 7

abbrev writes : Setter → Field → Option Value
writes (sets_address p) in_address = some (number p)
writes (sets_err_mode m) in_err_mode = some (number (discriminant (to_ffi m)))
writes (sets_err_handler cb) in_err_handler_cb = some (number cb)
writes (sets_err_handler_arg p) in_err_handler_arg = some (number p)
writes (sets_user_data p) in_user_data = some (number p)
writes (sets_sockaddr a) in_sockaddr_addr = some (number a.addr)
writes (sets_sockaddr a) in_sockaddr_addrlen = some (number a.addrlen)
writes (sets_params_flags f) in_flags = some (number (f % 2 ^ 32))
writes (sets_conn_request r) in_conn_request = some (number r)
writes (sets_name s) in_name = some (text s)
writes _ _ = none

abbrev pub layout : Layout
layout = record {
  Builder = ParamsBuilder;
  Setter = Setter;
  Field = Field;
  new = new;
  apply = apply;
  mask = λ b. (build b).0.handle.field_mask;
  look = λ f b. look f (build b).0.handle;
  admits = λ x b. admits x;
  run = run;
  marks = marks;
  writes = writes;
  apply-run = apply-run;
  mask-run = mask-run;
  look-run = look-run;
  mask-new = bit-zero;
}
  where
    apply-run :
        (x : Setter) (b : ParamsBuilder) → apply x b ≡ (if admits x then some (run x b) else none)
    apply-run (sets_name s) b = refl
    apply-run _ b = refl

    mask-run :
        (x : Setter) (b : ParamsBuilder)
        → (build (run x b)).0.handle.field_mask ≡ marked (marks x) (build b).0.handle.field_mask
    mask-run (sets_address _) b = refl
    mask-run _ b = refl

    look-run :
        (x : Setter) (b : ParamsBuilder) (f : Field)
        → look f (build (run x b)).0.handle ≡ written (writes x f) (look f (build b).0.handle)
    look-run (sets_address _) b in_address = refl
    look-run _ b in_address = refl
    look-run _ b _ = refl

-- What a chain of setters on a new builder of endpoint parameters builds, where none of them fails:
-- a bit of the mask is set exactly when one of its setters was called, and every field of the
-- struct has the value that was given last, or is zero.
pub ep_params-chain :
    (xs : List Setter) (b : ParamsBuilder)
    → chain layout xs new ≡ some b
    → ((k : ℕ) → bit k (build b).0.handle.field_mask ≡ called layout k xs)
      × ((f : Field) → look f (build b).0.handle ≡ left layout f xs (look f (build new).0.handle))
ep_params-chain xs b e = new-Built layout xs b e
