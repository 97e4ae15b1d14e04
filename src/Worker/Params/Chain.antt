-- ===== src/Worker/Params/Chain.antt =====
-- Chains of setters of the worker parameters: which bits and fields they leave for UCX.
use ucx_rs.Base.{
  ℕ, ◌≡◌, refl, Bool, true, Option, none, some, List, bit, bit_or, bit-zero, if◌then◌else◌,
}
use ucx_rs.Ffi.{ℤ, RawWorkerParams}
use ucx_rs.ThreadMode.{ThreadMode, to_ffi, discriminant}
use ucx_rs.Masked.{
  Value, number, signed, words, text, pointee, nul_free, Layout, marked, written, chain, called,
  left, new-Built,
}
use ucx_rs.Worker.Params.{
  ParamsBuilder, field_name, new, build, thread_mode, cpu_set, events, user_data, event_fd, flags,
  name, am_alignment, client_id,
}

-- A call of a setter.
pub data Setter : Type 0 where
  sets_thread_mode : ThreadMode → Setter
  sets_cpu_set : List ℕ → Setter
  sets_events : ℕ → Setter
  sets_user_data : ℕ → Setter
  sets_event_fd : ℤ → Setter
  sets_flags : ℕ → Setter
  sets_name : List ℕ → Setter
  sets_am_alignment : ℕ → Setter
  sets_client_id : ℕ → Setter

pub data Field : Type 0 where
  in_thread_mode in_cpu_mask in_events in_user_data in_event_fd in_flags in_name in_am_alignment
        in_client_id :
      Field

abbrev pub run : Setter → ParamsBuilder → ParamsBuilder
run (sets_thread_mode m) b = thread_mode m b
run (sets_cpu_set c) b = cpu_set c b
run (sets_events e) b = events e b
run (sets_user_data p) b = user_data p b
run (sets_event_fd v) b = event_fd v b
run (sets_flags f) b = flags f b
run (sets_name s) b = record b { field_mask = bit_or b.field_mask field_name; name = some s }
run (sets_am_alignment n) b = am_alignment n b
run (sets_client_id c) b = client_id c b

abbrev apply : Setter → ParamsBuilder → Option ParamsBuilder
apply (sets_name s) b = name s b
apply (sets_thread_mode m) b = some (thread_mode m b)
apply (sets_cpu_set c) b = some (cpu_set c b)
apply (sets_events e) b = some (events e b)
apply (sets_user_data p) b = some (user_data p b)
apply (sets_event_fd v) b = some (event_fd v b)
apply (sets_flags f) b = some (flags f b)
apply (sets_am_alignment n) b = some (am_alignment n b)
apply (sets_client_id c) b = some (client_id c b)

abbrev pub look : Field → RawWorkerParams → Value
look in_thread_mode p = number (discriminant p.thread_mode)
look in_cpu_mask p = words p.cpu_mask
look in_events p = number p.events
look in_user_data p = number p.user_data
look in_event_fd p = signed p.event_fd
look in_flags p = number p.flags
look in_name p = pointee p.name
look in_am_alignment p = number p.am_alignment
look in_client_id p = number p.client_id

abbrev admits : Setter → Bool
admits (sets_name s) = nul_free s
admits _ = true

-- The bit of the mask that a setter sets, and what it writes into the fields.
abbrev marks : Setter → Option ℕ
marks (sets_thread_mode _) = some 0
marks (sets_cpu_set _) = some 1
marks (sets_events _) = some 2
marks (sets_user_data _) = some 3
marks (sets_event_fd _) = some 4
marks (sets_flags _) = some 5
marks (sets_name _) = some 6
marks (sets_am_alignment _) = some 7
marks (sets_client_id _) = some 8

abbrev writes : Setter → Field → Option Value
writes (sets_thread_mode m) in_thread_mode = some (number (discriminant (to_ffi m)))
writes (sets_cpu_set c) in_cpu_mask = some (words c)
writes (sets_events e) in_events = some (number e)
writes (sets_user_data p) in_user_data = some (number p)
writes (sets_event_fd v) in_event_fd = some (signed v)
writes (sets_flags f) in_flags = some (number f)
writes (sets_name s) in_name = some (text s)
writes (sets_am_alignment n) in_am_alignment = some (number n)
writes (sets_client_id c) in_client_id = some (number c)
writes _ _ = none

abbrev pub layout : Layout
layout = record {
  Builder = ParamsBuilder;
  Setter = Setter;
  Field = Field;
  new = new;
  apply = apply;
  mask = λ b. (build b).0.handle.field_mask;
  look = λ f b. look f (build b).0.handle;
  admits = λ x b. admits x;
  run = run;
  marks = marks;
  writes = writes;
  apply-run = apply-run;
  mask-run = mask-run;
  look-run = look-run;
  mask-new = bit-zero;
}
  where
    apply-run :
        (x : Setter) (b : ParamsBuilder) → apply x b ≡ (if admits x then some (run x b) else none)
    apply-run (sets_name s) b = refl
    apply-run _ b = refl

    mask-run :
        (x : Setter) (b : ParamsBuilder)
        → (build (run x b)).0.handle.field_mask ≡ marked (marks x) (build b).0.handle.field_mask
    mask-run (sets_thread_mode _) b = refl
    mask-run _ b = refl

    look-run :
        (x : Setter) (b : ParamsBuilder) (f : Field)
        → look f (build (run x b)).0.handle ≡ written (writes x f) (look f (build b).0.handle)
    look-run (sets_thread_mode _) b in_thread_mode = refl
    look-run _ b in_thread_mode = refl
    look-run _ b _ = refl

-- What a chain of setters on a new builder of worker parameters builds, where none of them fails: a
-- bit of the mask is set exactly when one of its setters was called, and every field of the struct
-- has the value that was given last, or is zero.
pub params-chain :
    (xs : List Setter) (b : ParamsBuilder)
    → chain layout xs new ≡ some b
    → ((k : ℕ) → bit k (build b).0.handle.field_mask ≡ called layout k xs)
      × ((f : Field) → look f (build b).0.handle ≡ left layout f xs (look f (build new).0.handle))
params-chain xs b e = new-Built layout xs b e
