-- ===== src/Context/Params/Chain.antt =====
-- Chains of setters of the context parameters: which bits and fields they leave for UCX.
use ucx_rs.Base.{
  ℕ, ◌≡◌, refl, Bool, true, Option, none, some, List, bit, bit_or, bit-zero, if◌then◌else◌,
}
use ucx_rs.Ffi.{ℤ, RawContextParams}
use ucx_rs.Masked.{
  Value, number, signed, text, pointee, nul_free, Layout, marked, written, chain, called, left,
  new-Built,
}
use ucx_rs.Context.Params.{
  ParamsBuilder, field_name, new, features, request_size, request_init, request_cleanup,
  tag_sender_mask, mt_workers_shared, estimated_num_eps, estimated_num_ppn, name, build,
}

-- A call of a setter.
pub data Setter : Type 0 where
  sets_features : ℕ → Setter
  sets_request_size : ℕ → Setter
  sets_request_init : ℕ → Setter
  sets_request_cleanup : ℕ → Setter
  sets_tag_sender_mask : ℕ → Setter
  sets_mt_workers_shared : ℤ → Setter
  sets_estimated_num_eps : ℕ → Setter
  sets_estimated_num_ppn : ℕ → Setter
  sets_name : List ℕ → Setter

pub data Field : Type 0 where
  in_features in_request_size in_request_init in_request_cleanup in_tag_sender_mask
        in_mt_workers_shared in_estimated_num_eps in_estimated_num_ppn in_name :
      Field

abbrev pub run : Setter → ParamsBuilder → ParamsBuilder
run (sets_features f) b = features f b
run (sets_request_size n) b = request_size n b
run (sets_request_init cb) b = request_init cb b
run (sets_request_cleanup cb) b = request_cleanup cb b
run (sets_tag_sender_mask m) b = tag_sender_mask m b
run (sets_mt_workers_shared v) b = mt_workers_shared v b
run (sets_estimated_num_eps n) b = estimated_num_eps n b
run (sets_estimated_num_ppn n) b = estimated_num_ppn n b
run (sets_name s) b = record b { field_mask = bit_or b.field_mask field_name; name = some s }

abbrev apply : Setter → ParamsBuilder → Option ParamsBuilder
apply (sets_name s) b = name s b
apply (sets_features f) b = some (features f b)
apply (sets_request_size n) b = some (request_size n b)
apply (sets_request_init cb) b = some (request_init cb b)
apply (sets_request_cleanup cb) b = some (request_cleanup cb b)
apply (sets_tag_sender_mask m) b = some (tag_sender_mask m b)
apply (sets_mt_workers_shared v) b = some (mt_workers_shared v b)
apply (sets_estimated_num_eps n) b = some (estimated_num_eps n b)
apply (sets_estimated_num_ppn n) b = some (estimated_num_ppn n b)

abbrev pub look : Field → RawContextParams → Value
look in_features p = number p.features
look in_request_size p = number p.request_size
look in_request_init p = number p.request_init
look in_request_cleanup p = number p.request_cleanup
look in_tag_sender_mask p = number p.tag_sender_mask
look in_mt_workers_shared p = signed p.mt_workers_shared
look in_estimated_num_eps p = number p.estimated_num_eps
look in_estimated_num_ppn p = number p.estimated_num_ppn
look in_name p = pointee p.name

abbrev admits : Setter → Bool
admits (sets_name s) = nul_free s
admits _ = true

-- The bit of the mask that a setter sets, and what it writes into the fields.
abbrev marks : Setter → Option ℕ
marks (sets_features _) = some 0
marks (sets_request_size _) = some 1
marks (sets_request_init _) = some 2
marks (sets_request_cleanup _) = some 3
marks (sets_tag_sender_mask _) = some 4
marks (sets_mt_workers_shared _) = some 5
marks (sets_estimated_num_eps _) = some 6
marks (sets_estimated_num_ppn _) = some 7
marks (sets_name _) = some 8

abbrev writes : Setter → Field → Option Value
writes (sets_features f) in_features = some (number f)
writes (sets_request_size n) in_request_size = some (number n)
writes (sets_request_init cb) in_request_init = some (number cb)
writes (sets_request_cleanup cb) in_request_cleanup = some (number cb)
writes (sets_tag_sender_mask m) in_tag_sender_mask = some (number m)
writes (sets_mt_workers_shared v) in_mt_workers_shared = some (signed v)
writes (sets_estimated_num_eps n) in_estimated_num_eps = some (number n)
writes (sets_estimated_num_ppn n) in_estimated_num_ppn = some (number n)
writes (sets_name s) in_name = some (text s)
writes _ _ = none

abbrev pub layout : Layout
layout = record {
  Builder = ParamsBuilder;
  Setter = Setter;
  Field = Field;
  new = new;
  apply = apply;
  mask = λ b. (build b).0.handle.field_mask;
  look = λ f b. look f (build b).0.handle;
  admits = λ x b. admits x;
  run = run;
  marks = marks;
  writes = writes;
  apply-run = apply-run;
  mask-run = mask-run;
  look-run = look-run;
  mask-new = bit-zero;
}
  where
    apply-run :
        (x : Setter) (b : ParamsBuilder) → apply x b ≡ (if admits x then some (run x b) else none)
    apply-run (sets_name s) b = refl
    apply-run _ b = refl

    mask-run :
        (x : Setter) (b : ParamsBuilder)
        → (build (run x b)).0.handle.field_mask ≡ marked (marks x) (build b).0.handle.field_mask
    mask-run (sets_features _) b = refl
    mask-run _ b = refl

    look-run :
        (x : Setter) (b : ParamsBuilder) (f : Field)
        → look f (build (run x b)).0.handle ≡ written (writes x f) (look f (build b).0.handle)
    look-run (sets_features _) b in_features = refl
    look-run _ b in_features = refl
    look-run _ b _ = refl

-- What a chain of setters on a new builder builds, where none of them fails: a bit of the mask is
-- set exactly when one of its setters was called, and every field of the struct has the value that
-- was given last, or is zero.
pub build-chain :
    (xs : List Setter) (b : ParamsBuilder)
    → chain layout xs new ≡ some b
    → ((k : ℕ) → bit k (build b).0.handle.field_mask ≡ called layout k xs)
      × ((f : Field) → look f (build b).0.handle ≡ left layout f xs (look f (build new).0.handle))
build-chain xs b e = new-Built layout xs b e
