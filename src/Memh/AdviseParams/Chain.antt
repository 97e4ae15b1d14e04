-- ===== src/Memh/AdviseParams/Chain.antt =====
-- Chains of setters of the parameters of an advice: which bits and fields they leave for UCX.
use ucx_rs.Base.{ℕ, ◌≡◌, refl, Bool, true, Option, none, some, List, bit, bit-zero, if◌then◌else◌}
use ucx_rs.Ffi.{RawAdviseParams}
use ucx_rs.Masked.{Value, number, Layout, marked, written, chain, called, left, new-Built}
use ucx_rs.Memh.AdviseParams.{
  MemAdvice, to_ffi, discriminant, MemAdviseParamsBuilder, new, build, address, length, advice,
}

-- A call of a setter.
pub data Setter : Type 0 where
  sets_address : ℕ → Setter
  sets_length : ℕ → Setter
  sets_advice : MemAdvice → Setter

pub data Field : Type 0 where
  in_address in_length in_advice : Field

abbrev run : Setter → MemAdviseParamsBuilder → MemAdviseParamsBuilder
run (sets_address p) b = address p b
run (sets_length n) b = length n b
run (sets_advice a) b = advice a b

abbrev apply : Setter → MemAdviseParamsBuilder → Option MemAdviseParamsBuilder
apply (sets_address p) b = some (address p b)
apply (sets_length n) b = some (length n b)
apply (sets_advice a) b = some (advice a b)

abbrev look : Field → RawAdviseParams → Value
look in_address p = number p.address
look in_length p = number p.length
look in_advice p = number (discriminant p.advice)

abbrev admits : Setter → Bool
admits _ = true

-- The bit of the mask that a setter sets, and what it writes into the fields.
abbrev marks : Setter → Option ℕ
marks (sets_address _) = some 0
marks (sets_length _) = some 1
marks (sets_advice _) = some 2

abbrev writes : Setter → Field → Option Value
writes (sets_address p) in_address = some (number p)
writes (sets_length n) in_length = some (number n)
writes (sets_advice a) in_advice = some (number (discriminant (to_ffi a)))
writes _ _ = none

abbrev pub layout : Layout
layout = record {
  Builder = MemAdviseParamsBuilder;
  Setter = Setter;
  Field = Field;
  new = new;
  apply = apply;
  mask = λ b. (build b).0.handle.field_mask;
  look = λ f b. look f (build b).0.handle;
  admits = λ x b. admits x;
  run = run;
  marks = marks;
  writes = writes;
  apply-run = apply-run;
  mask-run = mask-run;
  look-run = look-run;
  mask-new = bit-zero;
}
  where
    apply-run :
        (x : Setter) (b : MemAdviseParamsBuilder)
        → apply x b ≡ (if admits x then some (run x b) else none)
    apply-run (sets_address _) b = refl
    apply-run _ b = refl

    mask-run :
        (x : Setter) (b : MemAdviseParamsBuilder)
        → (build (run x b)).0.handle.field_mask ≡ marked (marks x) (build b).0.handle.field_mask
    mask-run (sets_address _) b = refl
    mask-run _ b = refl

    look-run :
        (x : Setter) (b : MemAdviseParamsBuilder) (f : Field)
        → look f (build (run x b)).0.handle ≡ written (writes x f) (look f (build b).0.handle)
    look-run (sets_address _) b in_address = refl
    look-run _ b in_address = refl
    look-run _ b _ = refl

-- What a chain of setters on a new `MemAdviseParamsBuilder` builds, where none of them fails: a bit
-- of the mask is set exactly when one of its setters was called, and every field of the struct has
-- the value that was given last, or is zero.
advise_params-chain :
    (xs : List Setter) (b : MemAdviseParamsBuilder)
    → chain layout xs new ≡ some b
    → ((k : ℕ) → bit k (build b).0.handle.field_mask ≡ called layout k xs)
      × ((f : Field) → look f (build b).0.handle ≡ left layout f xs (look f (build new).0.handle))
advise_params-chain xs b e = new-Built layout xs b e
