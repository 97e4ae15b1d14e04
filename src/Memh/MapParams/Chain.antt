-- ===== src/Memh/MapParams/Chain.antt =====
-- Chains of setters of the parameters of a mapping: which bits and fields they leave for UCX.
use ucx_rs.Base.{ℕ, ◌≡◌, refl, Bool, true, Option, none, some, List, bit, bit-zero, if◌then◌else◌}
use ucx_rs.Ffi.{RawMapParams}
use ucx_rs.MemoryType.{MemoryType, to_ffi, discriminant}
use ucx_rs.Masked.{Value, number, Layout, marked, written, chain, called, left, new-Built}
use ucx_rs.Memh.MapParams.{
  MemMapParamsBuilder, new, build, address, length, flags, prot, memory_type, exported_memh_buffer,
}

-- A call of a setter.
pub data Setter : Type 0 where
  sets_address : ℕ → Setter
  sets_length : ℕ → Setter
  sets_flags : ℕ → Setter
  sets_prot : ℕ → Setter
  sets_memory_type : MemoryType → Setter
  sets_exported_memh_buffer : ℕ → Setter

pub data Field : Type 0 where
  in_address in_length in_flags in_prot in_memory_type in_exported_memh_buffer : Field

abbrev run : Setter → MemMapParamsBuilder → MemMapParamsBuilder
run (sets_address p) b = address p b
run (sets_length n) b = length n b
run (sets_flags f) b = flags f b
run (sets_prot v) b = prot v b
run (sets_memory_type m) b = memory_type m b
run (sets_exported_memh_buffer p) b = exported_memh_buffer p b

abbrev apply : Setter → MemMapParamsBuilder → Option MemMapParamsBuilder
apply (sets_address p) b = some (address p b)
apply (sets_length n) b = some (length n b)
apply (sets_flags f) b = some (flags f b)
apply (sets_prot v) b = some (prot v b)
apply (sets_memory_type m) b = some (memory_type m b)
apply (sets_exported_memh_buffer p) b = some (exported_memh_buffer p b)

abbrev look : Field → RawMapParams → Value
look in_address p = number p.address
look in_length p = number p.length
look in_flags p = number p.flags
look in_prot p = number p.prot
look in_memory_type p = number (discriminant p.memory_type)
look in_exported_memh_buffer p = number p.exported_memh_buffer

abbrev admits : Setter → Bool
admits _ = true

-- The bit of the mask that a setter sets, and what it writes into the fields.
abbrev marks : Setter → Option ℕ
marks (sets_address _) = some 0
marks (sets_length _) = some 1
marks (sets_flags _) = some 2
marks (sets_prot _) = some 3
marks (sets_memory_type _) = some 4
marks (sets_exported_memh_buffer _) = some 5

abbrev writes : Setter → Field → Option Value
writes (sets_address p) in_address = some (number p)
writes (sets_length n) in_length = some (number n)
writes (sets_flags f) in_flags = some (number f)
writes (sets_prot v) in_prot = some (number v)
writes (sets_memory_type m) in_memory_type = some (number (discriminant (to_ffi m)))
writes (sets_exported_memh_buffer p) in_exported_memh_buffer = some (number p)
writes _ _ = none

abbrev pub layout : Layout
layout = record {
  Builder = MemMapParamsBuilder;
  Setter = Setter;
  Field = Field;
  new = new;
  apply = apply;
  mask = λ b. (build b).0.handle.field_mask;
  look = λ f b. look f (build b).0.handle;
  admits = λ x b. admits x;
  run = run;
  marks = marks;
  writes = writes;
  apply-run = apply-run;
  mask-run = mask-run;
  look-run = look-run;
  mask-new = bit-zero;
}
  where
    apply-run :
        (x : Setter) (b : MemMapParamsBuilder)
        → apply x b ≡ (if admits x then some (run x b) else none)
    apply-run (sets_address _) b = refl
    apply-run _ b = refl

    mask-run :
        (x : Setter) (b : MemMapParamsBuilder)
        → (build (run x b)).0.handle.field_mask ≡ marked (marks x) (build b).0.handle.field_mask
    mask-run (sets_address _) b = refl
    mask-run _ b = refl

    look-run :
        (x : Setter) (b : MemMapParamsBuilder) (f : Field)
        → look f (build (run x b)).0.handle ≡ written (writes x f) (look f (build b).0.handle)
    look-run (sets_address _) b in_address = refl
    look-run _ b in_address = refl
    look-run _ b _ = refl

-- What a chain of setters on a new `MemMapParamsBuilder` builds, where none of them fails: a bit of
-- the mask is set exactly when one of its setters was called, and every field of the struct has the
-- value that was given last, or is zero.
map_params-chain :
    (xs : List Setter) (b : MemMapParamsBuilder)
    → chain layout xs new ≡ some b
    → ((k : ℕ) → bit k (build b).0.handle.field_mask ≡ called layout k xs)
      × ((f : Field) → look f (build b).0.handle ≡ left layout f xs (look f (build new).0.handle))
map_params-chain xs b e = new-Built layout xs b e
