-- ===== src/Request/Params/Mask.antt =====
-- Chains of setters of the request parameters: which bits and fields they leave for UCX, and when
-- they panic. The builder asserts that its two flags for immediate completion exclude each other.
use Prim.Native.Nat.{max}
use ucx_rs.Base.{
  ℕ, ◌+◌, ◌^◌, ◌≤◌, ◌≡◌, refl, Bool, true, false, Option, none, some, List, [], ◌∷◌, arith, ◌==◌,
  inl, inr, Bool-cases, if◌then◌else◌, bit_and, bit_or, bit, bit-le-one, bit-zero, bit-bit_or,
  bit_and-pow, bit-pow,
}
use ucx_rs.Ffi.{RawRequestParam}
use ucx_rs.MemoryType.{MemoryType}
use ucx_rs.MemoryType
use ucx_rs.Masked.{
  Value, number, Layout, marked, written, chain, called, left, new-Built, chain-keeps,
}
use ucx_rs.Request.Params.{
  Builder, new, force_imm_cmpl, no_imm_cmpl, flags, reply_buffer, datatype, send_callback,
  memory_type, build, flag_no_imm_cmpl, flag_force_imm_cmpl,
}

-- A call of a setter.
pub data Setter : Type 0 where
  forces no_imms : Setter
  sets_flags sets_reply_buffer sets_datatype sets_callback : ℕ → Setter
  sets_memory_type : MemoryType → Setter

pub data Field : Type 0 where
  in_flags in_reply_buffer in_datatype in_send_callback in_memory_type : Field

abbrev run : Setter → Builder → Builder
run forces b = record b { field_mask = bit_or b.field_mask flag_force_imm_cmpl }
run no_imms b = record b { field_mask = bit_or b.field_mask flag_no_imm_cmpl }
run (sets_flags f) b = flags f b
run (sets_reply_buffer p) b = reply_buffer p b
run (sets_datatype dt) b = datatype dt b
run (sets_callback cb) b = send_callback cb b
run (sets_memory_type m) b = memory_type m b

-- `none` is a panic.
abbrev apply : Setter → Builder → Option Builder
apply forces b = force_imm_cmpl b
apply no_imms b = no_imm_cmpl b
apply (sets_flags f) b = some (flags f b)
apply (sets_reply_buffer p) b = some (reply_buffer p b)
apply (sets_datatype dt) b = some (datatype dt b)
apply (sets_callback cb) b = some (send_callback cb b)
apply (sets_memory_type m) b = some (memory_type m b)

abbrev admits : Setter → Builder → Bool
admits forces b = bit_and b.field_mask flag_no_imm_cmpl == 0
admits no_imms b = bit_and b.field_mask flag_force_imm_cmpl == 0
admits _ b = true

abbrev pub look : Field → RawRequestParam → Value
look in_flags p = number p.flags
look in_reply_buffer p = number p.reply_buffer
look in_datatype p = number p.datatype
look in_send_callback p = number p.send_callback
look in_memory_type p = number p.memory_type

-- The bit of the mask that documents a setter, and what it writes into the fields.
abbrev place : Setter → ℕ
place forces = 18
place no_imms = 16
place (sets_flags f) = 4
place (sets_reply_buffer p) = 5
place (sets_datatype dt) = 3
place (sets_callback cb) = 1
place (sets_memory_type m) = 6

abbrev writes : Setter → Field → Option Value
writes (sets_flags f) in_flags = some (number f)
writes (sets_reply_buffer p) in_reply_buffer = some (number p)
writes (sets_datatype dt) in_datatype = some (number dt)
writes (sets_callback cb) in_send_callback = some (number cb)
writes (sets_memory_type m) in_memory_type =
    some (number (MemoryType.discriminant (MemoryType.to_ffi m)))
writes _ _ = none

abbrev pub layout : Layout
layout = record {
  Builder = Builder;
  Setter = Setter;
  Field = Field;
  new = new;
  apply = apply;
  mask = λ b. (build b).op_attr_mask;
  look = λ f b. look f (build b);
  admits = admits;
  run = run;
  marks = λ x. some (place x);
  writes = writes;
  apply-run = apply-run;
  mask-run = mask-run;
  look-run = look-run;
  mask-new = bit-zero;
}
  where
    apply-run :
        (x : Setter) (b : Builder) → apply x b ≡ (if admits x b then some (run x b) else none)
    apply-run forces b = refl
    apply-run _ b = refl

    mask-run :
        (x : Setter) (b : Builder)
        → (build (run x b)).op_attr_mask ≡ marked (some (place x)) (build b).op_attr_mask
    mask-run forces b = refl
    mask-run _ b = refl

    look-run :
        (x : Setter) (b : Builder) (f : Field)
        → look f (build (run x b)) ≡ written (writes x f) (look f (build b))
    look-run forces b in_flags = refl
    look-run _ b in_flags = refl
    look-run _ b _ = refl

-- Not both of the flags that exclude each other.
abbrev Exclusive : Builder → Type 0
Exclusive b = bit 16 b.field_mask + bit 18 b.field_mask ≤ 1

bit-run :
    (x : Setter) (b : Builder) (k : ℕ)
    → bit k (run x b).field_mask ≡ max (bit k b.field_mask) (if k == place x then 1 else 0)
bit-run forces b k = ground (arith, bit-bit_or k b.field_mask (2 ^ 18), bit-pow k 18)
bit-run x b k = ground (arith, bit-bit_or k b.field_mask (2 ^ place x), bit-pow k (place x))

run-Exclusive : (x : Setter) (b : Builder) → admits x b ≡ true → Exclusive b → Exclusive (run x b)
run-Exclusive forces b t ex = ground (
  arith,
  bit_and-pow 16 b.field_mask,
  bit-run forces b 16,
  bit-run forces b 18,
  bit-le-one 18 (run forces b).field_mask,
)
run-Exclusive no_imms b t ex = ground (
  arith,
  bit_and-pow 18 b.field_mask,
  bit-run no_imms b 16,
  bit-run no_imms b 18,
  bit-le-one 16 (run no_imms b).field_mask,
)
run-Exclusive x b t ex = omega (arith, bit-run x b 16, bit-run x b 18)

chain-Exclusive : (xs : List Setter) (b : Builder) → chain layout xs new ≡ some b → Exclusive b
chain-Exclusive xs b e =
    chain-keeps layout Exclusive run-Exclusive xs new b e (omega (arith, bit-zero 16, bit-zero 18))

called-le-one : (k : ℕ) (xs : List Setter) → called layout k xs ≤ 1
unfolding called
called-le-one k [] = omega arith
called-le-one k (x ∷ xs) = ground (arith, called-le-one k xs)

-- Both flags are set, in the mask or by the chain.
abbrev Clash : List Setter → Builder → Type 0
Clash xs b =
    (max (bit 16 b.field_mask) (called layout 16 xs) ≡ 1)
    × (max (bit 18 b.field_mask) (called layout 18 xs) ≡ 1)

refused-Clash :
    (x : Setter) (xs : List Setter) (b : Builder) → admits x b ≡ false → Clash (x ∷ xs) b
unfolding called
refused-Clash forces xs b t = ground (
  arith,
  bit_and-pow 16 b.field_mask,
  bit-le-one 16 b.field_mask,
  bit-le-one 18 b.field_mask,
  called-le-one 16 xs,
  called-le-one 18 xs,
)
refused-Clash no_imms xs b t = ground (
  arith,
  bit_and-pow 18 b.field_mask,
  bit-le-one 16 b.field_mask,
  bit-le-one 18 b.field_mask,
  called-le-one 16 xs,
  called-le-one 18 xs,
)
refused-Clash _ xs b t = cc

run-Clash : (x : Setter) (xs : List Setter) (b : Builder) → Clash xs (run x b) → Clash (x ∷ xs) b
unfolding called
run-Clash x xs b clash = ground (arith, bit-run x b 16, bit-run x b 18)

chain-Clash : (xs : List Setter) (b : Builder) → chain layout xs b ≡ none → Clash xs b
unfolding chain
chain-Clash [] b e = cc
chain-Clash (x ∷ xs) b e = elim (Bool-cases (admits x b)) [
  | inl t ↦ run-Clash x xs b (chain-Clash xs (run x b) (rw (layout.apply-run x b, t) at e))
  | inr t ↦ refused-Clash x xs b t
]

-- How a chain on a new builder ends.
pub data Ends (xs : List Setter) (r : Option Builder) : Type 0 where
  panics : called layout 16 xs ≡ 1 → called layout 18 xs ≡ 1 → r ≡ none → Ends xs r
  builds :
      (b : Builder)
      → called layout 16 xs + called layout 18 xs ≤ 1
      → r ≡ some b
      → ((k : ℕ) → bit k (build b).op_attr_mask ≡ called layout k xs)
      → ((f : Field) → look f (build b) ≡ left layout f xs (look f (build new)))
      → Ends xs r

-- A chain of setters on a new builder panics exactly when it calls both `no_imm_cmpl` and
-- `force_imm_cmpl`, in either order. Otherwise the mask of the built parameters has exactly the
-- bits of the setters that were called, in whatever order and however often, and every field has
-- the value that was given last, or is zero.
pub request-chain : (xs : List Setter) → Ends xs (chain layout xs new)
request-chain xs = by_end (chain layout xs new) refl
  where
    by_end : (r : Option Builder) → chain layout xs new ≡ r → Ends xs (chain layout xs new)
    by_end none e =
        let (no_imm, force) = chain-Clash xs new e in
        panics (omega (arith, no_imm, bit-zero 16)) (omega (arith, force, bit-zero 18)) e
    by_end (some b) e =
        let (bits, fields) = new-Built layout xs b e in
        builds b (omega (arith, bits 16, bits 18, chain-Exclusive xs b e)) e bits fields
