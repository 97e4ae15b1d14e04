-- ===== src/Masked.antt =====
-- The parameter structs of UCX: a struct whose mask says which of its fields UCX reads. Each of
-- the crate's builders collects a mask and fields, and is an instance of `Layout`.
use Prim.Native.Nat.{max}
use ucx_rs.Base.{
  bit_and, ℕ, ◌^◌, ◌≤◌, ◌≡◌, refl, sym, subst, ◌∙◌, ap, Bool, true, false, Option, none, some, List,
  [], ◌∷◌, arith, bit_or,
}
use ucx_rs.Ffi.{ℤ}
use ucx_rs.Base.{not, ◌&&◌, ◌==◌, if◌then◌else◌, bit, bit-bit_or, bit-pow}

-- What a field holds: a number, an address or a code, an `i32`, an array of words; or a pointer to
-- a C string, which is null or points at bytes.
pub data Value : Type 0 where
  number : ℕ → Value
  signed : ℤ → Value
  words : List ℕ → Value
  null : Value
  text : List ℕ → Value

-- What a C string pointer holds.
abbrev pub pointee : Option (List ℕ) → Value
pointee none = null
pointee (some s) = text s

-- `CString::new` refuses bytes with a zero among them.
unfoldable pub nul_free : List ℕ → Bool
nul_free [] = true
nul_free (c ∷ s) = not (c == 0) && nul_free s

-- A string that the builder keeps replaces the pointer of the struct.
abbrev pub kept_or : Option (List ℕ) → Option (List ℕ) → Option (List ℕ)
kept_or none p = p
kept_or (some s) p = some s

-- `mask.contains(field)` of a bit set, and `bool::then_some`.
abbrev pub contains : ℕ → ℕ → Bool
contains mask field = bit_and mask field == field

abbrev pub then_some : {A : Type 0} → Bool → A → Option A
then_some t a = if t then some a else none

-- A setter may set a bit of the mask and write a field.
abbrev pub marked : Option ℕ → ℕ → ℕ
marked none m = m
marked (some k) m = bit_or m (2 ^ k)

abbrev pub written : Option Value → Value → Value
written none v = v
written (some w) v = w

-- A builder. `run` is a setter that does not fail, and `admits` says whether it fails. `mask` and
-- `look` are the mask and the fields of the built struct; `marks` and `writes` document what a
-- setter does to them.
pub record Layout : Type 1 where
  pub Builder : Type 0
  pub Setter : Type 0
  pub Field : Type 0
  pub new : Builder
  pub apply : Setter → Builder → Option Builder
  pub mask : Builder → ℕ
  pub look : Field → Builder → Value
  pub admits : Setter → Builder → Bool
  pub run : Setter → Builder → Builder
  pub marks : Setter → Option ℕ
  pub writes : Setter → Field → Option Value
  pub apply-run :
      (x : Setter) (b : Builder) → apply x b ≡ (if admits x b then some (run x b) else none)
  pub mask-run : (x : Setter) (b : Builder) → mask (run x b) ≡ marked (marks x) (mask b)
  pub look-run :
      (x : Setter) (b : Builder) (f : Field) → look f (run x b) ≡ written (writes x f) (look f b)
  pub mask-new : (k : ℕ) → bit k (mask new) ≡ 0

module _ (l : Layout) where
  open l use {
    Builder, Setter, Field, new, apply, mask, look, admits, run, marks, writes, apply-run, mask-run,
    look-run, mask-new,
  }

  abbrev and_then : Option Builder → (Builder → Option Builder) → Option Builder
  and_then none f = none
  and_then (some b) f = f b

  -- A chain of setters, which ends at the first that fails.
  unfoldable pub chain : List Setter → Builder → Option Builder
  chain [] b = some b
  chain (x ∷ xs) b = and_then (apply x b) (chain xs)

  abbrev is_bit : ℕ → Option ℕ → ℕ
  is_bit k none = 0
  is_bit k (some j) = if k == j then 1 else 0

  -- 1 if some setter of the chain sets the bit, and 0 if none does.
  unfoldable pub called : ℕ → List Setter → ℕ
  called k [] = 0
  called k (x ∷ xs) = max (is_bit k (marks x)) (called k xs)

  -- What the chain leaves in a field: what was written last, or what the field held.
  unfoldable pub left : Field → List Setter → Value → Value
  left f [] v = v
  left f (x ∷ xs) v = left f xs (written (writes x f) v)

  is_bit-le-one : (k : ℕ) (o : Option ℕ) → is_bit k o ≤ 1
  is_bit-le-one k none = omega arith
  is_bit-le-one k (some j) = ground arith

  bit-marked : (k m : ℕ) (o : Option ℕ) → bit k (marked o m) ≡ max (bit k m) (is_bit k o)
  bit-marked k m none = omega arith
  bit-marked k m (some j) = omega (arith, bit-bit_or k m (2 ^ j), bit-pow k j)

  -- The mask and the fields that a chain ends with, from those that it starts with.
  pub record Built (xs : List Setter) (b c : Builder) : Type 0 where
    pub selected : (k : ℕ) → bit k (mask c) ≡ max (bit k (mask b)) (called k xs)
    pub fields : (f : Field) → look f c ≡ left f xs (look f b)

  run-Built :
      (x : Setter) (xs : List Setter) (b c : Builder) → Built xs (run x b) c → Built (x ∷ xs) b c
  unfolding called left
  run-Built x xs b c built = record {
    selected = λ k.
        omega (arith, built.selected k, ap (bit k) (mask-run x b), bit-marked k (mask b) (marks x));
    fields = λ f. built.fields f ∙ ap (left f xs) (look-run x b f);
  }

  -- The first setter of a chain that ends well was admitted.
  after_apply {ℓ} :
      {A : Type ℓ} (x : Setter) (xs : List Setter) (b c : Builder)
      → chain (x ∷ xs) b ≡ some c
      → (admits x b ≡ true → chain xs (run x b) ≡ some c → A)
      → A
  unfolding chain
  after_apply {A = A} x xs b c e finish =
      after (admits x b) refl
        (sym (ap (λ (o : Option Builder). and_then o (chain xs)) (apply-run x b)) ∙ e)
    where
      after :
          (t : Bool)
          → admits x b ≡ t
          → and_then (if t then some (run x b) else none) (chain xs) ≡ some c
          → A
      after true q e = finish q e
      after false q e = absurd cc

  -- What every setter that does not fail keeps, a chain keeps.
  pub chain-keeps :
      (P : Builder → Type 0)
      → ((x : Setter) (b : Builder) → admits x b ≡ true → P b → P (run x b))
      → (xs : List Setter) (b c : Builder) → chain xs b ≡ some c
      → P b
      → P c
  unfolding chain
  chain-keeps P keeps [] b c e p = let same : b ≡ c = cc in subst P same p
  chain-keeps P keeps (x ∷ xs) b c e p =
      after_apply x xs b c e (λ t e'. chain-keeps P keeps xs (run x b) c e' (keeps x b t p))

  chain-Built : (xs : List Setter) (b c : Builder) → chain xs b ≡ some c → Built xs b c
  unfolding chain called left
  chain-Built [] b c e =
      let same : b ≡ c = cc in
      record {
        selected = λ k. omega (arith, ap (λ (d : Builder). bit k (mask d)) same);
        fields = λ f. ap (look f) (sym same);
      }
  chain-Built (x ∷ xs) b c e =
      after_apply x xs b c e (λ t e'. run-Built x xs b c (chain-Built xs (run x b) c e'))

  -- A chain that starts from the new builder and ends with `c` has in the mask of `c` exactly the
  -- bits of the setters that it calls, and in each field what was written last.
  pub new-Built :
      (xs : List Setter) (c : Builder)
      → chain xs new ≡ some c
      → ((k : ℕ) → bit k (mask c) ≡ called k xs) × ((f : Field) → look f c ≡ left f xs (look f new))
  new-Built xs c e =
      let built = chain-Built xs new c e in
      (λ k. omega (arith, built.selected k, mask-new k), built.fields)
