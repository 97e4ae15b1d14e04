-- ===== src/Build/Decimal.antt =====
-- build.rs: decimal numbers, as `printf` of the check program prints them with `%d` and as the
-- script reads them back.
use mathlib.Core.List.{append_assoc, append-nil}
use ucx_rs.Base.{
  ℕ, zero, suc, ◌+◌, ◌/◌, ◌%◌, ◌^◌, ◌≤◌, ◌<◌, ◌≡◌, ◌≢◌, refl, sym, ◌∙◌, ap, some, [], ◌∷◌, ◌++◌,
  All, arith, inl, inr, Bool-cases, ltb, if◌then◌else◌,
}
use ucx_rs.Build.Reading.{Text, accumulate, parse_u32, split, dot}

-- The fuel bounds the digits; a number has fewer than one more than itself.
pub decimal_within : ℕ → ℕ → Text
decimal_within zero n = []
decimal_within (suc f) n =
    let rest = decimal_within f (n / 10) in
    if ltb n 10 then (b'0' + n) ∷ [] else rest ++ (b'0' + n % 10) ∷ []

unfoldable pub decimal : ℕ → Text
unfolding decimal_within
decimal n = decimal_within (suc n) n

abbrev pub IsDigit : ℕ → Type 0
IsDigit c = (b'0' ≤ c) × (c ≤ b'9')

pub All-append : (P : ℕ → Type 0) (s t : Text) → All P s → All P t → All P (s ++ t)
All-append P [] t _ q = q
All-append P (c ∷ s) t (p, ps) q = (p, All-append P s t ps q)

decimal_within-All : (f n : ℕ) → All IsDigit (decimal_within f n)
unfolding decimal_within
decimal_within-All zero n = tt
decimal_within-All (suc f) n = elim (Bool-cases (ltb n 10)) [
  | inl t ↦ rw t ((omega arith, ground arith), tt)
  | inr t ↦ rw t (
      All-append IsDigit (decimal_within f (n / 10)) _ (decimal_within-All f (n / 10))
        ((omega arith, omega arith), tt))
]

pub decimal-All : (n : ℕ) → All IsDigit (decimal n)
unfolding decimal
decimal-All n = decimal_within-All (suc n) n

append-ne-nil : (s : Text) (c : ℕ) → s ++ c ∷ [] ≢ []
append-ne-nil [] c e = cc
append-ne-nil (d ∷ s) c e = cc

pub decimal-ne-nil : (n : ℕ) → decimal n ≢ []
unfolding decimal decimal_within
decimal-ne-nil n = elim (Bool-cases (ltb n 10)) [
  | inl t ↦ rw t (λ e. cc)
  | inr t ↦ rw t (append-ne-nil (decimal_within n (n / 10)) _)
]

-- Reading the digits of a number that fits leaves the number.
accumulate-decimal_within :
    (f n : ℕ) (t : Text)
    → n < f
    → n < 2 ^ 32
    → accumulate (decimal_within f n ++ t) 0 ≡ accumulate t n
unfolding decimal_within accumulate
accumulate-decimal_within zero n t h fits = absurd (omega arith)
accumulate-decimal_within (suc f) n t h fits = elim (Bool-cases (ltb n 10)) [
  | inl small ↦ rw small (ground (arith, small))
  | inr large ↦ rw large (
      ap (λ (s : Text). accumulate s 0) (append_assoc (decimal_within f (n / 10)) _ t)
      ∙ accumulate-decimal_within f (n / 10) ((b'0' + n % 10) ∷ t) (ground (arith, large))
          (ground arith)
      ∙ ground (arith, large))
]

parse_u32-accumulate : (s : Text) → s ≢ [] → All IsDigit s → parse_u32 s ≡ accumulate s 0
unfolding parse_u32
parse_u32-accumulate [] ne _ = absurd (ne refl)
parse_u32-accumulate (c ∷ s) ne (d, _) = ground (arith, d)

-- A number that fits is read back from its print.
pub parse_u32-decimal : (n : ℕ) → n < 2 ^ 32 → parse_u32 (decimal n) ≡ some n
unfolding decimal accumulate
parse_u32-decimal n fits =
    parse_u32-accumulate (decimal n) (decimal-ne-nil n) (decimal-All n)
    ∙ ap (λ (s : Text). accumulate s 0) (sym (append-nil (decimal n)))
    ∙ accumulate-decimal_within (suc n) n [] (omega arith) fits

-- Digits have no dot in them, and one that follows them ends a part.
pub split-digits : (s : Text) → All IsDigit s → split dot s ≡ s ∷ []
unfolding split
split-digits [] _ = refl
split-digits (c ∷ s) (d, ds) = ground (arith, split-digits s ds)

pub split-append : (s t : Text) → All IsDigit s → split dot (s ++ dot ∷ t) ≡ s ∷ split dot t
unfolding split
split-append [] t _ = refl
split-append (c ∷ s) t (d, ds) = ground (arith, split-append s t ds)
