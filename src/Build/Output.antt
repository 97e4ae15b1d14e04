-- ===== src/Build/Output.antt =====
-- build.rs: what the program that checks the version prints, and how the script reads it back.
use ucx_rs.Base.{
  ℕ, zero, suc, ◌/◌, ◌%◌, ◌^◌, ◌<◌, ◌≡◌, ◌≢◌, refl, ◌∙◌, ap, some, none, List, [], ◌∷◌, ◌++◌, All,
  arith, true, false, Option, Bool,
}
use ucx_rs.Build.Reading.{
  Text, lines, newline, dot, strip_prefix, starts_with, trim_within, trim_start_matches, split,
}
use ucx_rs.Build.Decimal.{
  decimal, IsDigit, decimal-All, decimal-ne-nil, All-append, parse_u32-decimal, split-digits,
  split-append,
}
use ucx_rs.Build.{judge, check_version, version_line, version_prefix}

-- What the check program prints for a version number.
abbrev pub release_text : ℕ → Text
release_text v =
    decimal (v / 10000) ++ dot ∷ (decimal ((v % 10000) / 100) ++ dot ∷ decimal (v % 100))

abbrev pub program_output : ℕ → Text
program_output v = (version_prefix ++ release_text v) ++ newline ∷ []

-- No line ends in it.
abbrev IsPlain : ℕ → Type 0
IsPlain c = 13 < c

lines-plain : (s : Text) → All IsPlain s → lines (s ++ newline ∷ []) ≡ s ∷ []
unfolding lines
lines-plain [] _ = refl
lines-plain (c ∷ s) (p, ps) = ground (arith, lines-plain s ps)

digits-IsPlain : (s : Text) → All IsDigit s → All IsPlain s
digits-IsPlain [] _ = tt
digits-IsPlain (c ∷ s) (d, ds) = (omega (arith, d), digits-IsPlain s ds)

release_text-IsPlain : (v : ℕ) → All IsPlain (release_text v)
release_text-IsPlain v =
    All-append IsPlain (decimal (v / 10000)) _ (digits-IsPlain _ (decimal-All (v / 10000))) (
      omega arith,
      All-append IsPlain (decimal ((v % 10000) / 100)) _
          (digits-IsPlain _ (decimal-All ((v % 10000) / 100)))
          (omega arith, digits-IsPlain _ (decimal-All (v % 100))),
    )

strip_prefix-append : (p s : Text) → strip_prefix p (p ++ s) ≡ some s
unfolding strip_prefix
strip_prefix-append [] s = refl
strip_prefix-append (c ∷ p) s = ground (arith, strip_prefix-append p s)

-- A text that starts with a digit has no prefix to strip.
strip_prefix-digits :
    (s t : Text) → s ≢ [] → All IsDigit s → strip_prefix version_prefix (s ++ t) ≡ none
unfolding strip_prefix
strip_prefix-digits [] t ne _ = absurd (ne refl)
strip_prefix-digits (c ∷ s) t ne (d, ds) = ground (arith, d)

trim_once : (f : ℕ) (p s : Text) → strip_prefix p s ≡ none → trim_within (suc f) p (p ++ s) ≡ s
unfolding trim_within
trim_once zero p s e = rw (strip_prefix-append p s, trim_within) refl
trim_once (suc f) p s e = rw (strip_prefix-append p s, e, trim_within) refl

trim_release :
    (v : ℕ) → trim_start_matches version_prefix (version_prefix ++ release_text v) ≡ release_text v
trim_release v = trim_once _ version_prefix (release_text v) (
    strip_prefix-digits (decimal (v / 10000)) _ (decimal-ne-nil (v / 10000))
      (decimal-All (v / 10000)))

starts_with-append : (p s : Text) → starts_with p (p ++ s) ≡ true
starts_with-append p s =
    ap (λ (o : Option Text). elim o as (λ _. Bool) [ none ↦ false | some rest ↦ true ])
      (strip_prefix-append p s)

version_line-head :
    (l : Text) (ls : List Text) → starts_with version_prefix l ≡ true → version_line (l ∷ ls) ≡ l
unfolding version_line
version_line-head l ls e = rw e refl

version_line-release :
    (v : ℕ) → version_line (lines (program_output v)) ≡ version_prefix ++ release_text v
version_line-release v =
    ap version_line (
      lines-plain (version_prefix ++ release_text v)
        (All-append IsPlain version_prefix (release_text v) (omega arith) (release_text-IsPlain v)))
    ∙ version_line-head _ [] (starts_with-append version_prefix (release_text v))

split-release :
    (v : ℕ)
    → split dot (release_text v)
      ≡ decimal (v / 10000) ∷ decimal ((v % 10000) / 100) ∷ decimal (v % 100) ∷ []
split-release v =
    split-append (decimal (v / 10000)) _ (decimal-All (v / 10000))
    ∙ ap (λ (l : List Text). decimal (v / 10000) ∷ l)
        (split-append (decimal ((v % 10000) / 100)) _ (decimal-All ((v % 10000) / 100))
          ∙ ap (λ (l : List Text). decimal ((v % 10000) / 100) ∷ l)
              (split-digits (decimal (v % 100)) (decimal-All (v % 100))))

-- The script reads back the version that the program prints.
pub check_version-output :
    (v : ℕ) → v < 2 ^ 31 → check_version (program_output v) ≡ judge (v / 10000) ((v % 10000) / 100)
unfolding check_version
check_version-output v fits =
    rw
      (
        version_line-release v,
        trim_release v,
        split-release v,
        parse_u32-decimal (v / 10000) (omega arith),
        parse_u32-decimal ((v % 10000) / 100) (omega arith),
      )
      refl
