-- ===== src/Build/Validation.antt =====
-- build.rs: when the check of the version rejects a build.
use ucx_rs.Base.{
  ℕ, ◌/◌, ◌%◌, ◌^◌, ◌≤◌, ◌<◌, ◌≡◌, ◌⊎◌, refl, ◌∙◌, ap, some, none, arith, inl, inr, Bool-cases,
  Option-cases, true, false, Option, Bool, ◌&&◌, ltb, if◌then◌else◌,
}
use ucx_rs.Build.Reading.{Text}
use ucx_rs.Build.{
  Host, main, Ending, built, broken, rejected, Verdict, judge, below_minimum, above_maximum,
  supported, check_version, asked, provide, by_verdict, run_check, generate, FilePath,
}
use ucx_rs.Build.Output.{program_output, check_version-output}

judge_lem :
    (v : ℕ)
    → let major = v / 10000 in
      let minor = (v % 10000) / 100 in
      judge major minor ≡ (
        if ltb v 11900
        then below_minimum major minor
        else if ltb v 12300
        then supported major minor
        else above_maximum major minor)
unfolding judge
judge_lem v = ground arith

-- The check is made: fresh bindings were asked for and something was put into `OUT_DIR`, and the
-- check program was written and compiled.
pub record Checks (host : Host) : Type 0 where
  pub has_dir : (dir : FilePath) × (host.out_dir ≡ some dir)
  pub is_asked : asked host.generate_bindings ≡ true
  pub provided : provide host ≡ true
  pub written : host.writes_check ≡ true
  pub compiled : host.cc ≡ some true

main-Checks :
    (host : Host) (output : Text)
    → host.check_output ≡ some output
    → Checks host
    → main host ≡ by_verdict (check_version output)
unfolding main
main-Checks host output e c = rw (c.has_dir.1, c.is_asked, c.provided, c.written, c.compiled, e)

run_check-rejected :
    (host : Host) (cc : Option Bool) (x : Verdict) → run_check host cc ≡ rejected x → cc ≡ some true
run_check-rejected host none x e = cc
run_check-rejected host (some false) x e = cc
run_check-rejected host (some true) x e = refl

generate-rejected :
    (host : Host) (t : Bool) (x : Verdict)
    → generate host t ≡ rejected x
    → (t ≡ true)
      × (provide host ≡ true)
      × (host.writes_check ≡ true)
      × (run_check host host.cc ≡ rejected x)
generate-rejected host false x e = elim (Bool-cases host.copies) [
  | inl q ↦ absurd (cc (rw q at e))
  | inr q ↦ absurd (cc (rw q at e))
]
generate-rejected host true x e = elim (Bool-cases (provide host)) [
  | inr q ↦ absurd (cc (rw q at e))
  | inl q ↦ elim (Bool-cases host.writes_check) [
    | inl r ↦ (refl, q, r, rw (q, r) at e)
    | inr r ↦ absurd (cc (rw (q, r) at e))
  ]
]

rejected-Checks : (host : Host) (x : Verdict) → main host ≡ rejected x → Checks host
unfolding main
rejected-Checks host x e = elim (Option-cases host.out_dir) [
  | inl q ↦ absurd (cc (rw q at e))
  | inr (dir, q) ↦
      let (wanted, given, check, ran) =
        generate-rejected host (asked host.generate_bindings) x (rw q at e) in
      record {
        has_dir = (dir, q);
        is_asked = wanted;
        provided = given;
        written = check;
        compiled = run_check-rejected host host.cc x ran;
      }
]

abbrev is_some : {A : Type 0} → Option A → Bool
is_some none = false
is_some (some a) = true

abbrev is_success : Option Bool → Bool
is_success (some true) = true
is_success _ = false

abbrev pub is_checked : Host → Bool
is_checked host =
    is_some host.out_dir
    && asked host.generate_bindings
    && provide host
    && host.writes_check
    && is_success host.cc

is_some-some : {A : Type 0} (o : Option A) → is_some o ≡ true → (a : A) × (o ≡ some a)
is_some-some none e = cc
is_some-some (some a) e = (a, refl)

is_success-some : (o : Option Bool) → is_success o ≡ true → o ≡ some true
is_success-some none e = cc
is_success-some (some true) e = refl
is_success-some (some false) e = cc

checked-Checks : (host : Host) → is_checked host ≡ true → Checks host
checked-Checks host e = record {
  has_dir = is_some-some host.out_dir (ground (arith, e));
  is_asked = ground (arith, e);
  provided = ground (arith, e);
  written = ground (arith, e);
  compiled = is_success-some host.cc (ground (arith, e));
}

Checks-checked : (host : Host) → Checks host → is_checked host ≡ true
Checks-checked host c = rw (c.has_dir.1, c.is_asked, c.provided, c.written, c.compiled) refl

-- How the script ends, where the check program prints the version number `v`.
pub data Validated (host : Host) (v : ℕ) (r : Ending) : Type 0 where
  too_old :
      is_checked host ≡ true
      → v < 11900
      → r ≡ rejected (below_minimum (v / 10000) ((v % 10000) / 100))
      → Validated host v r
  too_new :
      is_checked host ≡ true
      → 12300 ≤ v
      → r ≡ rejected (above_maximum (v / 10000) ((v % 10000) / 100))
      → Validated host v r
  in_range : is_checked host ≡ true → 11900 ≤ v → v < 12300 → r ≡ built → Validated host v r
  unchecked : is_checked host ≡ false → (r ≡ built) ⊎ (r ≡ broken) → Validated host v r

-- For a check program that prints the version number `v` as it is written to. The check is made
-- exactly when `OUT_DIR` is set, fresh bindings were asked for, bindings were put there, and the
-- program was written and compiled. If it is made, the build is rejected as too old when `v` is
-- below 1.19.0, and as too new when `v` is 1.23.0 or above, each with the major and the minor
-- number of `v`, and succeeds otherwise. If it is not made, no version is rejected.
pub main-Validated :
    (host : Host) (v : ℕ)
    → v < 2 ^ 31
    → host.check_output ≡ some (program_output v)
    → Validated host v (main host)
main-Validated host v fits e = elim (Bool-cases (is_checked host)) [
  | inl made ↦ by_version made (
      main-Checks host _ e (checked-Checks host made)
      ∙ ap by_verdict (check_version-output v fits ∙ judge_lem v))
  | inr not_made ↦ unchecked not_made (by_end not_made (main host) refl)
]
  where
    by_version :
        is_checked host ≡ true
        → main host
          ≡ by_verdict (
              if ltb v 11900
              then below_minimum (v / 10000) ((v % 10000) / 100)
              else if ltb v 12300
              then supported (v / 10000) ((v % 10000) / 100)
              else above_maximum (v / 10000) ((v % 10000) / 100))
        → Validated host v (main host)
    by_version made ends = elim (Bool-cases (ltb v 11900)) [
      | inl old ↦ too_old made (ground (arith, old)) (rw old at ends)
      | inr recent ↦ elim (Bool-cases (ltb v 12300)) [
        | inl early ↦
            in_range made (ground (arith, recent)) (ground (arith, early))
              (rw (recent, early) at ends)
        | inr late ↦ too_new made (ground (arith, late)) (rw (recent, late) at ends)
      ]
    ]

    by_end :
        is_checked host ≡ false
        → (r : Ending) → main host ≡ r
        → (main host ≡ built) ⊎ (main host ≡ broken)
    by_end not_made built q = inl q
    by_end not_made broken q = inr q
    by_end not_made (rejected x) q =
        absurd (cc (not_made, Checks-checked host (rejected-Checks host x q)))
