-- ===== src/Base/Bits/Step.antt =====
-- One binary digit of `&` and `|` at a time, from the digit recursion that the native operations
-- stand for. That recursion takes fuel; the first two lemmas say that its amount does not matter.
use Prim.Native.Nat.{ℕ, zero, suc, ◌+◌, ◌*◌, ◌/◌, ◌%◌, ◌≤◌, bit_and, bit_or, min, max, digits}
use Prim.Native.Nat.{bit_and-bitwise, bit_or-bitwise}
use mathlib.Core.Path.{◌≡◌, refl, sym, ap, ◌∙◌}
use native.Mathlib.Omega.{arith}

module _ (rest : ℕ → ℕ) (place : ℕ → ℕ → ℕ) where
  digits-zero : (fuel y : ℕ) → digits rest place fuel zero y ≡ rest y
  digits-zero zero y = refl
  digits-zero (suc fuel) y = refl

  any_fuel :
      (fuel fuel' x y : ℕ)
      → x ≤ fuel
      → x ≤ fuel'
      → digits rest place fuel x y ≡ digits rest place fuel' x y
  any_fuel fuel fuel' zero y _ _ = digits-zero fuel y ∙ sym (digits-zero fuel' y)
  any_fuel zero fuel' (suc x) y le _ = absurd (omega arith)
  any_fuel (suc fuel) zero (suc x) y _ le = absurd (omega arith)
  any_fuel (suc fuel) (suc fuel') (suc x) y le le' =
      let halved = any_fuel fuel fuel' (suc x / 2) (y / 2) (omega arith) (omega arith) in
      ap (λ (t : ℕ). t * 2 + place (suc x % 2) (y % 2)) halved

  -- `x` steps of fuel go into the digits above the lowest one of `suc x`.
  above :
      (x y : ℕ) → digits rest place x (suc x / 2) y ≡ digits rest place (suc x / 2) (suc x / 2) y
  above x y = any_fuel x (suc x / 2) (suc x / 2) y (omega arith) (omega arith)

pub bit_or_step : (a b : ℕ) → bit_or a b ≡ bit_or (a / 2) (b / 2) * 2 + max (a % 2) (b % 2)
bit_or_step zero b = omega (arith, bit_or-bitwise 0 b, bit_or-bitwise 0 (b / 2))
bit_or_step (suc a) b = omega (
  arith,
  bit_or-bitwise (suc a) b,
  bit_or-bitwise (suc a / 2) (b / 2),
  above (λ y. y) max a (b / 2),
)

pub bit_and_step : (a b : ℕ) → bit_and a b ≡ bit_and (a / 2) (b / 2) * 2 + min (a % 2) (b % 2)
bit_and_step zero b = omega (arith, bit_and-bitwise 0 b, bit_and-bitwise 0 (b / 2))
bit_and_step (suc a) b = omega (
  arith,
  bit_and-bitwise (suc a) b,
  bit_and-bitwise (suc a / 2) (b / 2),
  above (λ y. 0) min a (b / 2),
)
