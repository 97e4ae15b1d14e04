-- ===== src/Base/Bits.antt =====
-- Bit tests on masks. `bit k a` is the k-th binary digit of `a`; `|` is the larger digit and
-- `&` the smaller one at each place.
mod Step
use Step.{bit_or_step, bit_and_step}
use Prim.Native.Nat.{ℕ, zero, suc, ◌+◌, ◌*◌, ◌/◌, ◌%◌, ◌^◌, ◌≤◌, min, max, bit_and, bit_or}
use ucx_rs.Base.Tests.{◌==◌, if◌then◌else◌}
use mathlib.Core.Path.{◌≡◌, refl, ap, ◌∙◌}
use native.Mathlib.Nat.{pow-suc}
use native.Mathlib.Omega.{arith}

unfoldable pub bit : ℕ → ℕ → ℕ
bit zero a = a % 2
bit (suc k) a = bit k (a / 2)

pub bit-le-one : (k a : ℕ) → bit k a ≤ 1
unfolding bit
bit-le-one zero a = omega arith
bit-le-one (suc k) a = bit-le-one k (a / 2)

pub bit-zero : (k : ℕ) → bit k 0 ≡ 0
unfolding bit
bit-zero zero = refl
bit-zero (suc k) = bit-zero k

pub bit-bit_or : (k a b : ℕ) → bit k (bit_or a b) ≡ max (bit k a) (bit k b)
unfolding bit
bit-bit_or zero a b = omega (arith, bit_or_step a b)
bit-bit_or (suc k) a b =
    let halves : bit_or a b / 2 ≡ bit_or (a / 2) (b / 2) = omega (arith, bit_or_step a b) in
    omega (arith, ap (bit k) halves, bit-bit_or k (a / 2) (b / 2))

-- Halving ends after as many steps as the number is large.
bit_and-zero_below : (n a : ℕ) → a ≤ n → bit_and a 0 ≡ 0
bit_and-zero_below n zero le = refl
bit_and-zero_below zero (suc a) le = absurd (omega arith)
bit_and-zero_below (suc n) (suc a) le =
    let halved = bit_and-zero_below n (suc a / 2) (omega arith) in
    omega (arith, bit_and_step (suc a) 0, halved)

-- A mask of one bit selects the weight of that bit.
pub bit_and-pow : (k a : ℕ) → bit_and a (2 ^ k) ≡ bit k a * 2 ^ k
unfolding bit
bit_and-pow zero a =
    omega (arith, bit_and_step a 1, bit_and-zero_below (a / 2) (a / 2) (omega arith))
bit_and-pow (suc k) a = omega (
  arith,
  bit_and_step a (2 ^ suc k),
  pow-suc 2 k,
  ap (λ (t : ℕ). bit_and (a / 2) t) (half k),
  bit_and-pow k (a / 2),
  ap (λ (t : ℕ). bit k (a / 2) * t) (pow-suc 2 k),
)
  where
    half : (k : ℕ) → 2 ^ suc k / 2 ≡ 2 ^ k
    half k = omega (arith, pow-suc 2 k)

bit_or-zero_below : (n a : ℕ) → a ≤ n → bit_or a 0 ≡ a
bit_or-zero_below n zero le = refl
bit_or-zero_below zero (suc a) le = absurd (omega arith)
bit_or-zero_below (suc n) (suc a) le =
    omega (arith, bit_or_step (suc a) 0, bit_or-zero_below n (suc a / 2) (omega arith))

pub bit_or-zero : (a : ℕ) → bit_or a 0 ≡ a
bit_or-zero a = bit_or-zero_below a a (omega arith)

-- The mask of one bit.
pub bit-pow : (k n : ℕ) → bit k (2 ^ n) ≡ (if k == n then 1 else 0)
unfolding bit
bit-pow zero zero = refl
bit-pow zero (suc n) = ground (arith, pow-suc 2 n)
bit-pow (suc k) zero = ground (arith, bit-zero k)
bit-pow (suc k) (suc n) =
    let half : 2 ^ suc n / 2 ≡ 2 ^ n = omega (arith, pow-suc 2 n) in
    ap (bit k) half ∙ bit-pow k n ∙ ground arith
