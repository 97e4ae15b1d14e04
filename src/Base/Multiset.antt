-- ===== src/Base/Multiset.antt =====
-- Lists of numbers as multisets: how often a number is in one, and striking one out.
use Prim.Native.Nat.{ℕ, suc, ◌<◌}
use mathlib.Core.Path.{◌≡◌, refl}
use mathlib.Core.Logic.{inl, inr}
use mathlib.Core.Option.{Option, none, some}
use mathlib.Core.List.{List, [], ◌∷◌}
use native.Mathlib.Omega.{arith}
use ucx_rs.Base.Tests.{◌==◌, if◌then◌else◌, Bool-cases}

abbrev pub keep : ℕ → Option (List ℕ) → Option (List ℕ)
keep x none = none
keep x (some xs) = some (x ∷ xs)

-- One less of this number; `none` if there is none.
abbrev pub strike : ℕ → List ℕ → Option (List ℕ)
strike e [] = none
strike e (x ∷ xs) = let rest = keep x (strike e xs) in if e == x then some xs else rest

abbrev pub count : ℕ → List ℕ → ℕ
count q [] = 0
count q (x ∷ xs) = let rest = count q xs in if q == x then suc rest else rest

-- What is there can be struck, and then there is one less of it and as many of the others.
pub strike_lem :
    (e : ℕ) (rs : List ℕ)
    → 0 < count e rs
    → (left : List ℕ) × (strike e rs ≡ some left) × ((q : ℕ) → count q rs ≡ count q (e ∷ left))
strike_lem e [] h = absurd (omega arith)
strike_lem e (x ∷ xs) h = elim (Bool-cases (e == x)) [
  | inl same ↦ (xs, rw same, λ q. ground (arith, same))
  | inr other ↦
      let (left, struck, counts) = strike_lem e xs (ground (arith, other)) in
      (x ∷ left, ground (arith, other, struck), λ q. ground (arith, other, counts q))
]

pub strike_absent : (e : ℕ) (rs : List ℕ) → count e rs ≡ 0 → strike e rs ≡ none
strike_absent e [] h = refl
strike_absent e (x ∷ xs) h = ground (arith, strike_absent e xs)
