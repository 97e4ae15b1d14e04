-- ===== src/Session/Endpoints/Counting.antt =====
-- Lists of endpoints or of keys, as far as it matters how often each handle is in them, against the
-- list of the handles that UCX has.
use ucx_rs.Base.{
  count, strike, strike_lem, ℕ, ◌≡◌, refl, ◌∙◌, ap, some, List, [], ◌∷◌, ◌++◌, arith, All,
}
use ucx_rs.Session.Endpoints.{needs}

module _ {A : Type 0} (handle : A → ℕ) where
  abbrev pub handles : List A → List ℕ
  handles [] = []
  handles (x ∷ xs) = handle x ∷ handles xs

  -- UCX has each as often as the program does.
  abbrev pub Agrees : List ℕ → List A → Type 0
  Agrees rs xs = (q : ℕ) → count q rs ≡ count q (handles xs)

  count-remove :
      (q : ℕ) (xs : List A) (x : A) (ys : List A)
      → count q (handles (xs ++ x ∷ ys)) ≡ count q (handle x ∷ handles (xs ++ ys))
  count-remove q [] x ys = refl
  count-remove q (y ∷ xs) x ys = ground (arith, count-remove q xs x ys)

  module _ (xs : List A) (x : A) (ys all : List A) (rs : List ℕ) (split : all ≡ xs ++ x ∷ ys)
      (agrees : Agrees rs all) where
    among : (q : ℕ) → count q rs ≡ count q (handle x ∷ handles (xs ++ ys))
    among q = agrees q ∙ ap (λ (l : List A). count q (handles l)) split ∙ count-remove q xs x ys

    -- One less, on both sides.
    pub struck : (left : List ℕ) × (strike (handle x) rs ≡ some left) × Agrees left (xs ++ ys)
    struck =
        let (left, k, fewer) = strike_lem (handle x) rs (ground (arith, among (handle x))) in
        (left, k, λ q. ground (arith, among q, fewer q))

    -- What the program has may be used.
    pub needed : needs (handle x) rs ≡ some rs
    needed = ground (arith, among (handle x))

pub All-remove :
    {A : Type 0} (P : A → Type 0) (xs : List A) (x : A) (ys : List A)
    → All P (xs ++ x ∷ ys)
    → P x × All P (xs ++ ys)
All-remove P [] x ys a = a
All-remove P (y ∷ xs) x ys (p, a) = let (q, b) = All-remove P xs x ys a in (q, (p, b))
