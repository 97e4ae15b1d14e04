-- ===== src/Context/Opening.antt =====
-- When a context opens, in terms of the setters that were called on its parameters.
use ucx_rs.Base.{
  ℕ, ◌≡◌, refl, sym, ap, ◌∙◌, ◌||◌, Bool, true, false, not, ◌&&◌, some, List, [], ◌∷◌, ◌==◌,
  bit_and-pow, if◌then◌else◌, arith,
}
use ucx_rs.Ffi.{ℤ, pos, Ucx, History, M, pure, err_invalid_param}
use ucx_rs.Status.{Result, err}
use ucx_rs.Masked.{Value, number, signed, chain, called, left, chain-keeps}
use ucx_rs.Context.{Config, Context, init, new as open_context, lacks_features, lacks_sharing}
use ucx_rs.Context.Params.{ParamsBuilder, new, build, is_nonzero}
use ucx_rs.Context.Params.Chain.{
  Setter, sets_features, sets_mt_workers_shared, in_features, in_mt_workers_shared, layout, run,
  build-chain,
}

-- What `features` and `mt_workers_shared` were called with last.
unfoldable pub features_of : List Setter → ℕ → ℕ
features_of [] n = n
features_of (sets_features f ∷ xs) n = features_of xs f
features_of (_ ∷ xs) n = features_of xs n

unfoldable pub shared_of : List Setter → ℤ → ℤ
shared_of [] v = v
shared_of (sets_mt_workers_shared w ∷ xs) v = shared_of xs w
shared_of (_ ∷ xs) v = shared_of xs v

left-features :
    (xs : List Setter) (n : ℕ) → left layout in_features xs (number n) ≡ number (features_of xs n)
unfolding left features_of
left-features [] n = refl
left-features (sets_features f ∷ xs) n = left-features xs f
left-features (_ ∷ xs) n = left-features xs n

left-shared :
    (xs : List Setter) (v : ℤ)
    → left layout in_mt_workers_shared xs (signed v) ≡ signed (shared_of xs v)
unfolding left shared_of
left-shared [] v = refl
left-shared (sets_mt_workers_shared w ∷ xs) v = left-shared xs w
left-shared (_ ∷ xs) v = left-shared xs v

-- A setter that was not called has set nothing.
uncalled-features : (xs : List Setter) (n : ℕ) → called layout 0 xs ≡ 0 → features_of xs n ≡ n
unfolding called features_of
uncalled-features [] n e = refl
uncalled-features (sets_features f ∷ xs) n e = absurd (omega (arith, e))
uncalled-features (_ ∷ xs) n e = uncalled-features xs n (omega (arith, e))

uncalled-shared : (xs : List Setter) (v : ℤ) → called layout 5 xs ≡ 0 → shared_of xs v ≡ v
unfolding called shared_of
uncalled-shared [] v e = refl
uncalled-shared (sets_mt_workers_shared w ∷ xs) v e = absurd (omega (arith, e))
uncalled-shared (_ ∷ xs) v e = uncalled-shared xs v (omega (arith, e))

-- The builder's flag says whether the value in the struct is other than zero.
abbrev Flagged : ParamsBuilder → Type 0
Flagged b = b.mt_workers_shared ≡ is_nonzero b.uninit_handle.mt_workers_shared

run-Flagged :
    (x : Setter) (b : ParamsBuilder) → layout.admits x b ≡ true → Flagged b → Flagged (run x b)
run-Flagged (sets_mt_workers_shared v) b t p = refl
run-Flagged _ b t p = p

chain-Flagged : (xs : List Setter) (b : ParamsBuilder) → chain layout xs new ≡ some b → Flagged b
chain-Flagged xs b e = chain-keeps layout Flagged run-Flagged xs new b e refl

test_within : (t w : Bool) → (t ≡ true → w ≡ true) → (t || w) ≡ w
test_within true w h = sym (h refl)
test_within false w h = refl

flag_within : (t w : Bool) → (t ≡ true → w ≡ false) → (not w || t || not w) ≡ not w
flag_within true true h = absurd (cc (h refl))
flag_within true false h = refl
flag_within false true h = refl
flag_within false false h = refl

abbrev number_of : Value → ℕ
number_of (number n) = n
number_of _ = 0

abbrev integer_of : Value → ℤ
integer_of (signed v) = v
integer_of _ = pos 0

-- A value that was never given is zero, so a test of the value includes the test of the mask.
lacks_features-chain :
    (xs : List Setter) (b : ParamsBuilder)
    → chain layout xs new ≡ some b
    → lacks_features (build b).0 ≡ (features_of xs 0 == 0)
lacks_features-chain xs b e =
    let (selected, fields) = build-chain xs b e in
    let value = ap number_of (fields in_features ∙ left-features xs 0) in
    test_within _ _ (λ t.
      let uncalled : called layout 0 xs ≡ 0 =
        ground (arith, t, selected 0, bit_and-pow 0 b.field_mask) in
      ground (arith, value, uncalled-features xs 0 uncalled))
    ∙ ap (λ (n : ℕ). n == 0) value

lacks_sharing-chain :
    (xs : List Setter) (b : ParamsBuilder)
    → chain layout xs new ≡ some b
    → lacks_sharing (build b).0 ≡ not (is_nonzero (shared_of xs (pos 0)))
lacks_sharing-chain xs b e =
    let (selected, fields) = build-chain xs b e in
    let value = ap integer_of (fields in_mt_workers_shared ∙ left-shared xs (pos 0)) in
    rw (chain-Flagged xs b e, value)
      (flag_within _ _ (λ t.
        let uncalled : called layout 5 xs ≡ 0 =
          ground (arith, t, selected 5, bit_and-pow 5 b.field_mask) in
        ap is_nonzero (uncalled-shared xs (pos 0) uncalled)))

-- The two early returns as one test.
guarded :
    (s t : Bool) (m : M (Result Context)) (u : Ucx) (h : History)
    → (if s
          then pure (err err_invalid_param)
          else if not t
          then pure (err err_invalid_param)
          else m)
        u h
      ≡ (if not s && t then m u h else (err err_invalid_param, h))
guarded true t m u h = refl
guarded false true m u h = refl
guarded false false m u h = refl

-- For parameters that a chain of setters built, `Context::new` asks UCX for a context, with the
-- struct that was built, exactly when the features and `mt_workers_shared` that were given last are
-- other than zero; otherwise it refuses with "invalid parameter" and makes no call of UCX.
pub new-chain :
    (config : Config) (xs : List Setter) (b : ParamsBuilder) (u : Ucx) (h : History)
    → chain layout xs new ≡ some b
    → open_context config (build b).0 u h ≡ (
        if not (features_of xs 0 == 0) && is_nonzero (shared_of xs (pos 0))
        then init config (build b).0 u h
        else (err err_invalid_param, h))
unfolding open_context
new-chain config xs b u h e =
    rw (lacks_features-chain xs b e, lacks_sharing-chain xs b e)
      (guarded (features_of xs 0 == 0) (is_nonzero (shared_of xs (pos 0))) (init config (build b).0)
        u h)
