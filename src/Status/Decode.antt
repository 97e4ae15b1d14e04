-- ===== src/Status/Decode.antt =====
-- The status decoder: what each address decodes to.
use ucx_rs.Base.{
  ℕ, suc, ◌-◌, ◌^◌, ◌<◌, ◌≡◌, ◌≢◌, ◌↔◌, refl, sym, ap, ◌∙◌, true, List, [], ◌∷◌, arith,
}
use ucx_rs.Base.{◌==◌, ==_iff, ◌⊎◌, All, Bool-cases, inl, inr}
use ucx_rs.Ffi.{
  RawStatus, ℤ, pos, negsuc, discriminant, as_usize, as_i32, ucs_ok, ucs_in_progress, err_last,
}
use ucx_rs.Status.{is_err, status_from_ptr, first_arm, decode, decode_arms, status_ptr_is_err}

-- Every error status survives the trip through a status pointer: the decoder gives back the
-- status whose sign-extended code the pointer holds.
status_from_ptr-as_usize :
    (s : RawStatus) → is_err s ≡ true → status_from_ptr (as_usize (discriminant s)) ≡ s
unfolding status_from_ptr is_err
status_from_ptr-as_usize ucs_ok h = cc
status_from_ptr-as_usize ucs_in_progress h = cc
status_from_ptr-as_usize _ h = refl

-- A pointer counts as an error when it holds the code of an error status, and as none otherwise.
pub status_ptr_is_err-as_usize :
    (s : RawStatus) → status_ptr_is_err (as_usize (discriminant s)) ≡ is_err s
unfolding status_ptr_is_err is_err
status_ptr_is_err-as_usize ucs_ok = refl
status_ptr_is_err-as_usize _ = refl

first_arm-is_err :
    (k : ℕ) (arms : List (ℕ × RawStatus))
    → All (λ (a : ℕ × RawStatus). is_err a.1 ≡ true) arms
    → is_err (first_arm k arms) ≡ true
unfolding first_arm is_err
first_arm-is_err k [] h = refl
first_arm-is_err k ((n, s) ∷ arms) h = elim (Bool-cases (k == n)) [
  | inl e ↦ rw e h.0
  | inr e ↦ rw e (first_arm-is_err k arms h.1)
]

decode-is_err : (z : ℤ) → is_err (decode z) ≡ true
unfolding decode is_err
decode-is_err (pos n) = refl
decode-is_err (negsuc n) = first_arm-is_err (suc n) decode_arms (assumption (refl, tt))

-- Decoding never produces a success: whatever the pointer, the result is an error status.
pub status_from_ptr-is_err : (p : ℕ) → is_err (status_from_ptr p) ≡ true
unfolding status_from_ptr is_err
status_from_ptr-is_err p = unfold is_err in decode-is_err (as_i32 p)

-- An arm's pattern is the code of its status.
abbrev Matches : ℕ × RawStatus → Type 0
Matches a = discriminant a.1 ≡ negsuc (a.0 - 1)

first_arm-exact :
    (k : ℕ) (arms : List (ℕ × RawStatus))
    → All Matches arms
    → (first_arm k arms ≡ err_last) ⊎ (discriminant (first_arm k arms) ≡ negsuc (k - 1))
unfolding first_arm
first_arm-exact k [] h = inl refl
first_arm-exact k ((n, s) ∷ arms) h = elim (Bool-cases (k == n)) [
  | inl e ↦ rw e (inr (rw ((==_iff k n).0 e) h.0))
  | inr e ↦ rw e (first_arm-exact k arms h.1)
]

-- On an address in the error range the decoder is exact, or answers the generic `UCS_ERR_LAST`:
-- it never names another status.
status_from_ptr_exact :
    (p : ℕ)
    → status_ptr_is_err p ≡ true
    → p < 2 ^ 64
    → (status_from_ptr p ≡ err_last) ⊎ (as_usize (discriminant (status_from_ptr p)) ≡ p)
unfolding status_from_ptr status_ptr_is_err
status_from_ptr_exact p h lt =
    let low : as_i32 p ≡ negsuc (2 ^ 64 - p - 1) = ground arith in
    rw (low, decode)
      (elim (first_arm-exact (suc (2 ^ 64 - p - 1)) decode_arms (assumption (refl, tt))) [
        | inl e ↦ inl e
        | inr e ↦ inr (rw e (ground arith))
      ])

-- On an address in the error range the decoder names an error status other than the generic
-- `UCS_ERR_LAST` exactly when the address holds the code of that status; every other address of the
-- range is `UCS_ERR_LAST`.
pub status_from_ptr_iff :
    (p : ℕ) (s : RawStatus)
    → status_ptr_is_err p ≡ true
    → p < 2 ^ 64
    → is_err s ≡ true
    → s ≢ err_last
    → ((status_from_ptr p ≡ s) ↔ (as_usize (discriminant s) ≡ p))
      × ((status_from_ptr p ≡ err_last) ⊎ (as_usize (discriminant (status_from_ptr p)) ≡ p))
status_from_ptr_iff p s h lt e ne = ((named exact, decoded), exact)
  where
    exact : (status_from_ptr p ≡ err_last) ⊎ (as_usize (discriminant (status_from_ptr p)) ≡ p)
    exact = status_from_ptr_exact p h lt

    named :
        (status_from_ptr p ≡ err_last) ⊎ (as_usize (discriminant (status_from_ptr p)) ≡ p)
        → status_from_ptr p ≡ s
        → as_usize (discriminant s) ≡ p
    named (inl last) q = absurd (ne (sym q ∙ last))
    named (inr code) q = ap (λ (t : RawStatus). as_usize (discriminant t)) (sym q) ∙ code

    decoded : as_usize (discriminant s) ≡ p → status_from_ptr p ≡ s
    decoded q = ap status_from_ptr (sym q) ∙ status_from_ptr-as_usize s e
