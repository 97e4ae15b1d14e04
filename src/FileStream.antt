-- ===== src/FileStream.antt =====
-- src/config.rs: `with_file_stream`, which opens a stream on a copy of a descriptor of the caller
-- for one call of UCX, and the functions that print with it. A descriptor is an `int`.
use ucx_rs.Base.{
  ℕ, ◌≡◌, ◌≢◌, refl, Bool, Bool-cases, true, false, Option, none, some, List, ◌∷◌, ◌==◌, inl, inr,
  if◌then◌else◌, arith,
}
use ucx_rs.Ffi.{
  ℤ, as_i32, is_negative, History, Ucx, M, pure, ◌>>=◌, ◌>>◌, call, call_word, dup, fdopen,
  close_fd, fclose, print_info as ffi_print_info, Printed, of_config, of_context, of_worker, of_ep,
  of_memory,
}
use ucx_rs.Masked.{nul_free}

-- `fclose` closes the descriptor that the stream owns.
abbrev pub with_stream : {A : Type 0} → ℤ → ℕ → (ℕ → M A) → M (Option A)
with_stream duplicate stream f =
    if stream == 0
    then call (close_fd duplicate) >> pure none
    else (f stream >>= λ result. call (fclose stream) >> pure (some result))

abbrev pub on_duplicate : {A : Type 0} → ℤ → (ℕ → M A) → M (Option A)
on_duplicate duplicate f =
    if is_negative duplicate
    then pure none
    else (call_word (fdopen duplicate) >>= λ stream. with_stream duplicate stream f)

unfoldable pub with_file_stream : {A : Type 0} → ℤ → (ℕ → M A) → M (Option A)
with_file_stream fd f = call_word (dup fd) >>= λ duplicate. on_duplicate (as_i32 duplicate) f

-- The printing functions differ in the call of UCX that they make with the stream.
unfoldable pub print_info : Printed → ℕ → ℤ → M (Unit {0})
unfolding with_file_stream
print_info what handle fd =
    with_file_stream fd (λ stream. call (ffi_print_info what handle stream)) >> pure tt

-- `Context::print_info` and `context_print_info`, `Worker::print_info` and `Ep::print_info`.
pub Context_print_info : ℕ → ℤ → M (Unit {0})
Context_print_info context fd = print_info of_context context fd

pub context_print_info : ℕ → ℤ → M (Unit {0})
context_print_info context fd = print_info of_context context fd

pub Worker_print_info : ℕ → ℤ → M (Unit {0})
Worker_print_info worker fd = print_info of_worker worker fd

pub Ep_print_info : ℕ → ℤ → M (Unit {0})
Ep_print_info ep fd = print_info of_ep ep fd

-- `Config::print`: a title with a zero byte is passed over.
unfoldable pub Config_print : ℕ → List ℕ → ℤ → M (Unit {0})
unfolding print_info
Config_print handle title fd = if nul_free title then print_info of_config handle fd else pure tt

-- `mem_print_info`: `false` is the error for a zero byte.
unfoldable pub mem_print_info : List ℕ → ℕ → ℤ → M Bool
unfolding print_info
mem_print_info mem_spec context fd =
    if nul_free mem_spec then print_info of_memory context fd >> pure true else pure false

module _ {A : Type 0} (fd : ℤ) (f : ℕ → M A) (u : Ucx) (h : History) where
  -- The copy of the descriptor, and the stream that is opened on the copy.
  abbrev pub copy : ℤ
  copy = as_i32 (u.word h (dup fd))

  abbrev pub opened : ℕ
  opened = u.word (dup fd ∷ h) (fdopen copy)

  -- The call of the caller's closure, with the stream.
  abbrev pub ran : A × History
  ran = f opened u (fdopen copy ∷ dup fd ∷ h)

  pub data Closes (r : Option A × History) : Type 0 where
    no_copy : is_negative copy ≡ true → r ≡ (none, dup fd ∷ h) → Closes r
    no_stream :
        is_negative copy ≡ false
        → opened ≡ 0
        → r ≡ (none, close_fd copy ∷ fdopen copy ∷ dup fd ∷ h)
        → Closes r
    used :
        is_negative copy ≡ false → opened ≢ 0 → r ≡ (some ran.0, fclose opened ∷ ran.1) → Closes r

  by_stream :
      is_negative copy ≡ false → Closes (with_stream copy opened f u (fdopen copy ∷ dup fd ∷ h))
  by_stream e = elim (Bool-cases (opened == 0)) [
    | inl null ↦ rw null (no_stream e (ground (arith, null)) refl)
    | inr there ↦ rw there (used e (ground (arith, there)) refl)
  ]

  by_copy : Closes (on_duplicate copy f u (dup fd ∷ h))
  by_copy = elim (Bool-cases (is_negative copy)) [
    | inl failed ↦ rw failed (no_copy failed refl)
    | inr made ↦ rw made (by_stream made)
  ]

-- A stream that is opened on a copy of a descriptor is closed, whatever is done with it, and the
-- code closes nothing else: if the copy fails, nothing was opened, and nothing is closed; if the
-- stream fails, the copy itself is closed, once and last; otherwise the call is made once, with
-- that stream, and the stream itself, which owns the copy, is closed, once and last. Only then is
-- there a result, which is that of the call.
pub with_file_stream-Closes :
    {A : Type 0} (fd : ℤ) (f : ℕ → M A) (u : Ucx) (h : History)
    → Closes fd f u h (with_file_stream fd f u h)
unfolding with_file_stream
with_file_stream-Closes fd f u h = by_copy fd f u h
