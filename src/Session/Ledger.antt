-- ===== src/Session/Ledger.antt =====
-- A ledger of what the wrappers hold: which handles of UCX were made and not given back, read off
-- the history. A call that UCX refuses makes nothing.
use ucx_rs.Base.{
  inl, inr, Option-cases, ℕ, ◌≡◌, refl, arith, Bool, true, false, Option, none, some, List, [], ◌∷◌,
  ◌==◌, if◌then◌else◌,
}
use ucx_rs.Ffi.{
  Effect, History, Ucx, config_read, config_release, init_version, cleanup, worker_create,
  worker_destroy, worker_get_address, worker_release_address, ep_create, ep_close_nbx, ep_destroy,
  listener_create, listener_destroy, mem_map, mem_unmap, ep_rkey_unpack, rkey_destroy, rkey_pack,
  rkey_buffer_release,
}
use ucx_rs.Worker.Blind.{IsBlind}
use ucx_rs.Status.{Result, ok, err, status_to_result}

pub data Resource : Type 0 where
  config context worker address endpoint listener mapping key key_buffer : ℕ → Resource

abbrev pub same : Resource → Resource → Bool
same (config a) (config b) = a == b
same (context a) (context b) = a == b
same (worker a) (worker b) = a == b
same (address a) (address b) = a == b
same (endpoint a) (endpoint b) = a == b
same (listener a) (listener b) = a == b
same (mapping a) (mapping b) = a == b
same (key a) (key b) = a == b
same (key_buffer a) (key_buffer b) = a == b
same _ _ = false

abbrev pub keep : Resource → Option (List Resource) → Option (List Resource)
keep x none = none
keep x (some xs) = some (x ∷ xs)

-- What is given back must be held; it is struck out once.
abbrev pub strike : Resource → List Resource → Option (List Resource)
strike r [] = none
strike r (x ∷ xs) = let rest = keep x (strike r xs) in if same r x then some xs else rest

abbrev pub acquire : Result (Unit {0}) → Resource → List Resource → Option (List Resource)
acquire (ok _) r rs = some (r ∷ rs)
acquire (err _) r rs = some rs

module _ (u : Ucx) (h : History) where
  abbrev made : Effect → (ℕ → Resource) → List Resource → Option (List Resource)
  made e kind = acquire (status_to_result (u.status h e)) (kind (u.out h e))

  -- How one effect changes what is held.
  abbrev pub entry : Effect → List Resource → Option (List Resource)
  entry (config_read n f) = made (config_read n f) config
  entry (init_version p c) = made (init_version p c) context
  entry (worker_create c p) = made (worker_create c p) worker
  entry (worker_get_address w) = made (worker_get_address w) address
  entry (ep_create w p) = made (ep_create w p) endpoint
  entry (listener_create w p) = made (listener_create w p) listener
  entry (mem_map c p) = made (mem_map c p) mapping
  entry (ep_rkey_unpack ep b) = made (ep_rkey_unpack ep b) key
  entry (rkey_pack c m) = made (rkey_pack c m) key_buffer
  entry (config_release c) = strike (config c)
  entry (cleanup c) = strike (context c)
  entry (worker_destroy w) = strike (worker w)
  entry (worker_release_address w a) = strike (address a)
  entry (ep_close_nbx ep p) = strike (endpoint ep)
  entry (ep_destroy ep) = strike (endpoint ep)
  entry (listener_destroy l) = strike (listener l)
  entry (mem_unmap c m) = strike (mapping m)
  entry (rkey_destroy k) = strike (key k)
  entry (rkey_buffer_release b) = strike (key_buffer b)
  entry _ = some

  abbrev enter : Effect → Option (List Resource) → Option (List Resource)
  enter e none = none
  enter e (some rs) = entry e rs

-- `none` once something was given back that was not held: a double release.
unfoldable pub held : Ucx → History → Option (List Resource)
held u [] = some []
held u (e ∷ h) = enter u h e (held u h)

same_refl : (r : Resource) → same r r ≡ true
same_refl (config a) = ground arith
same_refl (context a) = ground arith
same_refl (worker a) = ground arith
same_refl (address a) = ground arith
same_refl (endpoint a) = ground arith
same_refl (listener a) = ground arith
same_refl (mapping a) = ground arith
same_refl (key a) = ground arith
same_refl (key_buffer a) = ground arith

pub strike-head : (r : Resource) (rs : List Resource) → strike r (r ∷ rs) ≡ some rs
strike-head r rs = rw (same_refl r) refl

-- An effect that makes and gives back nothing.
pub held-same :
    (u : Ucx) (h : History) (e : Effect)
    → ((rs : List Resource) → entry u h e rs ≡ some rs)
    → held u (e ∷ h) ≡ held u h
unfolding held
held-same u h e idle = elim (Option-cases (held u h)) [
  | inl q ↦ rw q
  | inr (rs, q) ↦ rw q (idle rs)
]

pub held-IsBlind : (u : Ucx) → IsBlind (held u)
held-IsBlind u = record {
  progress = λ w h. held-same u h _ (λ rs. refl);
  check = λ p h. held-same u h _ (λ rs. refl);
  free = λ p h. held-same u h _ (λ rs. refl);
}
