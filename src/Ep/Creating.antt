-- ===== src/Ep/Creating.antt =====
-- What UCX gets when an endpoint is created from parameters that a chain of setters built, and what
-- it gets from a builder that builds a second time.
use ucx_rs.Base.{true, ℕ, ◌≡◌, refl, none, some, List, ◌∷◌, bit, ap, sym}
use ucx_rs.Ffi.{History, Ucx, Effect, RawEpParams, ep_create}
use ucx_rs.Status.{Result, map_ok, status_to_result}
use ucx_rs.Worker.{Worker}
use ucx_rs.Ep.{Ep, create_ep}
use ucx_rs.Ep
use ucx_rs.Masked.{chain, called, chain-keeps}
use ucx_rs.Ep.Params.{ParamsBuilder, new, build, conn_request_ptr}
use ucx_rs.Ep.Params.Chain.{Setter, sets_conn_request, run, layout, ep_params-chain}

-- The builder's struct points at the request that the builder owns, and at no string.
abbrev Owning : ParamsBuilder → Type 0
Owning b =
    (b.uninit_handle.conn_request ≡ conn_request_ptr (build b).0) × (b.uninit_handle.name ≡ none)

run-Owning :
    (x : Setter) (b : ParamsBuilder) → layout.admits x b ≡ true → Owning b → Owning (run x b)
run-Owning (sets_conn_request r) b t p = (refl, p.1)
run-Owning _ b t p = p

chain-Owning : (xs : List Setter) (b : ParamsBuilder) → chain layout xs new ≡ some b → Owning b
chain-Owning xs b e = chain-keeps layout Owning run-Owning xs new b e (refl, refl)

-- The call that creates an endpoint from a struct.
abbrev pub creating : Worker → RawEpParams → Effect
creating w handle = ep_create w.handle handle

-- One call, and the endpoint that UCX made with the flag of its worker, or its error.
abbrev pub created : Worker → RawEpParams → Ucx → History → Result Ep × History
created w handle u h = (
  map_ok (λ _. record { handle = u.out h (creating w handle); worker_alive = w.alive })
      (status_to_result (u.status h (creating w handle))),
  creating w handle ∷ h,
)

-- Creating an endpoint from what a chain of setters built makes one call, with the struct as the
-- chain left it. The endpoint is the one that UCX made, and it shares the flag of the worker; if
-- UCX refuses, its error is returned.
pub create_ep-chain :
    (w : Worker) (xs : List Setter) (b : ParamsBuilder) (u : Ucx) (h : History)
    → chain layout xs new ≡ some b
    → create_ep w (build b).0 u h ≡ created w (build b).0.handle u h
unfolding create_ep Ep.new
create_ep-chain w xs b u h e =
    ap (λ (r : ℕ). created w (record ((build b).0.handle) { conn_request = r }) u h)
      (sym (chain-Owning xs b e).0)

-- After a chain of setters, a builder is asked to build twice. In the mask of the second parameters
-- a bit is set just when the chain called for it. But their name is a null pointer, and they own no
-- connection request. With them `create_ep` makes its one call, with a null pointer for the
-- connection request, and `Ep::new` makes the same call but with the pointer to the request that
-- the first parameters own, or null if they own none. Each returns the endpoint that UCX made, with
-- the flag of the worker, or the error of UCX.
pub build_again :
    (xs : List Setter) (b : ParamsBuilder) (w : Worker) (u : Ucx) (h : History)
    → chain layout xs new ≡ some b
    → let first = (build b).0 in
      let second = (build (build b).1).0 in
      ((k : ℕ) → bit k second.handle.field_mask ≡ called layout k xs)
      × (second.handle.name ≡ none)
      × (second.conn_request ≡ none)
      × (create_ep w second u h ≡ created w (record (second.handle) { conn_request = 0 }) u h)
      × (Ep.new second w u h
          ≡ created w (record (second.handle) { conn_request = conn_request_ptr first }) u h)
unfolding create_ep Ep.new
build_again xs b w u h e = (
  (ep_params-chain xs b e).0,
  (chain-Owning xs b e).1,
  refl,
  refl,
  ap (λ (r : ℕ). created w (record ((build (build b).1).0.handle) { conn_request = r }) u h)
      (chain-Owning xs b e).0,
)
