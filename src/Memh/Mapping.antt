-- ===== src/Memh/Mapping.antt =====
-- The life of a mapping, and what a query of it can say.
use ucx_rs.Base.{
  Bool, true, false, some, none, if◌then◌else◌, ℕ, ◌^◌, ◌≤◌, ◌≡◌, refl, ◌∷◌, ltb, bit, arith,
  bit-zero,
}
use ucx_rs.Ffi.{
  History, Ucx, M, pure, ◌>>=◌, ◌>>◌, mem_map, mem_unmap, mem_query, RawMapParams,
  err_invalid_param,
}
use ucx_rs.Status.{Status, Result, ok, err, status_to_result}
use ucx_rs.MemoryType.{raw_host}
use ucx_rs.Memh.MapParams.{address_slice}
use ucx_rs.Memh.MapParams
use ucx_rs.Memh.{MemHandle, map, map_slice, drop, query}

abbrev pub in_scope : (MemHandle → M (Unit {0})) → Result MemHandle → M (Result (Unit {0}))
in_scope body (ok m) = body m >> drop m >> pure (ok tt)
in_scope body (err e) = pure (err e)

-- The scope of a guard: the slice is mapped, the body runs with the handle, and the guard is
-- dropped.
unfoldable pub mapped_scope : ℕ → ℕ → ℕ → ℕ → (MemHandle → M (Unit {0})) → M (Result (Unit {0}))
unfolding drop
mapped_scope context address length flags body =
    map_slice context address length flags >>= in_scope body

-- The struct that describes a slice: its three fields and the bits 0, 1 and 2 of its mask.
abbrev pub slice_params : ℕ → ℕ → ℕ → RawMapParams
slice_params address length flags = record {
  field_mask = 7;
  address = address;
  length = length;
  flags = flags;
  prot = 0;
  memory_type = raw_host;
  exported_memh_buffer = 0;
}

module _ (context address length flags : ℕ) (body : MemHandle → M (Unit {0})) (u : Ucx)
    (h : History) where
  abbrev asking : History
  asking = mem_map context (slice_params address length flags) ∷ h

  abbrev pub got : MemHandle
  got = record {
    context = context;
    handle = u.out h (mem_map context (slice_params address length flags));
  }

  pub data Scoped (r : Result (Unit {0}) × History) : Type 0 where
    too_large : 2 ^ 32 ≤ flags → r ≡ (err err_invalid_param, h) → Scoped r
    refused :
        (e : Status)
        → status_to_result (u.status h (mem_map context (slice_params address length flags)))
          ≡ err e
        → r ≡ (err e, asking)
        → Scoped r
    unmapped :
        status_to_result (u.status h (mem_map context (slice_params address length flags))) ≡ ok tt
        → r ≡ (ok tt, mem_unmap context got.handle ∷ (body got u asking).1)
        → Scoped r

  map-Scoped :
      (a : Result (Unit {0}))
      → status_to_result (u.status h (mem_map context (slice_params address length flags))) ≡ a
      → Scoped (
          (map context (MapParams.flags flags (address_slice address length MapParams.new))
              >>= in_scope body)
            u h)
  unfolding map drop
  map-Scoped (ok t) e = rw e (unmapped e refl)
  map-Scoped (err s) e = rw e (refused s e refl)

  abbrev sized : Bool → M (Result MemHandle)
  sized fits = elim (if fits then some flags else none) [
    | none ↦ pure (err err_invalid_param)
    | some flags32 ↦
        map context (MapParams.flags flags32 (address_slice address length MapParams.new))
  ]

  by_size : (fits : Bool) → ltb flags (2 ^ 32) ≡ fits → Scoped ((sized fits >>= in_scope body) u h)
  by_size true e = map-Scoped _ refl
  by_size false e = too_large (ground (arith, e)) refl

-- The scope of a mapped slice: flags that do not fit into 32 bits are refused without a call.
-- Otherwise UCX is asked once to map exactly the slice, with the mask for address, length and
-- flags; if it refuses, its error is returned and the body does not run; if it maps, the body runs
-- and the handle that UCX gave is unmapped directly after it.
pub mapped_scope-Scoped :
    (context address length flags : ℕ) (body : MemHandle → M (Unit {0})) (u : Ucx) (h : History)
    → Scoped context address length flags body u h
        (mapped_scope context address length flags body u h)
unfolding mapped_scope map_slice
mapped_scope-Scoped context address length flags body u h =
    by_size context address length flags body u h (ltb flags (2 ^ 32)) refl

-- What UCX documents of a query: it leaves the members alone that the mask does not select, and the
-- struct was all zero.
abbrev pub LeavesUnselected : Ucx → Type 0
LeavesUnselected u =
    (h : History) (handle mask k : ℕ) → bit k mask ≡ 0 → u.member h (mem_query handle mask) k ≡ 0

-- Where UCX leaves alone what a mask does not select, a successful query of a mapping says that it
-- has address null, length 0 and host memory, whatever the mapping is.
pub query_unselected :
    (m : MemHandle) (u : Ucx) (h : History)
    → LeavesUnselected u
    → status_to_result (u.status h (mem_query m.handle 0)) ≡ ok tt
    → query m u h
      ≡ (ok (record { address = 0; length = 0; mem_type = raw_host }), mem_query m.handle 0 ∷ h)
unfolding query
query_unselected m u h leaves good = rw (
  good,
  leaves h m.handle 0 0 (bit-zero 0),
  leaves h m.handle 0 1 (bit-zero 1),
  leaves h m.handle 0 2 (bit-zero 2),
)
