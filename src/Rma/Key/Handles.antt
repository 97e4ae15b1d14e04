-- ===== src/Rma/Key/Handles.antt =====
-- Remote keys as handles: comparison, and the buffers of the packers.
use ucx_rs.Base.{
  ℕ, ◌≡◌, refl, ◌≢◌, inl, inr, Bool, List, ◌∷◌, arith, length, ◌<◌, ◌^◌, ◌==◌, Bool-cases, true,
}
use ucx_rs.Ffi.{
  History, Ucx, M, pure, ◌>>=◌, ◌>>◌, flag, rkey_pack, rkey_compare, err_invalid_param,
  ep_rkey_unpack, ucs_ok,
}
use ucx_rs.Status.{Status, Result, ok, err, map_ok, status_to_result, status_value_is_err}
use ucx_rs.Ep.{Ep}
use ucx_rs.Worker.{Worker}
use ucx_rs.Rma.Key.Framing.{unframe-frame}
use ucx_rs.Rma.Key.{
  RemoteKey, PackedRkeyBuffer, refuses, compare, pack_rkey, pack, from_raw_parts, unpack,
  frame_rkey_payload, PackedRkeyBuffer_drop, unframe_rkey_payload,
}

-- Both keys and the worker share one `alive` flag, and it reads true.
pub record Comparable (self other : RemoteKey) (w : Worker) (h : History) : Type 0 where
  pub same_keys : self.worker_alive ≡ other.worker_alive
  pub same_worker : self.worker_alive ≡ w.alive
  pub alive : flag w.alive h ≡ true

abbrev refused : RemoteKey → RemoteKey → Worker → History → Bool
refused self other w h = refuses (flag self.worker_alive h) (flag other.worker_alive h) self other w

-- Keys that are not of the given worker, or whose worker has been destroyed, are refused without
-- a call of UCX.
compare_refused :
    (self other : RemoteKey) (w : Worker) (u : Ucx) (h : History)
    → ¬ (Comparable self other w h)
    → compare self other w u h ≡ (err err_invalid_param, h)
unfolding compare
compare_refused self other w u h not_comparable = elim (Bool-cases (refused self other w h)) [
  | inl e ↦ rw (e)
  | inr e ↦ absurd (
      not_comparable
        (record { same_keys = ground arith; same_worker = ground arith; alive = ground arith }))
]

-- Keys of one live worker are compared by one call on that worker; the answer 0 means equal.
compare_allowed :
    (self other : RemoteKey) (w : Worker) (u : Ucx) (h : History)
    → Comparable self other w h
    → compare self other w u h ≡ (
      map_ok
          (λ _. u.out h (rkey_compare w.handle self.handle other.handle) == 0)
          (status_to_result (u.status h (rkey_compare w.handle self.handle other.handle))),
      rkey_compare w.handle self.handle other.handle ∷ h,
    )
unfolding compare
compare_allowed self other w u h c = ground arith

-- Packing into a buffer, copying the bytes for the wire, and dropping the buffer.
abbrev pub copy_and_drop : Result PackedRkeyBuffer → M (Result (List ℕ))
copy_and_drop (ok b) = PackedRkeyBuffer_drop b >> pure (ok b.framed)
copy_and_drop (err e) = pure (err e)

-- The two ways to pack a key are one: `RemoteKey::pack` has the effects and the result of packing
-- into a `PackedRkeyBuffer`, copying its bytes and dropping it, when UCX answers with a buffer that
-- is not null. So both release the buffer once on success and on a payload that is too long, and
-- never when UCX fails.
pack_lem :
    (context memh : ℕ) (u : Ucx) (h : History)
    → u.out h (rkey_pack context memh) ≢ 0
    → pack context memh u h ≡ (pack_rkey context memh >>= copy_and_drop) u h
unfolding pack pack_rkey from_raw_parts frame_rkey_payload PackedRkeyBuffer_drop status_to_result
pack_lem context memh u h not_null = ground arith

-- Unpacking: a malformed buffer is refused without a call; otherwise UCX is asked once, with the
-- payload, and the key shares the flag of the endpoint.
pub data Unpacks (ep : Ep) (buffer : List ℕ) (u : Ucx) (h : History)
    (r : Result RemoteKey × History) : Type 0 where
  malformed :
      (e : Status) → unframe_rkey_payload buffer ≡ err e → r ≡ (err e, h) → Unpacks ep buffer u h r
  asked :
      (payload : List ℕ)
      → unframe_rkey_payload buffer ≡ ok payload
      → r ≡ (
        map_ok
            (λ _. record {
              handle = u.out h (ep_rkey_unpack ep.handle payload);
              worker_alive = ep.worker_alive;
            })
            (status_to_result (u.status h (ep_rkey_unpack ep.handle payload))),
        ep_rkey_unpack ep.handle payload ∷ h,
      )
      → Unpacks ep buffer u h r

pub unpack-Unpacks :
    (ep : Ep) (buffer : List ℕ) (u : Ucx) (h : History)
    → Unpacks ep buffer u h (unpack ep buffer u h)
unfolding unpack
unpack-Unpacks ep buffer u h = by_frame (unframe_rkey_payload buffer) refl
  where
    by_frame :
        (r : Result (List ℕ))
        → unframe_rkey_payload buffer ≡ r
        → Unpacks ep buffer u h (unpack ep buffer u h)
    by_frame (ok payload) e = asked payload e (rw (e, unpack))
    by_frame (err x) e = malformed x e (rw (e, unpack))

-- A key of UCX is not null.
abbrev pub GivesKeys : Ucx → Type 0
GivesKeys u =
    (e : ℕ) (buffer : List ℕ) (h : History)
    → status_to_result (u.status h (ep_rkey_unpack e buffer)) ≡ ok tt
    → u.out h (ep_rkey_unpack e buffer) ≢ 0

unpack-ok :
    (ep : Ep) (sent payload : List ℕ) (u : Ucx) (h : History)
    → unframe_rkey_payload sent ≡ ok payload
    → (unpack ep sent u h).1 ≡ ep_rkey_unpack ep.handle payload ∷ h
unfolding unpack
unpack-ok ep sent payload u h e = rw (e, unpack)

-- A key that was packed and sent is unpacked from the very payload that UCX packed, when that is
-- shorter than 2^32 bytes: the endpoint that receives it makes one call, with that payload.
pub unpack-pack :
    (context memh : ℕ) (ep : Ep) (u u' : Ucx) (h h' : History)
    → u.status h (rkey_pack context memh) ≡ ucs_ok
    → length (u.bytes h (rkey_pack context memh)) < 2 ^ 32
    → (sent : List ℕ) × ((pack context memh u h).0 ≡ ok sent)
      × ((unpack ep sent u' h').1
          ≡ ep_rkey_unpack ep.handle (u.bytes h (rkey_pack context memh)) ∷ h')
unfolding pack status_to_result status_value_is_err
unpack-pack context memh ep u u' h h' good short =
    let (sent, framed, unframed, _) = unframe-frame (u.bytes h (rkey_pack context memh)) short in
    (sent, rw (good, framed), unpack-ok ep sent _ u' h' unframed)
