-- ===== src/Am/Receive.antt =====
-- The two ways to receive the data of an active message.
use ucx_rs.Base.{ℕ, ◌≡◌, refl, true, none, some, ◌∷◌}
use ucx_rs.Ffi.{
  RawRequestParam, discriminant, as_usize, History, Ucx, ◌>>=◌, am_recv_data_nbx, request_free,
  ucs_ok, ucs_in_progress,
}
use ucx_rs.Status.{Status, err, is_err, status_ptr_to_result, status_ptr_is_err, status_from_ptr}
use ucx_rs.Request
use ucx_rs.Worker.{Worker}
use ucx_rs.Am.{am_recv_data, am_recv_data_legacy}

refused_lem :
    (s : Status) → is_err s ≡ true → status_ptr_to_result (as_usize (discriminant s)) ≡ err s
unfolding is_err status_ptr_to_result status_ptr_is_err status_from_ptr
refused_lem ucs_ok bad = cc
refused_lem ucs_in_progress bad = cc
refused_lem _ bad = refl

drop-from_raw :
    (s : Status) (u : Ucx) (h : History)
    → is_err s ≡ true
    → Request.drop (Request.from_raw (as_usize (discriminant s))) u h
      ≡ (tt, request_free (as_usize (discriminant s)) ∷ h)
unfolding is_err Request.drop Request.from_raw
drop-from_raw ucs_ok u h bad = cc
drop-from_raw _ u h bad = refl

-- When UCX refuses, with the code of an error status as the pointer, `am_recv_data` returns that
-- status and holds no request. The deprecated form returns a request at the address that the code
-- stands for, and the drop of that request frees it.
pub am_recv_data_refused :
    (s : Status) (w : Worker) (desc buffer count : ℕ) (param : RawRequestParam) (u : Ucx)
    (h : History)
    → is_err s ≡ true
    → u.word h (am_recv_data_nbx w.handle desc buffer count (some param))
      ≡ as_usize (discriminant s)
    → u.word h (am_recv_data_nbx w.handle desc buffer count none) ≡ as_usize (discriminant s)
    → (am_recv_data w desc buffer count param u h
        ≡ (err s, am_recv_data_nbx w.handle desc buffer count (some param) ∷ h))
      × ((am_recv_data_legacy w desc buffer count >>= Request.drop) u h ≡ (
        tt,
        request_free (as_usize (discriminant s))
            ∷ am_recv_data_nbx w.handle desc buffer count none
            ∷ h,
      ))
unfolding am_recv_data am_recv_data_legacy
am_recv_data_refused s w desc buffer count param u h bad e e' =
    (rw (e, refused_lem s bad), rw e' (drop-from_raw s u _ bad))
