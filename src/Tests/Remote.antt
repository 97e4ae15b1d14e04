-- ===== src/Tests/Remote.antt =====
-- Remote keys and one-sided operations, at concrete inputs.
use ucx_rs.Base.{◌↔◌, ℕ, ◌≡◌, refl, List, [], ◌∷◌, arith, some}
use ucx_rs.Ffi.{ep_rkey_unpack}
use ucx_rs.Status.{ok}
use ucx_rs.Worker.{max_rounds}
use ucx_rs.Worker.Polling.{owning, Guarded}
use ucx_rs.Rma.Key.{frame_rkey_payload, unframe_rkey_payload, pack, unpack}
use ucx_rs.Rma.Key.Framing.{frame_iff}
use ucx_rs.Rma.Key.Handles.{unpack-pack}
use ucx_rs.Rma.Fetch.{fetch_amo_result, free-Guarded}
use ucx_rs.Rma.Fetch
use ucx_rs.Tests.{ucx, worker, ep, started}

frame_iff_example :
    (frame_rkey_payload (7 ∷ 8 ∷ []) ≡ ok (2 ∷ 0 ∷ 0 ∷ 0 ∷ 7 ∷ 8 ∷ []))
    ↔ (unframe_rkey_payload (2 ∷ 0 ∷ 0 ∷ 0 ∷ 7 ∷ 8 ∷ []) ≡ ok (7 ∷ 8 ∷ []))
frame_iff_example =
    frame_iff (2 ∷ 0 ∷ 0 ∷ 0 ∷ 7 ∷ 8 ∷ []) (7 ∷ 8 ∷ [])
      (omega arith, (omega arith, (omega arith, (omega arith, (omega arith, (omega arith, tt))))))

unpack-pack_example :
    (sent : List ℕ) × ((pack 1 2 ucx []).0 ≡ ok sent)
    × ((unpack ep sent ucx started).1 ≡ ep_rkey_unpack 48 (7 ∷ 8 ∷ 9 ∷ []) ∷ started)
unpack-pack_example = unpack-pack 1 2 ep ucx ucx [] started refl (omega arith)

free-Guarded_example :
    Guarded ucx worker 4096 max_rounds []
      (Fetch.free (fetch_amo_result (some (owning 4096)) worker) ucx []).1
    × (Fetch.drop (fetch_amo_result (some (owning 4096)) worker) ucx []
        ≡ Fetch.free (fetch_amo_result (some (owning 4096)) worker) ucx [])
free-Guarded_example = free-Guarded worker 4096 ucx []
