-- ===== src/Worker/Mt/Admission.antt =====
-- Which workers `MtWorker::new` wraps, and what becomes of the others.
use ucx_rs.Base.{◌≡◌, ◌⊎◌, inl, inr, refl, ◌∷◌, ap}
use ucx_rs.Ffi.{History, Ucx, worker_query, err_invalid_param}
use ucx_rs.Status.{Status, Result, ok, err, map_ok, status_to_result}
use ucx_rs.ThreadMode.{ThreadMode, single, serialized, multi, unknown, from_ffi, from_discriminant}
use ucx_rs.Worker.{Worker}
use ucx_rs.Worker.Query.{WorkerAttr, query, attr_thread_mode}
use ucx_rs.Worker.Teardown.{Torn, drop-Torn}
use ucx_rs.Worker.Mt.{MtWorker, new, admit, granted}

granted-map_ok :
    (f : Unit {0} → WorkerAttr) (g : Unit {0} → ThreadMode)
    → ((a : Unit {0}) → granted (ok (f a)) ≡ ok (g a))
    → (r : Result (Unit {0})) → granted (map_ok f r) ≡ map_ok g r
granted-map_ok f g same (ok a) = same a
granted-map_ok f g same (err e) = refl

module _ (u : Ucx) (w : Worker) (h : History) where
  abbrev asked : History
  asked = worker_query w.handle attr_thread_mode ∷ h

  -- The answer of UCX: its status, and the thread mode that it filled in.
  abbrev pub mode_answered : Result ThreadMode
  mode_answered =
      map_ok
        (λ _. from_ffi (from_discriminant (u.member h (worker_query w.handle attr_thread_mode) 0)))
        (status_to_result (u.status h (worker_query w.handle attr_thread_mode)))

  -- A wrapped worker was granted a mode for several threads; a refused one is torn down.
  pub data Admits (r : Result MtWorker × History) : Type 0 where
    wrapped :
        (mode_answered ≡ ok serialized) ⊎ (mode_answered ≡ ok multi)
        → r ≡ (ok (record { worker = w }), asked)
        → Admits r
    unfit :
        (mode : ThreadMode) (h' : History)
        → mode_answered ≡ ok mode
        → (mode ≡ single) ⊎ (mode ≡ unknown)
        → Torn u w asked h'
        → r ≡ (err err_invalid_param, h')
        → Admits r
    unanswered :
        (e : Status) (h' : History)
        → mode_answered ≡ err e
        → Torn u w asked h'
        → r ≡ (err e, h')
        → Admits r

  new-mode_answered : new w u h ≡ admit w mode_answered u asked
  unfolding new query
  new-mode_answered =
      ap (λ (a : Result ThreadMode). admit w a u asked)
        (granted-map_ok _ _ (λ _. refl)
          (status_to_result (u.status h (worker_query w.handle attr_thread_mode))))

  admit-Admits : (a : Result ThreadMode) → mode_answered ≡ a → Admits (admit w a u asked)
  admit-Admits (ok serialized) e = wrapped (inl e) refl
  admit-Admits (ok multi) e = wrapped (inr e) refl
  admit-Admits (ok single) e = unfit single _ e (inl refl) (drop-Torn w u asked) refl
  admit-Admits (ok unknown) e = unfit unknown _ e (inr refl) (drop-Torn w u asked) refl
  admit-Admits (err s) e = unanswered s _ e (drop-Torn w u asked) refl

-- Wrapping a worker asks UCX once for the thread mode that it granted. The worker is wrapped
-- exactly when that mode is "serialized" or "multi"; otherwise, and when UCX refuses to answer, it
-- is torn down, and the error is "invalid parameter" or that of UCX.
pub mt_new-Admits : (w : Worker) (u : Ucx) (h : History) → Admits u w h (new w u h)
mt_new-Admits w u h = rw (new-mode_answered u w h) (admit-Admits u w h _ refl)
