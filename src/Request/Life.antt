-- ===== src/Request/Life.antt =====
-- The life of a request: any uses of it, and then one of the ways to give it up.
use ucx_rs.Base.{
  All, subst, zero, true, ℕ, suc, ◌≡◌, refl, Bool, false, none, some, List, [], ◌∷◌, arith,
}
use ucx_rs.Base.{◌⊎◌, inl, ltb, ◌&&◌, ◌==◌, if◌then◌else◌}
use ucx_rs.Ffi.{
  Effect, History, Ucx, M, pure, ◌>>=◌, ◌>>◌, request_check_status, request_is_completed,
  request_test, request_free, request_release, stream_recv_request_test, tag_recv_request_test,
  request_cancel, request_query as ffi_request_query,
}
use ucx_rs.Status.{Request, Result, ok, err}
use ucx_rs.Worker.{Worker, cancel_request, wait_request, progress, max_rounds}
use ucx_rs.Worker.Mt.{MtWorker, Others}
use ucx_rs.Worker.Mt
use ucx_rs.Worker.Mt.Alone.{nobody, wait_request-alone}
use ucx_rs.Request.Query.{request_query}
use ucx_rs.Request.{
  as_ptr, is_live, check_finished, is_completed, test, stream_recv_test, tag_recv_test, cancel,
  drop, release, free,
}

-- A use of a request by reference. Waiting on a shared worker lets other threads act.
pub data Use : Type 0 where
  checks completes tests stream_tests tag_tests : Use
  cancels queries : ℕ → Use
  worker_cancels waits : Worker → Use
  mt_worker_cancels : MtWorker → Use
  mt_waits : Others → MtWorker → Use

-- `request_query` takes the address, as `as_ptr` gives it, and is not called without a request.
query : ℕ → Request → M (Unit {0})
unfolding request_query as_ptr is_live
query mask r = if is_live r then (request_query (as_ptr r) mask >> pure tt) else pure tt

pub apply : Use → Request → M Request
unfolding cancel_request Mt.cancel_request check_finished is_completed test stream_recv_test
    tag_recv_test cancel query
apply checks r = check_finished r >> pure r
apply completes r = is_completed r >> pure r
apply tests r = test r >> pure r
apply stream_tests r = stream_recv_test r >> pure r
apply tag_tests r = tag_recv_test r >> pure r
apply (cancels w) r = cancel w r
apply (queries mask) r = query mask r >> pure r
apply (worker_cancels w) r = cancel_request w r >> pure r
apply (waits w) r = wait_request w r >> pure r
apply (mt_worker_cancels m) r = Mt.cancel_request m r >> pure r
apply (mt_waits others m) r = Mt.wait_request others m r >> pure r

pub data End : Type 0 where
  drops frees releases : End

pub end : End → Request → M (Unit {0})
unfolding drop free release
end drops r = drop r
end frees r = free r
end releases r = release r

pub live : List Use → End → Request → M (Unit {0})
live [] e r = end e r
live (x ∷ xs) e r = do r' ← apply x r; live xs e r'

-- The effects that hand a request back to UCX, and those that give UCX its address.
abbrev pub gives_back : ℕ → Effect → Bool
gives_back p (request_free q) = p == q
gives_back p (request_release q) = p == q
gives_back p _ = false

abbrev pub mentions : ℕ → Effect → Bool
mentions p (request_check_status q) = p == q
mentions p (request_is_completed q) = p == q
mentions p (request_test q) = p == q
mentions p (stream_recv_request_test q) = p == q
mentions p (tag_recv_request_test q) = p == q
mentions p (ffi_request_query q mask) = p == q
mentions p (request_cancel w q) = p == q
mentions p (request_free q) = p == q
mentions p (request_release q) = p == q
mentions p _ = false

abbrev pub times_given_back : ℕ → History → ℕ
times_given_back p [] = 0
times_given_back p (e ∷ h) =
    if gives_back p e then suc (times_given_back p h) else times_given_back p h

-- How many effects of the history mention a request that has been given back before.
abbrev pub uses_after_free : ℕ → History → ℕ
uses_after_free p [] = 0
uses_after_free p (e ∷ h) =
    if mentions p e && ltb 0 (times_given_back p h)
    then suc (uses_after_free p h)
    else uses_after_free p h

-- A request owns its address, or has given it back.
pub record Owns (p : ℕ) (r : Request) (h : History) : Type 0 where
  pub owner :
      ((r.handle ≡ some p) × (times_given_back p h ≡ 0))
      ⊎ ((r.handle ≡ none) × (times_given_back p h ≡ 1))
  pub orderly : uses_after_free p h ≡ 0

-- What does not touch the request.
abbrev pub Spares : ℕ → M (Unit {0}) → Type 0
Spares p m =
    (u : Ucx) (h : History)
    → (times_given_back p (m u h).1 ≡ times_given_back p h)
      × (uses_after_free p (m u h).1 ≡ uses_after_free p h)

abbrev pub OthersSpare : ℕ → Others → Type 0
OthersSpare p others = (i : ℕ) → Spares p (others i).0 × Spares p (others i).1

-- A request is neither `Send` nor `Sync`, so other threads cannot touch it.
abbrev pub IsOfThread : ℕ → Use → Type 0
IsOfThread p (mt_waits others m) = OthersSpare p others
IsOfThread p _ = Unit {0}

module _ (p : ℕ) (r : Request) (u : Ucx) where
  spared-Owns : (m : M (Unit {0})) (h : History) → Spares p m → Owns p r h → Owns p r (m u h).1
  spared-Owns m h spares o = ground (arith, spares u h)

  check_finished-Owns : (h : History) → Owns p r h → Owns p r (check_finished r u h).1
  unfolding check_finished
  check_finished-Owns h o = ground arith

  progress-Owns : (w : Worker) (h : History) → Owns p r h → Owns p r (progress w u h).1
  unfolding progress
  progress-Owns w h o = ground arith

  module _ (others : Others) (m : MtWorker) (spare : OthersSpare p others) where
    next_round-Owns :
        (i n : ℕ)
        → ((h : History) → Owns p r h → Owns p r (Mt.poll others (suc i) n r m u h).1)
        → (a : Result Bool) (h : History) → Owns p r h
        → Owns p r (Mt.next_round (Mt.poll others (suc i) n r m) m (others i) a u h).1
    next_round-Owns i n rest (ok true) h o = o
    next_round-Owns i n rest (ok false) h o = rest _ (
        spared-Owns (others i).1 _ (spare i).1
          (progress-Owns m.worker _ (spared-Owns (others i).0 h (spare i).0 o)))
    next_round-Owns i n rest (err e) h o = o

    poll-Owns : (i n : ℕ) (h : History) → Owns p r h → Owns p r (Mt.poll others i n r m u h).1
    unfolding Mt.poll
    poll-Owns i zero h o = o
    poll-Owns i (suc n) h o =
        next_round-Owns i n (poll-Owns (suc i) n) _ _ (check_finished-Owns h o)

    mt_wait_request-Owns : (h : History) → Owns p r h → Owns p r (Mt.wait_request others m r u h).1
    unfolding Mt.wait_request
    mt_wait_request-Owns h o = poll-Owns 0 max_rounds h o

  -- As on a shared worker that no other thread uses.
  wait_request-Owns : (w : Worker) (h : History) → Owns p r h → Owns p r (wait_request w r u h).1
  wait_request-Owns w h o =
      subst (λ (t : Result Bool × History). Owns p r t.1)
        (wait_request-alone (record { worker = w }) r u h)
        (mt_wait_request-Owns nobody (record { worker = w })
          (λ i. (λ v g. (refl, refl), λ v g. (refl, refl))) h o)

apply-Owns :
    (p : ℕ) (x : Use) (r : Request) (u : Ucx) (h : History)
    → IsOfThread p x
    → Owns p r h
    → Owns p (apply x r u h).0 (apply x r u h).1
unfolding apply
apply-Owns p (waits w) r u h t o = wait_request-Owns p r u w h o
apply-Owns p (mt_waits others m) r u h t o = mt_wait_request-Owns p r u others m t h o
apply-Owns p checks r u h t o = ground arith
apply-Owns p _ r u h t o = ground arith

end-Owns :
    (p : ℕ) (e : End) (r : Request) (u : Ucx) (h : History)
    → Owns p r h
    → (times_given_back p (end e r u h).1 ≡ 1) × (uses_after_free p (end e r u h).1 ≡ 0)
unfolding end
end-Owns p drops r u h o = ground arith
end-Owns p _ r u h o = ground arith

live-Owns :
    (p : ℕ) (xs : List Use) (e : End) (r : Request) (u : Ucx) (h : History)
    → All (IsOfThread p) xs
    → Owns p r h
    → (times_given_back p (live xs e r u h).1 ≡ 1) × (uses_after_free p (live xs e r u h).1 ≡ 0)
unfolding live
live-Owns p [] e r u h t o = end-Owns p e r u h o
live-Owns p (x ∷ xs) e r u h t o = live-Owns p xs e _ u _ t.1 (apply-Owns p x r u h t.0 o)

-- A request that UCX has handed out and that was not given back before is given back to UCX exactly
-- once over its life, and never mentioned to UCX after that. Over its life it is, any number of
-- times and in any order, checked, asked whether it is completed, tested, tested as a stream or as
-- a tag receive, queried while it is live, waited for on a worker or on a shared worker, and
-- cancelled, by itself, on a worker or on a shared worker; then it is dropped, freed or released.
-- What other threads do during a wait on a shared worker does not touch the request.
pub given_back_once :
    (p : ℕ) (xs : List Use) (e : End) (u : Ucx) (h : History)
    → All (IsOfThread p) xs
    → times_given_back p h ≡ 0
    → uses_after_free p h ≡ 0
    → let h' = (live xs e (record { handle = some p }) u h).1 in
      (times_given_back p h' ≡ 1) × (uses_after_free p h' ≡ 0)
given_back_once p xs e u h own fresh orderly =
    live-Owns p xs e _ u h own (record { owner = inl (refl, fresh); orderly = orderly })
