-- ===== src/Worker/Mt/Sharing.antt =====
-- src/worker/worker.rs: the handles of a shared worker. `MtWorker` is an `Arc` of the mutex: a
-- clone counts up, and the handle that goes out of scope last drops the worker. Threads take turns:
-- each step is a clone, a drop of a handle, or one operation, which holds the mutex throughout.
use ucx_rs.Base.{ap, ℕ, zero, suc, ◌∙◌, ◌≡◌, refl, true, ◌∷◌, [], arith, ◌==◌, if◌then◌else◌}
use ucx_rs.Ffi.{RawRequestParam, History, Ucx, M, pure, ◌>>=◌, ◌>>◌, worker_destroy, flag}
use ucx_rs.Status.{Request}
use ucx_rs.Request
use ucx_rs.Worker.{Worker, max_rounds}
use ucx_rs.Worker
use ucx_rs.Worker.Teardown.{Torn, torn, drop-Torn}
use ucx_rs.Worker.Blind.{IsBlind, Flushed-IsBlind}
use ucx_rs.Worker.Mt.{MtWorker, lock}
use ucx_rs.Worker.Mt
use ucx_rs.Ep
use ucx_rs.Ep.Params

-- What a thread does with a handle, besides `check_finished` on a request of its own.
-- `wait_request` takes the mutex anew in each round, so it is a run of `check_finished` and
-- `progress`. The closures that threads pass to `with_worker` are numbered.
pub data Operation : Type 0 where
  progress fence wait arm signal get_efd pack_address : Operation
  flush : RawRequestParam → Operation
  cancel_request check_finished : Request → Operation
  create_ep : Ep.Params.Params → Operation
  with_worker : ℕ → Operation

abbrev forget : {A : Type 0} → M A → M (Unit {0})
forget m = m >>= λ _. pure tt

-- `Arc::clone`, on the count of the handles.
abbrev pub clone : ℕ → ℕ
clone n = suc n

-- A handle goes out of scope. With no handle left there is none to drop.
unfoldable pub release : MtWorker → ℕ → M ℕ
release m zero = pure zero
release m (suc zero) = Worker.drop (lock m) >> pure zero
release m (suc (suc n)) = pure (suc n)

module _ (bodies : ℕ → Worker → M (Unit {0})) where
  unfoldable pub operate : Operation → MtWorker → M (Unit {0})
  operate progress m = forget (Mt.progress m)
  operate fence m = forget (Mt.fence m)
  operate wait m = forget (Mt.wait m)
  operate arm m = forget (Mt.arm m)
  operate signal m = forget (Mt.signal m)
  operate get_efd m = forget (Mt.get_efd m)
  operate pack_address m = forget (Mt.pack_address m)
  operate (flush param) m = forget (Mt.flush m param)
  operate (cancel_request r) m = Mt.cancel_request m r
  operate (check_finished r) m = forget (Request.check_finished r)
  operate (create_ep params) m = forget (Mt.create_ep m params)
  operate (with_worker k) m = Mt.with_worker m (bodies k)

  -- A turn of some thread, which needs a handle.
  pub data Step (m : MtWorker) (u : Ucx) : ℕ × History → ℕ × History → Type 0 where
    cloned : (n : ℕ) (h : History) → Step m u (suc n, h) (clone (suc n), h)
    used :
        (op : Operation) (n : ℕ) (h : History) → Step m u (suc n, h) (suc n, (operate op m u h).1)
    released : (n : ℕ) (h : History) → Step m u (suc n, h) (release m (suc n) u h)

  pub data Reach (m : MtWorker) (u : Ucx) (h₀ : History) : ℕ × History → Type 0 where
    -- `MtWorker::new` makes the first handle.
    start : Reach m u h₀ (1, h₀)
    later : {s t : ℕ × History} → Reach m u h₀ s → Step m u s t → Reach m u h₀ t

-- How often the worker was destroyed.
unfoldable pub destroyed : ℕ → History → ℕ
destroyed a [] = 0
destroyed a (worker_destroy b ∷ h) = let rest = destroyed a h in if a == b then suc rest else rest
destroyed a (e ∷ h) = destroyed a h

-- The worker is neither destroyed nor marked as gone.
abbrev pub Keeps : Worker → {A : Type 0} → M A → Type 0
Keeps w m =
    (u : Ucx) (h : History)
    → (destroyed w.handle (m u h).1 ≡ destroyed w.handle h)
      × (flag w.alive (m u h).1 ≡ flag w.alive h)

destroyed-IsBlind : (a : ℕ) → IsBlind (destroyed a)
unfolding destroyed
destroyed-IsBlind a = record { progress = λ w h. refl; check = λ p h. refl; free = λ p h. refl }

operate-Keeps :
    (bodies : ℕ → Worker → M (Unit {0})) (m : MtWorker)
    → ((k : ℕ) → Keeps m.worker (bodies k m.worker))
    → (op : Operation) → Keeps m.worker (operate bodies op m)
unfolding operate destroyed Mt.progress Mt.fence Mt.wait Mt.arm Mt.signal Mt.get_efd Mt.pack_address
    Mt.flush Mt.cancel_request Mt.create_ep Worker.progress Worker.fence Worker.wait Worker.arm
    Worker.signal Worker.get_efd Worker.pack_address Worker.flush Worker.cancel_request
    Worker.WorkerAddress_drop Ep.create_ep Ep.new Request.check_finished
operate-Keeps bodies m keep progress u h = (refl, refl)
operate-Keeps bodies m keep fence u h = (refl, refl)
operate-Keeps bodies m keep wait u h = (refl, refl)
operate-Keeps bodies m keep arm u h = (refl, refl)
operate-Keeps bodies m keep signal u h = (refl, refl)
operate-Keeps bodies m keep get_efd u h = (refl, refl)
operate-Keeps bodies m keep pack_address u h = ground arith
operate-Keeps bodies m keep (flush param) u h = (refl, refl)
operate-Keeps bodies m keep (cancel_request r) u h = ground arith
operate-Keeps bodies m keep (check_finished r) u h = ground arith
operate-Keeps bodies m keep (create_ep params) u h = ground arith
operate-Keeps bodies m keep (with_worker k) u h = keep k u h

destroyed-Torn :
    (u : Ucx) (w : Worker) {h h' : History}
    → Torn u w h h'
    → destroyed w.handle h' ≡ suc (destroyed w.handle h)
unfolding destroyed
destroyed-Torn u w (torn mid f e) =
    rw e (ground (arith, Flushed-IsBlind (destroyed-IsBlind w.handle) u w f))

module _ (u : Ucx) (m : MtWorker) (h₀ : History) where
  -- With a handle left the worker is as it was; with none left it was torn down, once, and nothing
  -- was done since.
  pub data Shares : ℕ × History → Type 0 where
    held :
        (n : ℕ) {h : History}
        → destroyed m.worker.handle h ≡ destroyed m.worker.handle h₀
        → flag m.worker.alive h ≡ true
        → Shares (suc n, h)
    gone :
        (mid : History) {h : History}
        → destroyed m.worker.handle mid ≡ destroyed m.worker.handle h₀
        → destroyed m.worker.handle h ≡ suc (destroyed m.worker.handle h₀)
        → Torn u m.worker mid h
        → Shares (zero, h)

  Step-Shares :
      (bodies : ℕ → Worker → M (Unit {0}))
      → ((k : ℕ) → Keeps m.worker (bodies k m.worker))
      → {s t : ℕ × History} → Step bodies m u s t
      → Shares s
      → Shares t
  unfolding release
  Step-Shares bodies keep (cloned n h) (held k d f) = held (suc n) d f
  Step-Shares bodies keep (used op n h) (held k d f) =
      let (d', f') = operate-Keeps bodies m keep op u h in held n (d' ∙ d) (f' ∙ f)
  Step-Shares bodies keep (released zero h) (held k d f) =
      let t = drop-Torn m.worker u h in gone h d (destroyed-Torn u m.worker t ∙ ap suc d) t
  Step-Shares bodies keep (released (suc n) h) (held k d f) = held n d f

-- Threads that clone, use and drop the handles of one shared worker, in any order, destroy it once:
-- while a handle is left, the worker has not been destroyed and its flag is up; when the last one
-- is dropped, the worker is torn down by that drop, which is the last thing done, and it was
-- destroyed exactly once more than at the start. The closures given to `with_worker` may do
-- anything that neither destroys the worker nor clears its flag.
pub shared-Shares :
    (bodies : ℕ → Worker → M (Unit {0})) (m : MtWorker) (u : Ucx) (h₀ : History)
    → ((k : ℕ) → Keeps m.worker (bodies k m.worker))
    → flag m.worker.alive h₀ ≡ true
    → {s : ℕ × History} → Reach bodies m u h₀ s
    → Shares u m h₀ s
shared-Shares bodies m u h₀ keep up start = held 0 refl up
shared-Shares bodies m u h₀ keep up (later r step) =
    Step-Shares u m h₀ bodies keep step (shared-Shares bodies m u h₀ keep up r)
