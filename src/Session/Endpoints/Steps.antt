-- ===== src/Session/Endpoints/Steps.antt =====
-- What a program can do with a worker, its endpoints and its keys, one step at a time.
use ucx_rs.Base.{ℕ, ◌≡◌, Bool, true, false, List, [], ◌∷◌, ◌++◌}
use ucx_rs.Ffi.{History, Ucx, M}
use ucx_rs.Status.{Status, ok, err}
use ucx_rs.Worker.{Worker}
use ucx_rs.Worker
use ucx_rs.Ep.{Ep}
use ucx_rs.Ep
use ucx_rs.Ep.Params.{Params}
use ucx_rs.Rma.Key.{RemoteKey}
use ucx_rs.Rma.Key
use ucx_rs.Session.Endpoints.{Ending, end_by, Call, call_by, Transfer, transfer_by}

-- Whether the worker is still there, and the endpoints and keys that the program has.
abbrev pub World : Type 0
World = Bool × List Ep × List RemoteKey × History

-- What a program does with the worker still there, or guarded by its flag: the steps that have `b`
-- for whether it is there look at the flag, and the others are taken only while it is there. An
-- endpoint is moved into what ends it, so it is used up. `others` is what else happens in between.
module _ (u : Ucx) (w : Worker) (others : ℕ → M (Unit {0})) where
  pub data Step : World → World → Type 0 where
    opened :
        (params : Params) (es : List Ep) (ks : List RemoteKey) (ep : Ep) {h h' : History}
        → Ep.create_ep w params u h ≡ (ok ep, h')
        → Step (true, es, ks, h) (true, ep ∷ es, ks, h')
    refused :
        (params : Params) (es : List Ep) (ks : List RemoteKey) (e : Status) {h h' : History}
        → Ep.create_ep w params u h ≡ (err e, h')
        → Step (true, es, ks, h) (true, es, ks, h')
    ended :
        (by : Ending) (b : Bool) (xs : List Ep) (ep : Ep) (ys es : List Ep) (ks : List RemoteKey)
        (h : History)
        → es ≡ xs ++ ep ∷ ys
        → Step (b, es, ks, h) (b, xs ++ ys, ks, (end_by by ep u h).1)
    -- `close` is given a worker to progress, which can be any worker.
    closed :
        (flags : ℕ) (v : Worker) (xs : List Ep) (ep : Ep) (ys es : List Ep) (ks : List RemoteKey)
        (h : History)
        → es ≡ xs ++ ep ∷ ys
        → Step (true, es, ks, h) (true, xs ++ ys, ks, (Ep.close ep v flags u h).1)
    called :
        (c : Call) (xs : List Ep) (ep : Ep) (ys es : List Ep) (ks : List RemoteKey) (h : History)
        → es ≡ xs ++ ep ∷ ys
        → Step (true, es, ks, h) (true, es, ks, (call_by c ep u h).1)
    unpacked :
        (xs : List Ep) (ep : Ep) (ys es : List Ep) (ks : List RemoteKey) (buffer : List ℕ)
        (key : RemoteKey) {h h' : History}
        → es ≡ xs ++ ep ∷ ys
        → Key.unpack ep buffer u h ≡ (ok key, h')
        → Step (true, es, ks, h) (true, es, key ∷ ks, h')
    not_unpacked :
        (xs : List Ep) (ep : Ep) (ys es : List Ep) (ks : List RemoteKey) (buffer : List ℕ)
        (e : Status) {h h' : History}
        → es ≡ xs ++ ep ∷ ys
        → Key.unpack ep buffer u h ≡ (err e, h')
        → Step (true, es, ks, h) (true, es, ks, h')
    transferred :
        (t : Transfer) (xs : List Ep) (ep : Ep) (ys es : List Ep) (xks : List RemoteKey)
        (key : RemoteKey) (yks ks : List RemoteKey) (h : History)
        → es ≡ xs ++ ep ∷ ys
        → ks ≡ xks ++ key ∷ yks
        → Step (true, es, ks, h) (true, es, ks, (transfer_by t ep key u h).1)
    pointed :
        (es : List Ep) (xks : List RemoteKey) (key : RemoteKey) (yks ks : List RemoteKey)
        (remote_addr len : ℕ) (h : History)
        → ks ≡ xks ++ key ∷ yks
        → Step (true, es, ks, h) (true, es, ks, (Key.rkey_slice key remote_addr len u h).1)
    -- With any other key of the program and any worker, also after the worker of the key is gone.
    compared :
        (b : Bool) (es : List Ep) (xks : List RemoteKey) (key : RemoteKey) (yks : List RemoteKey)
        (xos : List RemoteKey) (other : RemoteKey) (yos ks : List RemoteKey) (v : Worker)
        (h : History)
        → ks ≡ xks ++ key ∷ yks
        → ks ≡ xos ++ other ∷ yos
        → Step (b, es, ks, h) (b, es, ks, (Key.compare key other v u h).1)
    key_dropped :
        (es : List Ep) (xks : List RemoteKey) (key : RemoteKey) (yks ks : List RemoteKey)
        (h : History)
        → ks ≡ xks ++ key ∷ yks
        → Step (true, es, ks, h) (true, es, xks ++ yks, (Key.drop key u h).1)
    gone :
        (es : List Ep) (ks : List RemoteKey) (h : History)
        → Step (true, es, ks, h) (false, es, ks, (Worker.drop w u h).1)
    elsewhere :
        (k : ℕ) (b : Bool) (es : List Ep) (ks : List RemoteKey) (h : History)
        → Step (b, es, ks, h) (b, es, ks, (others k u h).1)

  pub data Reach (h₀ : History) : World → Type 0 where
    start : Reach h₀ (true, [], [], h₀)
    later : {s t : World} → Reach h₀ s → Step s t → Reach h₀ t
