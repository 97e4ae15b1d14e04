-- ===== src/Session/Endpoints/Keyed.antt =====
-- What UCX has of a worker's remote keys, in whatever order the worker and its endpoints go.
use ucx_rs.Base.{
  ℕ, ◌≡◌, ◌∙◌, subst, sym, Bool, true, false, some, List, [], ◌∷◌, ◌++◌, arith, All, ap,
}
use ucx_rs.Ffi.{History, Ucx, M, flag}
use ucx_rs.Status.{Result}
use ucx_rs.Worker.{Worker}
use ucx_rs.Worker.Teardown.{drop-Torn}
use ucx_rs.Ep.{Ep}
use ucx_rs.Rma.Key.{RemoteKey}
use ucx_rs.Rma.Key.Handles.{GivesKeys}
use ucx_rs.Session.Endpoints.Steps.{
  World, Step, opened, refused, ended, closed, called, unpacked, not_unpacked, transferred, pointed,
  compared, key_dropped, gone, elsewhere,
}
use ucx_rs.Session.Endpoints.Counting.{Agrees, struck, needed, All-remove}
use ucx_rs.Session.Endpoints.Effects.{IsOf}
use ucx_rs.Session.Endpoints.Sound.{Sound, running, over}
use ucx_rs.Session.Endpoints.Keys.{
  kept, IsKeyOf, KeyFits, create_ep-kept, end_by-kept, close-kept, call_by-kept, Torn-kept,
  unpack-KeyFits, transfer_by-kept, rkey_slice-kept, drop-kept, compare-kept, compare-over,
}

abbrev key_handle : RemoteKey → ℕ
key_handle key = key.handle

module _ (u : Ucx) (w : Worker) where
  -- While the worker is there, UCX has of it just the keys of the program, each as often as the
  -- program has it. Afterwards UCX has none.
  pub data Keyed : World → Type 0 where
    keyed :
        (es : List Ep) (ks : List RemoteKey) (rs : List ℕ) {h : History}
        → All (IsKeyOf u w) ks
        → kept u w h ≡ some rs
        → Agrees key_handle rs ks
        → Keyed (true, es, ks, h)
    keyless :
        (es : List Ep) (ks : List RemoteKey) {h : History}
        → All (IsKeyOf u w) ks
        → kept u w h ≡ some []
        → Keyed (false, es, ks, h)

  abbrev pub SparesKeys : (ℕ → M (Unit {0})) → Type 0
  SparesKeys others = (k : ℕ) (h : History) → kept u w (others k u h).1 ≡ kept u w h

  pub Step-Keyed :
      (others : ℕ → M (Unit {0})) {s t : World}
      → SparesKeys others
      → GivesKeys u
      → Step u w others s t
      → Sound u w s
      → Keyed s
      → Keyed t
  Step-Keyed others spares gives (opened params es ks ep {h} e) sound (keyed _ _ rs own k counts) =
      keyed (ep ∷ es) ks rs own
        (ap (λ (r : Result Ep × History). kept u w r.1) (sym e) ∙ create_ep-kept u w params h ∙ k)
        counts
  Step-Keyed others spares gives (refused params es ks x {h} e) sound (keyed _ _ rs own k counts) =
      keyed es ks rs own
        (ap (λ (r : Result Ep × History). kept u w r.1) (sym e) ∙ create_ep-kept u w params h ∙ k)
        counts
  Step-Keyed others spares gives (ended by _ xs ep ys es ks h e) sound (keyed _ _ rs own k counts) =
      keyed (xs ++ ys) ks rs own (end_by-kept u w by ep h ∙ k) counts
  Step-Keyed others spares gives (ended by _ xs ep ys es ks h e) sound (keyless _ _ own k) =
      keyless (xs ++ ys) ks own (end_by-kept u w by ep h ∙ k)
  Step-Keyed others spares gives (closed flags v xs ep ys es ks h e) sound
        (keyed _ _ rs own k counts) =
      keyed (xs ++ ys) ks rs own (close-kept u w flags v ep h ∙ k) counts
  Step-Keyed others spares gives (called c xs ep ys es ks h e) sound (keyed _ _ rs own k counts) =
      keyed es ks rs own (call_by-kept u w c ep h ∙ k) counts
  Step-Keyed others spares gives (unpacked xs ep ys es ks buffer key {h} e q)
        (running _ _ _ shared up _ _) (keyed _ _ rs own k counts) =
      let of_ep = (All-remove (IsOf w) xs ep ys (subst (All (IsOf w)) e shared)).0 in
      let (k', new) =
        subst (KeyFits u w h rs) q (unpack-KeyFits u w ep buffer h rs gives of_ep k) in
      keyed es (key ∷ ks) (key.handle ∷ rs) (new, own) k' (λ q. ground (arith, counts q))
  Step-Keyed others spares gives (not_unpacked xs ep ys es ks buffer x {h} e q)
        (running _ _ _ shared up _ _) (keyed _ _ rs own k counts) =
      let of_ep = (All-remove (IsOf w) xs ep ys (subst (All (IsOf w)) e shared)).0 in
      keyed es ks rs own
        (subst (KeyFits u w h rs) q (unpack-KeyFits u w ep buffer h rs gives of_ep k)) counts
  Step-Keyed others spares gives (transferred t xs ep ys es xks key yks ks h e d) sound
        (keyed _ _ rs own k counts) =
      keyed es ks rs own
        (transfer_by-kept u w t ep key h k ∙ needed key_handle xks key yks ks rs d counts) counts
  Step-Keyed others spares gives (pointed es xks key yks ks addr len h d) sound
        (keyed _ _ rs own k counts) =
      keyed es ks rs own
        (rkey_slice-kept u w key addr len h k ∙ needed key_handle xks key yks ks rs d counts) counts
  Step-Keyed others spares gives (compared _ es xks key yks xos other yos ks v h d c) sound
        (keyed _ _ rs own k counts) =
      keyed es ks rs own
        (compare-kept u w key other v h (needed key_handle xks key yks ks rs d counts)
          (needed key_handle xos other yos ks rs c counts) k)
        counts
  Step-Keyed others spares gives (compared _ es xks key yks xos other yos ks v h d c)
        (over _ _ shared down _) (keyless _ _ own k) =
      let of_key = (All-remove (IsKeyOf u w) xks key yks (subst (All (IsKeyOf u w)) d own)).0.0 in
      let still = compare-over u key other v h (ap (λ (a : ℕ). flag a h) of_key ∙ down) in
      keyless es ks own (ap (λ (r : Result Bool × History). kept u w r.1) still ∙ k)
  Step-Keyed others spares gives (key_dropped es xks key yks ks h d) sound
        (keyed _ _ rs own k counts) =
      let (it, rest) = All-remove (IsKeyOf u w) xks key yks (subst (All (IsKeyOf u w)) d own) in
      let (left, struck_out, same) = struck key_handle xks key yks ks rs d counts in
      keyed es (xks ++ yks) left rest (drop-kept u w key h it.1 k ∙ struck_out) same
  Step-Keyed others spares gives (gone es ks h) sound (keyed _ _ rs own k counts) =
      keyless es ks own (Torn-kept u w (drop-Torn w u h) k)
  Step-Keyed others spares gives (elsewhere n _ es ks h) sound (keyed _ _ rs own k counts) =
      keyed es ks rs own (spares n h ∙ k) counts
  Step-Keyed others spares gives (elsewhere n _ es ks h) sound (keyless _ _ own k) =
      keyless es ks own (spares n h ∙ k)
