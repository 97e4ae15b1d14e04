-- ===== src/Session/Endpoints/Sound.antt =====
-- What UCX has of a worker's endpoints, in whatever order the worker and its endpoints go.
use ucx_rs.Base.{ℕ, ◌≡◌, ◌∙◌, subst, true, false, some, List, [], ◌∷◌, ◌++◌, arith, All, ap}
use ucx_rs.Ffi.{History, Ucx, M, flag}
use ucx_rs.Status.{Result}
use ucx_rs.Worker.{Worker}
use ucx_rs.Worker.Teardown.{drop-Torn, flag-drop}
use ucx_rs.Ep.{Ep}
use ucx_rs.Rma.Key.{RemoteKey}
use ucx_rs.Session.Endpoints.{live}
use ucx_rs.Session.Endpoints.Steps.{
  World, Step, opened, refused, ended, closed, called, unpacked, not_unpacked, transferred, pointed,
  compared, key_dropped, gone, elsewhere,
}
use ucx_rs.Session.Endpoints.Counting.{Agrees, struck, needed, All-remove}
use ucx_rs.Session.Endpoints.Effects.{
  call_by-live, transfer_by-live, IsOf, Fits, create_ep-Fits, end_by-live, end_by-over, Torn-live,
  close-live, Idle, unpack-Idle, rkey_slice-Idle, compare-Idle, drop_key-Idle,
}

abbrev pub ep_handle : Ep → ℕ
ep_handle ep = ep.handle

module _ (u : Ucx) (w : Worker) where
  -- While the worker is there, UCX has of it just the endpoints of the program, each as often as
  -- the program has it. Afterwards UCX has none, and the flag says so.
  pub data Sound : World → Type 0 where
    running :
        (es : List Ep) (ks : List RemoteKey) (rs : List ℕ) {h : History}
        → All (IsOf w) es
        → flag w.alive h ≡ true
        → live u w h ≡ some rs
        → Agrees ep_handle rs es
        → Sound (true, es, ks, h)
    over :
        (es : List Ep) (ks : List RemoteKey) {h : History}
        → All (IsOf w) es
        → flag w.alive h ≡ false
        → live u w h ≡ some []
        → Sound (false, es, ks, h)

  abbrev pub IsIdle : (ℕ → M (Unit {0})) → Type 0
  IsIdle others =
      (k : ℕ) (h : History)
      → (live u w (others k u h).1 ≡ live u w h) × (flag w.alive (others k u h).1 ≡ flag w.alive h)

  -- A step that leaves the endpoints and the flag alone.
  stays :
      (es : List Ep) (ks ks' : List RemoteKey) (rs : List ℕ) (h : History) {h' : History}
      → Idle u w h h'
      → All (IsOf w) es
      → flag w.alive h ≡ true
      → live u w h ≡ some rs
      → Agrees ep_handle rs es
      → Sound (true, es, ks', h')
  stays es ks ks' rs h (k', f) shared up k counts =
      running es ks' rs shared (f w.alive ∙ up) (k' ∙ k) counts

  pub Step-Sound :
      (others : ℕ → M (Unit {0})) {s t : World}
      → IsIdle others
      → Step u w others s t
      → Sound s
      → Sound t
  Step-Sound others idle (opened params es ks ep {h} e) (running _ _ rs shared up k counts) =
      let (k', f, own) = subst (Fits u w h rs) e (create_ep-Fits u w params h rs k) in
      running (ep ∷ es) ks (ep.handle ∷ rs) (own, shared) (f ∙ up) k'
        (λ q. ground (arith, counts q))
  Step-Sound others idle (refused params es ks x {h} e) (running _ _ rs shared up k counts) =
      let (k', f, own) = subst (Fits u w h rs) e (create_ep-Fits u w params h rs k) in
      running es ks rs shared (f ∙ up) k' counts
  Step-Sound others idle (ended by _ xs ep ys es ks h e) (running _ _ rs shared up k counts) =
      let (own, rest) = All-remove (IsOf w) xs ep ys (subst (All (IsOf w)) e shared) in
      let (left, struck_out, same) = struck ep_handle xs ep ys es rs e counts in
      let (k', f) = end_by-live u w by ep h (ap (λ (a : ℕ). flag a h) own ∙ up) k in
      running (xs ++ ys) ks left rest (f w.alive ∙ up) (k' ∙ struck_out) same
  Step-Sound others idle (ended by _ xs ep ys es ks h e) (over _ _ shared down k) =
      let (own, rest) = All-remove (IsOf w) xs ep ys (subst (All (IsOf w)) e shared) in
      let still = end_by-over u w by ep h (ap (λ (a : ℕ). flag a h) own ∙ down) in
      over (xs ++ ys) ks rest (ap (flag w.alive) still ∙ down) (ap (live u w) still ∙ k)
  Step-Sound others idle (closed flags v xs ep ys es ks h e) (running _ _ rs shared up k counts) =
      let (own, rest) = All-remove (IsOf w) xs ep ys (subst (All (IsOf w)) e shared) in
      let (left, struck_out, same) = struck ep_handle xs ep ys es rs e counts in
      let (k', f) = close-live u w flags v ep h k in
      running (xs ++ ys) ks left rest (f ∙ up) (k' ∙ struck_out) same
  Step-Sound others idle (called c xs ep ys es ks h e) (running _ _ rs shared up k counts) =
      let (k', f) = call_by-live u w c ep h k in
      running es ks rs shared (f w.alive ∙ up) (k' ∙ needed ep_handle xs ep ys es rs e counts)
        counts
  Step-Sound others idle (unpacked xs ep ys es ks buffer key {h} e q)
        (running _ _ rs shared up k counts) =
      let i = unpack-Idle u w ep buffer h (needed ep_handle xs ep ys es rs e counts) k in
      stays es ks (key ∷ ks) rs h (subst (λ (r : Result RemoteKey × History). Idle u w h r.1) q i)
        shared up k counts
  Step-Sound others idle (not_unpacked xs ep ys es ks buffer x {h} e q)
        (running _ _ rs shared up k counts) =
      let i = unpack-Idle u w ep buffer h (needed ep_handle xs ep ys es rs e counts) k in
      stays es ks ks rs h (subst (λ (r : Result RemoteKey × History). Idle u w h r.1) q i) shared up
        k counts
  Step-Sound others idle (transferred t xs ep ys es xks key yks ks h e d)
        (running _ _ rs shared up k counts) =
      let (k', f) = transfer_by-live u w t ep key h k in
      running es ks rs shared (f w.alive ∙ up) (k' ∙ needed ep_handle xs ep ys es rs e counts)
        counts
  Step-Sound others idle (pointed es xks key yks ks addr len h d)
        (running _ _ rs shared up k counts) =
      stays es ks ks rs h (rkey_slice-Idle u w key addr len h) shared up k counts
  Step-Sound others idle (compared _ es xks key yks xos other yos ks v h d c)
        (running _ _ rs shared up k counts) =
      stays es ks ks rs h (compare-Idle u w key other v h) shared up k counts
  Step-Sound others idle (compared _ es xks key yks xos other yos ks v h d c)
        (over _ _ shared down k) =
      let (k', f) = compare-Idle u w key other v h in over es ks shared (f w.alive ∙ down) (k' ∙ k)
  Step-Sound others idle (key_dropped es xks key yks ks h d) (running _ _ rs shared up k counts) =
      stays es ks (xks ++ yks) rs h (drop_key-Idle u w key h) shared up k counts
  Step-Sound others idle (gone es ks h) (running _ _ rs shared up k counts) =
      over es ks shared (flag-drop w u h) (Torn-live u w (drop-Torn w u h) k)
  Step-Sound others idle (elsewhere n _ es ks h) (running _ _ rs shared up k counts) =
      running es ks rs shared ((idle n h).1 ∙ up) ((idle n h).0 ∙ k) counts
  Step-Sound others idle (elsewhere n _ es ks h) (over _ _ shared down k) =
      over es ks shared ((idle n h).1 ∙ down) ((idle n h).0 ∙ k)
