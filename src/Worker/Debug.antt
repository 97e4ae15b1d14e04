-- ===== src/Worker/Debug.antt =====
-- src/worker/worker.rs: `ProgressGuard`, which a debug build puts around `progress`. The flag
-- `progressing` is at `flag_address`. `callbacks` is what UCX calls while it makes progress; `none`
-- is the panic on a second call.
use ucx_rs.Base.{ℕ, ◌≡◌, Bool, true, false, Option, none, some, ltb, ◌∷◌, if◌then◌else◌, arith}
use ucx_rs.Ffi.{
  History, Ucx, M, pure, ◌>>=◌, ◌>>◌, call, call_word, load_flag, flag, store_flag, worker_progress,
}
use ucx_rs.Worker.{Worker}

-- `compare_exchange(false, true)`: whether the flag was free, and is now taken.
abbrev pub guard_new : ℕ → M Bool
guard_new flag_address = do
  taken ← load_flag flag_address
  if taken then pure false else (call (store_flag flag_address true) >> pure true)

abbrev pub guard_drop : ℕ → M (Unit {0})
guard_drop flag_address = call (store_flag flag_address false)

unfoldable pub progress_debug : ℕ → M (Unit {0}) → Worker → M (Option Bool)
progress_debug flag_address callbacks w = guard_new flag_address >>= λ free.
    if free
    then (call_word (worker_progress w.handle) >>= λ n.
        callbacks >> guard_drop flag_address >> pure (some (ltb 0 n)))
    else pure none

-- A call within a call panics, without a call of UCX and without a store to the flag.
progress_debug-nested :
    (a : ℕ) (callbacks : M (Unit {0})) (w : Worker) (u : Ucx) (h : History)
    → flag a h ≡ true
    → progress_debug a callbacks w u h ≡ (none, h)
unfolding progress_debug
progress_debug-nested a callbacks w u h taken = rw taken

-- A call that is not within another one makes its one call of UCX and leaves the flag free again,
-- and while its callbacks run the flag is taken, so that a call of theirs panics.
progress_debug-exclusive :
    (a : ℕ) (callbacks inner : M (Unit {0})) (w : Worker) (u : Ucx) (h : History)
    → flag a h ≡ false
    → (flag a (progress_debug a callbacks w u h).1 ≡ false)
      × (progress_debug a inner w u (worker_progress w.handle ∷ store_flag a true ∷ h)
          ≡ (none, worker_progress w.handle ∷ store_flag a true ∷ h))
unfolding progress_debug
progress_debug-exclusive a callbacks inner w u h free = (
  rw free (ground arith),
  progress_debug-nested a inner w u (worker_progress w.handle ∷ store_flag a true ∷ h)
      (ground arith),
)
