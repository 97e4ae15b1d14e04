-- ===== src/Threading/Matrix.antt =====
-- What the assertions come to, and which types they leave out.
use ucx_rs.Base.{Bool, true, false, Option, none, some, ◌&&◌, ◌||◌, not, ◌≡◌, refl, arith}
use ucx_rs.Threading.{
  Ty, plain, raw_pointer, dyn_send, shared_ref, unique_ref, arc, mutex, owned, declared, both, send,
  sync, Named, fields, asserted, a_context, an_am_handler, an_mt_worker, a_mem_handle,
  a_mem_handle_guard, a_stream_request, a_tag_request, a_message_handle, a_listener, a_conn_request,
  a_context_attr, a_lib_attr, a_request_state, a_request_attr, a_raw_status, a_raw_result,
}

-- A raw pointer is in it that no `unsafe impl` covers.
abbrev pub exposes : Ty → Bool
exposes plain = false
exposes raw_pointer = true
exposes dyn_send = false
exposes (shared_ref t) = exposes t
exposes (unique_ref t) = exposes t
exposes (arc t) = exposes t
exposes (mutex t) = exposes t
exposes (owned t) = exposes t
exposes (declared t) = false
exposes (both s t) = exposes s || exposes t

-- Every closure is behind a mutex; `loose`: or is owned.
abbrev mutual
  pub calm : Ty → Bool
  calm plain = true
  calm raw_pointer = true
  calm dyn_send = false
  calm (shared_ref t) = calm t
  calm (unique_ref t) = calm t
  calm (arc t) = calm t
  calm (mutex t) = loose t
  calm (owned t) = calm t
  calm (declared t) = true
  calm (both s t) = calm s && calm t

  pub loose : Ty → Bool
  loose plain = true
  loose raw_pointer = true
  loose dyn_send = true
  loose (shared_ref t) = calm t
  loose (unique_ref t) = loose t
  loose (arc t) = calm t
  loose (mutex t) = loose t
  loose (owned t) = loose t
  loose (declared t) = true
  loose (both s t) = loose s && loose t

-- The traits of types whose closures are behind mutexes.
mutual
  send-loose : (t : Ty) → loose t ≡ true → send t ≡ not (exposes t)
  send-loose plain c = refl
  send-loose raw_pointer c = refl
  send-loose dyn_send c = refl
  send-loose (shared_ref t) c = (traits-calm t c).1
  send-loose (unique_ref t) c = send-loose t c
  send-loose (arc t) c = ground (arith, traits-calm t c)
  send-loose (mutex t) c = send-loose t c
  send-loose (owned t) c = send-loose t c
  send-loose (declared t) c = refl
  send-loose (both s t) c = ground (arith, send-loose s, send-loose t)

  traits-calm : (t : Ty) → calm t ≡ true → (send t ≡ not (exposes t)) × (sync t ≡ not (exposes t))
  traits-calm plain c = (refl, refl)
  traits-calm raw_pointer c = (refl, refl)
  traits-calm dyn_send c = (cc, cc)
  traits-calm (shared_ref t) c = ((traits-calm t c).1, (traits-calm t c).1)
  traits-calm (unique_ref t) c = traits-calm t c
  traits-calm (arc t) c = ground (arith, traits-calm t c)
  traits-calm (mutex t) c = (send-loose t c, send-loose t c)
  traits-calm (owned t) c = traits-calm t c
  traits-calm (declared t) c = (refl, refl)
  traits-calm (both s t) c = ground (arith, traits-calm s, traits-calm t)

calm-fields : (n : Named) → calm (fields n) ≡ true
calm-fields a_context = refl
calm-fields _ = refl

-- The wrappers of what UCX binds to a worker, and so to the worker's thread.
abbrev pub belongs_to_worker : Named → Bool
belongs_to_worker a_context = false
belongs_to_worker an_am_handler = false
belongs_to_worker an_mt_worker = false
belongs_to_worker a_mem_handle = false
belongs_to_worker a_mem_handle_guard = false
belongs_to_worker a_context_attr = false
belongs_to_worker a_lib_attr = false
belongs_to_worker a_request_state = false
belongs_to_worker a_request_attr = false
belongs_to_worker a_raw_status = false
belongs_to_worker a_raw_result = false
belongs_to_worker _ = true

abbrev pub is_listener : Named → Bool
is_listener a_listener = true
is_listener _ = false

abbrev pub Agrees : Option Bool → Ty → Type 0
Agrees none t = Unit {0}
Agrees (some b) t = (send t ≡ b) × (sync t ≡ b)

agrees : (n : Named) → Agrees (asserted n) (fields n)
agrees a_listener = tt
agrees a_stream_request = tt
agrees a_tag_request = tt
agrees a_message_handle = tt
agrees a_conn_request = tt
agrees _ = (refl, refl)

moved : (n : Named) → (belongs_to_worker n && send (fields n)) ≡ is_listener n
moved a_listener = refl
moved _ = refl

-- About the types that src/threading_assert.rs names, and the wrappers of a guarded stream request,
-- of a tag request, of a probed message, of a listener and of a connection request: each is `Send`,
-- and `Sync`, exactly when no raw pointer is in its fields that an `unsafe impl` does not cover; and
-- every assertion of the file holds. Of those that belong to a worker just the listener can be sent
-- to another thread: it keeps its handle as a number.
pub traits_lem :
    (n : Named)
    → (send (fields n) ≡ not (exposes (fields n)))
      × (sync (fields n) ≡ not (exposes (fields n)))
      × Agrees (asserted n) (fields n)
      × ((belongs_to_worker n && send (fields n)) ≡ is_listener n)
traits_lem n =
    let (sends, syncs) = traits-calm (fields n) (calm-fields n) in (sends, syncs, agrees n, moved n)
