-- ===== src/Threading.antt =====
-- src/threading_assert.rs and the declarations of the types that it names, and of the other types
-- that hold handles of UCX: which of them can be sent to another thread (`Send`) or shared with one
-- (`Sync`). The compiler derives both traits from the fields.
pub mod Matrix
use ucx_rs.Base.{Bool, true, false, Option, none, some, ◌&&◌, ◌||◌, not}

-- The types of fields, as far as the two traits depend on them. A number, a flag, a string or a
-- function pointer is `plain`, a pointer is `raw_pointer`, `dyn_send` is a closure that is only
-- `Send`, and `owned` is a type that passes the traits of its content on, such as `Box`, `Vec`,
-- `Option` and `PhantomData`. `declared` is a struct with an `unsafe impl` of both.
pub data Ty : Type 0 where
  plain raw_pointer dyn_send : Ty
  shared_ref unique_ref arc mutex owned declared : Ty → Ty
  both : Ty → Ty → Ty

-- `Send` and `Sync`, as the language and its standard library define them.
abbrev mutual
  pub send : Ty → Bool
  send plain = true
  send raw_pointer = false
  send dyn_send = true
  send (shared_ref t) = sync t
  send (unique_ref t) = send t
  send (arc t) = send t && sync t
  send (mutex t) = send t
  send (owned t) = send t
  send (declared t) = true
  send (both s t) = send s && send t

  pub sync : Ty → Bool
  sync plain = true
  sync raw_pointer = false
  sync dyn_send = false
  sync (shared_ref t) = sync t
  sync (unique_ref t) = sync t
  sync (arc t) = send t && sync t
  sync (mutex t) = send t
  sync (owned t) = sync t
  sync (declared t) = true
  sync (both s t) = sync s && sync t

abbrev context : Ty
context = declared raw_pointer

abbrev am_handler : Ty
am_handler = mutex (owned dyn_send)

-- In a release build.
abbrev worker : Ty
worker = both raw_pointer (both (arc plain) (owned (arc am_handler)))

abbrev mt_worker : Ty
mt_worker = declared (arc (mutex worker))

abbrev ep : Ty
ep = both raw_pointer (arc plain)

abbrev request : Ty
request = owned raw_pointer

abbrev remote_key : Ty
remote_key = both raw_pointer (arc plain)

abbrev mem_handle : Ty
mem_handle = both raw_pointer raw_pointer

abbrev mem_handle_guard : Ty
mem_handle_guard = both mem_handle (owned (unique_ref plain))

abbrev fetch_amo_request : Ty
fetch_amo_request = both (owned request) (both (shared_ref worker) (owned (unique_ref plain)))

abbrev stream_data : Ty
stream_data = both (shared_ref ep) (both raw_pointer plain)

abbrev stream_request : Ty
stream_request =
    both (owned request) (both (shared_ref worker) (both plain (owned (unique_ref plain))))

abbrev tag_request : Ty
tag_request = both (shared_ref worker) (both (owned raw_pointer) (owned (shared_ref plain)))

abbrev message_handle : Ty
message_handle = both raw_pointer (both (both plain plain) plain)

abbrev worker_address : Ty
worker_address = both raw_pointer (both plain (shared_ref worker))

-- The handle is kept as a number.
abbrev listener_state : Ty
listener_state = both (mutex plain) (owned (mutex (owned dyn_send)))

abbrev listener : Ty
listener = arc listener_state

abbrev conn_request : Ty
conn_request = both raw_pointer (arc listener_state)

-- An enum without fields.
abbrev thread_mode : Ty
thread_mode = plain

-- The size of a request, the mode, the memory types and the name, a `String`.
abbrev context_attr : Ty
context_attr = both plain (both thread_mode (both plain (owned plain)))

abbrev lib_attr : Ty
lib_attr = thread_mode

-- `ucs_status_t`, an enum without fields, and `Status`, a struct of one.
abbrev raw_status : Ty
raw_status = plain

abbrev status : Ty
status = owned raw_status

-- `Result<(), _>`.
abbrev unit_result : Ty → Ty
unit_result t = both plain t

abbrev request_state : Ty
request_state = unit_result status

abbrev request_attr : Ty
request_attr = status

-- The types that are asserted about, and the other types that hold handles of UCX.
pub data Named : Type 0 where
  a_context an_am_handler a_worker an_mt_worker an_ep a_request a_remote_key a_mem_handle : Named
  a_fetch_amo_request a_stream_data a_mem_handle_guard a_worker_address : Named
  a_stream_request a_tag_request a_message_handle a_listener a_conn_request : Named
  a_context_attr a_lib_attr a_request_state a_request_attr a_raw_status a_raw_result : Named

abbrev pub fields : Named → Ty
fields a_context = context
fields an_am_handler = am_handler
fields a_worker = worker
fields an_mt_worker = mt_worker
fields an_ep = ep
fields a_request = request
fields a_remote_key = remote_key
fields a_mem_handle = mem_handle
fields a_fetch_amo_request = fetch_amo_request
fields a_stream_data = stream_data
fields a_mem_handle_guard = mem_handle_guard
fields a_worker_address = worker_address
fields a_stream_request = stream_request
fields a_tag_request = tag_request
fields a_message_handle = message_handle
fields a_listener = listener
fields a_conn_request = conn_request
fields a_context_attr = context_attr
fields a_lib_attr = lib_attr
fields a_request_state = request_state
fields a_request_attr = request_attr
fields a_raw_status = raw_status
fields a_raw_result = unit_result raw_status

-- What is asserted: `assert_impl_all!` of both traits, or `assert_not_impl_any!`.
abbrev pub asserted : Named → Option Bool
asserted a_context = some true
asserted an_am_handler = some true
asserted a_worker = some false
asserted an_mt_worker = some true
asserted an_ep = some false
asserted a_request = some false
asserted a_remote_key = some false
asserted a_mem_handle = some false
asserted a_fetch_amo_request = some false
asserted a_stream_data = some false
asserted a_mem_handle_guard = some false
asserted a_worker_address = some false
asserted a_context_attr = some true
asserted a_lib_attr = some true
asserted a_request_state = some true
asserted a_request_attr = some true
asserted a_raw_status = some true
asserted a_raw_result = some true
asserted _ = none
