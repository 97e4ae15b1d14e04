-- ===== src/Lib.antt =====
-- A model of the crate ucx-sys: safe Rust wrappers around UCX, a C library of communication
-- primitives. The crate turns the answers of UCX into Rust values (status codes, status pointers),
-- owns what UCX hands out (requests, endpoints, workers, remote keys, buffers) and gives it back.
--
-- UCX is not part of the repository. It is a parameter, the record `Ucx` of Ffi.antt: the status,
-- the number or address, the out parameter, the bytes, and the members and addresses of a struct
-- that a call answers with, which may depend on everything that was done before. A wrapper is a
-- function in the monad `M`, which carries the list of effects so far, newest first: the calls of
-- UCX with their arguments, the stores to an atomic flag, and the end of the process. So a theorem
-- about a history is one about the calls that the wrapper makes, for every UCX. A worker and the
-- endpoints and keys made from it share one `alive` flag, named by the address of its `Arc`; a flag
-- reads what was last stored to it.
--
-- The files, and the code they model:
--   Base, with children: tests on numbers, lists, multisets and bits that the other modules share.
--   Ffi: what src/bindings.rs declares and the wrappers use, and the monad. Structs has the structs.
--   Masked: builders of parameter structs in general, as the record `Layout`: a mask says which
--     fields UCX reads, and a chain of setters leaves bits and fields. The builders below are
--     instances, each in a module Chain.
--   Context: src/context.rs, and `config_modify` and `context_query` of src/config.rs. Params is the
--     builder, and Opening says when `Context::new` asks UCX for a context.
--   FileStream: `with_file_stream` of src/config.rs and the functions that print with it.
--   Memh: src/memh.rs, with a module for each builder. Mapping is about the life of a mapping.
--   SockAddr: src/ep/attr.rs, and `from_storage` of src/listener.rs.
--   Status: src/status.rs (`status_to_result`, `status_ptr_to_result`, `status_from_ptr`).
--     Decode and Classify are about what each address decodes to.
--   Request: the handle of src/request.rs, with the tests that src/stream.rs and src/tag.rs add.
--     Life is about a request over its whole life. Params is `RequestParamBuilder`, and Mask what
--     its chains build and when they panic.
--   Worker: src/worker/worker.rs and src/worker/address.rs. `poll` is the loop of `wait_request`,
--     of the guards and of `Ep::close` and the worker's drop; Polling, Waiting and Teardown are
--     about it, about `wait_request` and about the drop, Liveness about waits that end in time, and
--     Blind about views of a history that do not look at a wait. Params is the builder of
--     src/worker/params.rs, Query the attributes. Mt is `MtWorker`: Admission is about what it
--     wraps, Waiting about a wait while other threads use the worker, Alone about one thread,
--     Sharing about the handles that threads clone, use and drop, and Runs about a wait in terms of
--     their turns. Debug is the guard of a debug build.
--   Ep: src/ep/mod.rs (`new`, `flush`, `modify`, `destroy`, `disconnect_nb`, `close`, the drop) and
--     `Worker::create_ep`. Params and ModifyParams are the builders of src/ep/params.rs and
--     src/ep/modify.rs, Query the attributes, and Creating is about what UCX gets.
--   Stream: `StreamRequest`, `StreamData` and the operations of src/stream.rs. Guard is about the
--     guard's drop, and Poll is `stream_poll` and the older functions.
--   Tag: `TagRequest` and the operations of src/tag.rs. Completion is about its loop, Messages about
--     the messages that a probe finds.
--   Rma.Key: src/rma/remote_key.rs, and `PackedRkeyBuffer` and `pack_rkey` of src/memh.rs. Framing
--     is about the wire format, Handles about keys and buffers.
--   Rma.Fetch: `FetchAmoRequest` of src/rma/remote_key.rs.
--   Rma.Ops: src/rma/ep_ops.rs. Posting is about the calls it makes.
--   Rma.Atomic: src/rma/atomic.rs. Compared sets it beside Rma.Ops.
--   Am: src/am.rs. Trampoline is about the messages that UCX delivers to a handler, Registration
--     about the handlers that a worker retains (`am_handlers`), Receive about the two ways to receive,
--     Incoming is what a raw callback is told.
--   Listener: src/listener.rs. Steps is what can happen to a listener and its requests, Ownership
--     about the state in an `Arc` that they share, Query the attributes, Params the builder.
--   Session: a context, a worker and an endpoint in one scope. Order is about how they are left.
--     Ledger reads off a history what is held, and Balance is about the ledger of a session.
--     Endpoints is a worker with its endpoints and remote keys, used and ended in any order, as the
--     steps of Steps. Effects and Keys are about what each wrapper does to what UCX has, Sound and
--     Keyed about a step, and Safe about all steps.
--     Programs is what a program does with the endpoint of a session; Quiet is about what that
--     leaves alone, and Held about the ledger.
--   Loopback: `setup_default` and `CommsContext` of src/tests.rs, with its panics. Setup is about
--     its ledger.
--   Threading: src/threading_assert.rs, with the fields of the types that it names. Matrix is about
--     which types can be sent to other threads.
--   MemoryType, ThreadMode, ErrorHandlerMode, Version, Dt: src/memory_type.rs, src/thread_mode.rs,
--     src/error_handler_mode.rs, src/version.rs, src/dt.rs.
--   Build: build.rs, on a `Host` that says how what it starts turns out. Reading has the functions of
--     `str` that it calls, Decimal and Output are about what the check program prints, Validation
--     about when a version is rejected.
--   Tests: a UCX that answers "in progress" until it is progressed, and the theorems applied to it.
--
-- Numbers are natural numbers, words wrap at 2 ^ 32 or 2 ^ 64 where the code's types do, pointers are
-- addresses with 0 for null, and the target has 64 bits. Every loop of a wrapper has the bound of
-- the code, one million rounds, and that bound is the fuel of `poll` and of `complete_within`: they
-- run out exactly where the loop of the code does, and what follows then is part of the model. The
-- loop of `setup_default` has no bound: its fuel `rounds` is enough if UCX, asked to progress that
-- often, once has nothing to do, which is the premise of Loopback.Setup.
--
-- A release build is modelled: `debug_assert!` is left out. `status_ptr_to_result_debug` and
-- Worker.Debug are the debug forms of that helper and of `Worker::progress`. Not modelled: messages
-- to stderr, printed forms and what the build script prints; lifetimes, which the compiler checks;
-- interleavings of threads inside a wrapper other than a shared wait, as each wrapper is one
-- sequence of effects; the accessors of attribute structs; the rest of src/bindings.rs, which is
-- generated. That a context outlives its workers is left to the caller by THREADING.md; Session has
-- it by its scopes.
pub mod Base
pub mod Build
pub mod SockAddr
pub mod Masked
pub mod Version
pub mod FileStream
pub mod Context
pub mod Memh
pub mod ErrorHandlerMode
pub mod Ffi
pub mod Status
pub mod Request
pub mod Worker
pub mod Ep
pub mod Stream
pub mod Tag
pub mod MemoryType
pub mod ThreadMode
pub mod Rma
pub mod Dt
pub mod Am
pub mod Listener
pub mod Loopback
pub mod Threading
pub mod Session
mod Tests
