-- ===== src/Lib.antt =====
-- librados-rs: safe Rust bindings for librados.
--
-- The program. `Rados` (src/conn.rs) is a cluster handle; it opens an `IoCtx` (src/ioctx.rs) for
-- a pool, which reads, writes, lists, locks, watches and notifies objects. `WriteOp`
-- (src/write_op.rs) and `ReadOp` (src/read_op.rs) build compound operations that an `IoCtx`
-- runs; the omap results of a read come from the iterators of src/omap.rs. Every librados return
-- code becomes a `Result` in src/error.rs.
--
-- The files.
--   Base: the shared names, Boolean tests, lists and integers over the native numbers.
--   Error: src/error.rs (RadosError, check_err), and how a run can end.
--   Ffi: the boundary to librados. `Ffi.Memory` has the structs of src/ffi.rs, `Ffi.Call` the
--     functions called with their arguments and replies (a buffer to fill as its size and the
--     length passed with it), `Ffi.World` the state of a run and the
--     operators for Rust's statement order and destructors, `Ffi.Buffers` laws of buffers.
--     `Ffi.Abi` has the declarations of src/ffi.rs and what a call must pass to keep to them;
--     `Ffi.Abi.Declared` gives each call its declaration and `Ffi.Abi.Calls` its arguments,
--     `Ffi.Abi.Keeps` puts runs together. `Ffi.Defined` does so for runs without undefined
--     behaviour. The other modules called `Abi` and `Defined` go through the methods.
--   Text: what is used of std on byte strings; `Text.Laws` and `Text.Utf8` their laws,
--     `Text.Refusals` the strings that a method refuses.
--   Handles: Rados and IoCtx by their raw handles, and Duration; `Handles.Ownership` has the
--     reference counts behind them, with RadosHandle and IoCtxHandle and their destructors.
--   Conn: the methods of Rados; `Conn.Pools` and `Conn.Latest` prove list_pools, and `Conn.Admin`
--     all of them against any cluster that librados keeps.
--   IoCtx: the methods of IoCtx, with `Objects` (read, write, append, stat, ...), `Listing`
--     (list_objects, ObjectList), `Xattr` (getxattr), `Locks` (lock_exclusive, unlock, break_lock,
--     list_lockers), `Notify` (notify, decode_notify_response, as_slice) and `Watch` (watch, the
--     destructor of Watch, the trampolines). Their child modules prove their laws.
--     `Objects.Semantics` says what librados serves, for any semantics of objects, `Locks.Table`
--     for any table of locks, and `Omap` for any semantics of omaps, `Omap.Map` being the one of
--     sorted maps; `Watch.Progress` has the end of a drop, and the deadlock of one within its own
--     callback, and `Watch.Clones` the clones of contexts that watches hold, within Handles.Ownership.
--   WriteOp: WriteOp's methods; `WriteOp.Run` has operate_report, operate, and IoCtx's omap_set,
--     omap_rm_keys and omap_clear (here set_omap, rm_omap_keys, clear_omap). `WriteOp.Program` is
--     the list of steps that librados reads from the calls, `Session` a client from new to the
--     report, with `Guards` on the boxes of its comparisons, `Drop` what the end of an op frees,
--     `OneStep` the one-step writes.
--   ReadOp: ReadOp's methods; `ReadOp.Run` has operate (submit and step_results), the results and
--     take (here take_result), and IoCtx's omap_get_vals, omap_get_keys and omap_get_vals_by_keys
--     (here omap_vals, omap_keys, omap_vals_by_keys). `ReadOp.Wired` is
--     the invariant of a read, `Build` its methods as steps, `Batch` a list of them, `Total` its
--     run, `Session` a client from new to the last take, `OneStep` the one-step reads. `Program`
--     is the list of steps that librados reads from the calls, `Query` an omap read among them.
--   Omap: OmapIter, and the sorted collections of its pairs.
--   Version: version of src/lib.rs. BuildScript: build.rs, over which files exist.
--   Client: the methods of the library as one type of requests, called in any order.
--   Tests: a small concrete cluster, and the theorems applied to it.
--
-- The model. librados is a parameter, `Platform`: the reply to each call after any history of
-- calls. What a theorem needs of librados is a hypothesis on that function. A run takes a `World`
-- (the calls made so far, the boxed values that are alive) to an outcome and a new one. Boxes
-- whose addresses librados keeps, that is the comparison results of a write, the steps of a read
-- and the state of a watch, are heap cells, and a read or a foreign write of a freed one is
-- `fault`. A panic is an outcome, too; destructors run after it. Integers are unbounded where the
-- source cannot overflow, and wrap, saturate, fail or panic as in the source where it can;
-- whether an overflow panics is `overflow_checks`. A `str` is the list of its bytes.
--
-- Fuel. Only loops whose end depends on librados take fuel. Where nothing changes meanwhile, two
-- rounds are enough for list_pools and list_lockers; where pools change, list_pools takes a round
-- for each byte past its first buffer, and one more. `n + 1` rounds are enough for getxattr of at
-- most 256 * 2 ^ n bytes, and one more than there are names or pairs for list_objects and an omap
-- iterator. Each bound has its theorem.
--
-- Not modelled: what the functions of src/ffi.rs do, and those of them, with the constants, structs
-- and assertions of layouts, that the crate does not use; Debug output, Send and Sync, and the
-- tests. librados stores the iterator of an omap step when the step is added, and in the model with
-- what it writes when the op runs: an op that is dropped before it runs ends the null iterator of
-- the step. Outside Handles.Ownership and IoCtx.Watch.Clones a method takes the raw handle, and
-- its caller keeps it alive. The memory that a vector takes is bounded by isize::MAX alone.
pub mod Base
pub mod Error
pub mod Ffi
pub mod Text
pub mod Handles
pub mod Conn
pub mod Client
pub mod IoCtx
pub mod WriteOp
pub mod Omap
pub mod ReadOp
pub mod Version
pub mod BuildScript
pub mod Tests
