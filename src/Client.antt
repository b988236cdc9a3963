-- ===== src/Client.antt =====
-- A client of the whole library: src/conn.rs, src/ioctx.rs, src/write_op.rs and src/read_op.rs as the
-- methods that can be called, in any order, and the trampoline that librados calls in between.
pub mod Abi
pub mod Defined
use librados_rs.Base.{ℕ, ◌<◌, ◌^◌, ◌≡◌, List, [], ◌∷◌, Option, some}
use librados_rs.Error.{Bytes, Outcome, ok, err, panic, fault, out_of_fuel}
use librados_rs.Handles.{Rados, IoCtx, Duration}
use librados_rs.Text.Laws.{NoNul}
use librados_rs.Ffi.Memory.{Ptr}
use librados_rs.Ffi.Call.{Cell, WatchState}
use librados_rs.Ffi.World.{Platform, World}
use librados_rs.Ffi.Abi.Calls.{AllSound}
use librados_rs.Conn
use librados_rs.Conn.Admin as Admin
use librados_rs.IoCtx.Objects
use librados_rs.IoCtx.Objects.Semantics as Storing
use librados_rs.IoCtx.Objects.Abi as ObjectsAbi
use librados_rs.IoCtx.Listing
use librados_rs.IoCtx.Xattr
use librados_rs.IoCtx.Locks
use librados_rs.IoCtx.Locks.Abi as LocksAbi
use librados_rs.IoCtx.Locks.Table as Table
use librados_rs.IoCtx.Notify
use librados_rs.IoCtx.Watch
use librados_rs.IoCtx.Watch.{Watch, Notification}
use librados_rs.IoCtx.Omap as Omap
use librados_rs.WriteOp
use librados_rs.WriteOp.{WriteOp}
use librados_rs.WriteOp.Run as Writing
use librados_rs.WriteOp.Program as Program
use librados_rs.WriteOp.Abi as WriteAbi
use librados_rs.ReadOp
use librados_rs.ReadOp.{ReadOp}
use librados_rs.ReadOp.Run as Reading
use librados_rs.ReadOp.Build as Build
use librados_rs.ReadOp.Abi as ReadAbi
use librados_rs.ReadOp.Query.{step_of}
use librados_rs.Version

-- A call of a method, or of the trampoline, with its arguments.
pub data Request : Type 0 where
  version : Request
  create : Request
  with_id : (id : Bytes) → Request
  cluster : Rados → Admin.Request → Request
  object : IoCtx → Storing.Request → Request
  last_version : IoCtx → Request
  list_objects : IoCtx → Request
  getxattr : IoCtx → (oid name : Bytes) → Request
  lock : IoCtx → Table.LockRequest → Request
  list_lockers : IoCtx → (oid name : Bytes) → Request
  notify : IoCtx → (oid payload : Bytes) → (timeout : Duration) → Request
  watch : IoCtx → (oid : Bytes) → Request
  drop_watch : Watch → Request
  notified :
      (on_notify : Notification → World → Option Bytes × World)
      → (arg : Ptr) → (notify_id handle notifier_id : ℕ) → (payload : Option Bytes)
      → (payload_len : ℕ) → Request
  omap : IoCtx → Omap.Request → Request
  new_write_op new_read_op : Request
  add_write : Program.WriteStep → WriteOp → Request
  operate_report operate_write : WriteOp → IoCtx → (oid : Bytes) → Request
  drop_write_op : WriteOp → Request
  assert_version : ReadOp → (ver : ℕ) → Request
  add_read : Build.ReadStep → ReadOp → Request
  operate_read : ReadOp → IoCtx → (oid : Bytes) → Request
  drop_read_op : ReadOp → Request

-- A run without the value that it gives.
abbrev forget : {A : Type 0} → Outcome A → Outcome (Unit {0})
forget (ok a) = ok tt
forget (err e) = err e
forget panic = panic
forget fault = fault
forget out_of_fuel = out_of_fuel

abbrev pub forgotten : {A : Type 0} → Outcome A × World → Outcome (Unit {0}) × World
forgotten r = (forget r.0, r.1)

module _ (p : Platform) (fuel : ℕ) where
  -- The method runs.
  unfoldable pub perform : Request → World → Outcome (Unit {0}) × World
  perform version w = forgotten (Version.version p w)
  perform create w = forgotten (Conn.create p w)
  perform (with_id id) w = forgotten (Conn.with_id p id w)
  perform (cluster r q) w = forgotten (Admin.run p fuel r q w)
  perform (object io r) w = forgotten (Storing.run p io r w)
  perform (last_version io) w = forgotten (Objects.last_version p io w)
  perform (list_objects io) w = forgotten (Listing.list_objects p fuel io w)
  perform (getxattr io oid name) w = forgotten (Xattr.getxattr p fuel io oid name w)
  perform (lock io r) w = forgotten (Table.run p io r w)
  perform (list_lockers io oid name) w = forgotten (Locks.list_lockers p fuel io oid name w)
  perform (notify io oid payload timeout) w = forgotten (Notify.notify p io oid payload timeout w)
  perform (watch io oid) w = forgotten (Watch.watch p io oid w)
  perform (drop_watch o) w = (ok tt, Watch.drop_watch o w)
  perform (notified f arg id handle notifier payload len) w =
      forgotten (Watch.watch_notify_trampoline f arg id handle notifier payload len w)
  perform (omap io r) w = forgotten (Omap.run p fuel io r w)
  perform new_write_op w = forgotten (WriteOp.new p w)
  perform new_read_op w = forgotten (ReadOp.new p w)
  perform (add_write s o) w = forgotten (Program.add s o w)
  perform (operate_report o io oid) w = forgotten (Writing.operate_report p o io oid w)
  perform (operate_write o io oid) w = forgotten (Writing.operate p o io oid w)
  perform (drop_write_op o) w = (ok tt, WriteOp.drop_write_op o w)
  perform (assert_version o ver) w = forgotten (ReadOp.assert_version o ver w)
  perform (add_read s o) w = forgotten (Build.add s o w)
  perform (operate_read o io oid) w = forgotten (Reading.operate p fuel o io oid w)
  perform (drop_read_op o) w = (ok tt, ReadOp.drop_read_op o w)

  -- One after the other, whatever their results.
  unfoldable pub perform_all : List Request → World → World
  unfolding perform
  perform_all [] w = w
  perform_all (r ∷ rs) w = perform_all rs (perform r w).1

-- The arguments of an omap operation as their Rust types bound them.
abbrev pub IsTypedOmap : Omap.Request → Type 0
IsTypedOmap (Omap.Request.set oid entries) = WriteAbi.IsTyped (Program.WriteStep.omap_set entries)
IsTypedOmap (Omap.Request.rm_keys oid keys) = WriteAbi.IsTyped (Program.WriteStep.omap_rm_keys keys)
IsTypedOmap (Omap.Request.clear oid) = Unit
IsTypedOmap (Omap.Request.query oid q) = ReadAbi.IsTyped (step_of q)

-- The arguments are in the ranges of their Rust types. A closure of a watch makes sound calls only, and
-- leaves its box with a name free of NUL bytes, as `watch` fills it.
abbrev pub IsTyped : Request → World → Type 0
IsTyped (object io r) w = ObjectsAbi.IsTyped r
IsTyped (lock io r) w = LocksAbi.IsTyped r
IsTyped (drop_watch o) w = o.handle < 2 ^ 64
IsTyped (notified f arg id handle notifier payload len) w =
    (id < 2 ^ 64)
    × (handle < 2 ^ 64)
    × ((n : Notification) → AllSound (f n w).1.log)
    × ((n : Notification) (s : WatchState)
        → (f n w).1.mem arg ≡ some (Cell.watch_state s)
        → NoNul s.oid)
IsTyped (omap io r) w = IsTypedOmap r
IsTyped (add_write s o) w = WriteAbi.IsTyped s
IsTyped (assert_version o ver) w = ver < 2 ^ 64
IsTyped (add_read s o) w = ReadAbi.IsTyped s
IsTyped _ w = Unit

-- So they are at each request.
unfoldable pub AllTyped : Platform → (fuel : ℕ) → List Request → World → Type 0
AllTyped p fuel [] w = Unit
AllTyped p fuel (r ∷ rs) w = IsTyped r w × AllTyped p fuel rs (perform p fuel r w).1

-- The methods that go through no box that is alive: not those that run or drop a compound operation,
-- and not the trampoline and the drop of a watch.
abbrev pub IsUnboxed : Request → Type 0
IsUnboxed (omap _ _) = ⊥
IsUnboxed (notified _ _ _ _ _ _ _) = ⊥
IsUnboxed (operate_report _ _ _) = ⊥
IsUnboxed (operate_write _ _ _) = ⊥
IsUnboxed (operate_read _ _ _) = ⊥
IsUnboxed (drop_write_op _) = ⊥
IsUnboxed (drop_read_op _) = ⊥
IsUnboxed (drop_watch _) = ⊥
IsUnboxed _ = Unit
