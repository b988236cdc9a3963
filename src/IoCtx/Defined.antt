-- ===== src/IoCtx/Defined.antt =====
-- Reading, listing, attributes and locks (src/ioctx.rs) stay clear of undefined behaviour.
use librados_rs.Base.{
  Option, none, some, ℕ, zero, suc, ◌*◌, pos, ◌==ℤ◌, List, [], length, replicate,
}
use librados_rs.Error.{Bytes, check_err, neg_checked, enoent, erange}
use librados_rs.Text.{resize}
use librados_rs.Handles.{IoCtx}
use librados_rs.Ffi.Memory.{whole, Ptr, write_buf}
use librados_rs.Ffi.Call
use librados_rs.Ffi.Call.{LockersReply}
use librados_rs.Ffi.World.{Platform, World, logged}
use librados_rs.Error.Laws.{check_err-ok_iff}
use librados_rs.Ffi.Defined.{
  IsReadable, IsDefined, StaysWithin, Defined, defined, then_outcome, then_string, then_run,
  then_test, dropping-Defined, failed-Defined, write_buf-IsDefined, check_err-IsDefined,
  neg_checked-IsDefined, resize-IsDefined, from_raw_parts-IsDefined,
}
use librados_rs.IoCtx.Objects
use librados_rs.IoCtx.Objects.Semantics as Storing
use librados_rs.IoCtx.Listing.{name_of, list_loop, list_objects}
use librados_rs.IoCtx.Xattr.{getxattr_loop, getxattr}
use librados_rs.IoCtx.Watch

name_of-IsDefined : (m : Option Bytes) (n : ℕ) → IsReadable m n → IsDefined (name_of m n)
unfolding name_of
name_of-IsDefined none n h = absurd h
name_of-IsDefined (some m) n h = from_raw_parts-IsDefined m n h

module _ (p : Platform) (within : StaysWithin p) where
  pub objects-Defined :
      (io : IoCtx) (r : Storing.Request) (w : World) → Defined (Storing.run p io r w)
  unfolding Storing.run Objects.write Objects.write_full Objects.append Objects.read Objects.stat
      Objects.truncate Objects.remove
  objects-Defined io (Storing.Request.write oid buf offset) w =
      then_string oid _ w (defined (check_err-IsDefined _ _))
  objects-Defined io (Storing.Request.write_full oid buf) w =
      then_string oid _ w (defined (check_err-IsDefined _ _))
  objects-Defined io (Storing.Request.append oid buf) w =
      then_string oid _ w (defined (check_err-IsDefined _ _))
  objects-Defined io (Storing.Request.read oid buf offset) w = then_string oid _ w (
      let (ret, written) = p.librados w.log (Call.read io.ioctx oid (whole (length buf)) offset) in
      then_outcome (write_buf buf written) _ _
        (write_buf-IsDefined buf written
          (within.data_read w.log io.ioctx oid (whole (length buf)) offset))
        λ buf' e.
          then_outcome (check_err p.overflow_checks ret) _ _
            (check_err-IsDefined p.overflow_checks ret) λ u e'. defined tt)
  objects-Defined io (Storing.Request.stat oid) w = then_string oid _ w (
      let ret = (p.librados w.log (Call.stat io.ioctx oid)).0 in
      then_outcome (check_err p.overflow_checks ret) _ _ (check_err-IsDefined p.overflow_checks ret)
        λ u e. defined tt)
  objects-Defined io (Storing.Request.truncate oid size) w =
      then_string oid _ w (defined (check_err-IsDefined _ _))
  objects-Defined io (Storing.Request.remove oid) w =
      then_string oid _ w (defined (check_err-IsDefined _ _))

  list_loop-Defined :
      (fuel : ℕ) (ctx : Ptr) (names : List Bytes) (w : World)
      → Defined (list_loop p fuel ctx names w)
  unfolding list_loop
  list_loop-Defined zero ctx names w = defined tt
  list_loop-Defined (suc fuel) ctx names w =
      let c = Call.nobjects_list_next2 ctx in
      let (ret, entry, size) = p.librados w.log c in
      then_outcome (neg_checked p.overflow_checks 32 ret) _ (logged c w)
        (neg_checked-IsDefined p.overflow_checks 32 ret)
        λ e f. then_test (e ==ℤ pos enoent) _ _ _ (defined tt) (
          then_outcome (check_err p.overflow_checks ret) _ _
            (check_err-IsDefined p.overflow_checks ret)
            λ u f'.
              then_outcome (name_of entry size) _ _
                (name_of-IsDefined entry size
                  (within.entry w.log ctx ((check_err-ok_iff p.overflow_checks ret).0 f')))
                λ name f''. list_loop-Defined fuel ctx _ _)

  pub list_objects-Defined :
      (fuel : ℕ) (io : IoCtx) (w : World) → Defined (list_objects p fuel io w)
  unfolding list_objects
  list_objects-Defined fuel io w =
      let (ret, ctx) = p.librados w.log (Call.nobjects_list_open io.ioctx) in
      then_outcome (check_err p.overflow_checks ret) _ _ (check_err-IsDefined p.overflow_checks ret)
        λ u e. dropping-Defined (list_loop p fuel ctx [] _) _ (list_loop-Defined fuel ctx [] _)

  getxattr_loop-Defined :
      (fuel : ℕ) (io : IoCtx) (oid name buf : Bytes) (w : World)
      → Defined (getxattr_loop p fuel io oid name buf w)
  unfolding getxattr_loop
  getxattr_loop-Defined zero io oid name buf w = defined tt
  getxattr_loop-Defined (suc fuel) io oid name buf w =
      let c = Call.getxattr io.ioctx oid name (whole (length buf)) in
      let (ret, written) = p.librados w.log c in
      then_outcome (write_buf buf written) _ (logged c w)
        (write_buf-IsDefined buf written
          (within.value w.log io.ioctx oid name (whole (length buf))))
        λ buf' e₁.
          then_outcome (neg_checked p.overflow_checks 32 ret) _ _
            (neg_checked-IsDefined p.overflow_checks 32 ret)
            λ e e₂.
              then_test (e ==ℤ pos erange) _ _ _
                (then_outcome (resize buf' (length buf' * 2)) _ _
                  (resize-IsDefined buf' (length buf' * 2))
                  λ bigger e₃. getxattr_loop-Defined fuel io oid name bigger _)
                (then_outcome (check_err p.overflow_checks ret) _ _
                  (check_err-IsDefined p.overflow_checks ret) λ u e₃. defined tt)

  pub getxattr-Defined :
      (fuel : ℕ) (io : IoCtx) (oid name : Bytes) (w : World)
      → Defined (getxattr p fuel io oid name w)
  unfolding getxattr
  getxattr-Defined fuel io oid name w =
      then_string oid _ w
        (then_string name _ w (getxattr_loop-Defined fuel io oid name (replicate 256 0) w))

  pub watch-Defined : (io : IoCtx) (oid : Bytes) (w : World) → Defined (Watch.watch p io oid w)
  unfolding Watch.watch
  watch-Defined io oid w = then_string oid _ w (
      let ret = (p.librados w.log (Call.watch3 io.ioctx oid 0 w.next)).0 in
      then_run _ _
        (failed-Defined (check_err p.overflow_checks ret, _) _
          (defined (check_err-IsDefined p.overflow_checks ret)))
        λ u w' e. defined tt)
