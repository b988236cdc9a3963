-- ===== src/Client/Defined.antt =====
-- The methods of the library that write to no box stay clear of undefined behaviour, whatever librados
-- answers.
use librados_rs.Base.{ℕ, ◌≢◌, Option, none, some}
use librados_rs.Error.{Bytes, Outcome, ok, err, panic, fault, out_of_fuel, check_err}
use librados_rs.Text.{zeroed}
use librados_rs.Ffi.Call
use librados_rs.Ffi.World.{Platform, World}
use librados_rs.Ffi.Defined.{
  StaysWithin, IsDefined, Defined, defined, not_fault, then_outcome, then_string, then_run,
  check_err-IsDefined, zeroed-IsDefined,
}
use librados_rs.Conn
use librados_rs.Conn.Defined as ConnDefined
use librados_rs.IoCtx.Objects
use librados_rs.IoCtx.Defined.{
  objects-Defined, list_objects-Defined, getxattr-Defined, watch-Defined,
}
use librados_rs.IoCtx.Locks.Defined as LocksDefined
use librados_rs.IoCtx.Notify.Defined.{notify-Defined}
use librados_rs.ReadOp
use librados_rs.ReadOp.{ReadOp, cstring_opt}
use librados_rs.ReadOp.Build as Build
use librados_rs.ReadOp.Build.{ReadStep}
use librados_rs.WriteOp
use librados_rs.WriteOp.{WriteOp}
use librados_rs.WriteOp.Program as Program
use librados_rs.WriteOp.Program.{WriteStep}
use librados_rs.Client.{Request, forgotten, perform, IsUnboxed}

forgotten-IsDefined : {A : Type 0} (r : Outcome A × World) → Defined r → IsDefined (forgotten r).0
forgotten-IsDefined (ok a, w) h = tt
forgotten-IsDefined (err e, w) h = tt
forgotten-IsDefined (panic, w) h = tt
forgotten-IsDefined (fault, w) h = h.result
forgotten-IsDefined (out_of_fuel, w) h = tt

add_write-Defined : (s : WriteStep) (o : WriteOp) (w : World) → Defined (Program.add s o w)
unfolding Program.add WriteOp.assert_version WriteOp.assert_exists WriteOp.create WriteOp.write
    WriteOp.write_full WriteOp.append WriteOp.remove WriteOp.truncate WriteOp.omap_set
    WriteOp.omap_rm_keys WriteOp.setxattr WriteOp.cmpxattr WriteOp.omap_cmp WriteOp.omap_rm_range
    WriteOp.omap_clear
add_write-Defined (WriteStep.setxattr name value) o w =
    then_run (WriteOp.setxattr o name value w) _ (then_string name _ w (defined tt))
      λ u w' e. defined tt
add_write-Defined (WriteStep.cmpxattr name op value) o w =
    then_run (WriteOp.cmpxattr o name op value w) _ (then_string name _ w (defined tt))
      λ u w' e. defined tt
add_write-Defined (WriteStep.assert_version _) o w = defined tt
add_write-Defined WriteStep.assert_exists o w = defined tt
add_write-Defined (WriteStep.create _) o w = defined tt
add_write-Defined (WriteStep.write _ _) o w = defined tt
add_write-Defined (WriteStep.write_full _) o w = defined tt
add_write-Defined (WriteStep.append _) o w = defined tt
add_write-Defined WriteStep.remove o w = defined tt
add_write-Defined (WriteStep.truncate _) o w = defined tt
add_write-Defined (WriteStep.omap_set _) o w = defined tt
add_write-Defined (WriteStep.omap_rm_keys _) o w = defined tt
add_write-Defined (WriteStep.omap_cmp _ _ _) o w = defined tt
add_write-Defined (WriteStep.omap_rm_range _ _) o w = defined tt
add_write-Defined WriteStep.omap_clear o w = defined tt

cstring_opt-Defined : (s : Option Bytes) (w : World) → Defined (cstring_opt s w)
unfolding cstring_opt
cstring_opt-Defined none w = defined tt
cstring_opt-Defined (some s) w = then_string s _ w (defined tt)

add_read-Defined : (s : ReadStep) (o : ReadOp) (w : World) → Defined (Build.add s o w)
unfolding Build.add ReadOp.read ReadOp.omap_get_vals ReadOp.omap_get_keys
    ReadOp.omap_get_vals_by_keys
add_read-Defined (ReadStep.read offset len) o w =
    then_outcome (zeroed len) _ w (zeroed-IsDefined len) λ buf e. defined tt
add_read-Defined (ReadStep.omap_get_vals start prefix max) o w =
    then_run (cstring_opt start w) _ (cstring_opt-Defined start w) λ s w' e.
      then_run (cstring_opt prefix w') _ (cstring_opt-Defined prefix w') λ f w'' e'. defined tt
add_read-Defined (ReadStep.omap_get_keys start max) o w =
    then_run (cstring_opt start w) _ (cstring_opt-Defined start w) λ s w' e. defined tt
add_read-Defined (ReadStep.omap_get_vals_by_keys keys) o w = defined tt

module _ (p : Platform) (fuel : ℕ) where
  create_with_id-Defined : (id : Option Bytes) (w : World) → Defined (Conn.create_with_id p id w)
  unfolding Conn.create_with_id
  create_with_id-Defined id w =
      let ret = (p.librados w.log (Call.create id)).0 in
      then_outcome (check_err p.overflow_checks ret) _ _ (check_err-IsDefined p.overflow_checks ret)
        λ u e. defined tt

  module _ (within : StaysWithin p) where
    perform-IsDefined : (r : Request) (w : World) → IsUnboxed r → IsDefined (perform p fuel r w).0
    unfolding perform Conn.create Conn.with_id Objects.last_version WriteOp.new ReadOp.new
        ReadOp.assert_version
    perform-IsDefined Request.version w u = tt
    perform-IsDefined Request.create w u = forgotten-IsDefined _ (create_with_id-Defined none w)
    perform-IsDefined (Request.with_id id) w u =
        forgotten-IsDefined _ (then_string id _ w (create_with_id-Defined (some id) w))
    perform-IsDefined (Request.cluster r q) w u =
        forgotten-IsDefined _ (ConnDefined.run-Defined p within r fuel q w)
    perform-IsDefined (Request.object io r) w u =
        forgotten-IsDefined _ (objects-Defined p within io r w)
    perform-IsDefined (Request.last_version io) w u = tt
    perform-IsDefined (Request.list_objects io) w u =
        forgotten-IsDefined _ (list_objects-Defined p within fuel io w)
    perform-IsDefined (Request.getxattr io oid name) w u =
        forgotten-IsDefined _ (getxattr-Defined p within fuel io oid name w)
    perform-IsDefined (Request.lock io r) w u =
        forgotten-IsDefined _ (LocksDefined.run-Defined p within io r w)
    perform-IsDefined (Request.list_lockers io oid name) w u =
        forgotten-IsDefined _ (LocksDefined.list_lockers-Defined p within io fuel oid name w)
    perform-IsDefined (Request.notify io oid payload timeout) w u =
        forgotten-IsDefined _ (notify-Defined p within io oid payload timeout w)
    perform-IsDefined (Request.watch io oid) w u =
        forgotten-IsDefined _ (watch-Defined p within io oid w)
    perform-IsDefined (Request.drop_watch _) w u = absurd u
    perform-IsDefined (Request.notified _ _ _ _ _ _ _) w u = absurd u
    perform-IsDefined (Request.omap _ _) w u = absurd u
    perform-IsDefined Request.new_write_op w u = tt
    perform-IsDefined Request.new_read_op w u = tt
    perform-IsDefined (Request.add_write s o) w u = forgotten-IsDefined _ (add_write-Defined s o w)
    perform-IsDefined (Request.operate_report _ _ _) w u = absurd u
    perform-IsDefined (Request.operate_write _ _ _) w u = absurd u
    perform-IsDefined (Request.drop_write_op _) w u = absurd u
    perform-IsDefined (Request.assert_version _ _) w u = tt
    perform-IsDefined (Request.add_read s o) w u = forgotten-IsDefined _ (add_read-Defined s o w)
    perform-IsDefined (Request.operate_read _ _ _) w u = absurd u
    perform-IsDefined (Request.drop_read_op _) w u = absurd u

    -- Where librados writes no more than the length that it is given for a buffer, and what it hands
    -- out is readable for its length: whatever else it replies, and whatever was called before, no
    -- method reads or writes out of bounds, besides those that run or drop a compound operation,
    -- with the one-step omap operations among them, and besides the drop and the trampoline of a
    -- watch.
    pub no_method_faults : (r : Request) (w : World) → IsUnboxed r → (perform p fuel r w).0 ≢ fault
    no_method_faults r w u = not_fault (perform p fuel r w).0 (perform-IsDefined r w u)
