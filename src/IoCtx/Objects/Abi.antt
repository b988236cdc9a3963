-- ===== src/IoCtx/Objects/Abi.antt =====
-- The calls of the object operations keep to their declarations.
use librados_rs.Base.{◌<◌, ◌^◌, ◌∷◌, length, arith}
use librados_rs.Handles.{IoCtx}
use librados_rs.Ffi.Call
use librados_rs.Ffi.Memory.{whole, write_buf}
use librados_rs.Error.{check_err}
use librados_rs.Ffi.World.{Platform, World}
use librados_rs.Ffi.Abi.Calls.{AllSound}
use librados_rs.Ffi.Abi.Keeps.{Clean, clean, by_string, by_outcome}
use librados_rs.IoCtx.Objects
use librados_rs.IoCtx.Objects.Semantics.{Request, run}

-- The arguments as their Rust types bound them: a slice has at most isize::MAX bytes.
abbrev pub IsTyped : Request → Type 0
IsTyped (Request.write oid buf offset) = (length buf < 2 ^ 63) × (offset < 2 ^ 64)
IsTyped (Request.write_full oid buf) = length buf < 2 ^ 63
IsTyped (Request.append oid buf) = length buf < 2 ^ 63
IsTyped (Request.read oid buf offset) = (length buf < 2 ^ 63) × (offset < 2 ^ 64)
IsTyped (Request.stat oid) = Unit
IsTyped (Request.truncate oid size) = size < 2 ^ 64
IsTyped (Request.remove oid) = Unit

pub run-Clean :
    (p : Platform) (io : IoCtx) (r : Request) (w : World)
    → IsTyped r
    → AllSound w.log
    → Clean (run p io r w)
unfolding run Objects.write Objects.write_full Objects.append Objects.read Objects.stat
    Objects.truncate Objects.remove
run-Clean p io (Request.write oid buf offset) w (small, o) h =
    by_string oid _ w h λ n. clean ((tt, (n, (omega arith, (omega arith, (o, tt))))), h)
run-Clean p io (Request.write_full oid buf) w small h =
    by_string oid _ w h λ n. clean ((tt, (n, (omega arith, (omega arith, tt)))), h)
run-Clean p io (Request.append oid buf) w small h =
    by_string oid _ w h λ n. clean ((tt, (n, (omega arith, (omega arith, tt)))), h)
run-Clean p io (Request.read oid buf offset) w (small, o) h = by_string oid _ w h λ n.
    let c = Call.read io.ioctx oid (whole (length buf)) offset in
    let (ret, written) = p.librados w.log c in
    let h' : AllSound (c ∷ w.log) =
      ((tt, (n, ((omega arith, small), (omega arith, (o, tt))))), h) in
    by_outcome (write_buf buf written) _ _ h'
      λ buf' e. by_outcome (check_err p.overflow_checks ret) _ _ h' λ u e'. clean h'
run-Clean p io (Request.stat oid) w t h = by_string oid _ w h λ n.
    let c = Call.stat io.ioctx oid in
    let h' : AllSound (c ∷ w.log) = ((tt, (n, (tt, (tt, tt)))), h) in
    by_outcome (check_err p.overflow_checks (p.librados w.log c).0) _ _ h' λ u e. clean h'
run-Clean p io (Request.truncate oid size) w t h =
    by_string oid _ w h λ n. clean ((tt, (n, (t, tt))), h)
run-Clean p io (Request.remove oid) w t h = by_string oid _ w h λ n. clean ((tt, (n, tt)), h)
