-- ===== src/WriteOp/Run.antt =====
-- src/write_op.rs: `operate_report` and `operate`, and the one-step writes of src/ioctx.rs.
use librados_rs.Base.{ℕ, suc, ℤ, pos, ◌==ℤ◌, List, [], ◌∷◌, Option, none, some, if◌then◌else◌}
use librados_rs.Error.{Bytes, RadosError, Outcome, ok, err, fault, check_err}
use librados_rs.Text.{cstring}
use librados_rs.Handles.{IoCtx}
use librados_rs.Ffi.Memory.{Ptr}
use librados_rs.Ffi.Call
use librados_rs.Ffi.Call.{Cell}
use librados_rs.Ffi.World.{
  Platform, Io, pure, lift, load, store_all, finally, on_result, ◌>>=◌, ◌>>◌, call,
}
use librados_rs.WriteOp.{
  CmpHandle, WriteError, WriteOp, drop_write_op, new, omap_set, omap_rm_keys, omap_clear,
}

-- `Result<(), WriteError>`
pub data Report : Type 0 where
  done : Report
  failed : WriteError → Report

abbrev pub int_of : Cell → Outcome ℤ
int_of (Cell.int z) = ok z
int_of _ = fault

-- `**prval`
unfoldable pub deref : Ptr → Io ℤ
deref a = do c ← load a; lift (int_of c)

-- `cmps.iter().position(|prval| **prval != 0)`, from index `i` on.
unfoldable pub position_from : ℕ → List Ptr → Io (Option ℕ)
unfolding deref
position_from i [] = pure none
position_from i (a ∷ cmps) = do
  prval ← deref a
  if prval ==ℤ pos 0 then position_from (suc i) cmps else pure (some i)

abbrev pub handle_of : Option ℕ → Option CmpHandle
handle_of none = none
handle_of (some i) = some (record { index = i })

abbrev pub report_error : RadosError → Option CmpHandle → Report
report_error e h = failed (record { error = e; failed_cmp = h })

abbrev pub raise_report : Report → Io (Unit {0})
raise_report done = pure tt
raise_report (failed e) = lift (err e.error)

module _ (p : Platform) where
  -- The body of `operate_report` once the name is a C string.
  unfoldable pub run_op : WriteOp → IoCtx → (c_oid : Bytes) → Io Report
  unfolding position_from
  run_op o io c_oid = do
    (ret, writes) ← call p (Call.write_op_operate o.op io.ioctx c_oid)
    store_all writes
    on_result (check_err p.overflow_checks ret) (λ _. pure done)
        λ e. do i ← position_from 0 o.cmps; pure (report_error e (handle_of i))

  unfoldable pub operate_report : WriteOp → IoCtx → (oid : Bytes) → Io Report
  operate_report o io oid =
      finally (on_result (cstring oid) (run_op o io) (λ e. pure (report_error e none)))
        (drop_write_op o)

  unfoldable pub operate : WriteOp → IoCtx → (oid : Bytes) → Io (Unit {0})
  unfolding operate_report
  operate o io oid = operate_report o io oid >>= raise_report

  -- `IoCtx::omap_set`
  unfoldable pub set_omap : IoCtx → (oid : Bytes) → (entries : List (Bytes × Bytes)) → Io (Unit {0})
  unfolding new omap_set operate
  set_omap io oid entries = do o ← new p; omap_set o entries; operate o io oid

  -- `IoCtx::omap_rm_keys`
  unfoldable pub rm_omap_keys : IoCtx → (oid : Bytes) → (keys : List Bytes) → Io (Unit {0})
  unfolding new omap_rm_keys operate
  rm_omap_keys io oid keys = do o ← new p; omap_rm_keys o keys; operate o io oid

  -- `IoCtx::omap_clear`
  unfoldable pub clear_omap : IoCtx → (oid : Bytes) → Io (Unit {0})
  unfolding new omap_clear operate
  clear_omap io oid = do o ← new p; omap_clear o; operate o io oid
