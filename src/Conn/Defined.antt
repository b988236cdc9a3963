-- ===== src/Conn/Defined.antt =====
-- The methods of `Rados` (src/conn.rs) stay clear of undefined behaviour.
use librados_rs.Base.{ℕ, zero, suc, leb, length, replicate, as_usize, arith}
use librados_rs.Error.{Bytes, check_err}
use librados_rs.Text.{slice_to, resize, sub_usize}
use librados_rs.Handles.{Rados}
use librados_rs.Ffi.Memory.{whole, write_buf}
use librados_rs.Ffi.Call
use librados_rs.Ffi.World.{Platform, World, logged}
use librados_rs.Ffi.Defined.{
  StaysWithin, IsDefined, Defined, defined, then_outcome, then_string, then_run, then_test,
  write_buf-IsDefined, check_err-IsDefined, sub_usize-IsDefined, resize-IsDefined,
  slice_to-IsDefined,
}
use librados_rs.Conn
use librados_rs.Conn.Admin.{Request, run}

u32_or_overflow-IsDefined : (n : ℕ) → IsDefined (Conn.u32_or_overflow n)
unfolding Conn.u32_or_overflow
u32_or_overflow-IsDefined n = ground arith

module _ (p : Platform) (within : StaysWithin p) (r : Rados) where
  list_pools_loop-Defined :
      (fuel : ℕ) (buf : Bytes) (w : World) → Defined (Conn.list_pools_loop p fuel r buf w)
  unfolding Conn.list_pools_loop
  list_pools_loop-Defined zero buf w = defined tt
  list_pools_loop-Defined (suc fuel) buf w =
      let c = Call.pool_list r.handle (whole (length buf)) in
      let (ret, written) = p.librados w.log c in
      let q = p.overflow_checks in
      then_outcome (write_buf buf written) _ (logged c w)
        (write_buf-IsDefined buf written (within.pools w.log r.handle (whole (length buf))))
        λ buf' e₁. then_outcome (check_err q ret) _ _ (check_err-IsDefined q ret) λ u e₂.
          then_outcome (sub_usize q (as_usize ret) 1) _ _ (sub_usize-IsDefined q (as_usize ret) 1)
            λ needed e₃. then_test (leb needed (length buf')) _ _ _ (defined tt) (
              then_outcome (resize buf' needed) _ _ (resize-IsDefined buf' needed)
                λ bigger e₄. list_pools_loop-Defined fuel bigger _)

  pub run-Defined : (fuel : ℕ) (q : Request) (w : World) → Defined (run p fuel r q w)
  unfolding run Conn.conf_read_file Conn.conf_set Conn.connect Conn.create_pool Conn.delete_pool
      Conn.list_pools Conn.blocklist_add Conn.wait_for_latest_osdmap Conn.create_ioctx
  run-Defined fuel (Request.conf_read_file path) w =
      then_string path _ w (defined (check_err-IsDefined _ _))
  run-Defined fuel (Request.conf_set option value) w =
      then_string option _ w (then_string value _ w (defined (check_err-IsDefined _ _)))
  run-Defined fuel Request.connect w = defined (check_err-IsDefined _ _)
  run-Defined fuel (Request.create_pool name) w =
      then_string name _ w (defined (check_err-IsDefined _ _))
  run-Defined fuel (Request.delete_pool name) w =
      then_string name _ w (defined (check_err-IsDefined _ _))
  run-Defined fuel Request.list_pools w =
      then_run (Conn.list_pools_loop p fuel r (replicate 1024 0) w) _
        (list_pools_loop-Defined fuel (replicate 1024 0) w)
        λ (buf, used) w' e.
          then_outcome (slice_to buf used) _ _ (slice_to-IsDefined buf used) λ names e'. defined tt
  run-Defined fuel (Request.blocklist_add addr expire) w = then_string addr _ w (
      then_outcome (Conn.u32_or_overflow expire.secs) _ w (u32_or_overflow-IsDefined expire.secs)
        λ s e. defined (check_err-IsDefined _ _))
  run-Defined fuel Request.wait_for_latest_osdmap w = defined (check_err-IsDefined _ _)
  run-Defined fuel (Request.create_ioctx pool) w = then_string pool _ w (
      let ret = (p.librados w.log (Call.ioctx_create r.handle pool)).0 in
      then_outcome (check_err p.overflow_checks ret) _ _ (check_err-IsDefined p.overflow_checks ret)
        λ u e. defined tt)
