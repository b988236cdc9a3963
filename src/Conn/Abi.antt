-- ===== src/Conn/Abi.antt =====
-- The calls of the methods of `Rados` (src/conn.rs) keep to their declarations.
use librados_rs.Base.{ℕ, zero, suc, ◌<◌, ◌^◌, ◌≡◌, leb, ◌∷◌, length, replicate, as_usize, arith}
use librados_rs.Error.{Bytes, ok, check_err}
use librados_rs.Text.{slice_to, resize, sub_usize}
use librados_rs.Text.Laws.{resize_ok-bound}
use librados_rs.Handles.{Rados}
use librados_rs.Ffi.Memory.{whole, write_buf}
use librados_rs.Ffi.Call
use librados_rs.Ffi.World.{Platform, World}
use librados_rs.Ffi.Abi.Calls.{AllSound}
use librados_rs.Ffi.Abi.Keeps.{Clean, clean, by_string, by_outcome, by_run, by_test}
use librados_rs.Conn
use librados_rs.Conn.Admin.{Request, run}

-- The seconds that are passed on fit a u32.
u32_ok : (n s : ℕ) → Conn.u32_or_overflow n ≡ ok s → s < 2 ^ 32
unfolding Conn.u32_or_overflow
u32_ok n s h = ground arith

module _ (p : Platform) (r : Rados) where
  list_pools_loop-Clean :
      (fuel : ℕ) (buf : Bytes) (w : World)
      → length buf < 2 ^ 63
      → AllSound w.log
      → Clean (Conn.list_pools_loop p fuel r buf w)
  unfolding Conn.list_pools_loop
  list_pools_loop-Clean zero buf w small h = clean h
  list_pools_loop-Clean (suc fuel) buf w small h =
      let c = Call.pool_list r.handle (whole (length buf)) in
      let (ret, written) = p.librados w.log c in
      let h' : AllSound (c ∷ w.log) = ((tt, ((omega arith, small), (omega arith, tt))), h) in
      by_outcome (write_buf buf written) _ _ h' λ buf' e₁.
        by_outcome (check_err p.overflow_checks ret) _ _ h' λ u e₂.
          by_outcome (sub_usize p.overflow_checks (as_usize ret) 1) _ _ h' λ needed e₃.
            by_test (leb needed (length buf')) _ _ _ (clean h') (
              by_outcome (resize buf' needed) _ _ h' λ bigger e₄.
                list_pools_loop-Clean fuel bigger _ (resize_ok-bound buf' needed bigger e₄) h')

  pub run-Clean : (fuel : ℕ) (q : Request) (w : World) → AllSound w.log → Clean (run p fuel r q w)
  unfolding run Conn.conf_read_file Conn.conf_set Conn.connect Conn.create_pool Conn.delete_pool
      Conn.list_pools Conn.blocklist_add Conn.wait_for_latest_osdmap Conn.create_ioctx
  run-Clean fuel (Request.conf_read_file path) w h =
      by_string path _ w h λ n. clean ((tt, (n, tt)), h)
  run-Clean fuel (Request.conf_set option value) w h =
      by_string option _ w h λ n. by_string value _ w h λ n'. clean ((tt, (n, (n', tt))), h)
  run-Clean fuel Request.connect w h = clean ((tt, tt), h)
  run-Clean fuel (Request.create_pool name) w h = by_string name _ w h λ n. clean ((tt, (n, tt)), h)
  run-Clean fuel (Request.delete_pool name) w h = by_string name _ w h λ n. clean ((tt, (n, tt)), h)
  run-Clean fuel Request.list_pools w h =
      by_run (Conn.list_pools_loop p fuel r (replicate 1024 0) w) _
        (list_pools_loop-Clean fuel (replicate 1024 0) w (omega arith) h)
        λ (buf, used) w' e h'. by_outcome (slice_to buf used) _ _ h' λ names e'. clean h'
  run-Clean fuel (Request.blocklist_add addr expire) w h = by_string addr _ w h λ n.
      by_outcome (Conn.u32_or_overflow expire.secs) _ w h
        λ s e. clean ((tt, (n, (u32_ok expire.secs s e, tt))), h)
  run-Clean fuel Request.wait_for_latest_osdmap w h = clean ((tt, tt), h)
  run-Clean fuel (Request.create_ioctx pool) w h = by_string pool _ w h λ n.
      let c = Call.ioctx_create r.handle pool in
      let h' : AllSound (c ∷ w.log) = ((tt, (n, (tt, tt))), h) in
      by_outcome (check_err p.overflow_checks (p.librados w.log c).0) _ _ h' λ u e. clean h'
