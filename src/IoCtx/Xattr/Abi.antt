-- ===== src/IoCtx/Xattr/Abi.antt =====
-- The calls of `getxattr` (src/ioctx.rs) keep to their declarations.
use librados_rs.Base.{ℕ, zero, suc, ◌*◌, ◌<◌, ◌^◌, pos, ◌==ℤ◌, ◌∷◌, length, replicate, arith}
use librados_rs.Error.{Bytes, check_err, neg_checked, erange}
use librados_rs.Text.{resize}
use librados_rs.Text.Laws.{NoNul, resize_ok-bound}
use librados_rs.Handles.{IoCtx}
use librados_rs.Ffi.Memory.{whole, write_buf}
use librados_rs.Ffi.Call
use librados_rs.Ffi.World.{Platform, World}
use librados_rs.Ffi.Abi.Calls.{AllSound}
use librados_rs.Ffi.Abi.Keeps.{Clean, clean, by_string, by_outcome, by_test}
use librados_rs.IoCtx.Xattr.{getxattr_loop, getxattr}

module _ (p : Platform) (io : IoCtx) where
  getxattr_loop-Clean :
      (fuel : ℕ) (oid name buf : Bytes) (w : World)
      → NoNul oid
      → NoNul name
      → length buf < 2 ^ 63
      → AllSound w.log
      → Clean (getxattr_loop p fuel io oid name buf w)
  unfolding getxattr_loop
  getxattr_loop-Clean zero oid name buf w o n small h = clean h
  getxattr_loop-Clean (suc fuel) oid name buf w o n small h =
      let c = Call.getxattr io.ioctx oid name (whole (length buf)) in
      let (ret, written) = p.librados w.log c in
      let h' : AllSound (c ∷ w.log) =
        ((tt, (o, (n, ((omega arith, small), (omega arith, tt))))), h) in
      by_outcome (write_buf buf written) _ _ h' λ buf' e₁.
        by_outcome (neg_checked p.overflow_checks 32 ret) _ _ h' λ e e₂.
          by_test (e ==ℤ pos erange) _ _ _
            (by_outcome (resize buf' (length buf' * 2)) _ _ h' λ bigger e₃.
              getxattr_loop-Clean fuel oid name bigger _ o n
                (resize_ok-bound buf' (length buf' * 2) bigger e₃) h')
            (by_outcome (check_err p.overflow_checks ret) _ _ h' λ u e₃. clean h')

  pub getxattr-Clean :
      (fuel : ℕ) (oid name : Bytes) (w : World)
      → AllSound w.log
      → Clean (getxattr p fuel io oid name w)
  unfolding getxattr
  getxattr-Clean fuel oid name w h = by_string oid _ w h λ o.
      by_string name _ w h
        λ n. getxattr_loop-Clean fuel oid name (replicate 256 0) w o n (omega arith) h
