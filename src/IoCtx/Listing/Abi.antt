-- ===== src/IoCtx/Listing/Abi.antt =====
-- The calls of `list_objects` (src/ioctx.rs) keep to their declarations.
use librados_rs.Base.{ℕ, zero, suc, pos, ◌==ℤ◌, List, [], ◌∷◌}
use librados_rs.Error.{Bytes, check_err, neg_checked, enoent}
use librados_rs.Handles.{IoCtx}
use librados_rs.Ffi.Memory.{Ptr}
use librados_rs.Ffi.Call
use librados_rs.Ffi.World.{Platform, World}
use librados_rs.Ffi.Abi.Calls.{AllSound}
use librados_rs.Ffi.Abi.Keeps.{Clean, clean, by_outcome, by_test, dropping-Clean}
use librados_rs.IoCtx.Listing.{name_of, drop_list, list_loop, list_objects}

module _ (p : Platform) where
  list_loop-Clean :
      (fuel : ℕ) (ctx : Ptr) (names : List Bytes) (w : World)
      → AllSound w.log
      → Clean (list_loop p fuel ctx names w)
  unfolding list_loop
  list_loop-Clean zero ctx names w h = clean h
  list_loop-Clean (suc fuel) ctx names w h =
      let c = Call.nobjects_list_next2 ctx in
      let (ret, entry, size) = p.librados w.log c in
      let h' : AllSound (c ∷ w.log) = ((tt, (tt, (tt, (tt, (tt, (tt, (tt, tt))))))), h) in
      by_outcome (neg_checked p.overflow_checks 32 ret) _ _ h' λ e f.
        by_test (e ==ℤ pos enoent) _ _ _ (clean h') (
          by_outcome (check_err p.overflow_checks ret) _ _ h' λ u f'.
            by_outcome (name_of entry size) _ _ h' λ name f''. list_loop-Clean fuel ctx _ _ h')

  pub list_objects-Clean :
      (fuel : ℕ) (io : IoCtx) (w : World) → AllSound w.log → Clean (list_objects p fuel io w)
  unfolding list_objects drop_list
  list_objects-Clean fuel io w h =
      let c = Call.nobjects_list_open io.ioctx in
      let (ret, ctx) = p.librados w.log c in
      let h' : AllSound (c ∷ w.log) = ((tt, (tt, tt)), h) in
      by_outcome (check_err p.overflow_checks ret) _ _ h' λ u e.
        dropping-Clean (list_loop p fuel ctx [] _) _ (list_loop-Clean fuel ctx [] _ h')
          λ w' h''. ((tt, tt), h'')
