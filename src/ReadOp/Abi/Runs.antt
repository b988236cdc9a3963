-- ===== src/ReadOp/Abi/Runs.antt =====
-- The calls of a run of a compound read (src/read_op.rs) and of its iterators (src/omap.rs), and of the
-- drops after it, keep to their declarations.
use librados_rs.Base.{ℕ, zero, suc, ◌≡◌, refl, List, [], ◌∷◌, Option, none, some, arith}
use librados_rs.Error.{Bytes}
use librados_rs.Handles.{IoCtx}
use librados_rs.Ffi.Memory.{Ptr, from_raw_parts}
use librados_rs.Ffi.Call.{Call, Cell, NextReply}
use librados_rs.Ffi.World.{Platform, World, Io, load, store_all, logged}
use librados_rs.Ffi.Abi.Calls.{AllSound}
use librados_rs.Ffi.Abi.Keeps.{
  Clean, clean, KeepsSound, by_string, by_outcome, by_option, by_run, dropping-Clean, unwound-Clean,
  store_all-Clean,
}
use librados_rs.IoCtx.Notify.{copy_payload}
use librados_rs.Omap.{OmapIter, drop_iter, pairs_loop, pairs}
use librados_rs.ReadOp
use librados_rs.ReadOp.{ReadOp, Kind, Handle, drop_read_op, drop_steps, drop_step}
use librados_rs.ReadOp.Run.{
  into_result, step_result, step_results, submit, operate, read_one, prval_of,
}

-- The drops of an iterator, of a step and of an op.
drop_iter-KeepsSound : (iter : OmapIter) → KeepsSound (drop_iter iter)
unfolding drop_iter
drop_iter-KeepsSound iter w h = ((tt, tt), h)

drop_cell-KeepsSound :
    (c : Option Cell) (a : Ptr) (w : World)
    → w.mem a ≡ c
    → AllSound w.log
    → AllSound (drop_step a w).log
unfolding drop_step
drop_cell-KeepsSound none a w e h = rw e h
drop_cell-KeepsSound (some (Cell.vals_step s)) a w e h = rw e ((tt, tt), h)
drop_cell-KeepsSound (some (Cell.keys_step s)) a w e h = rw e ((tt, tt), h)
drop_cell-KeepsSound (some (Cell.int _)) a w e h = rw e h
drop_cell-KeepsSound (some (Cell.data_step _)) a w e h = rw e h
drop_cell-KeepsSound (some (Cell.watch_state _)) a w e h = rw e h
drop_cell-KeepsSound (some Cell.unit) a w e h = rw e h

drop_steps-KeepsSound : (steps : List Ptr) → KeepsSound (drop_steps steps)
unfolding drop_steps
drop_steps-KeepsSound [] w h = h
drop_steps-KeepsSound (a ∷ steps) w h =
    drop_steps-KeepsSound steps (drop_step a w) (drop_cell-KeepsSound (w.mem a) a w refl h)

pub drop_read_op-KeepsSound : (o : ReadOp) → KeepsSound (drop_read_op o)
unfolding drop_read_op
drop_read_op-KeepsSound o w h = drop_steps-KeepsSound o.steps _ ((tt, tt), h)

module _ (p : Platform) where
  pairs_loop-Clean :
      (fuel : ℕ) (iter : OmapIter) (acc : List (Bytes × Bytes)) (w : World)
      → AllSound w.log
      → Clean (pairs_loop p fuel iter acc w)
  unfolding pairs_loop
  pairs_loop-Clean zero iter acc w h = clean h
  pairs_loop-Clean (suc fuel) iter acc w h =
      let c = Call.omap_get_next2 iter.raw in
      let r : NextReply = p.librados w.log c in
      let h' : AllSound (c ∷ w.log) = ((tt, (tt, (tt, (tt, (tt, tt))))), h) in
      by_option r.key _ _ (logged c w) (clean h') λ k.
        by_outcome (from_raw_parts k r.key_len) _ _ h' λ key e.
          by_outcome (copy_payload r.val r.val_len) _ _ h'
            λ val e'. pairs_loop-Clean fuel iter _ _ h'

  pub pairs-Clean :
      (fuel : ℕ) (iter : OmapIter) (w : World) → AllSound w.log → Clean (pairs p fuel iter w)
  unfolding pairs
  pairs-Clean fuel iter w h = pairs_loop-Clean fuel iter [] w h

  into_result-Clean :
      (fuel : ℕ) (c : Cell) (w : World) → AllSound w.log → Clean (into_result p fuel c w)
  unfolding into_result
  into_result-Clean fuel (Cell.data_step s) w h = clean h
  into_result-Clean fuel (Cell.vals_step s) w h =
      let iter : OmapIter = record { raw = s.iter } in
      dropping-Clean _ _
        (by_run (pairs p fuel iter w) _ (pairs-Clean fuel iter w h) λ kvs w' e k. clean k)
        (drop_iter-KeepsSound iter)
  into_result-Clean fuel (Cell.keys_step s) w h =
      let iter : OmapIter = record { raw = s.iter } in
      dropping-Clean _ _
        (by_run (pairs p fuel iter w) _ (pairs-Clean fuel iter w h) λ kvs w' e k. clean k)
        (drop_iter-KeepsSound iter)
  into_result-Clean fuel (Cell.int _) w h = clean h
  into_result-Clean fuel (Cell.watch_state _) w h = clean h
  into_result-Clean fuel Cell.unit w h = clean h

  step_results-Clean :
      (fuel : ℕ) (steps : List Ptr) (w : World)
      → AllSound w.log
      → Clean (step_results p fuel steps w)
  unfolding step_results step_result
  step_results-Clean fuel [] w h = clean h
  step_results-Clean fuel (a ∷ steps) w h =
      by_run (step_result p fuel a w) _
        (by_outcome (load a w).0 _ w h λ c e. by_outcome (prval_of c) _ w h λ prval e'.
          by_run _ _ (dropping-Clean _ _ (into_result-Clean fuel c w h) λ w' k. k)
            λ value w' e'' k. clean k)
        λ r w' e k.
          by_run (step_results p fuel steps w') _ (step_results-Clean fuel steps w' k)
            λ rs w'' e' k'. clean k'

  submit-Clean :
      (o : ReadOp) (io : IoCtx) (oid : Bytes) (w : World)
      → AllSound w.log
      → Clean (submit p o io oid w)
  unfolding submit
  submit-Clean o io oid w h = by_string oid _ w h λ n.
      let c = Call.read_op_operate o.op io.ioctx oid in
      let (ret, writes) = p.librados w.log c in
      let h' : AllSound (c ∷ w.log) = ((tt, (tt, (n, (omega arith, tt)))), h) in
      by_run (store_all writes (logged c w)) _ (store_all-Clean writes _ h') λ u w' e k. clean k

  pub operate-Clean :
      (fuel : ℕ) (o : ReadOp) (io : IoCtx) (oid : Bytes) (w : World)
      → AllSound w.log
      → Clean (operate p fuel o io oid w)
  unfolding operate
  operate-Clean fuel o io oid w h =
      by_run _ _
        (unwound-Clean (submit p o io oid w) _ (submit-Clean o io oid w h)
          (drop_read_op-KeepsSound o))
        λ u w' e k.
          dropping-Clean _ _
            (by_run (step_results p fuel o.steps w') _ (step_results-Clean fuel o.steps w' k)
              λ rs w'' e' k'. clean k')
            λ w'' k'. ((tt, tt), k')

  pub read_one-Clean :
      (k : Kind) (fuel : ℕ) (io : IoCtx) (oid : Bytes) (make : ReadOp → Io (ReadOp × Handle k))
      (w : World)
      → ((o : ReadOp) (w' : World) → AllSound w'.log → Clean (make o w'))
      → AllSound w.log
      → Clean (read_one p k fuel io oid make w)
  unfolding read_one ReadOp.new
  read_one-Clean k fuel io oid make w made h =
      let o : ReadOp = record {
        op = p.librados w.log Call.create_read_op;
        operation = w.next;
        steps = [];
      } in
      by_run _ _ (unwound-Clean (make o _) _ (made o _ (tt, h)) (drop_read_op-KeepsSound o))
        λ (o', handle) w' e g.
          by_run (operate p fuel o' io oid w') _ (operate-Clean fuel o' io oid w' g)
            λ rs w'' e' g'. clean g'
