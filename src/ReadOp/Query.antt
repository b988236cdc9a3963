-- ===== src/ReadOp/Query.antt =====
-- An omap read of src/ioctx.rs, from its arguments to the value that it returns and the calls that
-- it makes.
use librados_rs.Base.{
  ℕ, suc, ◌+◌, ◌<◌, ◌^◌, ◌≡◌, refl, not, ℤ, pos, negsuc, List, [], ◌∷◌, map, Option, some, length,
  ◌==◌, ==_refl, take_all,
}
use librados_rs.Error.{Bytes, ok, err, of_errno}
use librados_rs.Error.Laws.{check_err-pos, check_err-negsuc}
use librados_rs.Text.Laws.{NoNul, cstring-NoNul}
use librados_rs.Handles.{IoCtx}
use librados_rs.Ffi.Memory.{Ptr}
use librados_rs.Ffi.Call.{Call, Cell}
use librados_rs.Ffi.World.{Platform, World, poke}
use librados_rs.Omap.{collect, drop_iter}
use librados_rs.Omap.Drain.{YieldsPairs, stepped}
use librados_rs.ReadOp
use librados_rs.ReadOp.{
  Kind, El, ReadOp, push, new, cstring_opt, drop_read_op, drop_step, drop_steps,
}
use librados_rs.ReadOp.Run.{
  Any, step_result, submit, operate, opened, take_result, take_slot, read_one,
}
use librados_rs.ReadOp.Handles.{boxed, downcast-boxed}
use librados_rs.ReadOp.Pages.{
  cstring_opt-NoNul, consumed, step_result-vals_step, step_result-keys_step, written, operate_one,
}
use librados_rs.ReadOp.Build.{ReadStep, kind_of, IsAccepted, add}
use librados_rs.ReadOp.Program.{program}
use librados_rs.WriteOp.Program.Laws.{strings_at-whole}

-- An omap read, by its arguments.
pub data Query : Type 0 where
  vals : (start_after filter_prefix : Option Bytes) → (max_return : ℕ) → Query
  keys : (start_after : Option Bytes) → (max_return : ℕ) → Query
  vals_by_keys : List Bytes → Query

abbrev pub step_of : Query → ReadStep
step_of (vals start prefix max) = ReadStep.omap_get_vals start prefix max
step_of (keys start max) = ReadStep.omap_get_keys start max
step_of (vals_by_keys ks) = ReadStep.omap_get_vals_by_keys ks

-- The call that adds it, with the address of its box.
abbrev pub call_of : Query → (op a : Ptr) → Call
call_of (vals start prefix max) op a = Call.read_op_omap_get_vals2 op start prefix max a
call_of (keys start max) op a = Call.read_op_omap_get_keys2 op start max a
call_of (vals_by_keys ks) op a =
    Call.read_op_omap_get_vals_by_keys2 op ks (length ks) (map (λ k. length k) ks) a

-- Its box, and the value that the box and the pairs of its iterator stand for.
abbrev pub cell_of : Query → (iter : Ptr) → (more : ℕ) → Cell
cell_of (vals _ _ _) iter more = Cell.vals_step (record { iter = iter; more = more; prval = pos 0 })
cell_of (keys _ _) iter more = Cell.keys_step (record { iter = iter; more = more; prval = pos 0 })
cell_of (vals_by_keys _) iter more =
    Cell.vals_step (record { iter = iter; more = more; prval = pos 0 })

abbrev pub value_of : (q : Query) → List (Bytes × Bytes) → (more : ℕ) → El (kind_of (step_of q))
value_of (vals _ _ _) kvs more = record { entries = collect kvs; more = not (more == 0) }
value_of (keys _ _) kvs more = record {
  keys = collect (map (λ kv. (kv.0, tt)) kvs);
  more = not (more == 0);
}
value_of (vals_by_keys _) kvs more = record { entries = collect kvs; more = not (more == 0) }

-- The world after the step has been added.
abbrev pub with_box : Query → (op : Ptr) → World → World
with_box q op w = record {
  log = call_of q op w.next ∷ w.log;
  next = w.next + 1;
  mem = poke w.mem w.next (some (cell_of q 0 0));
}

add-query :
    (q : Query) (o : ReadOp) (w : World)
    → IsAccepted (step_of q)
    → add (step_of q) o w ≡ (ok (push (kind_of (step_of q)) o w.next), with_box q o.op w)
unfolding add ReadOp.omap_get_vals ReadOp.omap_get_keys ReadOp.omap_get_vals_by_keys
add-query (vals start prefix max) o w h =
    rw (cstring_opt-NoNul start w h.0, cstring_opt-NoNul prefix w h.1)
add-query (keys start max) o w h = rw (cstring_opt-NoNul start w h)
add-query (vals_by_keys ks) o w h = refl

-- librados reads the query back.
pub program-query :
    (q : Query) (op a : Ptr) (log : List Call)
    → program op log ≡ []
    → program op (call_of q op a ∷ log) ≡ (step_of q, a) ∷ []
unfolding program
program-query (vals start prefix max) op a log h = rw (==_refl op, h)
program-query (keys start max) op a log h = rw (==_refl op, h)
program-query (vals_by_keys ks) op a log h = rw (==_refl op, h, strings_at-whole ks, take_all ks)

module _ (p : Platform) (fuel : ℕ) where
  step_result-query :
      (q : Query) (kvs : List (Bytes × Bytes)) (a iter : Ptr) (more : ℕ) (w : World)
      → length kvs < fuel
      → w.mem a ≡ some (cell_of q iter more)
      → YieldsPairs p iter w.log kvs
      → step_result p fuel a w ≡ (
        ok (some (pos 0, boxed (kind_of (step_of q)) (value_of q kvs more))),
        consumed (length kvs) a iter w,
      )
  step_result-query (vals start prefix max) kvs a iter more w enough h y =
      step_result-vals_step p fuel kvs a w enough
        (record { iter = iter; more = more; prval = pos 0 }) h y
  step_result-query (keys start max) kvs a iter more w enough h y =
      step_result-keys_step p fuel kvs a w enough
        (record { iter = iter; more = more; prval = pos 0 }) h y
  step_result-query (vals_by_keys ks) kvs a iter more w enough h y =
      step_result-vals_step p fuel kvs a w enough
        (record { iter = iter; more = more; prval = pos 0 }) h y

  opened-boxed : (k : Kind) (v : El k) → opened p k (pos 0, boxed k v) ≡ ok v
  unfolding opened
  opened-boxed k v = rw (check_err-pos p.overflow_checks 0, opened, downcast-boxed k v)

-- The drop of a box that no run has filled.
drop_step-query :
    (q : Query) (a : Ptr) (w : World)
    → w.mem a ≡ some (cell_of q 0 0)
    → (drop_step a w).log ≡ Call.omap_get_end 0 ∷ w.log
unfolding drop_step drop_iter
drop_step-query (vals start prefix max) a w h = rw (h, drop_step)
drop_step-query (keys start max) a w h = rw (h, drop_step)
drop_step-query (vals_by_keys ks) a w h = rw (h, drop_step)

module _ (p : Platform) (fuel : ℕ) (io : IoCtx) (oid : Bytes) (no_nul : NoNul oid) (q : Query)
    (accepted : IsAccepted (step_of q)) (w : World) where
  abbrev pub op : Ptr
  op = p.librados w.log Call.create_read_op

  -- The world in which the op is run, and the call that runs it.
  abbrev pub asked : World
  asked = with_box q op (new p w).1

  abbrev pub run : Call
  run = Call.read_op_operate op io.ioctx oid

  -- An answer with pairs is returned as the value that they stand for; the iterator and the op are
  -- released.
  pub read_one-found :
      (kvs : List (Bytes × Bytes)) (iter : Ptr) (more : ℕ)
      → length kvs < fuel
      → p.librados asked.log run ≡ (pos 0, (w.next + 1, cell_of q iter more) ∷ [])
      → YieldsPairs p iter (run ∷ asked.log) kvs
      → let (r, w') = read_one p (kind_of (step_of q)) fuel io oid (add (step_of q)) w in
        (r ≡ ok (value_of q kvs more))
        × (w'.log
            ≡ Call.release_read_op op
              ∷ Call.omap_get_end iter
              ∷ stepped (suc (length kvs)) iter (run ∷ asked.log))
  unfolding read_one new push take_result take_slot
  read_one-found kvs iter more enough replied yields =
      let k = kind_of (step_of q) in
      let a = w.next + 1 in
      let ran : World = written run a (cell_of q iter more) asked in
      let here : ran.mem a ≡ some (cell_of q iter more) = rw (==_refl a) in
      let alive : asked.mem a ≡ some (cell_of q 0 0) = rw (==_refl a) in
      let step = step_result-query p fuel q kvs a iter more ran enough here yields in
      let r : Option (ℤ × Any) = some (pos 0, boxed k (value_of q kvs more)) in
      let added =
        add-query q (record { op = op; operation = w.next; steps = [] }) (new p w).1 accepted in
      rw
        (
          added,
          operate_one p fuel io oid no_nul op w.next a asked (cell_of q iter more) (cell_of q 0 0) 0
              r (consumed (length kvs) a iter ran) alive replied step,
          ==_refl w.next,
          opened-boxed p fuel k (value_of q kvs more),
        )
        (refl, refl)

  -- An errno is returned as its error; the empty iterator and the op are released.
  pub read_one-absent :
      (e : ℕ)
      → suc e < 2 ^ 31
      → p.librados asked.log run ≡ (negsuc e, [])
      → let (r, w') = read_one p (kind_of (step_of q)) fuel io oid (add (step_of q)) w in
        (r ≡ err (of_errno (pos (suc e))))
        × (w'.log ≡ Call.omap_get_end 0 ∷ Call.release_read_op op ∷ run ∷ asked.log)
  unfolding read_one new push operate submit drop_read_op drop_steps
  read_one-absent e small replied =
      let a = w.next + 1 in
      let o : ReadOp = record { op = op; operation = w.next; steps = [] } in
      let added = add-query q o (new p w).1 accepted in
      let failed : World = record asked { log = Call.release_read_op op ∷ run ∷ asked.log } in
      let alive : failed.mem a ≡ some (cell_of q 0 0) = rw (==_refl a) in
      rw (added, cstring-NoNul oid no_nul, replied, check_err-negsuc p.overflow_checks e small)
        (refl, drop_step-query q a failed alive)
