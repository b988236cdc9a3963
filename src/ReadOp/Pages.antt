-- ===== src/ReadOp/Pages.antt =====
-- The one-step omap reads of src/ioctx.rs, from their arguments to the page that they return.
use librados_rs.Base.{
  ℕ, suc, ◌+◌, ◌<◌, ◌^◌, ◌≡◌, refl, not, ℤ, pos, negsuc, List, [], ◌∷◌, Option, none, some, map,
  length, ◌==◌, ==_refl,
}
use librados_rs.Error.{Bytes, ok, err, of_errno}
use librados_rs.Error.Laws.{check_err-pos, check_err-negsuc}
use librados_rs.Text.Laws.{NoNul, cstring-NoNul}
use librados_rs.Handles.{IoCtx}
use librados_rs.Ffi.Memory.{Ptr}
use librados_rs.Ffi.Call.{Call, Cell, OmapValsStep, OmapKeysStep}
use librados_rs.Ffi.World.{Platform, World, logged, poke, release, store, store_all}
use librados_rs.Omap.{OmapPage, collect, drop_iter}
use librados_rs.Omap.Drain.{YieldsPairs, stepped, pairs_lem}
use librados_rs.ReadOp
use librados_rs.ReadOp.{Kind, Handle, ReadOp, cstring_opt, push, new}
use librados_rs.ReadOp.Run.{
  keys, Any, page, step_result, step_results, submit, operate, take_result, take_slot, opened,
  downcast, omap_vals, into_result,
}

-- An optional string free of NUL bytes.
abbrev pub NoNulOpt : Option Bytes → Type 0
NoNulOpt none = Unit
NoNulOpt (some s) = NoNul s

pub cstring_opt-NoNul : (o : Option Bytes) (w : World) → NoNulOpt o → cstring_opt o w ≡ (ok o, w)
unfolding cstring_opt
cstring_opt-NoNul none w h = refl
cstring_opt-NoNul (some s) w h = rw (cstring-NoNul s h)

-- The world after the step at `a`, whose iterator yielded `n` pairs, became its result.
abbrev pub consumed : ℕ → (a iter : Ptr) → World → World
consumed n a iter w =
    release a (record w { log = Call.omap_get_end iter ∷ stepped (suc n) iter w.log })

module _ (p : Platform) (fuel : ℕ) (kvs : List (Bytes × Bytes)) (a : Ptr) (w : World)
    (enough : length kvs < fuel) where
  pub step_result-vals_step :
      (s : OmapValsStep)
      → w.mem a ≡ some (Cell.vals_step s)
      → YieldsPairs p s.iter w.log kvs
      → step_result p fuel a w ≡ (
        ok (some (s.prval, page (record { entries = collect kvs; more = not (s.more == 0) }))),
        consumed (length kvs) a s.iter w,
      )
  unfolding step_result into_result drop_iter
  step_result-vals_step s h y = rw (h, pairs_lem p (record { raw = s.iter }) fuel kvs w y enough)

  pub step_result-keys_step :
      (s : OmapKeysStep)
      → w.mem a ≡ some (Cell.keys_step s)
      → YieldsPairs p s.iter w.log kvs
      → step_result p fuel a w ≡ (
        ok (
            some (
              s.prval,
              keys (record {
                keys = collect (map (λ kv. (kv.0, tt)) kvs);
                more = not (s.more == 0);
              }),
            )),
        consumed (length kvs) a s.iter w,
      )
  unfolding step_result into_result drop_iter
  step_result-keys_step s h y = rw (h, pairs_lem p (record { raw = s.iter }) fuel kvs w y enough)

store_one :
    (a : Ptr) (c : Cell) (w : World) {old : Cell}
    → w.mem a ≡ some old
    → store_all ((a, c) ∷ []) w ≡ (ok tt, record w { mem = poke w.mem a (some c) })
store_one a c w h = rw (h, store)

-- The world after the call that runs an op, with the box at `a` written.
abbrev pub written : (run : Call) → (a : Ptr) → Cell → World → World
written run a c w = record { log = run ∷ w.log; next = w.next; mem = poke w.mem a (some c) }

-- An op of one step, whose box at `a` librados writes once.
module _ (p : Platform) (fuel : ℕ) (io : IoCtx) (oid : Bytes) (no_nul : NoNul oid)
    (op operation a : Ptr) (w : World) (c old : Cell) (n : ℕ) (r : Option (ℤ × Any))
    (w₂ : World) where
  abbrev pub one_step : ReadOp
  one_step = record { op = op; operation = operation; steps = a ∷ [] }

  pub operate_one :
      w.mem a ≡ some old
      → p.librados w.log (Call.read_op_operate op io.ioctx oid) ≡ (pos n, (a, c) ∷ [])
      → step_result p fuel a (written (Call.read_op_operate op io.ioctx oid) a c w) ≡ (ok r, w₂)
      → operate p fuel one_step io oid w ≡ (
        ok (record { operation = operation; results = r ∷ [] }),
        logged (Call.release_read_op op) w₂,
      )
  unfolding operate submit step_results
  operate_one alive replied h = rw (
    cstring-NoNul oid no_nul,
    replied,
    store_one a c (logged (Call.read_op_operate op io.ioctx oid) w) alive,
    check_err-pos p.overflow_checks n,
    h,
  )

-- A step's box before the op runs.
abbrev fresh_vals : Cell
fresh_vals = Cell.vals_step (record { iter = 0; more = 0; prval = pos 0 })

module _ (p : Platform) (fuel : ℕ) (io : IoCtx) (oid : Bytes) (start prefix : Option Bytes)
    (max : ℕ) (w : World) (no_nul : NoNul oid) (start_no_nul : NoNulOpt start)
    (prefix_no_nul : NoNulOpt prefix) where
  abbrev pub new_op : Ptr
  new_op = p.librados w.log Call.create_read_op

  abbrev pub run_call : Call
  run_call = Call.read_op_operate new_op io.ioctx oid

  -- The calls that build the op, whose one step is boxed at `w.next + 1`.
  abbrev pub vals_built : List Call
  vals_built =
      Call.read_op_omap_get_vals2 new_op start prefix max (w.next + 1) ∷ Call.create_read_op ∷ w.log

  opened_page :
      (prval : ℤ) (v : OmapPage) (m : ℕ)
      → prval ≡ pos m
      → opened p Kind.vals_kind (prval, page v) ≡ ok v
  unfolding opened downcast
  opened_page prval v m e = rw (e, check_err-pos p.overflow_checks m, opened)

  module _ (kvs : List (Bytes × Bytes)) (s : OmapValsStep) (n : ℕ)
      (replied : p.librados vals_built run_call ≡ (pos n, (w.next + 1, Cell.vals_step s) ∷ []))
      (yields : YieldsPairs p s.iter (run_call ∷ vals_built) kvs) (enough : length kvs < fuel) where
    abbrev pub vals_page : OmapPage
    vals_page = record { entries = collect kvs; more = not (s.more == 0) }

    abbrev with_step : World
    with_step = record {
      log = vals_built;
      next = w.next + 1 + 1;
      mem = poke (poke w.mem w.next (some Cell.unit)) (w.next + 1) (some fresh_vals);
    }

    abbrev after_run : World
    after_run = written run_call (w.next + 1) (Cell.vals_step s) with_step

    omap_vals_runs : omap_vals p fuel io oid start prefix max w ≡ (
      opened p Kind.vals_kind (s.prval, page vals_page),
      logged (Call.release_read_op new_op) (consumed (length kvs) (w.next + 1) s.iter after_run),
    )
    unfolding omap_vals new ReadOp.omap_get_vals push take_result take_slot
    omap_vals_runs =
        let alive : with_step.mem (w.next + 1) ≡ some fresh_vals = rw (==_refl (w.next + 1)) in
        let here : after_run.mem (w.next + 1) ≡ some (Cell.vals_step s) =
          rw (==_refl (w.next + 1)) in
        let step = step_result-vals_step p fuel kvs (w.next + 1) after_run enough s here yields in
        rw (
          cstring_opt-NoNul start _ start_no_nul,
          cstring_opt-NoNul prefix _ prefix_no_nul,
          operate_one p fuel io oid no_nul new_op w.next (w.next + 1) with_step (Cell.vals_step s)
              fresh_vals n (some (s.prval, page vals_page))
              (consumed (length kvs) (w.next + 1) s.iter after_run) alive replied step,
          ==_refl w.next,
        )

    -- With names free of NUL bytes, where librados fills the one step with success and an
    -- iterator that yields the pairs `kvs`: `omap_get_vals` returns the pairs as a map, with the
    -- flag that more are to come; the iterator is ended and the op released, each once, and the
    -- step's box is freed. One more round than there are pairs is enough.
    omap_vals_lem :
        (m : ℕ)
        → s.prval ≡ pos m
        → let (r, w') = omap_vals p fuel io oid start prefix max w in
          (r ≡ ok vals_page)
          × (w'.mem (w.next + 1) ≡ none)
          × (w'.log
              ≡ Call.release_read_op new_op
                ∷ Call.omap_get_end s.iter
                ∷ stepped (suc (length kvs)) s.iter (run_call ∷ vals_built))
    omap_vals_lem m e =
        rw (omap_vals_runs, opened_page s.prval vals_page m e, ==_refl (w.next + 1))
          (refl, refl, refl)

    -- With names free of NUL bytes, where the call succeeds but librados fills the one step with
    -- a negated errno: `omap_get_vals` returns the error that stands for it.
    omap_vals_fails :
        (e : ℕ)
        → suc e < 2 ^ 31
        → s.prval ≡ negsuc e
        → (omap_vals p fuel io oid start prefix max w).0 ≡ err (of_errno (pos (suc e)))
    unfolding opened
    omap_vals_fails e small h =
        rw (omap_vals_runs, h, check_err-negsuc p.overflow_checks e small, opened)
