-- ===== src/IoCtx/Omap/Refines.antt =====
-- The omap operations refine the semantics that librados serves.
use librados_rs.Base.{
  ℕ, zero, suc, ◌+◌, ◌<◌, ◌^◌, ◌≡◌, refl, sym, ap, ◌∙◌, Bool, List, [], ◌∷◌, length,
}
use librados_rs.Error.{Bytes, Outcome}
use librados_rs.Text.Laws.{NoNul}
use librados_rs.Handles.{IoCtx}
use librados_rs.Ffi.Memory.{Ptr}
use librados_rs.Ffi.Call.{Call}
use librados_rs.Ffi.World.{Platform, World, ◌>>=◌}
use librados_rs.IoCtx.Objects.Semantics.{Answer, done, failed, outcome_of}
use librados_rs.IoCtx.Omap.{
  Request, set, rm_keys, clear, query, IsClean, Semantics, flag, IsStill, Answers, Serves, ask, run,
  run_all, IsPage, HasPage, AllPages, IsFresh, AllFresh, AllClean, spec, replay,
}
use librados_rs.Omap.Drain.{stepped}
use librados_rs.ReadOp
use librados_rs.ReadOp.{El}
use librados_rs.ReadOp.Build.{kind_of, IsAccepted, add}
use librados_rs.ReadOp.Program as Reads
use librados_rs.ReadOp.Query.{
  Query, step_of, call_of, value_of, asked, program-query, read_one-found, read_one-absent,
}
use librados_rs.ReadOp.Run.{read_one, omap_vals, omap_keys, omap_vals_by_keys}
use librados_rs.WriteOp
use librados_rs.WriteOp.Run.{raise_report, set_omap, rm_omap_keys, clear_omap}
use librados_rs.WriteOp.Run as Writes
use librados_rs.WriteOp.Wired.{registered}
use librados_rs.WriteOp.Program
use librados_rs.WriteOp.Program.{WriteStep, add_all, program}
use librados_rs.WriteOp.Program.Laws.{add_all-program}
use librados_rs.WriteOp.OneStep.{raised, alone}
use librados_rs.WriteOp.Session.{report_of, session, new_op, built}

module _ (p : Platform) (fuel : ℕ) (io : IoCtx) (s : Semantics) (serves : Serves p io s) where
  -- An outcome and a state.
  abbrev Meets : {A : Type 0} → Outcome A × World → Outcome A × s.State → Type 0
  Meets (o, w') (o', σ) = (o ≡ o') × (serves.state w'.log ≡ σ)

  module _ (oid : Bytes) (w : World) (no_nul : NoNul oid)
      (no_steps : program (new_op p w) w.log ≡ [])
      (no_slots : registered (new_op p w) w.log ≡ []) where
    -- One step is judged in the state that the request found, and moves it on.
    writes :
        (step : WriteStep) (c : Call)
        → WriteOp.Program.Laws.IsClean step
        → (built p (step ∷ []) w).log ≡ c ∷ Call.create_write_op ∷ w.log
        → IsStill c
        → Meets ((session p (step ∷ []) io oid >>= raise_report) w) (
          raised (report_of (s.modify oid (step ∷ []) (serves.state w.log)).0),
          (s.modify oid (step ∷ []) (serves.state w.log)).1,
        )
    unfolding WriteOp.new program
    writes step c clean made quiet =
        let verdict = λ (log : List Call) (oid : Bytes) (steps : List WriteStep).
          (s.modify oid steps (serves.state log)).0 in
        let (r, log) = alone p verdict serves.judges io oid w no_nul no_steps no_slots step clean in
        let b = (built p (step ∷ []) w).log in
        let op = new_op p w in
        let before : serves.state b ≡ serves.state w.log =
          ap serves.state made
          ∙ serves.still c _ quiet
          ∙ serves.still Call.create_write_op w.log tt in
        let (_, _, _, read) =
          add_all-program (step ∷ []) (record { op = op; cmps = [] }) (WriteOp.new p w).1
            (clean, tt) in
        let read' : program op b ≡ step ∷ [] = rw (read, no_steps) in
        let after : serves.state (Call.write_op_operate op io.ioctx oid ∷ b)
            ≡ (s.modify oid (step ∷ []) (serves.state w.log)).1 =
          serves.moves b op oid ∙ rw (read', before) in
        (rw (r, before), ap serves.state log ∙ serves.still (Call.release_write_op op) _ tt ∙ after)

  stepped-still :
      (n : ℕ) (iter : Ptr) (log : List Call) → serves.state (stepped n iter log) ≡ serves.state log
  stepped-still zero iter log = refl
  stepped-still (suc n) iter log =
      stepped-still n iter (Call.omap_get_next2 iter ∷ log)
      ∙ serves.still (Call.omap_get_next2 iter) log tt

  call_of-IsStill : (q : Query) (op a : Ptr) → IsStill (call_of q op a)
  call_of-IsStill (Query.vals start prefix max) op a = tt
  call_of-IsStill (Query.keys start max) op a = tt
  call_of-IsStill (Query.vals_by_keys ks) op a = tt

  module _ (oid : Bytes) (w : World) (no_nul : NoNul oid) (q : Query)
      (accepted : IsAccepted (step_of q))
      (fresh : Reads.program (p.librados w.log Call.create_read_op) w.log ≡ []) where
    abbrev op : Ptr
    op = p.librados w.log Call.create_read_op

    abbrev log_of : List Call
    log_of = (asked p fuel io oid no_nul q accepted w).log

    -- Building the op changes nothing.
    before : serves.state log_of ≡ serves.state w.log
    unfolding ReadOp.new
    before =
        serves.still (call_of q op (w.next + 1)) _ (call_of-IsStill q op (w.next + 1))
        ∙ serves.still Call.create_read_op w.log tt

    ran_before : serves.state (Call.read_op_operate op io.ioctx oid ∷ log_of) ≡ serves.state w.log
    ran_before = serves.still (Call.read_op_operate op io.ioctx oid) log_of tt ∙ before

    reads :
        (a : Answer (List (Bytes × Bytes) × Bool))
        → Answers p io log_of op (w.next + 1) oid q a
        → IsPage s fuel a
        → ((e : ℕ) → a ≡ failed e → suc e < 2 ^ 31)
        → Meets (read_one p (kind_of (step_of q)) fuel io oid (add (step_of q)) w) (
          outcome_of (λ (f : List (Bytes × Bytes) × Bool). value_of q f.0 (flag f.1)) a,
          serves.state w.log,
        )
    reads (done (kvs, more)) (iter, replied, yields) enough small =
        let (r, log) =
          read_one-found p fuel io oid no_nul q accepted w kvs iter (flag more) enough replied
            yields in
        (
          r,
          ap serves.state log
              ∙ serves.still (Call.release_read_op op) _ tt
              ∙ serves.still (Call.omap_get_end iter) _ tt
              ∙ stepped-still (suc (length kvs)) iter _
              ∙ ran_before,
        )
    reads (failed e) replied page small =
        let (r, log) = read_one-absent p fuel io oid no_nul q accepted w e (small e refl) replied in
        (
          r,
          ap serves.state log
              ∙ serves.still (Call.omap_get_end 0) _ tt
              ∙ serves.still (Call.release_read_op op) _ tt
              ∙ ran_before,
        )

    asks :
        IsPage s fuel (s.look oid q (serves.state w.log))
        → Meets
            (read_one p (kind_of (step_of q)) fuel io oid (add (step_of q)) w)
            (spec s (query oid q) (serves.state w.log))
    unfolding spec ReadOp.new Reads.program
    asks page =
        let found =
          serves.answers log_of op (w.next + 1) oid q (program-query q op (w.next + 1) _ fresh) in
        reads (s.look oid q (serves.state w.log)) (rw before at found) page
          (s.errnos_fit oid q (serves.state w.log))

  run-spec :
      (r : Request) (w : World)
      → IsClean r
      → IsFresh p r w
      → HasPage s fuel r (serves.state w.log)
      → Meets (run p fuel io r w) (spec s r (serves.state w.log))
  unfolding run ask spec set_omap rm_omap_keys clear_omap omap_vals omap_keys omap_vals_by_keys
      Writes.operate session add_all WriteOp.Program.add WriteOp.new WriteOp.omap_set
      WriteOp.omap_rm_keys WriteOp.omap_clear add
  run-spec (set oid entries) w clean fresh page =
      writes oid w clean fresh.0 fresh.1 (WriteStep.omap_set entries) _ tt refl tt
  run-spec (rm_keys oid ks) w clean fresh page =
      writes oid w clean fresh.0 fresh.1 (WriteStep.omap_rm_keys ks) _ tt refl tt
  run-spec (clear oid) w clean fresh page =
      writes oid w clean fresh.0 fresh.1 WriteStep.omap_clear _ tt refl tt
  run-spec (query oid (Query.vals start prefix max)) w clean fresh page =
      asks oid w clean.0 (Query.vals start prefix max) clean.1 fresh page
  run-spec (query oid (Query.keys start max)) w clean fresh page =
      asks oid w clean.0 (Query.keys start max) clean.1 fresh page
  run-spec (query oid (Query.vals_by_keys ks)) w clean fresh page =
      asks oid w clean.0 (Query.vals_by_keys ks) clean.1 fresh page

  -- Where librados serves a pool by some semantics of its objects, no page has `fuel` pairs or more,
  -- and each op that librados makes is fresh: whatever sequence of omap writes and reads a client
  -- makes of an `IoCtx`, with names and strings free of NUL bytes, it gets the outcomes of the
  -- specification, and the objects change as it says. A write is judged as an op of its one step; a
  -- read returns what is found as a sorted map or set, or the error of the errno.
  pub run_all_lem :
      (rs : List Request) (w : World)
      → AllClean rs
      → AllFresh p fuel io rs w
      → AllPages s fuel rs (serves.state w.log)
      → let (os, w') = run_all p fuel io rs w in
        (os ≡ (replay s rs (serves.state w.log)).0)
        × (serves.state w'.log ≡ (replay s rs (serves.state w.log)).1)
  unfolding run_all replay AllPages
  run_all_lem [] w clean fresh pages = (refl, refl)
  run_all_lem (r ∷ rs) w clean fresh pages =
      let (o, moved) = run-spec r w clean.0 fresh.0 pages.0 in
      let (os, moved') =
        run_all_lem rs (run p fuel io r w).1 clean.1 fresh.1 (rw (sym moved) at pages.1) in
      (rw (o, os, moved), rw (moved', moved))
