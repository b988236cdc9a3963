-- ===== src/WriteOp/OneStep.antt =====
-- The one-step omap writes of src/ioctx.rs, against what librados makes of their step.
use librados_rs.Base.{◌≡◌, refl, ap, ◌∙◌, List, [], ◌∷◌}
use librados_rs.Error.{Bytes, Outcome, ok, err}
use librados_rs.Text.Laws.{NoNul}
use librados_rs.Handles.{IoCtx}
use librados_rs.Ffi.Call.{Call}
use librados_rs.Ffi.World.{Platform, World, Io, ◌>>=◌}
use librados_rs.WriteOp.Run.{
  Report, done, failed, raise_report, operate, set_omap, rm_omap_keys, clear_omap,
}
use librados_rs.WriteOp.Wired.{registered}
use librados_rs.WriteOp.Program.{WriteStep, add, add_all, program}
use librados_rs.WriteOp.Program.Laws.{IsClean}
use librados_rs.WriteOp.Session.{
  Verdict, Judges, report_of, session, new_op, built, session-verdict,
}

-- The outcome of a report.
abbrev pub raised : Report → Outcome (Unit {0})
raised done = ok tt
raised (failed e) = err e.error

-- A report is raised without a further effect.
raise_lem :
    (m : Io Report) (w : World) (r : Report)
    → (m w).0 ≡ ok r
    → (((m >>= raise_report) w).0 ≡ raised r) × (((m >>= raise_report) w).1 ≡ (m w).1)
raise_lem m w done h = rw h (refl, refl)
raise_lem m w (failed e) h = rw h (refl, refl)

module _ (p : Platform) (verdict : List Call → (oid : Bytes) → List WriteStep → Verdict)
    (judges : Judges p verdict) (io : IoCtx) (oid : Bytes) (w : World) (no_nul : NoNul oid)
    (no_steps : program (new_op p w) w.log ≡ [])
    (no_slots : registered (new_op p w) w.log ≡ []) where
  -- What librados makes of one step.
  abbrev pub judged_alone : WriteStep → Outcome (Unit {0})
  judged_alone s = raised (report_of (verdict (built p (s ∷ []) w).log oid (s ∷ [])))

  -- One step is judged alone, and its op is released.
  pub alone :
      (s : WriteStep)
      → IsClean s
      → let (r, w') = (session p (s ∷ []) io oid >>= raise_report) w in
        (r ≡ judged_alone s)
        × (w'.log
            ≡ Call.release_write_op (new_op p w)
              ∷ Call.write_op_operate (new_op p w) io.ioctx oid
              ∷ (built p (s ∷ []) w).log)
  alone s clean =
      let (report, log) =
        session-verdict p verdict judges (s ∷ []) io oid w (clean, tt) no_nul no_steps no_slots in
      let (r, same) =
        raise_lem (session p (s ∷ []) io oid) w
          (report_of (verdict (built p (s ∷ []) w).log oid (s ∷ []))) report in
      (r, ap (λ w'. w'.log) same ∙ log)

  -- Where librados runs the steps that it has read for an op, and a new op has none: `omap_set`,
  -- `omap_rm_keys` and `omap_clear`, on an object whose name is free of NUL bytes, succeed or fail
  -- as librados judges an op of their one step, with its entries or keys.
  omap_writes_lem :
      (entries : List (Bytes × Bytes)) (keys : List Bytes)
      → ((set_omap p io oid entries w).0 ≡ judged_alone (WriteStep.omap_set entries))
        × ((rm_omap_keys p io oid keys w).0 ≡ judged_alone (WriteStep.omap_rm_keys keys))
        × ((clear_omap p io oid w).0 ≡ judged_alone WriteStep.omap_clear)
  unfolding set_omap rm_omap_keys clear_omap operate session add_all add
  omap_writes_lem entries keys = (
    (alone (WriteStep.omap_set entries) tt).0,
    (alone (WriteStep.omap_rm_keys keys) tt).0,
    (alone WriteStep.omap_clear tt).0,
  )
