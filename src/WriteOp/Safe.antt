-- ===== src/WriteOp/Safe.antt =====
-- Running a compound write ends with a report, whatever librados writes through its slots.
use librados_rs.Base.{suc, ◌≡◌, inl, inr, ◌∙◌, ap, pos, List, [], ◌∷◌}
use librados_rs.Error.{Bytes, ok, of_errno}
use librados_rs.Error.Laws.{IsCode}
use librados_rs.Text.Laws.{NoNul}
use librados_rs.Handles.{IoCtx}
use librados_rs.Ffi.Memory.{Ptr}
use librados_rs.Ffi.Call.{Call}
use librados_rs.Ffi.World.{Platform, World, logged}
use librados_rs.WriteOp.{WriteOp}
use librados_rs.WriteOp.Drop.{drop_write_op-log}
use librados_rs.WriteOp.Run.{Report, done, report_error, handle_of, operate_report}
use librados_rs.WriteOp.Report.{
  operated, reply, first_nonzero, operate_report_done, operate_report_failed,
}
use librados_rs.WriteOp.Wired.{
  registered, AllAlive, IsWired, WritesSlots, store_all-AllAlive, HoldsAll-AllAlive,
}

AllAlive-logged :
    (c : Call) (w : World) (as' : List Ptr) → AllAlive w as' → AllAlive (logged c w) as'
AllAlive-logged c w [] h = tt
AllAlive-logged c w (a ∷ as') h = (h.0, h.1, AllAlive-logged c w as' h.2)

module _ (p : Platform) (o : WriteOp) (io : IoCtx) (oid : Bytes) (w : World) (no_nul : NoNul oid)
    (wired : IsWired o w) where
  -- With an object name free of NUL bytes and a well-formed op: where librados writes numbers
  -- through slots registered on the op, and nothing else, and returns a code that is not -2 ^ 31
  -- or below, the run meets no undefined behaviour and no panic. It ends with a report, after one
  -- call to operate the op and one to release it.
  pub operate_report_total :
      WritesSlots (registered o.op w.log) (reply p o io oid w).1
      → IsCode (reply p o io oid w).0
      → (r : Report) × ((operate_report p o io oid w).0 ≡ ok r)
        × ((operate_report p o io oid w).1.log
            ≡ Call.release_write_op o.op ∷ operated o io oid ∷ w.log)
  operate_report_total writes code =
      let ws = (reply p o io oid w).1 in
      let w₁ = logged (operated o io oid) w in
      let alive = AllAlive-logged (operated o io oid) w o.cmps wired.alive in
      let mine : WritesSlots o.cmps ws = rw wired.slots at writes in
      let (w₂, stored, alive₂, log) = store_all-AllAlive w₁ o.cmps ws alive mine in
      let (zs, held) = HoldsAll-AllAlive w₂ o.cmps alive₂ in
      let closed = drop_write_op-log o w₂ ∙ ap (◌∷◌ (Call.release_write_op o.op)) log in
      elim code [
        | inl (k, e) ↦
            let run = operate_report_done p o io oid w w₂ zs no_nul stored k e in
            (done, ap (λ x. x.0) run, ap (λ x. x.1.log) run ∙ closed)
        | inr (e, h, small) ↦
            let run = operate_report_failed p o io oid w w₂ zs no_nul stored e small h held in
            (
              report_error (of_errno (pos (suc e))) (handle_of (first_nonzero 0 zs)),
              ap (λ x. x.0) run,
              ap (λ x. x.1.log) run ∙ closed,
            )
      ]
