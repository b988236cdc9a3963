-- ===== src/WriteOp/Session.antt =====
-- A client of src/write_op.rs from the creation of a compound write to its report, against what
-- librados makes of the steps.
use librados_rs.Base.{
  ℕ, suc, ◌+◌, ◌<◌, ◌^◌, ◌≡◌, refl, ap, ◌∙◌, ℤ, pos, negsuc, List, [], ◌∷◌, Option, none, some,
  length, length-append, ==_refl, arith,
}
use librados_rs.Error.{Bytes, ok, of_errno}
use librados_rs.Text.Laws.{NoNul, cstring-NoNul}
use librados_rs.Handles.{IoCtx}
use librados_rs.Ffi.Memory.{Ptr}
use librados_rs.Ffi.Call.{Call, Writes}
use librados_rs.Ffi.World.{Platform, World, Io, logged, ◌>>=◌}
use librados_rs.WriteOp
use librados_rs.WriteOp.{WriteOp, new, drop_write_op}
use librados_rs.WriteOp.Drop.{drop_write_op-log}
use librados_rs.WriteOp.Run.{Report, done, report_error, handle_of, operate_report}
use librados_rs.WriteOp.Report.{
  operated, reply, first_nonzero, operate_report_done, operate_report_failed,
}
use librados_rs.WriteOp.Wired.{registered}
use librados_rs.WriteOp.Program.{WriteStep, add, add_all, program}
use librados_rs.WriteOp.Program.Laws.{IsClean, AllClean, add_all-program}
use librados_rs.WriteOp.Guards.{
  Boxes, Boxes-alloc, marks, marking, store_all-marking, first_nonzero-marks-none,
  first_nonzero-marks-some,
}

-- librados holds the boxes of the op, and these lie apart and are alive.
abbrev Holding : WriteOp → World → Type 0
Holding o w = (registered o.op w.log ≡ o.cmps) × Boxes w.mem w.next 0 o.cmps

-- How many comparisons there are among the steps.
abbrev count_of : WriteStep → ℕ
count_of (WriteStep.omap_cmp key op value) = 1
count_of _ = 0

unfoldable pub comparisons : List WriteStep → ℕ
comparisons [] = 0
comparisons (s ∷ steps) = count_of s + comparisons steps

-- The method succeeds, stays with its op, and adds a box for a comparison.
abbrev Keeps : WriteStep → WriteOp → World → Type 0
Keeps s o w =
    (o' : WriteOp) × ((add s o w).0 ≡ ok o')
    × (o'.op ≡ o.op)
    × (length o'.cmps ≡ length o.cmps + count_of s)
    × Holding o' (add s o w).1

add-Keeps : (s : WriteStep) (o : WriteOp) (w : World) → IsClean s → Holding o w → Keeps s o w
unfolding add registered WriteOp.assert_version WriteOp.assert_exists WriteOp.create WriteOp.write
    WriteOp.write_full WriteOp.append WriteOp.remove WriteOp.truncate WriteOp.omap_set
    WriteOp.omap_rm_keys WriteOp.setxattr WriteOp.cmpxattr WriteOp.omap_cmp WriteOp.omap_rm_range
    WriteOp.omap_clear
add-Keeps (WriteStep.assert_version ver) o w c h = (o, refl, refl, omega arith, h)
add-Keeps WriteStep.assert_exists o w c h = (o, refl, refl, omega arith, h)
add-Keeps (WriteStep.create exclusive) o w c h = (o, refl, refl, omega arith, h)
add-Keeps (WriteStep.write buf offset) o w c h = (o, refl, refl, omega arith, h)
add-Keeps (WriteStep.write_full buf) o w c h = (o, refl, refl, omega arith, h)
add-Keeps (WriteStep.append buf) o w c h = (o, refl, refl, omega arith, h)
add-Keeps WriteStep.remove o w c h = (o, refl, refl, omega arith, h)
add-Keeps (WriteStep.truncate offset) o w c h = (o, refl, refl, omega arith, h)
add-Keeps (WriteStep.omap_set entries) o w c h = (o, refl, refl, omega arith, h)
add-Keeps (WriteStep.omap_rm_keys keys) o w c h = (o, refl, refl, omega arith, h)
add-Keeps (WriteStep.setxattr name value) o w c h =
    rw (cstring-NoNul name c) (o, refl, refl, omega arith, h)
add-Keeps (WriteStep.cmpxattr name op value) o w c h =
    rw (cstring-NoNul name c) (o, refl, refl, omega arith, h)
add-Keeps (WriteStep.omap_cmp key op value) o w c h = (
  _,
  refl,
  refl,
  length-append o.cmps (w.next ∷ []),
  (rw (==_refl o.op, h.0), Boxes-alloc w.mem w.next (pos 0) 0 o.cmps h.1 (omega arith)),
)
add-Keeps (WriteStep.omap_rm_range begin end) o w c h = (o, refl, refl, omega arith, h)
add-Keeps WriteStep.omap_clear o w c h = (o, refl, refl, omega arith, h)

add_all-Holding :
    (steps : List WriteStep) (o : WriteOp) (w : World)
    → AllClean steps
    → Holding o w
    → (o' : WriteOp) × ((add_all steps o w).0 ≡ ok o')
      × (o'.op ≡ o.op)
      × (length o'.cmps ≡ length o.cmps + comparisons steps)
      × Holding o' (add_all steps o w).1
unfolding add_all comparisons
add_all-Holding [] o w c h = (o, refl, refl, omega arith, h)
add_all-Holding (s ∷ steps) o w c h =
    let (o₁, ran₁, op₁, n₁, h₁) = add-Keeps s o w c.0 h in
    let (o₂, ran₂, op₂, n₂, h₂) = add_all-Holding steps o₁ (add s o w).1 c.1 h₁ in
    (o₂, rw ran₁ ran₂, op₂ ∙ op₁, omega arith, rw ran₁ h₂)

-- What becomes of a compound write: its steps are applied, or none is, with an errno `suc e` and,
-- where one of the comparisons has failed, its position among them.
pub data Verdict : Type 0 where
  applied : Verdict
  refused : (e : ℕ) → (which : Option ℕ) → Verdict

abbrev pub code_of : Verdict → ℤ
code_of applied = pos 0
code_of (refused e which) = negsuc e

abbrev pub marked : Verdict → List Ptr → Writes
marked applied as' = marking 0 none 0 as'
marked (refused e which) as' = marking e which 0 as'

-- The errno fits a C int, and the comparison is one of the `n`.
abbrev pub IsVerdict : Verdict → (n : ℕ) → Type 0
IsVerdict applied n = Unit
IsVerdict (refused e none) n = suc e < 2 ^ 31
IsVerdict (refused e (some j)) n = (suc e < 2 ^ 31) × (j < n)

-- librados judges the steps that it has read for the op, returns the verdict's code and marks the
-- slots that it holds.
pub record Judges (p : Platform) (verdict : List Call → (oid : Bytes) → List WriteStep → Verdict)
    : Type 0 where
  pub answers :
      (log : List Call) (op ioctx : Ptr) (oid : Bytes)
      → p.librados log (Call.write_op_operate op ioctx oid) ≡ (
        code_of (verdict log oid (program op log)),
        marked (verdict log oid (program op log)) (registered op log),
      )
  pub sound :
      (log : List Call) (oid : Bytes) (steps : List WriteStep)
      → IsVerdict (verdict log oid steps) (comparisons steps)

-- The report of a verdict.
abbrev pub report_of : Verdict → Report
report_of applied = done
report_of (refused e which) = report_error (of_errno (pos (suc e))) (handle_of which)

module _ (p : Platform) where
  -- A new op, its steps, and its run.
  unfoldable pub session : List WriteStep → IoCtx → (oid : Bytes) → Io Report
  session steps io oid = do o ← new p; o' ← add_all steps o; operate_report p o' io oid

  -- The address of the new op, and the world in which the op is run.
  abbrev pub new_op : World → Ptr
  new_op w = p.librados w.log Call.create_write_op

  abbrev pub built : List WriteStep → World → World
  built steps w = (add_all steps (record { op = new_op w; cmps = [] }) (new p w).1).1

-- A run that librados answers by a verdict on `o`.
module _ (p : Platform) (o : WriteOp) (io : IoCtx) (oid : Bytes) (w : World) (no_nul : NoNul oid)
    (boxes : Boxes w.mem w.next 0 o.cmps) where
  -- The verdict is reported, and the op is run and released.
  abbrev Reports : Verdict → Type 0
  Reports v =
      ((operate_report p o io oid w).0 ≡ ok (report_of v))
      × ((operate_report p o io oid w).1.log
          ≡ Call.release_write_op o.op ∷ operated o io oid ∷ w.log)

  -- What the drop of the op leaves.
  closed :
      (v : Verdict) (w₂ : World)
      → operate_report p o io oid w ≡ (ok (report_of v), drop_write_op o w₂)
      → w₂.log ≡ operated o io oid ∷ w.log
      → Reports v
  closed v w₂ run log = (
    ap (λ x. x.0) run,
    ap (λ x. x.1.log) run ∙ drop_write_op-log o w₂ ∙ ap (◌∷◌ (Call.release_write_op o.op)) log,
  )

  refused_lem :
      (e : ℕ) (which : Option ℕ)
      → reply p o io oid w ≡ (negsuc e, marking e which 0 o.cmps)
      → suc e < 2 ^ 31
      → first_nonzero 0 (marks e which 0 o.cmps) ≡ which
      → Reports (refused e which)
  refused_lem e which answered small found =
      let w₁ = logged (operated o io oid) w in
      let (w₂, stored, held, _, log) = store_all-marking e which 0 0 o.cmps w₁ boxes in
      let code = ap (λ (x : ℤ × Writes). x.0) answered in
      let run =
        operate_report_failed p o io oid w w₂ (marks e which 0 o.cmps) no_nul (rw answered stored) e
          small code held in
      closed (refused e which) w₂ (rw (run, found)) log

  judged :
      (v : Verdict)
      → reply p o io oid w ≡ (code_of v, marked v o.cmps)
      → IsVerdict v (length o.cmps)
      → Reports v
  judged applied answered sound =
      let w₁ = logged (operated o io oid) w in
      let (w₂, stored, _, _, log) = store_all-marking 0 none 0 0 o.cmps w₁ boxes in
      let code = ap (λ (x : ℤ × Writes). x.0) answered in
      closed applied w₂ (operate_report_done p o io oid w w₂ [] no_nul (rw answered stored) 0 code)
        log
  judged (refused e none) answered small =
      refused_lem e none answered small (first_nonzero-marks-none e 0 0 o.cmps)
  judged (refused e (some j)) answered (small, within) =
      refused_lem e (some j) answered small
        (first_nonzero-marks-some e 0 j o.cmps (omega arith) (omega arith))

module _ (p : Platform) (verdict : List Call → (oid : Bytes) → List WriteStep → Verdict)
    (judges : Judges p verdict) where
  -- Where librados runs the steps that it has read for an op and reports a failed comparison through
  -- its slot, and a new op has none: a client that makes a compound write of any steps, with
  -- attribute names free of NUL bytes, and runs it on an object whose name is free of them gets the
  -- verdict of librados on exactly these steps. A failed comparison is named by its position among
  -- the comparisons. The last two calls run the op and release it.
  pub session-verdict :
      (steps : List WriteStep) (io : IoCtx) (oid : Bytes) (w : World)
      → AllClean steps
      → NoNul oid
      → program (new_op p w) w.log ≡ []
      → registered (new_op p w) w.log ≡ []
      → let (r, w') = session p steps io oid w in
        let log = (built p steps w).log in
        (r ≡ ok (report_of (verdict log oid steps)))
        × (w'.log
            ≡ Call.release_write_op (new_op p w)
              ∷ Call.write_op_operate (new_op p w) io.ioctx oid
              ∷ log)
  unfolding session new program registered
  session-verdict steps io oid w clean no_nul no_steps no_slots =
      let o : WriteOp = record { op = new_op p w; cmps = [] } in
      let (o', ran, op, n, (held, boxes)) =
        add_all-Holding steps o (new p w).1 clean (no_slots, tt) in
      let w' = built p steps w in
      let (_, _, _, read) = add_all-program steps o (new p w).1 clean in
      let read' : program o'.op w'.log ≡ steps = rw (op, read, no_steps) in
      let answer = judges.answers w'.log o'.op io.ioctx oid in
      let sound = judges.sound w'.log oid steps in
      let all : comparisons steps ≡ length o'.cmps = omega arith in
      let (report, log) =
        judged p o' io oid w' no_nul boxes (verdict w'.log oid steps) (rw (read', held) at answer)
          (rw all at sound) in
      (rw ran report, rw ran (log ∙ rw op))
