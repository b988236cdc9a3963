-- ===== src/Tests/Judging.antt =====
-- A librados that judges compound writes.
use librados_rs.Base.{
  ℕ, suc, ◌+◌, ◌≡◌, refl, true, false, List, [], ◌∷◌, some, length, Bool-cases, inl, inr, arith,
  ◌==◌, if◌then◌else◌,
}
use librados_rs.Error.{Bytes, ok}
use librados_rs.Ffi.Call.{Call, Reply}
use librados_rs.Ffi.World.{Platform}
use librados_rs.WriteOp.Wired.{registered}
use librados_rs.WriteOp.Program.{WriteStep, program}
use librados_rs.WriteOp.Session.{
  built, Verdict, applied, refused, code_of, marked, IsVerdict, Judges, comparisons, report_of,
  session, session-verdict,
}
use librados_rs.Tests.Cluster.{obj, rbd, xattr_value, answer, io, bare, obj-NoNul, rbd-NoNul}

-- The values that a comparison is made with are to have two bytes.
abbrev judge_from : (i : ℕ) → List WriteStep → Verdict
judge_from i [] = applied
judge_from i (WriteStep.omap_cmp key op value ∷ steps) =
    if length value == 2 then judge_from (suc i) steps else refused 124 (some i)
judge_from i (_ ∷ steps) = judge_from i steps

judge_from-IsVerdict :
    (i n : ℕ) (steps : List WriteStep)
    → n ≡ i + comparisons steps
    → IsVerdict (judge_from i steps) n
unfolding comparisons
judge_from-IsVerdict i n [] h = tt
judge_from-IsVerdict i n (WriteStep.omap_cmp key op value ∷ steps) h =
    elim (Bool-cases (length value == 2)) [
      | inl two ↦ rw two (judge_from-IsVerdict (suc i) n steps (omega arith))
      | inr other ↦ rw other (ground arith, omega arith)
    ]
judge_from-IsVerdict i n (WriteStep.assert_version ver ∷ steps) h =
    judge_from-IsVerdict i n steps (omega arith)
judge_from-IsVerdict i n (WriteStep.assert_exists ∷ steps) h =
    judge_from-IsVerdict i n steps (omega arith)
judge_from-IsVerdict i n (WriteStep.create exclusive ∷ steps) h =
    judge_from-IsVerdict i n steps (omega arith)
judge_from-IsVerdict i n (WriteStep.write buf offset ∷ steps) h =
    judge_from-IsVerdict i n steps (omega arith)
judge_from-IsVerdict i n (WriteStep.write_full buf ∷ steps) h =
    judge_from-IsVerdict i n steps (omega arith)
judge_from-IsVerdict i n (WriteStep.append buf ∷ steps) h =
    judge_from-IsVerdict i n steps (omega arith)
judge_from-IsVerdict i n (WriteStep.remove ∷ steps) h = judge_from-IsVerdict i n steps (omega arith)
judge_from-IsVerdict i n (WriteStep.truncate offset ∷ steps) h =
    judge_from-IsVerdict i n steps (omega arith)
judge_from-IsVerdict i n (WriteStep.omap_set entries ∷ steps) h =
    judge_from-IsVerdict i n steps (omega arith)
judge_from-IsVerdict i n (WriteStep.omap_rm_keys keys ∷ steps) h =
    judge_from-IsVerdict i n steps (omega arith)
judge_from-IsVerdict i n (WriteStep.setxattr name value ∷ steps) h =
    judge_from-IsVerdict i n steps (omega arith)
judge_from-IsVerdict i n (WriteStep.cmpxattr name op value ∷ steps) h =
    judge_from-IsVerdict i n steps (omega arith)
judge_from-IsVerdict i n (WriteStep.omap_rm_range begin end ∷ steps) h =
    judge_from-IsVerdict i n steps (omega arith)
judge_from-IsVerdict i n (WriteStep.omap_clear ∷ steps) h =
    judge_from-IsVerdict i n steps (omega arith)

abbrev verdict : List Call → (oid : Bytes) → List WriteStep → Verdict
verdict log oid steps = judge_from 0 steps

abbrev judging_reply : (log : List Call) → (c : Call) → Reply c
judging_reply log (Call.write_op_operate op _ oid) = (
  code_of (verdict log oid (program op log)),
  marked (verdict log oid (program op log)) (registered op log),
)
judging_reply log c = answer false log c

abbrev judging : Platform
judging = record { librados = judging_reply; overflow_checks = true }

judging-Judges : Judges judging verdict
judging-Judges = record {
  answers = λ log op ioctx oid. refl;
  sound = λ log oid steps. judge_from-IsVerdict 0 (comparisons steps) steps (omega arith);
}

-- The second comparison is the one that fails.
abbrev guarded : List WriteStep
guarded =
    WriteStep.omap_cmp rbd 1 xattr_value
    ∷ WriteStep.write_full obj
    ∷ WriteStep.setxattr rbd obj
    ∷ WriteStep.omap_cmp obj 1 rbd
    ∷ WriteStep.omap_clear
    ∷ []

session-verdict_example :
    let (r, w') = session judging guarded io obj bare in
    (r ≡ ok (report_of (refused 124 (some 1))))
    × (w'.log
        ≡ Call.release_write_op 5
          ∷ Call.write_op_operate 5 2 obj
          ∷ (built judging guarded bare).log)
unfolding program registered
session-verdict_example =
    session-verdict judging verdict judging-Judges guarded io obj bare
      (tt, (tt, (rbd-NoNul, (tt, (tt, tt))))) obj-NoNul refl refl
