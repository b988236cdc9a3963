-- ===== src/Tests/Writing.antt =====
-- Compound writes with two comparisons.
use librados_rs.Base.{
  ℕ, zero, suc, ◌<◌, ◌≡◌, refl, ℤ, pos, negsuc, List, [], ◌∷◌, some, get_elem?, arith, inl, inr,
}
use librados_rs.Error.{ok, of_errno, rados}
use librados_rs.Ffi.Memory.{Ptr}
use librados_rs.Ffi.Call.{Call, Cell}
use librados_rs.Ffi.World.{World, poke}
use librados_rs.WriteOp.{WriteOp}
use librados_rs.WriteOp.Drop.{AllFreed, IsOther}
use librados_rs.WriteOp.Run.{Report, report_error, operate_report}
use librados_rs.WriteOp.Report.{FirstFailure, operated, operate_report_names_guard}
use librados_rs.WriteOp.Wired.{IsWired, WritesSlots, registered}
use librados_rs.WriteOp.Safe.{operate_report_total}
use librados_rs.Tests.Cluster.{obj, rbd, refusing, io, bare, obj-NoNul}

-- The call that adds a comparison with the box at `a`.
abbrev compared : Ptr → Call
compared a = Call.write_op_omap_cmp2 5 rbd 1 obj 3 1 a

-- Two comparisons, whose boxes are at 1 and 2.
abbrev two_cmps : WriteOp
two_cmps = record { op = 5; cmps = 1 ∷ 2 ∷ [] }

abbrev two_boxes : World
two_boxes = record {
  log = compared 2 ∷ compared 1 ∷ Call.create_write_op ∷ [];
  next = 3;
  mem = poke (poke bare.mem 1 (some (Cell.int (pos 0)))) 2 (some (Cell.int (pos 0)));
}

two_boxes-IsWired : IsWired two_cmps two_boxes
unfolding registered
two_boxes-IsWired = record {
  slots = refl;
  alive = ((pos 0, refl), ground arith, ((pos 0, refl), ground arith, tt));
}

-- After librados has written the second box.
abbrev second_written : World
second_written = record {
  log = operated two_cmps io obj ∷ two_boxes.log;
  next = 3;
  mem = poke two_boxes.mem 2 (some (Cell.int (negsuc 124)));
}

abbrev zeros : List ℤ
zeros = pos 0 ∷ pos 0 ∷ []

abbrev second_failed : List ℤ
second_failed = pos 0 ∷ negsuc 124 ∷ []

earlier_zero : (j : ℕ) → j < 1 → get_elem? second_failed j ≡ some (pos 0)
earlier_zero zero h = refl
earlier_zero (suc j) h = absurd (omega arith)

failure : FirstFailure second_failed 1
failure = record { code = negsuc 124; written = refl; nonzero = cc; earlier = earlier_zero }

operate_report_names_guard_example :
    let (r, w') = operate_report refusing two_cmps io obj two_boxes in
    (r ≡ ok (report_error (rados (pos 125)) (some (record { index = 1 }))))
    × (w'.log ≡ Call.release_write_op 5 ∷ operated two_cmps io obj ∷ two_boxes.log)
    × AllFreed w' (1 ∷ 2 ∷ [])
    × ((b : Ptr) → IsOther b (1 ∷ 2 ∷ []) → w'.mem b ≡ second_written.mem b)
unfolding of_errno
operate_report_names_guard_example =
    operate_report_names_guard refusing two_cmps io obj two_boxes second_written second_failed
      obj-NoNul refl 124 1 (ground arith) refl (refl, (refl, tt)) failure

slots_only : WritesSlots (registered 5 two_boxes.log) ((2, Cell.int (negsuc 124)) ∷ [])
unfolding registered
slots_only = (inr (inl refl), (negsuc 124, refl), tt)

operate_report_total_example :
    (r : Report) × ((operate_report refusing two_cmps io obj two_boxes).0 ≡ ok r)
    × ((operate_report refusing two_cmps io obj two_boxes).1.log
        ≡ Call.release_write_op 5 ∷ operated two_cmps io obj ∷ two_boxes.log)
operate_report_total_example =
    operate_report_total refusing two_cmps io obj two_boxes obj-NoNul two_boxes-IsWired slots_only
      (inr (124, refl, ground arith))

-- An op of which no comparison fails, but the write is refused.
abbrev vetoed : WriteOp
vetoed = record { op = 8; cmps = 1 ∷ 2 ∷ [] }
