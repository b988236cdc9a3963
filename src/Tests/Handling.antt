-- ===== src/Tests/Handling.antt =====
-- Handles of a compound read, and return codes.
use librados_rs.Base.{◌≡◌, refl, inr, pos, negsuc, true, [], ◌∷◌, some, get_elem?, arith}
use librados_rs.Error.{RadosError, err, panic, of_errno, check_err}
use librados_rs.Error.Laws.{Classified, check_err_errno}
use librados_rs.ReadOp.{Kind, Handle, ReadOp}
use librados_rs.ReadOp.Run.{bytes, ReadResults, take_result}
use librados_rs.ReadOp.Handles.{take_own}
use librados_rs.Tests.Cluster.{rbd, serving}

check_err_errno_example : (r : RadosError) × (check_err true (negsuc 1) ≡ err r) × Classified 2 r
check_err_errno_example = check_err_errno true 1 (ground arith)

-- A compound read at 4 with one step, of which the box is at 5.
abbrev one_step : ReadOp
one_step = record { op = 6; operation = 4; steps = 5 ∷ [] }

-- Results of a read that succeeded and of one that did not.
abbrev results : ReadResults
results = record {
  operation = 4;
  results = some (pos 0, bytes rbd) ∷ some (negsuc 21, bytes []) ∷ [];
}

abbrev second : Handle Kind.data_kind
second = record { operation = 4; index = 1 }

take_own_example :
    let (r, rs') = take_result serving Kind.data_kind results second in
    (r ≡ err (of_errno (pos 22)))
    × ((take_result serving Kind.data_kind rs' second).0 ≡ panic)
    × (get_elem? rs'.results 0 ≡ some (some (pos 0, bytes rbd)))
take_own_example =
    take_own serving Kind.data_kind results second refl (negsuc 21) [] refl 0
      (inr (21, refl, ground arith)) (ground arith)
