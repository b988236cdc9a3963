-- ===== src/Tests/Paging.antt =====
-- Omap pages, decoded replies, and names that are refused.
use librados_rs.Base.{◌≡◌, inl, inr, refl, pos, [], ◌∷◌, arith}
use librados_rs.Error.{ok}
use librados_rs.Ffi.Call.{Call, Cell, OmapKeysStep}
use librados_rs.Ffi.World.{World, logged}
use librados_rs.ReadOp.Run.{into_result}
use librados_rs.Omap.Keys.{with_values, without_values, into_result-domain}
use librados_rs.IoCtx.Notify.{decode_notify_response}
use librados_rs.IoCtx.Notify.Decode.{decode_lem}
use librados_rs.Tests.Cluster.{obj, one_ack, serving, bare}

-- An op was run just before, and the iterator yields one pair.
abbrev run_before : World
run_before = record bare { log = Call.read_op_operate 6 2 obj ∷ [] }

decode_lem_example : decode_notify_response serving 9 40 bare ≡ (
  ok one_ack,
  logged (Call.free_notify_response 3 1 0) (logged (Call.decode_notify_response 9 40) bare),
)
decode_lem_example =
    decode_lem serving 9 40 0 3 0 one_ack bare (ground arith) (ground arith) refl
      (inl (ground arith)) (inr refl)

-- A step that asks for keys alone.
abbrev keys_step : OmapKeysStep
keys_step = record { iter = 12; more = 1; prval = pos 0 }

into_result-domain_example :
    let (r, w') = into_result serving 2 (with_values keys_step) run_before in
    into_result serving 2 (Cell.keys_step keys_step) run_before ≡ (without_values r, w')
into_result-domain_example = into_result-domain serving 2 keys_step run_before
