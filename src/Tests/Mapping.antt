-- ===== src/Tests/Mapping.antt =====
-- A librados that keeps the omaps of a pool.
use librados_rs.Base.{
  ◌≡◌, refl, ap, Bool, true, false, ℤ, pos, List, [], ◌∷◌, Option, none, some, arith,
}
use librados_rs.Error.{Bytes, ok}
use librados_rs.Ffi.Memory.{Ptr}
use librados_rs.Ffi.Call.{Call, Reply, NextReply, Writes}
use librados_rs.Ffi.World.{Platform}
use librados_rs.IoCtx.Objects.Semantics.{Answer, done, failed}
use librados_rs.IoCtx.Omap.{
  Request, set, rm_keys, clear, query, flag, IsStill, Answers, Serves, ask, run, run_all, spec,
  replay, AllFresh, AllPages,
}
use librados_rs.IoCtx.Omap.Refines.{run_all_lem}
use librados_rs.IoCtx.Omap.Map.{
  Pool, modify, look, map_pool, binding, changed_all, remove_all, remove, set_and_get, set-query,
}
use librados_rs.WriteOp.Run.{set_omap, rm_omap_keys, clear_omap}
use librados_rs.ReadOp.Run.{omap_vals, omap_keys}
use librados_rs.Omap.Lookup.{last_value}
use librados_rs.Omap.{compare_bytes, insert, collect_into, collect, drop_iter, pairs_loop, pairs}
use librados_rs.WriteOp
use librados_rs.WriteOp.Run as WriteRun
use librados_rs.ReadOp
use librados_rs.ReadOp.Run as ReadRun
use librados_rs.Text.{nul_position, cstring}
use librados_rs.Error.{neg_checked, of_errno, check_err}
use librados_rs.Ffi.Memory.{from_raw_parts}
use librados_rs.IoCtx.Notify.{copy_payload}
use librados_rs.WriteOp.Run.{position_from}
use librados_rs.WriteOp.Guards.{marking}
use librados_rs.Omap.Drain.{YieldsPairs, pair_reply, end_reply}
use librados_rs.ReadOp.Build.{ReadStep}
use librados_rs.ReadOp.Program as Reads
use librados_rs.ReadOp.Query.{Query, step_of, cell_of}
use librados_rs.WriteOp.Program.{program}
use librados_rs.WriteOp.Session.{code_of, marked}
use librados_rs.WriteOp.Wired.{registered}
use librados_rs.Tests.Cluster.{obj, rbd, xattr_value, answer, io, bare, obj-NoNul, rbd-NoNul}

-- The omaps after the calls of a log.
unfoldable kept : List Call → Pool
unfolding program
kept [] = λ _. []
kept (Call.write_op_operate op _ oid ∷ log) = (modify oid (program op log) (kept log)).1
kept (_ ∷ log) = kept log

abbrev query_of : ReadStep → Option Query
query_of (ReadStep.omap_get_vals start prefix max) = some (Query.vals start prefix max)
query_of (ReadStep.omap_get_keys start max) = some (Query.keys start max)
query_of (ReadStep.omap_get_vals_by_keys ks) = some (Query.vals_by_keys ks)
query_of _ = none

-- The one query of an op, and its box.
abbrev boxed_query : Option Query → Ptr → Option (Query × Ptr)
boxed_query none a = none
boxed_query (some q) a = some (q, a)

abbrev only : List (ReadStep × Ptr) → Option (Query × Ptr)
only [] = none
only ((s, a) ∷ []) = boxed_query (query_of s) a
only (_ ∷ _ ∷ _) = none

abbrev Found : Type 0
Found = Answer (List (Bytes × Bytes) × Bool)

abbrev fill : Query → Ptr → Found → ℤ × Writes
fill q a (done (kvs, more)) = (pos 0, (a, cell_of q 12 (flag more)) ∷ [])
fill q a (failed e) = (pos 0, [])

abbrev read_reply : (oid : Bytes) → Pool → Option (Query × Ptr) → ℤ × Writes
read_reply oid σ none = (pos 0, [])
read_reply oid σ (some (q, a)) = fill q a (look oid q σ)

abbrev pairs_of : Found → List (Bytes × Bytes)
pairs_of (done (kvs, more)) = kvs
pairs_of (failed e) = []

abbrev found_pairs : (oid : Bytes) → Pool → Option (Query × Ptr) → List (Bytes × Bytes)
found_pairs oid σ none = []
found_pairs oid σ (some (q, a)) = pairs_of (look oid q σ)

abbrev rest_of : List (Bytes × Bytes) → List (Bytes × Bytes)
rest_of [] = []
rest_of (kv ∷ kvs) = kvs

-- The pairs that the last iterator has left.
unfoldable left : List Call → List (Bytes × Bytes)
unfolding kept look Reads.program
left [] = []
left (Call.read_op_operate op _ oid ∷ log) =
    found_pairs oid (kept log) (only (Reads.program op log))
left (Call.omap_get_next2 _ ∷ log) = rest_of (left log)
left (_ ∷ log) = left log

abbrev next_reply : List (Bytes × Bytes) → NextReply
next_reply [] = end_reply
next_reply (kv ∷ kvs) = pair_reply kv

unfoldable pool_reply : (log : List Call) → (c : Call) → Reply c
unfolding kept left look program registered Reads.program
pool_reply log (Call.write_op_operate op _ oid) =
    let v = (modify oid (program op log) (kept log)).0 in (code_of v, marked v (registered op log))
pool_reply log (Call.read_op_operate op _ oid) =
    read_reply oid (kept log) (only (Reads.program op log))
pool_reply log (Call.omap_get_next2 _) = next_reply (left log)
pool_reply log c = answer false log c

abbrev pooled : Platform
pooled = record { librados = pool_reply; overflow_checks = true }

left-YieldsPairs :
    (kvs : List (Bytes × Bytes)) (log : List Call) → left log ≡ kvs → YieldsPairs pooled 12 log kvs
unfolding pool_reply left
left-YieldsPairs [] log h = ap next_reply h
left-YieldsPairs (kv ∷ kvs) log h =
    (ap next_reply h, left-YieldsPairs kvs (Call.omap_get_next2 12 ∷ log) (ap rest_of h))

kept-still : (c : Call) (log : List Call) → IsStill c → kept (c ∷ log) ≡ kept log
unfolding kept
kept-still (Call.write_op_operate _ _ _) log h = elim h [ ]
kept-still _ log h = refl

answered :
    (log : List Call) (op a : Ptr) (oid : Bytes) (q : Query)
    → Reads.program op log ≡ (step_of q, a) ∷ []
    → Answers pooled io log op a oid q (look oid q (kept log))
unfolding pool_reply left look
answered log op a oid (Query.vals start prefix max) h =
    (12, rw h refl, left-YieldsPairs _ _ (rw h refl))
answered log op a oid (Query.keys start max) h = (12, rw h refl, left-YieldsPairs _ _ (rw h refl))
answered log op a oid (Query.vals_by_keys ks) h = (12, rw h refl, left-YieldsPairs _ _ (rw h refl))

pooled-Serves : Serves pooled io map_pool
unfolding map_pool pool_reply kept
pooled-Serves = record {
  state = kept;
  judges = record {
    answers = λ log op ioctx oid. refl;
    sound = λ log oid steps. map_pool.sound oid steps (kept log);
  };
  answers = answered;
  moves = λ log op oid. refl;
  still = kept-still;
}

abbrev requests : List Request
requests =
    set obj ((rbd, xattr_value) ∷ (obj, rbd) ∷ [])
    ∷ query obj (Query.vals none (some rbd) 9)
    ∷ rm_keys obj (rbd ∷ [])
    ∷ query obj (Query.keys none 9)
    ∷ clear obj
    ∷ []

fresh_requests : AllFresh pooled 3 io requests bare
unfolding pool_reply kept program registered Reads.program run ask set_omap rm_omap_keys clear_omap
    omap_vals omap_keys WriteOp.new WriteOp.omap_set WriteOp.omap_rm_keys WriteOp.omap_clear
    WriteOp.drop_write_op WriteRun.operate WriteRun.run_op WriteRun.operate_report ReadOp.new
    ReadOp.push ReadOp.cstring_opt ReadOp.omap_get_vals ReadOp.omap_get_keys ReadOp.drop_step
    ReadOp.drop_steps ReadOp.drop_read_op ReadRun.downcast ReadRun.into_result ReadRun.step_result
    ReadRun.step_results ReadRun.submit ReadRun.operate ReadRun.opened ReadRun.take_slot
    ReadRun.take_result ReadRun.read_one compare_bytes insert collect_into collect drop_iter
    pairs_loop pairs nul_position cstring neg_checked of_errno check_err from_raw_parts copy_payload
    position_from look left changed_all marking remove_all remove
fresh_requests = ((refl, refl), (refl, ((refl, refl), (refl, ((refl, refl), tt)))))

fresh_set : AllFresh pooled 3 io (set_and_get obj ((rbd, xattr_value) ∷ []) rbd) bare
unfolding pool_reply kept program registered Reads.program run set_omap WriteOp.new WriteOp.omap_set
    WriteOp.omap_rm_keys WriteOp.omap_clear WriteOp.drop_write_op WriteRun.operate WriteRun.run_op
    WriteRun.operate_report nul_position cstring neg_checked of_errno check_err changed_all marking
fresh_set = ((refl, refl), (refl, tt))

few_pages : AllPages map_pool 3 requests (pooled-Serves.state [])
unfolding AllPages map_pool look pooled-Serves kept spec changed_all remove_all remove compare_bytes
    insert collect_into collect
few_pages = (tt, (ground arith, (tt, (ground arith, (tt, tt)))))

run_all_lem_example :
    let (os, w') = run_all pooled 3 io requests bare in
    (os ≡ (replay map_pool requests (pooled-Serves.state [])).0)
    × (pooled-Serves.state w'.log ≡ (replay map_pool requests (pooled-Serves.state [])).1)
run_all_lem_example =
    run_all_lem pooled 3 io map_pool pooled-Serves requests bare
      (obj-NoNul, ((obj-NoNul, (tt, rbd-NoNul)), (obj-NoNul, ((obj-NoNul, tt), (obj-NoNul, tt)))))
      fresh_requests few_pages

set-query_example :
    (run_all pooled 3 io (set_and_get obj ((rbd, xattr_value) ∷ []) rbd) bare).0
    ≡ (set obj ((rbd, xattr_value) ∷ []), ok tt)
      ∷ (
        query obj (Query.vals_by_keys (rbd ∷ [])),
        ok (record { entries = binding rbd (some xattr_value); more = false }),
      )
      ∷ []
unfolding last_value compare_bytes
set-query_example =
    set-query pooled 3 io pooled-Serves obj ((rbd, xattr_value) ∷ []) rbd bare obj-NoNul
      (ground arith) fresh_set
