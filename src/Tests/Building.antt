-- ===== src/Tests/Building.antt =====
-- Compound operations built step by step, and a dropped watch.
use librados_rs.Base.{
  ◌%◌, ◌≡◌, ◌⊎◌, inl, inr, refl, ℕ, suc, true, false, pos, negsuc, map, Bool-cases, List, [], ◌∷◌,
  ◌++◌, none, some, length, arith, ◌==◌, if◌then◌else◌,
}
use librados_rs.Error.{Bytes, Outcome, ok, err, of_errno}
use librados_rs.Ffi.Memory.{Ptr}
use librados_rs.Text.{cstring, nul_position}
use librados_rs.Ffi.Call.{Call, Cell, Reply}
use librados_rs.Ffi.World.{Platform, World}
use librados_rs.IoCtx.Notify.Laws.{IsSettled}
use librados_rs.IoCtx.Watch.{flush, reclaim, drop_program}
use librados_rs.IoCtx.Watch.Lifecycle
use librados_rs.IoCtx.Watch.Lifecycle.{Life, Reach, fresh}
use librados_rs.IoCtx.Watch.Progress.{IsStuck, drop_in_callback_deadlocks}
use librados_rs.Omap.Drain.{pair_reply, end_reply}
use librados_rs.ReadOp.{El, Handle, Kind, ReadOp, omap_get_vals, push, cstring_opt}
use librados_rs.ReadOp.OneStep.{omap_reads_settle}
use librados_rs.ReadOp.Run.{
  ReadResults, operate, take_result, omap_vals, omap_keys, omap_vals_by_keys,
}
use librados_rs.ReadOp.Wired.{Slot, IsSlot, IsWired, Names, WritesSteps, registered}
use librados_rs.ReadOp.Build.{ReadStep, add, add-IsWired}
use librados_rs.ReadOp.Total.{run_code, IsFinite, operate-take_result}
use librados_rs.ReadOp.Session.{built, AllSettled, IsHonest, Values, session, session_settles}
use librados_rs.WriteOp.{WriteOp}
use librados_rs.WriteOp.Program.{WriteStep, add_all, program}
use librados_rs.WriteOp.Program.Laws.{add_all-program}
use librados_rs.Tests.Cluster.{
  obj, rbd, xattr_value, read_step, answer, io, bare, obj-NoNul, rbd-NoNul,
}

-- A watch whose drop begins while one callback waits.
abbrev closing : Life
closing = record fresh { registered = false; queued = 1; left = flush ∷ reclaim ∷ [] }

-- A watch that its own callback is dropping.
abbrev entangled : Life
entangled = record fresh {
  registered = false;
  running = true;
  left = flush ∷ reclaim ∷ [];
  inside = true;
}

drop_in_callback_deadlocks_example :
    (entangled.running ≡ true)
    × (entangled.alive ≡ true)
    × (entangled.registered ≡ false → IsStuck entangled)
unfolding drop_program
drop_in_callback_deadlocks_example =
    drop_in_callback_deadlocks
      (Lifecycle.next
        (Lifecycle.next
          (Lifecycle.next (Lifecycle.next Lifecycle.here (Lifecycle.dispatch refl))
            (Lifecycle.begin 0 refl refl))
          (Lifecycle.enter (flush ∷ reclaim ∷ []) refl refl refl))
        (Lifecycle.unwatched (flush ∷ reclaim ∷ []) refl))
      refl

abbrev empty_write : WriteOp
empty_write = record { op = 5; cmps = [] }

abbrev some_steps : List WriteStep
some_steps =
    WriteStep.write_full obj
    ∷ WriteStep.omap_set ((rbd, xattr_value) ∷ (obj, []) ∷ [])
    ∷ WriteStep.setxattr rbd xattr_value
    ∷ WriteStep.omap_cmp rbd 1 obj
    ∷ []

add_all-program_example :
    let (r, w') = add_all some_steps empty_write bare in
    (o' : WriteOp) × (r ≡ ok o') × (o'.op ≡ 5) × (program 5 w'.log ≡ program 5 [] ++ some_steps)
add_all-program_example =
    add_all-program some_steps empty_write bare (tt, (tt, (rbd-NoNul, (tt, tt))))

-- Iterators that yield one pair or none.
abbrev paired : (log : List Call) → (c : Call) → Reply c
paired log (Call.omap_get_next2 iter) =
    if length log % 2 == 0 then pair_reply (rbd, xattr_value) else end_reply
paired log c = answer false log c

abbrev iterating : Platform
iterating = record { librados = paired; overflow_checks = true }

iterating-IsFinite : IsFinite iterating 2
iterating-IsFinite iter log = elim (Bool-cases (length log % 2 == 0)) [
  | inl even ↦
      let odd : (suc (length log) % 2 == 0) ≡ false = ground arith in
      ((rbd, xattr_value) ∷ [], (rw even, rw odd), ground arith)
  | inr odd ↦ ([], rw odd, ground arith)
]

-- A new op, at address 6, whose mark is boxed at 1.
abbrev empty_read : ReadOp
empty_read = record { op = 6; operation = 1; steps = [] }

abbrev after_new : World
after_new = record bare { log = Call.create_read_op ∷ []; next = 2 }

empty_read-IsWired : IsWired empty_read [] after_new
unfolding registered
empty_read-IsWired = record { held = refl; steps = refl; alive = tt }

abbrev get_vals : ReadStep
get_vals = ReadStep.omap_get_vals none (some rbd) 9

add-IsWired_example :
    let (r, w') = add get_vals empty_read after_new in
    (o' : ReadOp) × (h : Handle Kind.vals_kind) × (r ≡ ok (o', h))
    × IsWired o' ((2, Kind.vals_kind) ∷ []) w'
    × Names h o' ((2, Kind.vals_kind) ∷ [])
    × (h.index ≡ 0)
    × (o'.op ≡ 6)
    × (o'.operation ≡ 1)
add-IsWired_example =
    add-IsWired get_vals empty_read [] after_new (tt, rbd-NoNul) empty_read-IsWired

abbrev one_step : ReadOp
one_step = record empty_read { steps = 2 ∷ [] }

abbrev vals_handle : Handle Kind.vals_kind
vals_handle = record { operation = 1; index = 0 }

-- The world in which the op has its step.
abbrev after_add : World
after_add = (add get_vals empty_read after_new).1

added : (add get_vals empty_read after_new).0 ≡ ok (one_step, vals_handle)
unfolding add omap_get_vals push cstring_opt cstring nul_position
added = refl

one_step-IsWired : IsWired one_step ((2, Kind.vals_kind) ∷ []) after_add
unfolding add registered omap_get_vals push cstring_opt cstring nul_position
one_step-IsWired = record {
  held = refl;
  steps = refl;
  alive = (ground arith, ground arith, (_, refl, inl (0, refl)), tt);
}

vals_handle-Names : Names vals_handle one_step ((2, Kind.vals_kind) ∷ [])
vals_handle-Names = record { own = refl; address = 2; slot = refl }

operate-take_result_example :
    let r = (operate iterating 2 one_step io obj after_add).0 in
    let ret = run_code iterating 6 io obj after_add.log in
    ((n : ℕ) × (rs : ReadResults) × (ret ≡ pos n)
      × (r ≡ ok rs)
      × IsSettled (take_result iterating Kind.vals_kind rs vals_handle).0)
    ⊎ ((e : ℕ) × (ret ≡ negsuc e) × (r ≡ err (of_errno (pos (suc e)))))
unfolding add registered omap_get_vals push cstring_opt cstring nul_position
operate-take_result_example =
    operate-take_result iterating 2 iterating-IsFinite one_step ((2, Kind.vals_kind) ∷ []) after_add
      one_step-IsWired io obj obj-NoNul (inl (0, refl))
      ((Kind.vals_kind, inl refl, inl (0, refl)), tt) vals_handle vals_handle-Names

-- What a run finds for a slot.
abbrev outcome_for : Slot → Ptr × Cell
outcome_for (a, Kind.data_kind) =
    (a, Cell.data_step (record { buf = rbd; bytes_read = 2; prval = pos 0 }))
outcome_for (a, Kind.vals_kind) = (a, Cell.vals_step read_step)
outcome_for (a, Kind.keys_kind) =
    (a, Cell.keys_step (record { iter = 12; more = 0; prval = negsuc 1 }))

-- A librados that fills every slot that it holds.
abbrev filling : (log : List Call) → (c : Call) → Reply c
filling log (Call.read_op_operate op _ _) = (pos 0, map outcome_for (registered op log))
filling log c = paired log c

abbrev honest : Platform
honest = record { librados = filling; overflow_checks = true }

fills_slots :
    (slots some_slots : List Slot)
    → ((s : Slot) → IsSlot s some_slots → IsSlot s slots)
    → WritesSteps slots (map outcome_for some_slots)
fills_slots slots [] among = tt
fills_slots slots ((a, Kind.data_kind) ∷ rest) among = (
  (Kind.data_kind, among _ (inl refl), inl (0, refl)),
  fills_slots slots rest (λ s h. among s (inr h)),
)
fills_slots slots ((a, Kind.vals_kind) ∷ rest) among = (
  (Kind.vals_kind, among _ (inl refl), inl (0, refl)),
  fills_slots slots rest (λ s h. among s (inr h)),
)
fills_slots slots ((a, Kind.keys_kind) ∷ rest) among = (
  (Kind.keys_kind, among _ (inl refl), inr (1, refl, ground arith)),
  fills_slots slots rest (λ s h. among s (inr h)),
)

honest-IsHonest : IsHonest honest
honest-IsHonest = record {
  codes = λ log op ioctx oid. inl (0, refl);
  writes = λ log op ioctx oid. fills_slots (registered op log) (registered op log) (λ s h. h);
}

honest-IsFinite : IsFinite honest 2
honest-IsFinite = iterating-IsFinite

abbrev three_reads : List ReadStep
three_reads = ReadStep.read 0 3 ∷ get_vals ∷ ReadStep.omap_get_keys (some obj) 5 ∷ []

session_settles_example :
    let r = (session honest 2 three_reads io obj bare).0 in
    let ret = run_code honest 6 io obj (built honest three_reads bare).log in
    ((n : ℕ) × (vs : Values) × (ret ≡ pos n)
      × (r ≡ ok vs)
      × AllSettled honest vs
      × (map (λ (v : (k : Kind) × Outcome (El k)). v.0) vs
          ≡ Kind.data_kind ∷ Kind.vals_kind ∷ Kind.keys_kind ∷ []))
    ⊎ ((e : ℕ) × (ret ≡ negsuc e) × (r ≡ err (of_errno (pos (suc e)))))
unfolding registered
session_settles_example =
    session_settles honest 2 honest-IsHonest honest-IsFinite three_reads io obj bare
      (ground arith, ((tt, rbd-NoNul), (obj-NoNul, tt))) obj-NoNul refl

-- "a", a NUL byte, "b".
abbrev with_nul : Bytes
with_nul = 97 ∷ 0 ∷ 98 ∷ []

omap_reads_settle_example :
    IsSettled (omap_vals honest 2 io obj (some with_nul) none 9 bare).0
    × IsSettled (omap_keys honest 2 io obj (some with_nul) 9 bare).0
    × IsSettled (omap_vals_by_keys honest 2 io obj (with_nul ∷ []) bare).0
unfolding registered
omap_reads_settle_example =
    omap_reads_settle honest 2 honest-IsHonest honest-IsFinite io obj bare refl (some with_nul) none
      9 (with_nul ∷ [])
