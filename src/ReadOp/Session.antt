-- ===== src/ReadOp/Session.antt =====
-- A client of src/read_op.rs from the creation of a compound read to the last of its handles.
use librados_rs.Base.{
  ℕ, suc, ◌<◌, ◌≡◌, ◌⊎◌, inl, inr, refl, sym, ◌∙◌, ℤ, pos, negsuc, List, [], ◌∷◌, map, arith,
}
use librados_rs.Error.{Bytes, Outcome, ok, err, of_errno}
use librados_rs.Error.Laws.{IsCode}
use librados_rs.Text.Laws.{NoNul}
use librados_rs.Handles.{IoCtx}
use librados_rs.Ffi.Memory.{Ptr}
use librados_rs.Ffi.Call.{Call}
use librados_rs.Ffi.World.{Platform, World, Io, pure, ◌>>=◌}
use librados_rs.IoCtx.Notify.Laws.{IsSettled}
use librados_rs.ReadOp.{Kind, El, Handle, ReadOp, new}
use librados_rs.ReadOp.Run.{ReadResults, operate, take_result}
use librados_rs.ReadOp.Handles.{Filled, take_once, take_result-operation}
use librados_rs.ReadOp.Wired.{Slot, registered, IsWired, WritesSteps}
use librados_rs.ReadOp.Build.{ReadStep, kind_of}
use librados_rs.ReadOp.Total.{run_code, IsFinite, Fills, Fills-get, take-IsSettled, operate-Fills}
use librados_rs.ReadOp.Batch.{AnyHandle, add_all, AllAccepted, AllName, RisesFrom, add_all-Builds}

-- The values of handles, with their types.
abbrev pub Values : Type 0
Values = List ((k : Kind) × Outcome (El k))

module _ (p : Platform) where
  -- Each handle is exchanged in turn.
  unfoldable pub take_all : ReadResults → List AnyHandle → Values
  take_all rs [] = []
  take_all rs ((k, h) ∷ hs) = let (v, rs') = take_result p k rs h in (k, v) ∷ take_all rs' hs

  -- The slot of the handle is filled, with a code.
  abbrev HasValue : ReadResults → AnyHandle → Type 0
  HasValue rs (k, h) =
      (rs.operation ≡ h.operation) × (z : ℤ) × (v : El k) × IsCode z × Filled k rs h.index z v

  abbrev HaveValues : ReadResults → List AnyHandle → Type 0
  HaveValues rs [] = Unit
  HaveValues rs (h ∷ hs) = HasValue rs h × HaveValues rs hs

  Fills-HaveValues :
      (o : ReadOp) (slots : List Slot) (rs : ReadResults) (hs : List AnyHandle)
      → AllName hs o slots
      → rs.operation ≡ o.operation
      → Fills slots rs.results
      → HaveValues rs hs
  Fills-HaveValues o slots rs [] names own fills = tt
  Fills-HaveValues o slots rs ((k, h) ∷ hs) (n, names) own fills =
      let (z, v, code, filled) = Fills-get slots rs.results h.index (n.address, k) fills n.slot in
      ((own ∙ sym n.own, z, v, code, filled), Fills-HaveValues o slots rs hs names own fills)

  -- A take keeps the slots behind its own.
  kept :
      (k : Kind) (rs : ReadResults) (h : Handle k) (hs : List AnyHandle) (lo : ℕ)
      → HasValue rs (k, h)
      → h.index < lo
      → RisesFrom lo hs
      → HaveValues rs hs
      → HaveValues (take_result p k rs h).1 hs
  kept k rs h [] lo has lt rises all = tt
  kept k rs h ((j, g) ∷ hs) lo has lt rises all =
      let (own, z, v, code, filled) = has in
      let (mine, z', v', code', filled') = all.0 in
      let same = take_result-operation p k rs h own z v filled in
      let other = take_once p k rs h own z v filled g.index (omega arith) in
      (
        (same ∙ mine, z', v', code', other.1 ∙ filled'),
        kept k rs h hs (suc g.index) has (omega arith) rises.1 all.1,
      )

  -- Each value came back, at the type of its handle.
  abbrev pub AllSettled : Values → Type 0
  AllSettled [] = Unit
  AllSettled ((k, v) ∷ vs) = IsSettled v × AllSettled vs

  take_all-settles :
      (rs : ReadResults) (hs : List AnyHandle) (lo : ℕ)
      → RisesFrom lo hs
      → HaveValues rs hs
      → AllSettled (take_all rs hs)
        × (map (λ (v : (k : Kind) × Outcome (El k)). v.0) (take_all rs hs)
            ≡ map (λ (h : AnyHandle). h.0) hs)
  unfolding take_all
  take_all-settles rs [] lo rises all = (tt, refl)
  take_all-settles rs ((k, h) ∷ hs) lo rises all =
      let (own, z, v, code, filled) = all.0 in
      let rs' = (take_result p k rs h).1 in
      let left = kept k rs h hs (suc h.index) all.0 (omega arith) rises.1 all.1 in
      let (settled, kinds) = take_all-settles rs' hs (suc h.index) rises.1 left in
      ((take-IsSettled p k rs h own z v code filled, settled), rw kinds)

-- What librados promises of the run of a compound read: it returns a code, and writes only through
-- the slots that it holds, a step of the right kind each.
pub record IsHonest (p : Platform) : Type 0 where
  pub codes :
      (log : List Call) (op ioctx : Ptr) (oid : Bytes)
      → IsCode (p.librados log (Call.read_op_operate op ioctx oid)).0
  pub writes :
      (log : List Call) (op ioctx : Ptr) (oid : Bytes)
      → WritesSteps (registered op log) (p.librados log (Call.read_op_operate op ioctx oid)).1

-- The op that `new` makes.
abbrev pub new_op : Platform → World → ReadOp
new_op p w = record { op = p.librados w.log Call.create_read_op; operation = w.next; steps = [] }

-- The world in which the op is run.
abbrev pub built : Platform → List ReadStep → World → World
built p steps w = (add_all steps (new_op p w) (new p w).1).1

pub new_op-IsWired :
    (p : Platform) (w : World)
    → registered (p.librados w.log Call.create_read_op) w.log ≡ []
    → ((new p w).0 ≡ ok (new_op p w)) × IsWired (new_op p w) [] (new p w).1
unfolding new registered
new_op-IsWired p w empty = (refl, record { held = empty; steps = refl; alive = tt })

module _ (p : Platform) (fuel : ℕ) where
  -- A new op, its steps, its run on an object, and the value of each handle.
  unfoldable pub session : List ReadStep → IoCtx → (oid : Bytes) → Io Values
  session steps io oid = do
    o ← new p
    (o', hs) ← add_all steps o
    rs ← operate p fuel o' io oid
    pure (take_all p rs hs)

module _ (p : Platform) (fuel : ℕ) (honest : IsHonest p) (finite : IsFinite p fuel) where
  -- Where librados keeps its promises, every iterator ends before the fuel does, and a new op has
  -- no steps: a client that makes a compound read of accepted steps, runs it on an object whose
  -- name is free of NUL bytes, and exchanges all its handles, gets the error of the run where
  -- librados returns a negated errno, and otherwise, for each step, in order, a value of the step's
  -- type or an error. Nothing panics, touches freed memory or runs out of fuel.
  pub session_settles :
      (steps : List ReadStep) (io : IoCtx) (oid : Bytes) (w : World)
      → AllAccepted steps
      → NoNul oid
      → registered (p.librados w.log Call.create_read_op) w.log ≡ []
      → let r = (session p fuel steps io oid w).0 in
        let ret = run_code p (new_op p w).op io oid (built p steps w).log in
        ((n : ℕ) × (vs : Values) × (ret ≡ pos n)
          × (r ≡ ok vs)
          × AllSettled p vs
          × (map (λ (v : (k : Kind) × Outcome (El k)). v.0) vs ≡ map kind_of steps))
        ⊎ ((e : ℕ) × (ret ≡ negsuc e) × (r ≡ err (of_errno (pos (suc e)))))
  unfolding session
  session_settles steps io oid w accepted no_nul empty =
      let (made, wired) = new_op-IsWired p w empty in
      let (o', hs, slots, ran, wired', names, rises, kinds, _, _, op) =
        add_all-Builds steps (new_op p w) [] (new p w).1 accepted wired in
      let w' = built p steps w in
      let code = honest.codes w'.log o'.op io.ioctx oid in
      let writes = honest.writes w'.log o'.op io.ioctx oid in
      elim (operate-Fills p fuel finite o' slots w' wired' io oid no_nul code writes) [
        | inl (n, rs, ret, done, own, fills) ↦
            let values = Fills-HaveValues p o' slots rs hs names own fills in
            let (settled, same) = take_all-settles p rs hs 0 rises values in
            inl (n, take_all p rs hs, rw op at ret, rw (made, ran, done), settled, same ∙ kinds)
        | inr (e, ret, failed) ↦ inr (e, rw op at ret, rw (made, ran, failed))
      ]
