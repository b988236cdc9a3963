-- ===== src/IoCtx/Omap.antt =====
-- The omap operations of src/ioctx.rs against any semantics of omaps: writes and reads go through
-- the compound operations of src/write_op.rs and src/read_op.rs, and pages through src/omap.rs.
pub mod Refines
pub mod Map
use librados_rs.Base.{
  ℕ, suc, ◌+◌, ◌<◌, ◌^◌, ◌≡◌, Bool, ℤ, pos, negsuc, List, [], ◌∷◌, if◌then◌else◌, length,
}
use librados_rs.Error.{Bytes, Outcome, ok, err, of_errno}
use librados_rs.Text.Laws.{NoNul}
use librados_rs.Handles.{IoCtx}
use librados_rs.Ffi.Memory.{Ptr}
use librados_rs.Ffi.Call
use librados_rs.Ffi.Call.{Call}
use librados_rs.Ffi.World.{Platform, World, Io}
use librados_rs.IoCtx.Objects.Semantics.{Answer, done, failed, outcome_of}
use librados_rs.Omap.Drain.{YieldsPairs}
use librados_rs.ReadOp.{El}
use librados_rs.ReadOp.Run.{omap_vals, omap_keys, omap_vals_by_keys}
use librados_rs.ReadOp.Build.{kind_of, IsAccepted}
use librados_rs.ReadOp.Program as Reads
use librados_rs.ReadOp.Query.{Query, step_of, cell_of, value_of}
use librados_rs.WriteOp.Run.{set_omap, rm_omap_keys, clear_omap}
use librados_rs.WriteOp.Wired.{registered}
use librados_rs.WriteOp.Program
use librados_rs.WriteOp.Program.{WriteStep, program}
use librados_rs.WriteOp.OneStep.{raised}
use librados_rs.WriteOp.Session.{Verdict, IsVerdict, Judges, comparisons, report_of}

-- What is asked of the omap of an object.
pub data Request : Type 0 where
  set : (oid : Bytes) → (entries : List (Bytes × Bytes)) → Request
  rm_keys : (oid : Bytes) → (keys : List Bytes) → Request
  clear : (oid : Bytes) → Request
  query : (oid : Bytes) → Query → Request

abbrev pub Got : Request → Type 0
Got (query oid q) = El (kind_of (step_of q))
Got _ = Unit

-- Names and strings are free of NUL bytes.
abbrev pub IsClean : Request → Type 0
IsClean (set oid entries) = NoNul oid
IsClean (rm_keys oid ks) = NoNul oid
IsClean (clear oid) = NoNul oid
IsClean (query oid q) = NoNul oid × IsAccepted (step_of q)

-- How the objects of a pool change by the steps of a compound write, and what a read finds: pairs,
-- and whether there are more. Errnos fit a C int.
pub record Semantics : Type 1 where
  pub State : Type 0
  pub modify : (oid : Bytes) → List WriteStep → State → Verdict × State
  pub look : (oid : Bytes) → Query → State → Answer (List (Bytes × Bytes) × Bool)
  pub sound :
      (oid : Bytes) (steps : List WriteStep) (s : State)
      → IsVerdict (modify oid steps s).0 (comparisons steps)
  pub errnos_fit :
      (oid : Bytes) (q : Query) (s : State) (e : ℕ) → look oid q s ≡ failed e → suc e < 2 ^ 31

-- A `c_uchar` that stands for a flag.
abbrev pub flag : Bool → ℕ
flag b = if b then 1 else 0

-- The calls that leave the objects alone.
abbrev pub IsStill : Call → Type 0
IsStill Call.create_write_op = Unit
IsStill (Call.release_write_op _) = Unit
IsStill (Call.write_op_omap_set2 _ _ _ _ _ _) = Unit
IsStill (Call.write_op_omap_rm_keys2 _ _ _ _) = Unit
IsStill (Call.write_op_omap_clear _) = Unit
IsStill Call.create_read_op = Unit
IsStill (Call.release_read_op _) = Unit
IsStill (Call.read_op_omap_get_vals2 _ _ _ _ _) = Unit
IsStill (Call.read_op_omap_get_keys2 _ _ _ _) = Unit
IsStill (Call.read_op_omap_get_vals_by_keys2 _ _ _ _ _) = Unit
IsStill (Call.read_op_operate _ _ _) = Unit
IsStill (Call.omap_get_next2 _) = Unit
IsStill (Call.omap_get_end _) = Unit
IsStill _ = ⊥

module _ (p : Platform) (io : IoCtx) where
  -- librados answers a read, boxed at `a`: it fills the box with an iterator of the pairs, or it
  -- returns an errno.
  abbrev pub Answers :
      List Call
      → (op a : Ptr) → (oid : Bytes) → Query
      → Answer (List (Bytes × Bytes) × Bool)
      → Type 0
  Answers log op a oid q (done (kvs, more)) =
      let run = Call.read_op_operate op io.ioctx oid in
      (iter : Ptr) × (p.librados log run ≡ (pos 0, (a, cell_of q iter (flag more)) ∷ []))
      × YieldsPairs p iter (run ∷ log) kvs
  Answers log op a oid q (failed e) =
      p.librados log (Call.read_op_operate op io.ioctx oid) ≡ (negsuc e, [])

  -- librados serves the pool: it keeps a state, by which it judges writes and answers reads, and
  -- which the run of a write moves on.
  pub record Serves (s : Semantics) : Type 0 where
    pub state : List Call → s.State
    pub judges : Judges p (λ log oid steps. (s.modify oid steps (state log)).0)
    pub answers :
        (log : List Call) (op a : Ptr) (oid : Bytes) (q : Query)
        → Reads.program op log ≡ (step_of q, a) ∷ []
        → Answers log op a oid q (s.look oid q (state log))
    pub moves :
        (log : List Call) (op : Ptr) (oid : Bytes)
        → state (Call.write_op_operate op io.ioctx oid ∷ log)
          ≡ (s.modify oid (program op log) (state log)).1
    pub still : (c : Call) (log : List Call) → IsStill c → state (c ∷ log) ≡ state log

module _ (p : Platform) (fuel : ℕ) (io : IoCtx) where
  -- The method of `IoCtx`.
  unfoldable pub ask : (oid : Bytes) → (q : Query) → Io (El (kind_of (step_of q)))
  ask oid (Query.vals start prefix max) = omap_vals p fuel io oid start prefix max
  ask oid (Query.keys start max) = omap_keys p fuel io oid start max
  ask oid (Query.vals_by_keys ks) = omap_vals_by_keys p fuel io oid ks

  unfoldable pub run : (r : Request) → Io (Got r)
  run (set oid entries) = set_omap p io oid entries
  run (rm_keys oid ks) = rm_omap_keys p io oid ks
  run (clear oid) = clear_omap p io oid
  run (query oid q) = ask oid q

  -- A client's requests, one after the other.
  unfoldable pub run_all : List Request → World → List ((r : Request) × Outcome (Got r)) × World
  unfolding run
  run_all [] w = ([], w)
  run_all (r ∷ rs) w = let (o, w₁) = run r w in let (os, w₂) = run_all rs w₁ in ((r, o) ∷ os, w₂)

-- The op that librados makes next has no steps.
abbrev pub IsFresh : Platform → Request → World → Type 0
IsFresh p (query oid q) w = Reads.program (p.librados w.log Call.create_read_op) w.log ≡ []
IsFresh p _ w =
    (program (p.librados w.log Call.create_write_op) w.log ≡ [])
    × (registered (p.librados w.log Call.create_write_op) w.log ≡ [])

-- So it is at each request.
abbrev pub AllFresh : Platform → (fuel : ℕ) → IoCtx → List Request → World → Type 0
AllFresh p fuel io [] w = Unit
AllFresh p fuel io (r ∷ rs) w = IsFresh p r w × AllFresh p fuel io rs (run p fuel io r w).1

abbrev pub AllClean : List Request → Type 0
AllClean [] = Unit
AllClean (r ∷ rs) = IsClean r × AllClean rs

-- The specification: a write is judged with its one step; a read is the value of what is found.
module _ (s : Semantics) where
  abbrev written : (oid : Bytes) → WriteStep → s.State → Outcome (Unit {0}) × s.State
  written oid step σ = let (v, σ') = s.modify oid (step ∷ []) σ in (raised (report_of v), σ')

  unfoldable pub spec : (r : Request) → s.State → Outcome (Got r) × s.State
  spec (set oid entries) σ = written oid (WriteStep.omap_set entries) σ
  spec (rm_keys oid ks) σ = written oid (WriteStep.omap_rm_keys ks) σ
  spec (clear oid) σ = written oid WriteStep.omap_clear σ
  spec (query oid q) σ = (
    outcome_of (λ (f : List (Bytes × Bytes) × Bool). value_of q f.0 (flag f.1)) (s.look oid q σ),
    σ,
  )

  unfoldable pub replay : List Request → s.State → List ((r : Request) × Outcome (Got r)) × s.State
  unfolding spec
  replay [] σ = ([], σ)
  replay (r ∷ rs) σ = let (o, σ₁) = spec r σ in let (os, σ₂) = replay rs σ₁ in ((r, o) ∷ os, σ₂)

  -- No page has `fuel` pairs or more.
  abbrev pub IsPage : (fuel : ℕ) → Answer (List (Bytes × Bytes) × Bool) → Type 0
  IsPage fuel (done (kvs, more)) = length kvs < fuel
  IsPage fuel (failed e) = Unit

  abbrev pub HasPage : (fuel : ℕ) → Request → s.State → Type 0
  HasPage fuel (query oid q) σ = IsPage fuel (s.look oid q σ)
  HasPage fuel _ σ = Unit

  unfoldable pub AllPages : (fuel : ℕ) → List Request → s.State → Type 0
  unfolding spec
  AllPages fuel [] σ = Unit
  AllPages fuel (r ∷ rs) σ = HasPage fuel r σ × AllPages fuel rs (spec r σ).1
