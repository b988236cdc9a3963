-- ===== src/IoCtx/Objects/Semantics.antt =====
-- The object operations of src/ioctx.rs against any semantics of objects: what librados promises of
-- its C functions for such a semantics, and what a client of `IoCtx` sees.
pub mod Refines
use librados_rs.Ffi.Memory.{Room, room_of, whole}
use librados_rs.Base.{
  ℕ, suc, ◌+◌, ◌<◌, ◌≤◌, ◌^◌, ◌≡◌, ℤ, pos, negsuc, List, [], ◌∷◌, ◌++◌, Option, none, some, length,
  drop,
}
use librados_rs.Error.{Bytes, nul, Outcome, ok, err, of_errno}
use librados_rs.Text.{nul_position}
use librados_rs.Text.Laws.{NoNul}
use librados_rs.Handles.{IoCtx}
use librados_rs.Ffi.Call
use librados_rs.Ffi.Call.{Call, Reply}
use librados_rs.Ffi.World.{Platform, World, Io}
use librados_rs.IoCtx.Objects
use librados_rs.IoCtx.Objects.{ObjectStat}

-- A call of a method of `IoCtx`, with its arguments. `read` takes the caller's buffer.
pub data Request : Type 0 where
  write : (oid buf : Bytes) → (offset : ℕ) → Request
  write_full append : (oid buf : Bytes) → Request
  read : (oid buf : Bytes) → (offset : ℕ) → Request
  stat : (oid : Bytes) → Request
  truncate : (oid : Bytes) → (size : ℕ) → Request
  remove : (oid : Bytes) → Request

abbrev pub object_of : Request → Bytes
object_of (Request.write oid buf offset) = oid
object_of (Request.write_full oid buf) = oid
object_of (Request.append oid buf) = oid
object_of (Request.read oid buf offset) = oid
object_of (Request.stat oid) = oid
object_of (Request.truncate oid size) = oid
object_of (Request.remove oid) = oid

-- What a request that succeeds gives: the bytes of a read, or the stat of an object.
abbrev pub Given : Request → Type 0
Given (Request.read oid buf offset) = Bytes
Given (Request.stat oid) = ObjectStat
Given _ = Unit

-- A value, or the errno `suc e`.
pub data Answer (A : Type 0) : Type 0 where
  done : A → Answer A
  failed : ℕ → Answer A

-- How objects change and what is read of them, whatever an object is. A read gives no more than
-- was asked for, and its length and every errno fit a C int.
pub record Semantics : Type 1 where
  pub State : Type 0
  pub perform : (r : Request) → State → Answer (Given r) × State
  pub reads_fit :
      (oid buf : Bytes) (offset : ℕ) (s : State) (b : Bytes)
      → (perform (Request.read oid buf offset) s).0 ≡ done b
      → (length b ≤ length buf) × (length b < 2 ^ 31)
  pub errnos_fit : (r : Request) (s : State) (e : ℕ) → (perform r s).0 ≡ failed e → suc e < 2 ^ 31

-- The C call of a request.
abbrev pub call_of : IoCtx → Request → Call
call_of io (Request.write oid buf offset) = Call.write io.ioctx oid buf (length buf) offset
call_of io (Request.write_full oid buf) = Call.write_full io.ioctx oid buf (length buf)
call_of io (Request.append oid buf) = Call.append io.ioctx oid buf (length buf)
call_of io (Request.read oid buf offset) = Call.read io.ioctx oid (whole (length buf)) offset
call_of io (Request.stat oid) = Call.stat io.ioctx oid
call_of io (Request.truncate oid size) = Call.trunc io.ioctx oid size
call_of io (Request.remove oid) = Call.remove io.ioctx oid

-- 0, or the negated errno.
abbrev pub code_of : {A : Type 0} → Answer A → ℤ
code_of (done a) = pos 0
code_of (failed e) = negsuc e

abbrev pub read_reply : Answer Bytes → ℤ × Bytes
read_reply (done b) = (pos (length b), b)
read_reply (failed e) = (negsuc e, [])

abbrev pub stat_reply : Answer ObjectStat → ℤ × ℕ × ℤ
stat_reply (done s) = (pos 0, s.size, s.mtime)
stat_reply (failed e) = (negsuc e, 0, pos 0)

-- What a C function returns for an answer.
abbrev pub reply_of : (io : IoCtx) (r : Request) → Answer (Given r) → Reply (call_of io r)
reply_of io (Request.write oid buf offset) a = code_of a
reply_of io (Request.write_full oid buf) a = code_of a
reply_of io (Request.append oid buf) a = code_of a
reply_of io (Request.read oid buf offset) a = read_reply a
reply_of io (Request.stat oid) a = stat_reply a
reply_of io (Request.truncate oid size) a = code_of a
reply_of io (Request.remove oid) a = code_of a

-- librados serves these objects to `io`: it keeps a state, by which it replies and which each
-- call moves on.
pub record Serves (p : Platform) (io : IoCtx) (s : Semantics) : Type 0 where
  pub state : List Call → s.State
  pub replies :
      (log : List Call) (r : Request)
      → NoNul (object_of r)
      → p.librados log (call_of io r) ≡ reply_of io r (s.perform r (state log)).0
  pub moves :
      (log : List Call) (r : Request)
      → NoNul (object_of r)
      → state (call_of io r ∷ log) ≡ (s.perform r (state log)).1

-- What the caller gets: for a read, the number of bytes with the buffer.
abbrev pub Got : Request → Type 0
Got (Request.read oid buf offset) = ℕ × Bytes
Got (Request.stat oid) = ObjectStat
Got _ = Unit

-- The method of `IoCtx`.
unfoldable pub run : (p : Platform) → IoCtx → (r : Request) → Io (Got r)
run p io (Request.write oid buf offset) = Objects.write p io oid buf offset
run p io (Request.write_full oid buf) = Objects.write_full p io oid buf
run p io (Request.append oid buf) = Objects.append p io oid buf
run p io (Request.read oid buf offset) = Objects.read p io oid buf offset
run p io (Request.stat oid) = Objects.stat p io oid
run p io (Request.truncate oid size) = Objects.truncate p io oid size
run p io (Request.remove oid) = Objects.remove p io oid

-- A request with its outcome.
abbrev pub Outcomes : Type 0
Outcomes = List ((r : Request) × Outcome (Got r))

-- A client's requests, one after the other.
unfoldable pub run_all : (p : Platform) → IoCtx → List Request → World → Outcomes × World
unfolding run
run_all p io [] w = ([], w)
run_all p io (r ∷ rs) w =
    let (o, w₁) = run p io r w in let (os, w₂) = run_all p io rs w₁ in ((r, o) ∷ os, w₂)

-- What the caller is to get for an answer: bytes that are read stand at the front of its buffer.
abbrev pub delivered : (r : Request) → Given r → Got r
delivered (Request.write oid buf offset) u = u
delivered (Request.write_full oid buf) u = u
delivered (Request.append oid buf) u = u
delivered (Request.read oid buf offset) b = (length b, b ++ drop (length b) buf)
delivered (Request.stat oid) s = s
delivered (Request.truncate oid size) u = u
delivered (Request.remove oid) u = u

abbrev pub outcome_of : {A B : Type 0} → (A → B) → Answer A → Outcome B
outcome_of f (done a) = ok (f a)
outcome_of f (failed e) = err (of_errno (pos (suc e)))

abbrev pub expected : (r : Request) → Answer (Given r) → Outcome (Got r)
expected r a = outcome_of (delivered r) a

-- The specification: the semantics, except that a name with a NUL byte is refused.
module _ (s : Semantics) where
  unfoldable pub spec : (r : Request) → s.State → Outcome (Got r) × s.State
  spec r σ = elim (nul_position (object_of r)) [
    | none ↦ (expected r (s.perform r σ).0, (s.perform r σ).1)
    | some i ↦ (err (nul i (object_of r)), σ)
  ]

  unfoldable pub replay : List Request → s.State → Outcomes × s.State
  unfolding spec
  replay [] σ = ([], σ)
  replay (r ∷ rs) σ = let (o, σ₁) = spec r σ in let (os, σ₂) = replay rs σ₁ in ((r, o) ∷ os, σ₂)
