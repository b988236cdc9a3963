-- ===== src/IoCtx/Locks/Table.antt =====
-- The lock operations of src/ioctx.rs against any table of locks that librados serves.
pub mod Refines
use librados_rs.Base.{
  ℕ, suc, ◌+◌, ◌/◌, ◌<◌, ◌^◌, ◌≡◌, refl, ap, ◌∙◌, Bool, true, false, Bool-cases, inl, inr, ltb, ℤ,
  pos, negsuc, List, [], ◌∷◌, Option, none, some, Option-cases, if◌then◌else◌, arith,
}
use librados_rs.Error.{
  Bytes, RadosError, nul, rados, eoverflow, Outcome, ok, err, panic, fault, out_of_fuel, of_errno,
  check_err,
}
use librados_rs.Error.Laws.{check_err-pos, check_err-negsuc}
use librados_rs.Text.{nul_position, cstring}
use librados_rs.Text.Laws.{NoNul, NoNul-nul_position, cstring-NoNul}
use librados_rs.Handles.{IoCtx, Duration}
use librados_rs.Ffi.Memory.{Timeval}
use librados_rs.Ffi.Call
use librados_rs.Ffi.Call.{Call, Reply}
use librados_rs.Ffi.World.{Platform, World, Io, logged}
use librados_rs.Text.Refusals.{unless_nul, obeyed}
use librados_rs.IoCtx.Objects.Semantics.{Answer, done, failed, code_of, outcome_of}
use librados_rs.IoCtx.Locks
use librados_rs.IoCtx.Locks.{timeval_of, timeval_opt}

-- A call of a method, with its arguments.
pub data LockRequest : Type 0 where
  lock : (oid name cookie desc : Bytes) → (duration : Option Duration) → (flags : ℕ) → LockRequest
  unlock : (oid name cookie : Bytes) → LockRequest
  break_lock : (oid name client cookie : Bytes) → LockRequest

-- What librados is asked for: the time is in whole microseconds.
pub data Command : Type 0 where
  acquire : (oid name cookie desc : Bytes) → (duration : Option Timeval) → (flags : ℕ) → Command
  release : (oid name cookie : Bytes) → Command
  evict : (oid name client cookie : Bytes) → Command

abbrev pub call_of : IoCtx → Command → Call
call_of io (acquire oid name cookie desc tv flags) =
    Call.lock_exclusive io.ioctx oid name cookie desc tv flags
call_of io (release oid name cookie) = Call.unlock io.ioctx oid name cookie
call_of io (evict oid name client cookie) = Call.break_lock io.ioctx oid name client cookie

-- How the table of locks changes, whatever it is.
pub record Table : Type 1 where
  pub State : Type 0
  pub perform : Command → State → Answer (Unit {0}) × State
  pub errnos_fit : (c : Command) (s : State) (e : ℕ) → (perform c s).0 ≡ failed e → suc e < 2 ^ 31

abbrev pub reply_of : (io : IoCtx) (c : Command) → Answer (Unit {0}) → Reply (call_of io c)
reply_of io (acquire oid name cookie desc tv flags) a = code_of a
reply_of io (release oid name cookie) a = code_of a
reply_of io (evict oid name client cookie) a = code_of a

-- librados keeps such a table, answers by it, and each call moves it on.
pub record Keeps (p : Platform) (io : IoCtx) (t : Table) : Type 0 where
  pub state : List Call → t.State
  pub replies :
      (log : List Call) (c : Command)
      → p.librados log (call_of io c) ≡ reply_of io c (t.perform c (state log)).0
  pub moves :
      (log : List Call) (c : Command) → state (call_of io c ∷ log) ≡ (t.perform c (state log)).1

-- Seconds that do not fit an `i64` are refused.
abbrev pub timed : Option Duration → (Option Timeval → Command) → Outcome Command
timed none f = ok (f none)
timed (some d) f =
    if ltb d.secs (2 ^ 63)
    then ok (f (some (record { tv_sec = pos d.secs; tv_usec = pos (d.nanos / 1000) })))
    else err (rados (pos eoverflow))

-- What a request asks librados for, if its arguments are accepted.
unfoldable pub command_of : LockRequest → Outcome Command
command_of (LockRequest.lock oid name cookie desc duration flags) =
    unless_nul (oid ∷ name ∷ cookie ∷ desc ∷ [])
      (timed duration (λ tv. acquire oid name cookie desc tv flags))
command_of (LockRequest.unlock oid name cookie) =
    unless_nul (oid ∷ name ∷ cookie ∷ []) (ok (release oid name cookie))
command_of (LockRequest.break_lock oid name client cookie) =
    unless_nul (oid ∷ name ∷ client ∷ cookie ∷ []) (ok (evict oid name client cookie))

-- The method of `IoCtx`.
unfoldable pub run : (p : Platform) → IoCtx → LockRequest → Io (Unit {0})
run p io (LockRequest.lock oid name cookie desc duration flags) =
    Locks.lock_exclusive p io oid name cookie desc duration flags
run p io (LockRequest.unlock oid name cookie) = Locks.unlock p io oid name cookie
run p io (LockRequest.break_lock oid name client cookie) =
    Locks.break_lock p io oid name client cookie

unfoldable pub run_all :
    (p : Platform) → IoCtx → List LockRequest → World → List (Outcome (Unit {0})) × World
unfolding run
run_all p io [] w = ([], w)
run_all p io (r ∷ rs) w =
    let (o, w₁) = run p io r w in let (os, w₂) = run_all p io rs w₁ in (o ∷ os, w₂)

-- The specification.
module _ (t : Table) where
  abbrev pub performed : Command → t.State → Outcome (Unit {0}) × t.State
  performed c σ = (outcome_of (λ u. u) (t.perform c σ).0, (t.perform c σ).1)

  unfoldable pub replay : List LockRequest → t.State → List (Outcome (Unit {0})) × t.State
  replay [] σ = ([], σ)
  replay (r ∷ rs) σ =
      let (o, σ₁) = obeyed performed (command_of r) σ in let (os, σ₂) = replay rs σ₁ in (o ∷ os, σ₂)
