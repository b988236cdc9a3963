-- ===== src/Tests/Locking.antt =====
-- A librados that keeps one lock.
use librados_rs.Base.{
  ℕ, suc, ◌<◌, ◌^◌, ◌≡◌, refl, true, false, List, [], ◌∷◌, Option, none, some, arith,
}
use librados_rs.Error.{Bytes}
use librados_rs.Ffi.Call.{Call, Reply}
use librados_rs.Ffi.World.{Platform}
use librados_rs.IoCtx.Objects.Semantics.{Answer, done, failed, code_of}
use librados_rs.IoCtx.Locks.Table.{
  LockRequest, Command, acquire, release, evict, call_of, Table, reply_of, Keeps, run_all, replay,
}
use librados_rs.IoCtx.Locks.Table.Refines.{run_all-replay}
use librados_rs.Tests.Cluster.{obj, rbd, answer, io, bare}

-- The lock is held under a cookie, or free: EBUSY for another holder, ENOENT where it is free.
abbrev turn : Command → Option Bytes → Answer (Unit {0}) × Option Bytes
turn (acquire oid name cookie desc tv flags) none = (done tt, some cookie)
turn (acquire oid name cookie desc tv flags) (some k) = (failed 15, some k)
turn (release oid name cookie) none = (failed 1, none)
turn (release oid name cookie) (some k) = (done tt, none)
turn (evict oid name client cookie) none = (failed 1, none)
turn (evict oid name client cookie) (some k) = (done tt, none)

turn-errnos_fit :
    (c : Command) (s : Option Bytes) (e : ℕ) → (turn c s).0 ≡ failed e → suc e < 2 ^ 31
turn-errnos_fit (acquire oid name cookie desc tv flags) none e h = cc
turn-errnos_fit (acquire oid name cookie desc tv flags) (some k) e h = ground arith
turn-errnos_fit (release oid name cookie) none e h = ground arith
turn-errnos_fit (release oid name cookie) (some k) e h = cc
turn-errnos_fit (evict oid name client cookie) none e h = ground arith
turn-errnos_fit (evict oid name client cookie) (some k) e h = cc

abbrev one_lock : Table
one_lock = record { State = Option Bytes; perform = turn; errnos_fit = turn-errnos_fit }

abbrev holder : List Call → Option Bytes
holder [] = none
holder (Call.lock_exclusive _ oid name cookie desc tv flags ∷ log) =
    (turn (acquire oid name cookie desc tv flags) (holder log)).1
holder (Call.unlock _ oid name cookie ∷ log) = (turn (release oid name cookie) (holder log)).1
holder (Call.break_lock _ oid name client cookie ∷ log) =
    (turn (evict oid name client cookie) (holder log)).1
holder (_ ∷ log) = holder log

abbrev lock_reply : (log : List Call) → (c : Call) → Reply c
lock_reply log (Call.lock_exclusive _ oid name cookie desc tv flags) =
    code_of (turn (acquire oid name cookie desc tv flags) (holder log)).0
lock_reply log (Call.unlock _ oid name cookie) =
    code_of (turn (release oid name cookie) (holder log)).0
lock_reply log (Call.break_lock _ oid name client cookie) =
    code_of (turn (evict oid name client cookie) (holder log)).0
lock_reply log c = answer false log c

abbrev locking : Platform
locking = record { librados = lock_reply; overflow_checks = true }

replied :
    (log : List Call) (c : Command)
    → locking.librados log (call_of io c) ≡ reply_of io c (turn c (holder log)).0
replied log (acquire oid name cookie desc tv flags) = refl
replied log (release oid name cookie) = refl
replied log (evict oid name client cookie) = refl

moved : (log : List Call) (c : Command) → holder (call_of io c ∷ log) ≡ (turn c (holder log)).1
moved log (acquire oid name cookie desc tv flags) = refl
moved log (release oid name cookie) = refl
moved log (evict oid name client cookie) = refl

abbrev locking-Keeps : Keeps locking io one_lock
locking-Keeps = record { state = holder; replies = replied; moves = moved }

-- The last two are refused without a call: a cookie with a NUL byte, and a time that is too long.
abbrev requests : List LockRequest
requests =
    LockRequest.lock obj rbd [] [] (some (record { secs = 30; nanos = 1500 })) 0
    ∷ LockRequest.lock obj rbd obj [] none 1
    ∷ LockRequest.unlock obj rbd []
    ∷ LockRequest.break_lock obj rbd obj []
    ∷ LockRequest.lock obj rbd (0 ∷ []) [] none 0
    ∷ LockRequest.lock obj rbd obj [] (some (record { secs = 2 ^ 63; nanos = 0 })) 0
    ∷ []

run_all-replay_example :
    let (os, w') = run_all locking io requests bare in
    (os ≡ (replay one_lock requests none).0) × (holder w'.log ≡ (replay one_lock requests none).1)
run_all-replay_example = run_all-replay locking io one_lock locking-Keeps requests bare
