-- ===== src/IoCtx/Locks/Table/Refines.antt =====
-- The lock operations refine the table of locks that librados serves.
use librados_rs.Base.{
  ℕ, ◌/◌, ◌^◌, ◌≡◌, refl, Bool-cases, inl, inr, ltb, pos, List, [], ◌∷◌, Option, none, some,
}
use librados_rs.Error.{Bytes, Outcome, ok}
use librados_rs.Text.{cstring}
use librados_rs.Handles.{IoCtx, Duration}
use librados_rs.Ffi.Memory.{Timeval}
use librados_rs.Ffi.Call.{Call}
use librados_rs.Ffi.World.{Platform, World, Io, lift, checked, ◌>>=◌}
use librados_rs.Text.Refusals.{unless_nul, obeyed, Meets, gate}
use librados_rs.IoCtx.Objects.Semantics.Refines.{Fits, Fits_lem, check_code}
use librados_rs.IoCtx.Locks
use librados_rs.IoCtx.Locks.{timeval_of, timeval_opt}
use librados_rs.IoCtx.Locks.Table.{
  LockRequest, Command, acquire, release, evict, Table, Keeps, timed, command_of, run, run_all,
  performed, replay,
}

module _ (p : Platform) (io : IoCtx) (t : Table) (keeps : Keeps p io t) where
  perform-Fits : (c : Command) (w : World) → Fits (t.perform c (keeps.state w.log)).0
  perform-Fits c w = Fits_lem _ (t.errnos_fit c (keeps.state w.log))

  passes :
      (s : Bytes) (ss : List Bytes) (k : Bytes → Io (Unit {0})) (c : Outcome Command) (w : World)
      → Meets keeps.state (k s w) (obeyed (performed t) (unless_nul ss c) (keeps.state w.log))
      → Meets keeps.state
          ((lift (cstring s) >>= k) w)
          (obeyed (performed t) (unless_nul (s ∷ ss) c) (keeps.state w.log))
  passes = gate keeps.state (performed t)

  acquires :
      (oid name cookie desc : Bytes) (tv : Option Timeval) (flags : ℕ) (w : World)
      → Meets keeps.state
          (checked p (Call.lock_exclusive io.ioctx oid name cookie desc tv flags) (λ ret. ret) w)
          (obeyed (performed t) (ok (acquire oid name cookie desc tv flags)) (keeps.state w.log))
  acquires oid name cookie desc tv flags w =
      let c = acquire oid name cookie desc tv flags in
      (
        rw (keeps.replies w.log c) (check_code p.overflow_checks (λ u. u) _ (perform-Fits c w)),
        keeps.moves w.log c,
      )

  releases :
      (oid name cookie : Bytes) (w : World)
      → Meets keeps.state
          (checked p (Call.unlock io.ioctx oid name cookie) (λ ret. ret) w)
          (obeyed (performed t) (ok (release oid name cookie)) (keeps.state w.log))
  releases oid name cookie w =
      let c = release oid name cookie in
      (
        rw (keeps.replies w.log c) (check_code p.overflow_checks (λ u. u) _ (perform-Fits c w)),
        keeps.moves w.log c,
      )

  evicts :
      (oid name client cookie : Bytes) (w : World)
      → Meets keeps.state
          (checked p (Call.break_lock io.ioctx oid name client cookie) (λ ret. ret) w)
          (obeyed (performed t) (ok (evict oid name client cookie)) (keeps.state w.log))
  evicts oid name client cookie w =
      let c = evict oid name client cookie in
      (
        rw (keeps.replies w.log c) (check_code p.overflow_checks (λ u. u) _ (perform-Fits c w)),
        keeps.moves w.log c,
      )

  -- A duration is passed on in microseconds if its seconds fit.
  timed_lem :
      (oid name cookie desc : Bytes) (d : Option Duration) (flags : ℕ) (w : World)
      → Meets keeps.state
          ((timeval_opt d >>= λ tv.
              checked p (Call.lock_exclusive io.ioctx oid name cookie desc tv flags) (λ ret. ret))
            w)
          (obeyed
            (performed t)
            (timed d (λ tv. acquire oid name cookie desc tv flags))
            (keeps.state w.log))
  unfolding timeval_opt timeval_of
  timed_lem oid name cookie desc none flags w = acquires oid name cookie desc none flags w
  timed_lem oid name cookie desc (some d) flags w = elim (Bool-cases (ltb d.secs (2 ^ 63))) [
    | inl fits ↦
        let tv = some (record { tv_sec = pos d.secs; tv_usec = pos (d.nanos / 1000) }) in
        rw fits (acquires oid name cookie desc tv flags w)
    | inr over ↦ rw over (refl, refl)
  ]

  run-obeyed :
      (r : LockRequest) (w : World)
      → Meets keeps.state (run p io r w) (obeyed (performed t) (command_of r) (keeps.state w.log))
  unfolding run command_of Locks.lock_exclusive Locks.unlock Locks.break_lock
  run-obeyed (LockRequest.lock oid name cookie desc d flags) w =
      let c = timed d (λ tv. acquire oid name cookie desc tv flags) in
      passes oid (name ∷ cookie ∷ desc ∷ []) _ c w (
        passes name (cookie ∷ desc ∷ []) _ c w (
          passes cookie (desc ∷ []) _ c w
            (passes desc [] _ c w (timed_lem oid name cookie desc d flags w))))
  run-obeyed (LockRequest.unlock oid name cookie) w =
      let c = ok (release oid name cookie) in
      passes oid (name ∷ cookie ∷ []) _ c w
        (passes name (cookie ∷ []) _ c w (passes cookie [] _ c w (releases oid name cookie w)))
  run-obeyed (LockRequest.break_lock oid name client cookie) w =
      let c = ok (evict oid name client cookie) in
      passes oid (name ∷ client ∷ cookie ∷ []) _ c w (
        passes name (client ∷ cookie ∷ []) _ c w (
          passes client (cookie ∷ []) _ c w
            (passes cookie [] _ c w (evicts oid name client cookie w))))

  -- Where librados keeps some table of locks: whatever sequence of `lock_exclusive`, `unlock` and
  -- `break_lock` a client calls, it gets the outcomes of the specification, and the table changes
  -- as it says. The first string with a NUL byte, and then a duration whose seconds do not fit an
  -- i64, is refused without a change; the duration passed on is in whole microseconds.
  pub run_all-replay :
      (rs : List LockRequest) (w : World)
      → let (os, w') = run_all p io rs w in
        (os ≡ (replay t rs (keeps.state w.log)).0)
        × (keeps.state w'.log ≡ (replay t rs (keeps.state w.log)).1)
  unfolding run_all replay
  run_all-replay [] w = (refl, refl)
  run_all-replay (r ∷ rs) w =
      let (o, moved) = run-obeyed r w in
      let (os, moved') = run_all-replay rs (run p io r w).1 in
      (rw (o, os, moved), rw (moved', moved))
