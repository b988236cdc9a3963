-- ===== src/IoCtx/Objects/Semantics/Refines.antt =====
-- The object operations refine the semantics that librados serves.
use librados_rs.Ffi.Memory.{whole}
use librados_rs.Base.{
  ℕ, suc, ◌%◌, ◌<◌, ◌≤◌, ◌^◌, ◌≡◌, refl, Bool, List, [], ◌∷◌, some, Option-cases, inl, inr, length,
  arith,
}
use librados_rs.Error.{Bytes, nul, err, check_err}
use librados_rs.Error.Laws.{check_err-pos, check_err-negsuc}
use librados_rs.Text.{nul_position}
use librados_rs.Text.Laws.{NoNul, cstring-NoNul, NoNul-nul_position}
use librados_rs.Handles.{IoCtx}
use librados_rs.Ffi.Buffers.{write_buf-ok}
use librados_rs.Ffi.Call.{Call}
use librados_rs.Ffi.World.{Platform, World, logged}
use librados_rs.IoCtx.Objects
use librados_rs.IoCtx.Objects.{ObjectStat}
use librados_rs.Text.Refusals.{cstring_nul}
use librados_rs.IoCtx.Objects.Semantics.{
  Request, object_of, Answer, done, failed, Semantics, call_of, code_of, Serves, run, run_all,
  delivered, expected, outcome_of, read_reply, stat_reply, spec, replay,
}

-- The errnos of an answer fit a C int.
abbrev pub Fits : {A : Type 0} → Answer A → Type 0
Fits (done a) = Unit
Fits (failed e) = suc e < 2 ^ 31

pub check_code :
    (checks : Bool) (f : Unit {0} → Unit {0}) (a : Answer (Unit {0}))
    → Fits a
    → check_err checks (code_of a) ≡ outcome_of f a
check_code checks f (done tt) h = check_err-pos checks 0
check_code checks f (failed e) h = check_err-negsuc checks e h

pub Fits_lem : {A : Type 0} (a : Answer A) → ((e : ℕ) → a ≡ failed e → suc e < 2 ^ 31) → Fits a
Fits_lem (done a) h = tt
Fits_lem (failed e) h = h e refl

module _ (p : Platform) (io : IoCtx) (oid : Bytes) (w : World) (no_nul : NoNul oid) where
  read_lem :
      (buf : Bytes) (offset : ℕ) (a : Answer Bytes)
      → p.librados w.log (Call.read io.ioctx oid (whole (length buf)) offset) ≡ read_reply a
      → ((b : Bytes) → a ≡ done b → (length b ≤ length buf) × (length b < 2 ^ 31))
      → Fits a
      → Objects.read p io oid buf offset w ≡ (
        outcome_of (delivered (Request.read oid buf offset)) a,
        logged (Call.read io.ioctx oid (whole (length buf)) offset) w,
      )
  unfolding Objects.read
  read_lem buf offset (done b) e fits h =
      let small = fits b refl in
      let whole : length b % 2 ^ 64 ≡ length b = omega arith in
      rw (
        cstring-NoNul oid no_nul,
        e,
        write_buf-ok buf b small.0,
        check_err-pos p.overflow_checks (length b),
        whole,
      )
  read_lem buf offset (failed e) h fits small = rw (
    cstring-NoNul oid no_nul,
    h,
    write_buf-ok buf [] (omega arith),
    check_err-negsuc p.overflow_checks e small,
  )

  stat_lem :
      (a : Answer ObjectStat)
      → p.librados w.log (Call.stat io.ioctx oid) ≡ stat_reply a
      → Fits a
      → Objects.stat p io oid w
        ≡ (outcome_of (delivered (Request.stat oid)) a, logged (Call.stat io.ioctx oid) w)
  unfolding Objects.stat
  stat_lem (done s) e h = rw (cstring-NoNul oid no_nul, e, check_err-pos p.overflow_checks 0)
  stat_lem (failed e) h small =
      rw (cstring-NoNul oid no_nul, h, check_err-negsuc p.overflow_checks e small)

module _ (p : Platform) (io : IoCtx) (s : Semantics) (serves : Serves p io s) where
  answer_of-Fits : (r : Request) (w : World) → Fits (s.perform r (serves.state w.log)).0
  answer_of-Fits r w = Fits_lem _ (s.errnos_fit r (serves.state w.log))

  -- A request whose name has no NUL byte is answered as the semantics says, after its one call.
  runs :
      (r : Request) (w : World)
      → NoNul (object_of r)
      → run p io r w ≡ (expected r (s.perform r (serves.state w.log)).0, logged (call_of io r) w)
  unfolding run Objects.write Objects.write_full Objects.append Objects.truncate Objects.remove
  runs (Request.write oid buf offset) w h =
      let r = Request.write oid buf offset in
      rw (
        cstring-NoNul oid h,
        serves.replies w.log r h,
        check_code p.overflow_checks (delivered r) _ (answer_of-Fits r w),
      )
  runs (Request.write_full oid buf) w h =
      let r = Request.write_full oid buf in
      rw (
        cstring-NoNul oid h,
        serves.replies w.log r h,
        check_code p.overflow_checks (delivered r) _ (answer_of-Fits r w),
      )
  runs (Request.append oid buf) w h =
      let r = Request.append oid buf in
      rw (
        cstring-NoNul oid h,
        serves.replies w.log r h,
        check_code p.overflow_checks (delivered r) _ (answer_of-Fits r w),
      )
  runs (Request.read oid buf offset) w h =
      let r = Request.read oid buf offset in
      let σ = serves.state w.log in
      read_lem p io oid w h buf offset (s.perform r σ).0 (serves.replies w.log r h)
        (s.reads_fit oid buf offset σ) (answer_of-Fits r w)
  runs (Request.stat oid) w h =
      let r = Request.stat oid in
      let σ = serves.state w.log in
      stat_lem p io oid w h (s.perform r σ).0 (serves.replies w.log r h) (answer_of-Fits r w)
  runs (Request.truncate oid size) w h =
      let r = Request.truncate oid size in
      rw (
        cstring-NoNul oid h,
        serves.replies w.log r h,
        check_code p.overflow_checks (delivered r) _ (answer_of-Fits r w),
      )
  runs (Request.remove oid) w h =
      let r = Request.remove oid in
      rw (
        cstring-NoNul oid h,
        serves.replies w.log r h,
        check_code p.overflow_checks (delivered r) _ (answer_of-Fits r w),
      )

  -- A name with a NUL byte is refused without a call.
  refuses :
      (r : Request) (w : World) (i : ℕ)
      → nul_position (object_of r) ≡ some i
      → run p io r w ≡ (err (nul i (object_of r)), w)
  unfolding run Objects.write Objects.write_full Objects.append Objects.read Objects.stat
      Objects.truncate Objects.remove
  refuses (Request.write oid buf offset) w i h = rw (cstring_nul oid i h)
  refuses (Request.write_full oid buf) w i h = rw (cstring_nul oid i h)
  refuses (Request.append oid buf) w i h = rw (cstring_nul oid i h)
  refuses (Request.read oid buf offset) w i h = rw (cstring_nul oid i h)
  refuses (Request.stat oid) w i h = rw (cstring_nul oid i h)
  refuses (Request.truncate oid size) w i h = rw (cstring_nul oid i h)
  refuses (Request.remove oid) w i h = rw (cstring_nul oid i h)

  run-spec :
      (r : Request) (w : World)
      → let (o, w') = run p io r w in
        (o ≡ (spec s r (serves.state w.log)).0)
        × (serves.state w'.log ≡ (spec s r (serves.state w.log)).1)
  unfolding spec
  run-spec r w = elim (Option-cases (nul_position (object_of r))) [
    | inl e ↦
        let clean = NoNul-nul_position (object_of r) e in
        rw (runs r w clean, e, spec) (refl, serves.moves w.log r clean)
    | inr (i, e) ↦ rw (refuses r w i e, e, spec) (refl, refl)
  ]

  -- Where librados serves some semantics of objects: whatever requests a client makes of an
  -- `IoCtx`, one after the other, it gets the outcomes of the specification, errors included, and
  -- the objects change as it says.
  pub run_all-refines :
      (rs : List Request) (w : World)
      → let (os, w') = run_all p io rs w in
        (os ≡ (replay s rs (serves.state w.log)).0)
        × (serves.state w'.log ≡ (replay s rs (serves.state w.log)).1)
  unfolding run_all replay
  run_all-refines [] w = (refl, refl)
  run_all-refines (r ∷ rs) w =
      let (o, moved) = run-spec r w in
      let (os, moved') = run_all-refines rs (run p io r w).1 in
      (rw (o, os, moved), rw (moved', moved))
