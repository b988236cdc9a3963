-- ===== src/Tests/Storing.antt =====
-- A librados that keeps the bytes of one object.
use librados_rs.Base.{
  ◌+◌, ◌%◌, ◌<◌, ◌≤◌, ◌^◌, ◌≡◌, refl, ap, ℕ, suc, length-take, true, false, pos, List, [], ◌∷◌,
  ◌++◌, length, take, drop, arith,
}
use librados_rs.Error.{Bytes}
use librados_rs.Ffi.Call.{Call, Reply}
use librados_rs.Ffi.World.{Platform}
use librados_rs.IoCtx.Objects.Semantics.{
  Request, Given, Answer, done, failed, Semantics, call_of, code_of, reply_of, read_reply,
  stat_reply, Serves, run_all, replay,
}
use librados_rs.IoCtx.Objects.Semantics.Refines.{run_all-refines}
use librados_rs.Tests.Cluster.{obj, rbd, xattr_value, answer, io, bare}

abbrev fetch : (len offset : ℕ) → Bytes → Answer Bytes
fetch len offset [] = failed 1
fetch len offset (b ∷ s) = done (take (len % 2 ^ 31) (drop offset (b ∷ s)))

-- One object. A read or a removal of an empty one fails with ENOENT.
abbrev keeps : (r : Request) → Bytes → Answer (Given r) × Bytes
keeps (Request.write oid buf offset) s =
    (done tt, take offset s ++ buf ++ drop (offset + length buf) s)
keeps (Request.write_full oid buf) s = (done tt, buf)
keeps (Request.append oid buf) s = (done tt, s ++ buf)
keeps (Request.read oid buf offset) s = (fetch (length buf) offset s, s)
keeps (Request.stat oid) s = (done (record { size = length s; mtime = pos 0 }), s)
keeps (Request.truncate oid size) s = (done tt, take size s)
keeps (Request.remove oid) [] = (failed 1, [])
keeps (Request.remove oid) (b ∷ s) = (done tt, [])

keeps-reads_fit :
    (oid buf : Bytes) (offset : ℕ) (s b : Bytes)
    → (keeps (Request.read oid buf offset) s).0 ≡ done b
    → (length b ≤ length buf) × (length b < 2 ^ 31)
keeps-reads_fit oid buf offset [] b h = cc
keeps-reads_fit oid buf offset (c ∷ s) b h =
    let e : take (length buf % 2 ^ 31) (drop offset (c ∷ s)) ≡ b = cc in
    let short = length-take (length buf % 2 ^ 31) (drop offset (c ∷ s)) in
    let same = ap (λ (x : Bytes). length x) e in (omega arith, omega arith)

keeps-errnos_fit : (r : Request) (s : Bytes) (e : ℕ) → (keeps r s).0 ≡ failed e → suc e < 2 ^ 31
keeps-errnos_fit (Request.write oid buf offset) s e h = cc
keeps-errnos_fit (Request.write_full oid buf) s e h = cc
keeps-errnos_fit (Request.append oid buf) s e h = cc
keeps-errnos_fit (Request.read oid buf offset) [] e h = ground arith
keeps-errnos_fit (Request.read oid buf offset) (b ∷ s) e h = cc
keeps-errnos_fit (Request.stat oid) s e h = cc
keeps-errnos_fit (Request.truncate oid size) s e h = cc
keeps-errnos_fit (Request.remove oid) [] e h = ground arith
keeps-errnos_fit (Request.remove oid) (b ∷ s) e h = cc

abbrev one_object : Semantics
one_object = record {
  State = Bytes;
  perform = keeps;
  reads_fit = keeps-reads_fit;
  errnos_fit = keeps-errnos_fit;
}

-- What the calls have made of the object.
abbrev content : List Call → Bytes
content [] = []
content (Call.write _ oid buf _ offset ∷ log) =
    (keeps (Request.write oid buf offset) (content log)).1
content (Call.write_full _ oid buf _ ∷ log) = (keeps (Request.write_full oid buf) (content log)).1
content (Call.append _ oid buf _ ∷ log) = (keeps (Request.append oid buf) (content log)).1
content (Call.trunc _ oid size ∷ log) = (keeps (Request.truncate oid size) (content log)).1
content (Call.remove _ oid ∷ log) = (keeps (Request.remove oid) (content log)).1
content (_ ∷ log) = content log

-- A librados that serves it.
abbrev one_reply : (log : List Call) → (c : Call) → Reply c
one_reply log (Call.write _ oid buf _ offset) =
    code_of (keeps (Request.write oid buf offset) (content log)).0
one_reply log (Call.write_full _ oid buf _) =
    code_of (keeps (Request.write_full oid buf) (content log)).0
one_reply log (Call.append _ oid buf _) = code_of (keeps (Request.append oid buf) (content log)).0
one_reply log (Call.read _ oid buf offset) = read_reply (fetch buf.len offset (content log))
one_reply log (Call.stat _ oid) = stat_reply (keeps (Request.stat oid) (content log)).0
one_reply log (Call.trunc _ oid size) = code_of (keeps (Request.truncate oid size) (content log)).0
one_reply log (Call.remove _ oid) = code_of (keeps (Request.remove oid) (content log)).0
one_reply log c = answer false log c

abbrev storing : Platform
storing = record { librados = one_reply; overflow_checks = true }

replied :
    (log : List Call) (r : Request)
    → storing.librados log (call_of io r) ≡ reply_of io r (keeps r (content log)).0
replied log (Request.write oid buf offset) = refl
replied log (Request.write_full oid buf) = refl
replied log (Request.append oid buf) = refl
replied log (Request.read oid buf offset) = refl
replied log (Request.stat oid) = refl
replied log (Request.truncate oid size) = refl
replied log (Request.remove oid) = refl

moved : (log : List Call) (r : Request) → content (call_of io r ∷ log) ≡ (keeps r (content log)).1
moved log (Request.write oid buf offset) = refl
moved log (Request.write_full oid buf) = refl
moved log (Request.append oid buf) = refl
moved log (Request.read oid buf offset) = refl
moved log (Request.stat oid) = refl
moved log (Request.truncate oid size) = refl
moved log (Request.remove oid) = refl

abbrev storing-Serves : Serves storing io one_object
storing-Serves = record {
  state = content;
  replies = λ log r h. replied log r;
  moves = λ log r h. moved log r;
}

abbrev requests : List Request
requests =
    Request.read obj (0 ∷ []) 0
    ∷ Request.write_full obj rbd
    ∷ Request.append (97 ∷ 0 ∷ []) rbd
    ∷ Request.append obj xattr_value
    ∷ Request.read obj (0 ∷ 0 ∷ 0 ∷ 0 ∷ 0 ∷ []) 1
    ∷ Request.remove obj
    ∷ []

run_all-refines_example :
    let (os, w') = run_all storing io requests bare in
    (os ≡ (replay one_object requests []).0) × (content w'.log ≡ (replay one_object requests []).1)
run_all-refines_example = run_all-refines storing io one_object storing-Serves requests bare
