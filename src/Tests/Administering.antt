-- ===== src/Tests/Administering.antt =====
-- A cluster with room for one pool.
use librados_rs.Base.{
  ℕ, suc, ◌+◌, ◌<◌, ◌^◌, ◌≡◌, refl, Bool, true, false, if◌then◌else◌, ℤ, pos, negsuc, List, [], ◌∷◌,
  length, leb, arith,
}
use librados_rs.Error.{Bytes}
use librados_rs.Ffi.Memory.{Ptr}
use librados_rs.Ffi.Call.{Call, Reply}
use librados_rs.Ffi.World.{Platform}
use librados_rs.Text.Laws.{pack}
use librados_rs.Text.Utf8.{All}
use librados_rs.IoCtx.Objects.Semantics.{Answer, done, failed, code_of}
use librados_rs.Conn.Pools.{ListsPools, IsPoolName}
use librados_rs.Conn.Admin.{
  Request, Command, read_conf, configure, join, add_pool, remove_pool, block, sync, call_of,
  reply_of, Admin, Keeps, run_all, replay,
}
use librados_rs.Conn.Admin
use librados_rs.Conn.Admin.Refines.{run_all_obeys}
use librados_rs.Tests.Cluster.{obj, rbd, answer, rados, bare}
use librados_rs.Tests.Reading.{rbd-IsPoolName}

-- The pool is there, or not. A second one is refused with EEXIST, and other names are not looked
-- at; the configuration file is missing.
abbrev turn : Command → Bool → Answer (Unit {0}) × Bool
turn (add_pool name) true = (failed 16, true)
turn (add_pool name) false = (done tt, true)
turn (remove_pool name) true = (done tt, false)
turn (remove_pool name) false = (failed 1, false)
turn (read_conf path) s = (failed 1, s)
turn _ s = (done tt, s)

abbrev names : Bool → List Bytes
names true = rbd ∷ []
names false = []

abbrev context : Bool → Answer Ptr × Bool
context true = (done 2, true)
context false = (failed 1, false)

names-IsPoolName : (s : Bool) → All IsPoolName (names s)
names-IsPoolName true = (rbd-IsPoolName, tt)
names-IsPoolName false = tt

names_short : (s : Bool) → length (pack (names s)) + 1 < 2 ^ 31
unfolding pack
names_short true = ground arith
names_short false = ground arith

turn-errnos_fit : (c : Command) (s : Bool) (e : ℕ) → (turn c s).0 ≡ failed e → suc e < 2 ^ 31
turn-errnos_fit (add_pool name) true e h = ground arith
turn-errnos_fit (add_pool name) false e h = cc
turn-errnos_fit (remove_pool name) true e h = cc
turn-errnos_fit (remove_pool name) false e h = ground arith
turn-errnos_fit (read_conf path) s e h = ground arith
turn-errnos_fit (configure option value) s e h = cc
turn-errnos_fit join s e h = cc
turn-errnos_fit (block addr seconds) s e h = cc
turn-errnos_fit sync s e h = cc

context-errnos_fit : (pool : Bytes) (s : Bool) (e : ℕ) → (context s).0 ≡ failed e → suc e < 2 ^ 31
context-errnos_fit pool true e h = cc
context-errnos_fit pool false e h = ground arith

abbrev one_pool : Admin
one_pool = record {
  State = Bool;
  perform = turn;
  pools = names;
  open_pool = λ pool s. context s;
  pools_named = names-IsPoolName;
  pools_short = names_short;
  errnos_fit = turn-errnos_fit;
  open_errnos_fit = context-errnos_fit;
}

abbrev pool_there : List Call → Bool
pool_there [] = false
pool_there (Call.pool_create _ name ∷ log) = (turn (add_pool name) (pool_there log)).1
pool_there (Call.pool_delete _ name ∷ log) = (turn (remove_pool name) (pool_there log)).1
pool_there (_ ∷ log) = pool_there log

abbrev opened : Answer Ptr → ℤ × Ptr
opened (done a) = (pos 0, a)
opened (failed e) = (negsuc e, 0)

unfoldable admin_reply : (log : List Call) → (c : Call) → Reply c
unfolding pack
admin_reply log (Call.conf_read_file _ path) = code_of (turn (read_conf path) (pool_there log)).0
admin_reply log (Call.pool_create _ name) = code_of (turn (add_pool name) (pool_there log)).0
admin_reply log (Call.pool_delete _ name) = code_of (turn (remove_pool name) (pool_there log)).0
admin_reply log (Call.ioctx_create _ pool) = opened (context (pool_there log)).0
admin_reply log (Call.pool_list _ buf) =
    let all = pack (names (pool_there log)) in
    (pos (length all + 1), if leb (length all) buf.len then all else [])
admin_reply log c = answer false log c

abbrev administered : Platform
administered = record { librados = admin_reply; overflow_checks = true }

replied :
    (log : List Call) (c : Command)
    → administered.librados log (call_of rados c) ≡ reply_of rados c (turn c (pool_there log)).0
unfolding admin_reply
replied log (read_conf path) = refl
replied log (configure option value) = refl
replied log join = refl
replied log (add_pool name) = refl
replied log (remove_pool name) = refl
replied log (block addr seconds) = refl
replied log sync = refl

moved :
    (log : List Call) (c : Command)
    → pool_there (call_of rados c ∷ log) ≡ (turn c (pool_there log)).1
moved log (read_conf path) = refl
moved log (configure option value) = refl
moved log join = refl
moved log (add_pool name) = refl
moved log (remove_pool name) = refl
moved log (block addr seconds) = refl
moved log sync = refl

there_or_not :
    (s : Bool) (log : List Call) (pool : Bytes)
    → pool_there log ≡ s
    → Admin.Opens
        (context (pool_there log)).0
        (administered.librados log (Call.ioctx_create 1 pool))
unfolding admin_reply
there_or_not true log pool h = rw h (refl, refl)
there_or_not false log pool h = rw h refl

moves_there :
    (s : Bool) (log : List Call)
    → pool_there log ≡ s
    → pool_there log ≡ (context (pool_there log)).1
moves_there true log h = rw h
moves_there false log h = rw h

lists_there : (s : Bool) → ListsPools administered 1 (names s) (λ log. pool_there log ≡ s)
unfolding admin_reply
lists_there s = record {
  needed = λ log len now. rw now;
  fits = λ log len now h. rw now (ground arith);
  bounded = λ log len now. ground arith;
}

abbrev administered-Keeps : Keeps administered rados one_pool
administered-Keeps = record {
  state = pool_there;
  replies = replied;
  moves = moved;
  opens = λ log pool. there_or_not (pool_there log) log pool refl;
  moves_open = λ log pool. moves_there (pool_there log) log refl;
  lists = lists_there;
  stays = λ s log len now. now;
}

-- The last two are refused without a call: a name with a NUL byte, and too many seconds.
abbrev requests : List Request
requests =
    Request.conf_read_file obj
    ∷ Request.connect
    ∷ Request.create_ioctx rbd
    ∷ Request.create_pool rbd
    ∷ Request.list_pools
    ∷ Request.create_ioctx rbd
    ∷ Request.delete_pool (0 ∷ [])
    ∷ Request.blocklist_add obj (record { secs = 2 ^ 32; nanos = 0 })
    ∷ []

run_all_obeys_example :
    let (os, w') = run_all administered 2 rados requests bare in
    (os ≡ (replay one_pool rados requests false).0)
    × (pool_there w'.log ≡ (replay one_pool rados requests false).1)
run_all_obeys_example = run_all_obeys administered 0 rados one_pool administered-Keeps requests bare
