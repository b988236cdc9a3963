-- ===== src/Conn/Admin.antt =====
-- The methods of `Rados` (src/conn.rs) against a cluster that librados keeps: its configuration,
-- its pools, and the contexts opened for them.
pub mod Refines
use librados_rs.Base.{
  ℕ, suc, ◌+◌, ◌≤◌, ◌<◌, ◌^◌, ◌≡◌, Bool, true, false, ltb, ℤ, pos, negsuc, List, [], ◌∷◌, Option,
  none, some, length, if◌then◌else◌,
}
use librados_rs.Error.{Bytes, rados, eoverflow, Outcome, ok, err}
use librados_rs.Text.Laws.{pack}
use librados_rs.Text.Utf8.{All}
use librados_rs.Text.Refusals.{unless_nul, obeyed}
use librados_rs.Handles.{Rados, IoCtx, Duration}
use librados_rs.Ffi.Memory.{Ptr}
use librados_rs.Ffi.Call
use librados_rs.Ffi.Call.{Call, Reply}
use librados_rs.Ffi.World.{Platform, World, Io, logged}
use librados_rs.IoCtx.Objects.Semantics.{Answer, done, failed, code_of, outcome_of}
use librados_rs.Conn
use librados_rs.Conn.Pools.{ListsPools, Stays, IsPoolName}

-- A call of a method, with its arguments.
pub data Request : Type 0 where
  conf_read_file : (path : Bytes) → Request
  conf_set : (option value : Bytes) → Request
  connect : Request
  create_pool delete_pool : (name : Bytes) → Request
  list_pools : Request
  blocklist_add : (addr : Bytes) → (expire : Duration) → Request
  wait_for_latest_osdmap : Request
  create_ioctx : (pool : Bytes) → Request

abbrev pub Got : Request → Type 0
Got list_pools = List Bytes
Got (create_ioctx _) = IoCtx
Got _ = Unit

-- What librados is asked to change or to wait for.
pub data Command : Type 0 where
  read_conf : (path : Bytes) → Command
  configure : (option value : Bytes) → Command
  join : Command
  add_pool remove_pool : (name : Bytes) → Command
  block : (addr : Bytes) → (seconds : ℕ) → Command
  sync : Command

abbrev pub call_of : Rados → Command → Call
call_of r (read_conf path) = Call.conf_read_file r.handle path
call_of r (configure option value) = Call.conf_set r.handle option value
call_of r join = Call.connect r.handle
call_of r (add_pool name) = Call.pool_create r.handle name
call_of r (remove_pool name) = Call.pool_delete r.handle name
call_of r (block addr seconds) = Call.blocklist_add r.handle addr seconds
call_of r sync = Call.wait_for_latest_osdmap r.handle

abbrev pub reply_of : (r : Rados) → (c : Command) → Answer (Unit {0}) → Reply (call_of r c)
reply_of r (read_conf path) a = code_of a
reply_of r (configure option value) a = code_of a
reply_of r join a = code_of a
reply_of r (add_pool name) a = code_of a
reply_of r (remove_pool name) a = code_of a
reply_of r (block addr seconds) a = code_of a
reply_of r sync a = code_of a

-- How a cluster changes, whatever it is. The names of its pools are text, and their list is short
-- of 2 ^ 31 bytes; errnos fit a C int.
pub record Admin : Type 1 where
  pub State : Type 0
  pub perform : Command → State → Answer (Unit {0}) × State
  pub pools : State → List Bytes
  pub open_pool : (pool : Bytes) → State → Answer Ptr × State
  pub pools_named : (s : State) → All IsPoolName (pools s)
  pub pools_short : (s : State) → length (pack (pools s)) + 1 < 2 ^ 31
  pub errnos_fit : (c : Command) (s : State) (e : ℕ) → (perform c s).0 ≡ failed e → suc e < 2 ^ 31
  pub open_errnos_fit :
      (pool : Bytes) (s : State) (e : ℕ) → (open_pool pool s).0 ≡ failed e → suc e < 2 ^ 31

-- A context, or an errno.
abbrev pub Opens : Answer Ptr → ℤ × Ptr → Type 0
Opens (done a) (ret, ioctx) = (ret ≡ pos 0) × (ioctx ≡ a)
Opens (failed e) (ret, ioctx) = ret ≡ negsuc e

-- librados keeps such a cluster, answers by it, and each call moves it on; a listing does not.
pub record Keeps (p : Platform) (r : Rados) (t : Admin) : Type 0 where
  pub state : List Call → t.State
  pub replies :
      (log : List Call) (c : Command)
      → p.librados log (call_of r c) ≡ reply_of r c (t.perform c (state log)).0
  pub moves :
      (log : List Call) (c : Command) → state (call_of r c ∷ log) ≡ (t.perform c (state log)).1
  pub opens :
      (log : List Call) (pool : Bytes)
      → Opens (t.open_pool pool (state log)).0 (p.librados log (Call.ioctx_create r.handle pool))
  pub moves_open :
      (log : List Call) (pool : Bytes)
      → state (Call.ioctx_create r.handle pool ∷ log) ≡ (t.open_pool pool (state log)).1
  pub lists : (s : t.State) → ListsPools p r.handle (t.pools s) (λ log. state log ≡ s)
  pub stays : (s : t.State) → Stays r.handle (λ log. state log ≡ s)

module _ (p : Platform) (fuel : ℕ) (r : Rados) where
  -- The method of `Rados`.
  unfoldable pub run : (q : Request) → Io (Got q)
  run (conf_read_file path) = Conn.conf_read_file p r path
  run (conf_set option value) = Conn.conf_set p r option value
  run connect = Conn.connect p r
  run (create_pool name) = Conn.create_pool p r name
  run (delete_pool name) = Conn.delete_pool p r name
  run list_pools = Conn.list_pools p fuel r
  run (blocklist_add addr expire) = Conn.blocklist_add p r addr expire
  run wait_for_latest_osdmap = Conn.wait_for_latest_osdmap p r
  run (create_ioctx pool) = Conn.create_ioctx p r pool

  -- A client's requests, one after the other.
  unfoldable pub run_all : List Request → World → List ((q : Request) × Outcome (Got q)) × World
  unfolding run
  run_all [] w = ([], w)
  run_all (q ∷ qs) w = let (o, w₁) = run q w in let (os, w₂) = run_all qs w₁ in ((q, o) ∷ os, w₂)

-- Seconds that do not fit a `u32` are refused; parts of a second are cut off.
abbrev pub in_seconds : Duration → (ℕ → Command) → Outcome Command
in_seconds d f = if ltb d.secs (2 ^ 32) then ok (f d.secs) else err (rados (pos eoverflow))

-- The specification.
module _ (t : Admin) (r : Rados) where
  abbrev pub performed : Command → t.State → Outcome (Unit {0}) × t.State
  performed c σ = (outcome_of (λ u. u) (t.perform c σ).0, (t.perform c σ).1)

  abbrev pub opened : (pool : Bytes) → t.State → Outcome IoCtx × t.State
  opened pool σ = (
    outcome_of (λ a. record { ioctx = a; cluster = r.handle; pool_name = pool })
        (t.open_pool pool σ).0,
    (t.open_pool pool σ).1,
  )

  unfoldable pub spec : (q : Request) → t.State → Outcome (Got q) × t.State
  spec (conf_read_file path) σ = obeyed performed (unless_nul (path ∷ []) (ok (read_conf path))) σ
  spec (conf_set option value) σ =
      obeyed performed (unless_nul (option ∷ value ∷ []) (ok (configure option value))) σ
  spec connect σ = obeyed performed (ok join) σ
  spec (create_pool name) σ = obeyed performed (unless_nul (name ∷ []) (ok (add_pool name))) σ
  spec (delete_pool name) σ = obeyed performed (unless_nul (name ∷ []) (ok (remove_pool name))) σ
  spec list_pools σ = (ok (t.pools σ), σ)
  spec (blocklist_add addr expire) σ =
      obeyed performed (unless_nul (addr ∷ []) (in_seconds expire (block addr))) σ
  spec wait_for_latest_osdmap σ = obeyed performed (ok sync) σ
  spec (create_ioctx pool) σ = obeyed opened (unless_nul (pool ∷ []) (ok pool)) σ

  unfoldable pub replay : List Request → t.State → List ((q : Request) × Outcome (Got q)) × t.State
  unfolding spec
  replay [] σ = ([], σ)
  replay (q ∷ qs) σ = let (o, σ₁) = spec q σ in let (os, σ₂) = replay qs σ₁ in ((q, o) ∷ os, σ₂)
