-- ===== src/ReadOp.antt =====
-- src/read_op.rs: building a compound read. Each step is a heap cell whose address goes to
-- librados, which fills it while the op is operated.
pub mod Run
pub mod Handles
pub mod Pages
pub mod Wired
pub mod Build
pub mod Total
pub mod Program
pub mod Query
pub mod Batch
pub mod Session
pub mod OneStep
pub mod Abi
use librados_rs.Base.{ℕ, ◌+◌, ◌≡◌, ℤ, pos, List, [], ◌∷◌, ◌++◌, Option, none, some, map, length}
use librados_rs.Error.{Bytes, Outcome, ok}
use librados_rs.Text.{cstring, zeroed}
use librados_rs.Ffi.Memory.{Room, room_of, whole, Ptr, null}
use librados_rs.Ffi.Call
use librados_rs.Ffi.Call.{Cell}
use librados_rs.Ffi.World.{
  Platform, World, Io, pure, lift, tell, logged, alloc, release, ◌>>=◌, ◌>>◌, call,
}
use librados_rs.Omap.{OmapPage, OmapKeys, drop_iter}

-- The result types that a handle can name.
pub data Kind : Type 0 where
  data_kind vals_kind keys_kind : Kind

abbrev pub El : Kind → Type 0
El Kind.data_kind = Bytes
El Kind.vals_kind = OmapPage
El Kind.keys_kind = OmapKeys

-- `Handle<T>`, for the type that `k` stands for. `operation` is the address of the `Arc`.
pub record Handle (k : Kind) : Type 0 where
  pub operation : Ptr
  pub index : ℕ

pub record ReadOp : Type 0 where
  pub op : Ptr
  pub operation : Ptr
  pub steps : List Ptr

-- The drop of a boxed step: an omap step ends its iterator.
unfoldable pub drop_step : Ptr → World → World
unfolding drop_iter
drop_step a w = release a (elim (w.mem a) [
  | none ↦ w
  | some c ↦ elim c [
    | Cell.vals_step s ↦ drop_iter (record { raw = s.iter }) w
    | Cell.keys_step s ↦ drop_iter (record { raw = s.iter }) w
    | _ ↦ w
  ]
])

unfoldable pub drop_steps : List Ptr → World → World
unfolding drop_step
drop_steps [] w = w
drop_steps (a ∷ steps) w = drop_steps steps (drop_step a w)

-- `impl Drop for ReadOp`, and the steps dropped after it.
unfoldable pub drop_read_op : ReadOp → World → World
unfolding drop_steps
drop_read_op o w = drop_steps o.steps (logged (Call.release_read_op o.op) w)

module _ (p : Platform) where
  unfoldable pub new : Io ReadOp
  new = do
    op ← call p Call.create_read_op
    operation ← alloc Cell.unit
    pure (record { op = op; operation = operation; steps = [] })

unfoldable pub assert_version : ReadOp → (ver : ℕ) → Io (Unit {0})
assert_version o ver = tell (Call.read_op_assert_version o.op ver)

-- The op with the step, and the step's handle.
unfoldable pub push : (k : Kind) → ReadOp → Ptr → ReadOp × Handle k
push k o step = (
  record o { steps = o.steps ++ step ∷ [] },
  record { operation = o.operation; index = length o.steps },
)

unfoldable pub read : ReadOp → (offset len : ℕ) → Io (ReadOp × Handle Kind.data_kind)
unfolding push
read o offset len = do
  buf ← lift (zeroed len)
  step ← alloc (Cell.data_step (record { buf = buf; bytes_read = 0; prval = pos 0 }))
  tell (Call.read_op_read o.op offset (room_of buf len) step)
  pure (push Kind.data_kind o step)

-- `map(CString::new).transpose()?`
unfoldable pub cstring_opt : Option Bytes → Io (Option Bytes)
cstring_opt none = pure none
cstring_opt (some s) = do c ← lift (cstring s); pure (some c)

unfoldable pub omap_get_vals :
    ReadOp
    → (start_after filter_prefix : Option Bytes) → (max_return : ℕ)
    → Io (ReadOp × Handle Kind.vals_kind)
unfolding push cstring_opt
omap_get_vals o start_after filter_prefix max_return = do
  start ← cstring_opt start_after
  prefix ← cstring_opt filter_prefix
  step ← alloc (Cell.vals_step (record { iter = null; more = 0; prval = pos 0 }))
  tell (Call.read_op_omap_get_vals2 o.op start prefix max_return step)
  pure (push Kind.vals_kind o step)

unfoldable pub omap_get_keys :
    ReadOp → (start_after : Option Bytes) → (max_return : ℕ) → Io (ReadOp × Handle Kind.keys_kind)
unfolding push cstring_opt
omap_get_keys o start_after max_return = do
  start ← cstring_opt start_after
  step ← alloc (Cell.keys_step (record { iter = null; more = 0; prval = pos 0 }))
  tell (Call.read_op_omap_get_keys2 o.op start max_return step)
  pure (push Kind.keys_kind o step)

unfoldable pub omap_get_vals_by_keys :
    ReadOp → (keys : List Bytes) → Io (ReadOp × Handle Kind.vals_kind)
unfolding push
omap_get_vals_by_keys o keys = do
  step ← alloc (Cell.vals_step (record { iter = null; more = 0; prval = pos 0 }))
  tell (Call.read_op_omap_get_vals_by_keys2 o.op keys (length keys) (map (λ k. length k) keys) step)
  pure (push Kind.vals_kind o step)
