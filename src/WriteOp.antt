-- ===== src/WriteOp.antt =====
-- src/write_op.rs: the compound write. The boxes of `cmps` are heap cells, and their addresses go
-- to librados, which writes through them while the op is operated.
pub mod Run
pub mod Drop
pub mod Report
pub mod Wired
pub mod Safe
pub mod Program
pub mod Guards
pub mod Session
pub mod OneStep
pub mod Abi
use librados_rs.Base.{
  ℕ, ◌+◌, ◌≡◌, Bool, ℤ, pos, List, [], ◌∷◌, ◌++◌, Option, none, some, map, length, if◌then◌else◌,
}
use librados_rs.Error.{Bytes, RadosError, Outcome, ok, err}
use librados_rs.Text.{cstring}
use librados_rs.Ffi.Memory.{Ptr}
use librados_rs.Ffi.Call
use librados_rs.Ffi.Call.{Cell}
use librados_rs.Ffi.World.{
  Platform, World, Io, pure, lift, tell, logged, alloc, release_all, ◌>>=◌, ◌>>◌, call,
}

-- CMPXATTR_OP_EQ
abbrev pub cmpxattr_op_eq : ℕ
cmpxattr_op_eq = 1

pub record CmpHandle : Type 0 where
  pub index : ℕ

pub record WriteError : Type 0 where
  pub error : RadosError
  pub failed_cmp : Option CmpHandle

pub record WriteOp : Type 0 where
  pub op : Ptr
  pub cmps : List Ptr

-- `impl Drop for WriteOp`, and the boxes dropped after it.
unfoldable pub drop_write_op : WriteOp → World → World
drop_write_op o w = release_all o.cmps (logged (Call.release_write_op o.op) w)

module _ (p : Platform) where
  unfoldable pub new : Io WriteOp
  new = do op ← call p Call.create_write_op; pure (record { op = op; cmps = [] })

unfoldable pub assert_version : WriteOp → (ver : ℕ) → Io (Unit {0})
assert_version o ver = tell (Call.write_op_assert_version o.op ver)

unfoldable pub assert_exists : WriteOp → Io (Unit {0})
assert_exists o = tell (Call.write_op_assert_exists o.op)

unfoldable pub create : WriteOp → (exclusive : Bool) → Io (Unit {0})
create o exclusive = tell (Call.write_op_create o.op (if exclusive then 1 else 0))

unfoldable pub write : WriteOp → (buf : Bytes) → (offset : ℕ) → Io (Unit {0})
write o buf offset = tell (Call.write_op_write o.op buf (length buf) offset)

unfoldable pub write_full : WriteOp → (buf : Bytes) → Io (Unit {0})
write_full o buf = tell (Call.write_op_write_full o.op buf (length buf))

unfoldable pub append : WriteOp → (buf : Bytes) → Io (Unit {0})
append o buf = tell (Call.write_op_append o.op buf (length buf))

unfoldable pub remove : WriteOp → Io (Unit {0})
remove o = tell (Call.write_op_remove o.op)

unfoldable pub truncate : WriteOp → (offset : ℕ) → Io (Unit {0})
truncate o offset = tell (Call.write_op_truncate o.op offset)

unfoldable pub omap_set : WriteOp → (entries : List (Bytes × Bytes)) → Io (Unit {0})
omap_set o entries = tell (
    Call.write_op_omap_set2 o.op (map (λ e. e.0) entries) (map (λ e. e.1) entries)
      (map (λ e. length e.0) entries) (map (λ e. length e.1) entries) (length entries))

unfoldable pub omap_rm_keys : WriteOp → (keys : List Bytes) → Io (Unit {0})
omap_rm_keys o keys =
    tell (Call.write_op_omap_rm_keys2 o.op keys (map (λ k. length k) keys) (length keys))

unfoldable pub setxattr : WriteOp → (name value : Bytes) → Io (Unit {0})
setxattr o name value = do
  c_name ← lift (cstring name)
  tell (Call.write_op_setxattr o.op c_name value (length value))

unfoldable pub cmpxattr : WriteOp → (name : Bytes) → (op : ℕ) → (value : Bytes) → Io (Unit {0})
cmpxattr o name op value = do
  c_name ← lift (cstring name)
  tell (Call.write_op_cmpxattr o.op c_name op value (length value))

-- The op with the new box, and the handle.
unfoldable pub omap_cmp :
    WriteOp → (key : Bytes) → (op : ℕ) → (value : Bytes) → Io (WriteOp × CmpHandle)
omap_cmp o key op value = do
  prval ← alloc (Cell.int (pos 0))
  tell (Call.write_op_omap_cmp2 o.op key op value (length key) (length value) prval)
  pure (record o { cmps = o.cmps ++ prval ∷ [] }, record { index = length o.cmps })

unfoldable pub omap_rm_range : WriteOp → (begin end : Bytes) → Io (Unit {0})
omap_rm_range o begin end =
    tell (Call.write_op_omap_rm_range2 o.op begin (length begin) end (length end))

unfoldable pub omap_clear : WriteOp → Io (Unit {0})
omap_clear o = tell (Call.write_op_omap_clear o.op)
