-- ===== src/IoCtx/Objects.antt =====
-- src/ioctx.rs: reading and writing one object.
pub mod Laws
pub mod Semantics
pub mod Abi
use librados_rs.Base.{ℕ, ℤ, as_usize, length}
use librados_rs.Error.{Bytes}
use librados_rs.Text.{cstring}
use librados_rs.Handles.{IoCtx}
use librados_rs.Ffi.Memory.{Room, room_of, whole, write_buf}
use librados_rs.Ffi.Call
use librados_rs.Ffi.World.{Platform, Io, pure, lift, ◌>>=◌, ◌>>◌, call, check, checked}

pub record ObjectStat : Type 0 where
  pub size : ℕ
  pub mtime : ℤ

module _ (p : Platform) where
  unfoldable pub last_version : IoCtx → Io ℕ
  last_version io = call p (Call.get_last_version io.ioctx)

  unfoldable pub write : IoCtx → (oid buf : Bytes) → (offset : ℕ) → Io (Unit {0})
  write io oid buf offset = do
    c_oid ← lift (cstring oid)
    checked p (Call.write io.ioctx c_oid buf (length buf) offset) (λ ret. ret)

  unfoldable pub write_full : IoCtx → (oid buf : Bytes) → Io (Unit {0})
  write_full io oid buf = do
    c_oid ← lift (cstring oid)
    checked p (Call.write_full io.ioctx c_oid buf (length buf)) (λ ret. ret)

  unfoldable pub append : IoCtx → (oid buf : Bytes) → Io (Unit {0})
  append io oid buf = do
    c_oid ← lift (cstring oid)
    checked p (Call.append io.ioctx c_oid buf (length buf)) (λ ret. ret)

  -- The number of bytes read, and the caller's buffer afterwards.
  unfoldable pub read : IoCtx → (oid buf : Bytes) → (offset : ℕ) → Io (ℕ × Bytes)
  read io oid buf offset = do
    c_oid ← lift (cstring oid)
    (ret, written) ← call p (Call.read io.ioctx c_oid (room_of buf (length buf)) offset)
    buf' ← lift (write_buf buf written)
    check p ret
    pure (as_usize ret, buf')

  unfoldable pub stat : IoCtx → (oid : Bytes) → Io ObjectStat
  stat io oid = do
    c_oid ← lift (cstring oid)
    (ret, size, mtime) ← call p (Call.stat io.ioctx c_oid)
    check p ret
    pure (record { size = size; mtime = mtime })

  unfoldable pub truncate : IoCtx → (oid : Bytes) → (size : ℕ) → Io (Unit {0})
  truncate io oid size = do
    c_oid ← lift (cstring oid)
    checked p (Call.trunc io.ioctx c_oid size) (λ ret. ret)

  unfoldable pub remove : IoCtx → (oid : Bytes) → Io (Unit {0})
  remove io oid = do c_oid ← lift (cstring oid); checked p (Call.remove io.ioctx c_oid) (λ ret. ret)
