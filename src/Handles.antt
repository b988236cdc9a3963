-- ===== src/Handles.antt =====
-- The handles a caller holds: `Rados` of src/conn.rs and `IoCtx` of src/ioctx.rs, by the raw
-- librados handles behind their `Arc`s.
pub mod Ownership
use librados_rs.Base.{ℕ}
use librados_rs.Error.{Bytes}
use librados_rs.Ffi.Memory.{Ptr}

pub record Rados : Type 0 where
  pub handle : Ptr

pub record IoCtx : Type 0 where
  pub ioctx : Ptr
  pub cluster : Ptr
  pub pool_name : Bytes

-- `Duration`: whole seconds, and nanoseconds below 10 ^ 9.
pub record Duration : Type 0 where
  pub secs : ℕ
  pub nanos : ℕ
