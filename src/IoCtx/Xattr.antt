-- ===== src/IoCtx/Xattr.antt =====
-- src/ioctx.rs: `getxattr`, which doubles its buffer until the value fits.
pub mod Laws
pub mod Abi
use librados_rs.Base.{
  ℕ, zero, suc, ◌*◌, ◌≡◌, ℤ, pos, ◌==ℤ◌, as_usize, take, length, replicate, if◌then◌else◌,
}
use librados_rs.Error.{Bytes, Outcome, ok, err, out_of_fuel, neg_checked, erange}
use librados_rs.Text.{cstring, resize}
use librados_rs.Handles.{IoCtx}
use librados_rs.Ffi.Memory.{Room, room_of, whole, write_buf}
use librados_rs.Ffi.Call
use librados_rs.Ffi.World.{Platform, Io, pure, lift, ◌>>=◌, ◌>>◌, call, check}

module _ (p : Platform) where
  -- The `loop`, on fuel; `truncate` leaves a shorter buffer alone.
  unfoldable pub getxattr_loop : ℕ → IoCtx → (c_oid c_name buf : Bytes) → Io Bytes
  getxattr_loop zero io c_oid c_name buf = lift out_of_fuel
  getxattr_loop (suc fuel) io c_oid c_name buf = do
    (ret, written) ← call p (Call.getxattr io.ioctx c_oid c_name (room_of buf (length buf)))
    buf' ← lift (write_buf buf written)
    e ← lift (neg_checked p.overflow_checks 32 ret)
    if e ==ℤ pos erange
        then (do
          bigger ← lift (resize buf' (length buf' * 2))
          getxattr_loop fuel io c_oid c_name bigger)
        else do check p ret; pure (take (as_usize ret) buf')

  unfoldable pub getxattr : ℕ → IoCtx → (oid name : Bytes) → Io Bytes
  unfolding getxattr_loop
  getxattr fuel io oid name = do
    c_oid ← lift (cstring oid)
    c_name ← lift (cstring name)
    getxattr_loop fuel io c_oid c_name (replicate 256 0)
