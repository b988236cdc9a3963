-- ===== src/Conn.antt =====
-- src/conn.rs: the operations on a cluster handle.
pub mod Pools
pub mod Latest
pub mod Admin
pub mod Abi
pub mod Defined
use librados_rs.Base.{
  ℕ, suc, zero, ◌+◌, ◌-◌, ◌^◌, ◌≡◌, Bool, true, false, ℤ, pos, as_usize, List, map, Option, none,
  some, ltb, leb, length, replicate, if◌then◌else◌,
}
use librados_rs.Error.{
  Bytes, RadosError, rados, Outcome, ok, err, out_of_fuel, eoverflow, check_err,
}
use librados_rs.Text.{cstring, split_nul, drop_empty, slice_to, resize, sub_usize, from_utf8_lossy}
use librados_rs.Handles.{Rados, IoCtx, Duration}
use librados_rs.Ffi.Memory.{Room, room_of, whole, Ptr, write_buf}
use librados_rs.Ffi.Call
use librados_rs.Ffi.Call.{Call}
use librados_rs.Ffi.World.{Platform, World, Io, pure, lift, ◌>>=◌, ◌>>◌, call, check, checked}

-- `u32::try_from(n)`, with EOVERFLOW for what does not fit.
unfoldable pub u32_or_overflow : ℕ → Outcome ℕ
u32_or_overflow n = if ltb n (2 ^ 32) then ok n else err (rados (pos eoverflow))

module _ (p : Platform) where
  unfoldable pub create_with_id : Option Bytes → Io Rados
  create_with_id id = do
    (ret, handle) ← call p (Call.create id)
    check p ret
    pure (record { handle = handle })

  unfoldable pub create : Io Rados
  unfolding create_with_id
  create = create_with_id none

  unfoldable pub with_id : Bytes → Io Rados
  unfolding create_with_id
  with_id id = do c_id ← lift (cstring id); create_with_id (some c_id)

  unfoldable pub conf_read_file : Rados → Bytes → Io (Unit {0})
  conf_read_file r path = do
    c_path ← lift (cstring path)
    checked p (Call.conf_read_file r.handle c_path) (λ ret. ret)

  unfoldable pub conf_set : Rados → Bytes → Bytes → Io (Unit {0})
  conf_set r option value = do
    c_opt ← lift (cstring option)
    c_val ← lift (cstring value)
    checked p (Call.conf_set r.handle c_opt c_val) (λ ret. ret)

  unfoldable pub connect : Rados → Io (Unit {0})
  connect r = checked p (Call.connect r.handle) (λ ret. ret)

  unfoldable pub create_pool : Rados → Bytes → Io (Unit {0})
  create_pool r pool_name = do
    c_name ← lift (cstring pool_name)
    checked p (Call.pool_create r.handle c_name) (λ ret. ret)

  unfoldable pub delete_pool : Rados → Bytes → Io (Unit {0})
  delete_pool r pool_name = do
    c_name ← lift (cstring pool_name)
    checked p (Call.pool_delete r.handle c_name) (λ ret. ret)

  -- The `loop` of `list_pools`, on fuel: the buffer, and how much of it is used.
  unfoldable pub list_pools_loop : ℕ → Rados → Bytes → Io (Bytes × ℕ)
  list_pools_loop zero r buf = lift out_of_fuel
  list_pools_loop (suc fuel) r buf = do
    (ret, written) ← call p (Call.pool_list r.handle (room_of buf (length buf)))
    buf' ← lift (write_buf buf written)
    check p ret
    needed ← lift (sub_usize p.overflow_checks (as_usize ret) 1)
    if leb needed (length buf')
        then pure (buf', needed)
        else do bigger ← lift (resize buf' needed); list_pools_loop fuel r bigger

  unfoldable pub list_pools : ℕ → Rados → Io (List Bytes)
  unfolding list_pools_loop
  list_pools fuel r = do
    (buf, used) ← list_pools_loop fuel r (replicate 1024 0)
    names ← lift (slice_to buf used)
    pure (map from_utf8_lossy (drop_empty (split_nul names)))

  unfoldable pub blocklist_add : Rados → Bytes → Duration → Io (Unit {0})
  unfolding u32_or_overflow
  blocklist_add r addr expire = do
    c_addr ← lift (cstring addr)
    expire_seconds ← lift (u32_or_overflow expire.secs)
    checked p (Call.blocklist_add r.handle c_addr expire_seconds) (λ ret. ret)

  unfoldable pub wait_for_latest_osdmap : Rados → Io (Unit {0})
  wait_for_latest_osdmap r = checked p (Call.wait_for_latest_osdmap r.handle) (λ ret. ret)

  unfoldable pub create_ioctx : Rados → Bytes → Io IoCtx
  create_ioctx r pool_name = do
    c_name ← lift (cstring pool_name)
    (ret, ioctx) ← call p (Call.ioctx_create r.handle c_name)
    check p ret
    pure (record { ioctx = ioctx; cluster = r.handle; pool_name = pool_name })
