-- ===== src/IoCtx/Listing.antt =====
-- src/ioctx.rs: `list_objects`, and the listing context that it closes.
pub mod Laws
pub mod Abi
use librados_rs.Base.{
  ℕ, zero, suc, ◌≡◌, ℤ, pos, ◌==ℤ◌, List, Option, none, some, [], ◌∷◌, ◌++◌, if◌then◌else◌,
}
use librados_rs.Error.{Bytes, Outcome, ok, err, fault, out_of_fuel, neg_checked, enoent}
use librados_rs.Text.{from_utf8_lossy}
use librados_rs.Handles.{IoCtx}
use librados_rs.Ffi.Memory.{Ptr, from_raw_parts}
use librados_rs.Ffi.Call
use librados_rs.Ffi.World.{
  Platform, World, Io, pure, lift, ◌>>=◌, ◌>>◌, call, check, finally, logged,
}

-- `impl Drop for ObjectList`
unfoldable pub drop_list : Ptr → World → World
drop_list ctx = logged (Call.nobjects_list_close ctx)

-- The bytes of a name; `from_raw_parts` of a null pointer is undefined behaviour.
unfoldable pub name_of : (entry : Option Bytes) → (entry_size : ℕ) → Outcome Bytes
name_of none size = fault
name_of (some m) size = from_raw_parts m size

module _ (p : Platform) where
  -- The `loop`, on fuel, with the names so far.
  unfoldable pub list_loop : ℕ → Ptr → List Bytes → Io (List Bytes)
  list_loop zero ctx names = lift out_of_fuel
  list_loop (suc fuel) ctx names = do
    (ret, entry, entry_size) ← call p (Call.nobjects_list_next2 ctx)
    e ← lift (neg_checked p.overflow_checks 32 ret)
    if e ==ℤ pos enoent then pure names else do
      check p ret
      name ← lift (name_of entry entry_size)
      list_loop fuel ctx (names ++ from_utf8_lossy name ∷ [])

  unfoldable pub list_objects : ℕ → IoCtx → Io (List Bytes)
  unfolding drop_list
  list_objects fuel io = do
    (ret, ctx) ← call p (Call.nobjects_list_open io.ioctx)
    check p ret
    finally (list_loop fuel ctx []) (drop_list ctx)
