-- ===== src/IoCtx/Locks.antt =====
-- src/ioctx.rs: the `cls_lock` operations.
pub mod Packed
pub mod Expiry
pub mod Table
pub mod Abi
pub mod Defined
use librados_rs.Base.{
  ℕ, zero, suc, ◌+◌, ◌-◌, ◌/◌, ◌^◌, ◌≡◌, Bool, not, ℤ, pos, ◌==ℤ◌, as_i32, List, [], ◌∷◌, map,
  Option, none, some, take, length, replicate, ltb, ◌==◌, if◌then◌else◌,
}
use librados_rs.Error.{
  Bytes, Outcome, ok, err, panic, fault, out_of_fuel, rados, neg_checked, erange, eoverflow,
}
use librados_rs.Text.{cstring, split_nul, slice_to, sub_usize, zeroed, from_utf8_lossy}
use librados_rs.Handles.{IoCtx, Duration}
use librados_rs.Ffi.Memory.{Room, room_of, whole, Timeval, write_buf}
use librados_rs.Ffi.Call
use librados_rs.Ffi.Call.{LockersReply}
use librados_rs.Ffi.World.{Platform, Io, pure, lift, ◌>>=◌, ◌>>◌, call, check, checked}

-- LOCK_FLAG_MAY_RENEW
abbrev pub lock_flag_may_renew : ℕ
lock_flag_may_renew = 1

-- LOCK_FLAG_MUST_RENEW
abbrev pub lock_flag_must_renew : ℕ
lock_flag_must_renew = 2

pub record Locker : Type 0 where
  pub client : Bytes
  pub cookie : Bytes
  pub addr : Bytes

pub record Lockers : Type 0 where
  pub exclusive : Bool
  pub tag : Bytes
  pub lockers : List Locker

-- The `timeval` of a duration, whose seconds have to fit an `i64`.
unfoldable pub timeval_of : Duration → Outcome Timeval
timeval_of d =
    if ltb d.secs (2 ^ 63)
    then ok (record { tv_sec = pos d.secs; tv_usec = pos (d.nanos / 1000) })
    else err (rados (pos eoverflow))

-- `duration.map(...).transpose()?`
unfoldable pub timeval_opt : Option Duration → Io (Option Timeval)
unfolding timeval_of
timeval_opt none = pure none
timeval_opt (some d) = do tv ← lift (timeval_of d); pure (some tv)

-- The closure `strings` of `list_lockers`: `len` bytes of packed strings.
unfoldable pub strings : Bytes → ℕ → Outcome (List Bytes)
strings buf len = if len == 0 then ok [] else elim (slice_to buf (len - 1)) [
  | ok s ↦ ok (map from_utf8_lossy (split_nul s))
  | err e ↦ err e
  | panic ↦ panic
  | fault ↦ fault
  | out_of_fuel ↦ out_of_fuel
]

-- The two `zip`s, which stop at the shortest list.
unfoldable pub zip_lockers : (clients cookies addrs : List Bytes) → List Locker
zip_lockers (c ∷ cs) (k ∷ ks) (a ∷ as') =
    record { client = c; cookie = k; addr = a } ∷ zip_lockers cs ks as'
zip_lockers _ _ _ = []

-- The four buffer lengths.
pub record Sizes : Type 0 where
  pub tag : ℕ
  pub clients : ℕ
  pub cookies : ℕ
  pub addrs : ℕ

module _ (p : Platform) where
  unfoldable pub lock_exclusive :
      IoCtx
      → (oid name cookie desc : Bytes) → (duration : Option Duration) → (flags : ℕ) → Io (Unit {0})
  unfolding timeval_opt
  lock_exclusive io oid name cookie desc duration flags = do
    c_oid ← lift (cstring oid)
    c_name ← lift (cstring name)
    c_cookie ← lift (cstring cookie)
    c_desc ← lift (cstring desc)
    tv ← timeval_opt duration
    checked p (Call.lock_exclusive io.ioctx c_oid c_name c_cookie c_desc tv flags) (λ ret. ret)

  unfoldable pub unlock : IoCtx → (oid name cookie : Bytes) → Io (Unit {0})
  unlock io oid name cookie = do
    c_oid ← lift (cstring oid)
    c_name ← lift (cstring name)
    c_cookie ← lift (cstring cookie)
    checked p (Call.unlock io.ioctx c_oid c_name c_cookie) (λ ret. ret)

  unfoldable pub break_lock : IoCtx → (oid name client cookie : Bytes) → Io (Unit {0})
  break_lock io oid name client cookie = do
    c_oid ← lift (cstring oid)
    c_name ← lift (cstring name)
    c_client ← lift (cstring client)
    c_cookie ← lift (cstring cookie)
    checked p (Call.break_lock io.ioctx c_oid c_name c_client c_cookie) (λ ret. ret)

  -- The `Lockers` that one successful reply stands for, in the buffers that it filled.
  unfoldable pub decode_lockers : LockersReply → (tag clients cookies addrs : Bytes) → Io Lockers
  decode_lockers r tag clients cookies addrs = do
    tag_len ← lift (sub_usize p.overflow_checks r.tag_used 1)
    tag' ← lift (slice_to tag tag_len)
    cs ← lift (strings clients r.clients_used)
    ks ← lift (strings cookies r.cookies_used)
    as' ← lift (strings addrs r.addrs_used)
    pure (record {
      exclusive = not (r.exclusive ==ℤ pos 0);
      tag = from_utf8_lossy tag';
      lockers = zip_lockers cs ks as';
    })

  -- The `loop` of `list_lockers`, on fuel. The return value is an `isize`.
  unfoldable pub list_lockers_loop : ℕ → IoCtx → (c_oid c_name : Bytes) → Sizes → Io Lockers
  list_lockers_loop zero io c_oid c_name sizes = lift out_of_fuel
  list_lockers_loop (suc fuel) io c_oid c_name sizes = do
    tag_buf ← lift (zeroed sizes.tag)
    clients_buf ← lift (zeroed sizes.clients)
    cookies_buf ← lift (zeroed sizes.cookies)
    addrs_buf ← lift (zeroed sizes.addrs)
    r ← call p (
        Call.list_lockers io.ioctx c_oid c_name (room_of tag_buf sizes.tag)
          (room_of clients_buf sizes.clients) (room_of cookies_buf sizes.cookies)
          (room_of addrs_buf sizes.addrs))
    tag ← lift (write_buf tag_buf r.tag)
    clients ← lift (write_buf clients_buf r.clients)
    cookies ← lift (write_buf cookies_buf r.cookies)
    addrs ← lift (write_buf addrs_buf r.addrs)
    e ← lift (neg_checked p.overflow_checks 64 r.ret)
    if e ==ℤ pos erange
        then list_lockers_loop fuel io c_oid c_name (record {
          tag = r.tag_used;
          clients = r.clients_used;
          cookies = r.cookies_used;
          addrs = r.addrs_used;
        })
        else do check p (as_i32 r.ret); decode_lockers r tag clients cookies addrs

  unfoldable pub list_lockers : ℕ → IoCtx → (oid name : Bytes) → Io Lockers
  list_lockers fuel io oid name = do
    c_oid ← lift (cstring oid)
    c_name ← lift (cstring name)
    list_lockers_loop fuel io c_oid c_name
        (record { tag = 64; clients = 64; cookies = 64; addrs = 64 })
