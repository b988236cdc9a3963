-- ===== src/Tests/Reading.antt =====
-- Listings and lookups in a small cluster.
use librados_rs.Base.{
  ℕ, ◌≤◌, ◌+◌, ◌<◌, ◌^◌, ◌≡◌, refl, pos, List, [], ◌∷◌, some, length, arith, map,
}
use librados_rs.Error.{Bytes, ok, check_err}
use librados_rs.Ffi.Memory.{whole, from_raw_parts}
use librados_rs.Text.{from_utf8_lossy}
use librados_rs.Text.Laws.{pack}
use librados_rs.Text.Utf8.{All, IsUtf8}
use librados_rs.Text.Utf8
use librados_rs.Ffi.Call.{Call}
use librados_rs.Ffi.History.{Grew}
use librados_rs.Ffi.World.{logged}
use librados_rs.Conn.{list_pools}
use librados_rs.Conn.Pools.{ListsPools, IsPoolName, list_pools_lem}
use librados_rs.IoCtx.Xattr.{getxattr}
use librados_rs.IoCtx.Xattr.Laws.{HoldsXattr, Asks, getxattr_lem}
use librados_rs.IoCtx.Locks.{list_lockers}
use librados_rs.IoCtx.Locks.Packed.{HoldsLock, IsText, first_sizes, request, list_lockers_lem}
use librados_rs.IoCtx.Listing.{name_of, list_loop, list_objects}
use librados_rs.IoCtx.Listing.Laws.{closings, list_objects_lem, list_objects_closes}
use librados_rs.IoCtx.Notify.Laws.{IsSettled, last_call}
use librados_rs.Tests.Cluster.{
  obj, rbd, xattr_value, held, serving, rados, io, bare, obj-NoNul, rbd-NoNul,
}

rbd-IsUtf8 : IsUtf8 rbd
rbd-IsUtf8 = Utf8.one (ground arith) (Utf8.one (ground arith) (Utf8.one (ground arith) Utf8.nil))

lists : ListsPools serving 1 (rbd ∷ []) (λ _. Unit)
unfolding pack
lists = record {
  needed = λ log len now. refl;
  fits = λ log len now h. ground arith;
  bounded = λ log len now. ground arith;
}

pub rbd-IsPoolName : IsPoolName rbd
rbd-IsPoolName = (cc, rbd-NoNul, rbd-IsUtf8)

small_names : length (pack (rbd ∷ [])) + 1 < 2 ^ 31
unfolding pack
small_names = ground arith

list_pools_lem_example :
    list_pools serving 2 rados bare ≡ (ok (rbd ∷ []), logged (Call.pool_list 1 (whole 1024)) bare)
unfolding pack
list_pools_lem_example =
    list_pools_lem serving rados (rbd ∷ []) (λ _. Unit) lists small_names (λ log len now. tt) 0 bare
      tt (rbd-IsPoolName, tt)

abbrev always : List Call → Bytes
always log = xattr_value

holds : HoldsXattr serving io obj rbd always
holds = record {
  fits = λ log len h. ground arith;
  too_small = λ log len h. ground arith;
  bounded = λ log len. ground arith;
}

always_short : (log : List Call) → length (always log) < 2 ^ 31
always_short log = ground arith

getxattr_lem_example :
    let (r, w') = getxattr serving 1 io obj rbd bare in
    (log : List Call) × (len : ℕ) × (r ≡ ok xattr_value)
    × (w' ≡ record bare { log = Call.getxattr 2 obj rbd (whole len) ∷ log })
    × Grew (Asks io obj rbd) [] log
    × (length log ≤ 0)
getxattr_lem_example =
    getxattr_lem serving io obj rbd always holds always_short 0 bare obj-NoNul rbd-NoNul
      (λ log. ground arith)

client-IsText : IsText (99 ∷ [])
client-IsText = ((ground arith, tt), Utf8.one (ground arith) Utf8.nil)

addr-IsText : IsText (58 ∷ [])
addr-IsText = ((ground arith, tt), Utf8.one (ground arith) Utf8.nil)

lock : HoldsLock serving io obj rbd held
unfolding pack
lock = record {
  exclusive = pos 1;
  exclusive_flag = refl;
  fits = λ log s h. rw h;
  too_small = λ log s h. rw h;
  tag_text = (tt, Utf8.nil);
  clients_text = (client-IsText, tt);
  cookies_text = ((tt, Utf8.nil), tt);
  addrs_text = (addr-IsText, tt);
  modest = ground arith;
  few = ground arith;
}

list_lockers_lem_example :
    list_lockers serving 2 io obj rbd bare ≡ (ok held, logged (request io obj rbd first_sizes) bare)
unfolding pack
list_lockers_lem_example = list_lockers_lem serving io obj rbd held lock 0 bare obj-NoNul rbd-NoNul

list_objects_lem_example : list_objects serving 2 io bare ≡ (
  ok (map from_utf8_lossy (obj ∷ [])),
  record bare {
    log =
        Call.nobjects_list_close 7
        ∷ Call.nobjects_list_next2 7
        ∷ Call.nobjects_list_next2 7
        ∷ Call.nobjects_list_open 2
        ∷ [];
  },
)
list_objects_lem_example =
    list_objects_lem serving 2 io 7 (obj ∷ []) bare refl (refl, refl) (ground arith)

listing_settles : IsSettled (list_objects serving 2 io bare).0
unfolding list_objects check_err list_loop name_of from_raw_parts
listing_settles = tt

list_objects_closes_example :
    let w' = (list_objects serving 2 io bare).1 in
    (last_call w'.log ≡ some (Call.nobjects_list_close 7)) × (closings w'.log ≡ 1)
list_objects_closes_example = list_objects_closes serving 2 io bare refl listing_settles
