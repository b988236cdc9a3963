-- ===== src/Tests/Cluster.antt =====
-- A small cluster that serves every request, and one that refuses the writing ones.
use librados_rs.Base.{
  Option, some, ℕ, Bool, true, false, ℤ, pos, negsuc, neg_of_ℕ, List, [], ◌∷◌, none, leb, arith,
  if◌then◌else◌, ◌==◌,
}
use librados_rs.Error.{Bytes, erange, enoent}
use librados_rs.Ffi.Call.{Call, Reply, Cell}
use librados_rs.Ffi.World.{Platform, World}
use librados_rs.Handles.{Rados, IoCtx}
use librados_rs.Text.Laws.{NoNul}
use librados_rs.IoCtx.Notify.{NotifyResponse}
use librados_rs.IoCtx.Notify.Decode.{encode}
use librados_rs.Omap.Drain.{pair_reply, end_reply}
use librados_rs.Ffi.Call.{OmapValsStep, NextReply}
use librados_rs.IoCtx.Locks.{Lockers}
use librados_rs.IoCtx.Locks.Packed.{full_reply, short_reply, needed, fit}

-- "rbd"
abbrev pub rbd : Bytes
rbd = 114 ∷ 98 ∷ 100 ∷ []

abbrev pub packed_names : Bytes
packed_names = 114 ∷ 98 ∷ 100 ∷ 0 ∷ []

-- "a"
abbrev pub obj : Bytes
obj = 97 ∷ []

abbrev pub xattr_value : Bytes
xattr_value = 1 ∷ 2 ∷ []

-- A lock with one holder, whose cookie is empty.
abbrev pub held : Lockers
held = record {
  exclusive = true;
  tag = [];
  lockers = record { client = 99 ∷ []; cookie = []; addr = 58 ∷ [] } ∷ [];
}

-- The listing yields one name.
abbrev pub next_object : List Call → ℤ × Option Bytes × ℕ
next_object (Call.nobjects_list_open _ ∷ _) = (pos 0, some obj, 1)
next_object _ = (neg_of_ℕ enoent, none, 0)

-- One watcher acked.
abbrev pub one_ack : NotifyResponse
one_ack = record {
  acks = record { notifier_id = 6; cookie = 8; payload = obj } ∷ [];
  timeouts = [];
}

-- A step of a read that has an iterator, and one that failed.
abbrev pub read_step : OmapValsStep
read_step = record { iter = 12; more = 1; prval = pos 0 }

abbrev pub failed_step : OmapValsStep
failed_step = record { iter = 12; more = 0; prval = negsuc 21 }

-- The iterator yields one pair.
abbrev pub next_pair : List Call → NextReply
next_pair (Call.read_op_operate _ _ _ ∷ _) = pair_reply (rbd, xattr_value)
next_pair _ = end_reply

abbrev pub answer : (refuses : Bool) → List Call → (c : Call) → Reply c
answer refuses log Call.version = (pos 3, pos 0, pos 0)
answer refuses log (Call.create _) = (pos 0, 1)
answer refuses log (Call.pool_list _ buf) = (pos 5, if leb 4 buf.len then packed_names else [])
answer refuses log (Call.ioctx_create _ _) = (pos 0, 2)
answer refuses log (Call.get_last_version _) = 1
answer refuses log (Call.read _ _ _ _) = (pos 0, [])
answer refuses log (Call.stat _ _) = (pos 0, 0, pos 0)
answer refuses log (Call.nobjects_list_open _) = (pos 0, 7)
answer refuses log (Call.nobjects_list_next2 _) = next_object log
answer refuses log (Call.getxattr _ _ _ buf) =
    if leb 2 buf.len then (pos 2, xattr_value) else (neg_of_ℕ erange, [])
answer refuses log (Call.list_lockers _ _ _ t c k a) =
    if fit (needed held) (record { tag = t.len; clients = c.len; cookies = k.len; addrs = a.len })
    then full_reply (pos 1) held
    else short_reply held
answer refuses log (Call.watch3 _ _ _ _) = if refuses then (negsuc 1, 0) else (pos 0, 77)
answer refuses log (Call.notify2 _ _ _ _ _) = if refuses then (negsuc 1, 9, 0) else (pos 0, 9, 40)
answer refuses log (Call.decode_notify_response _ _) = encode 0 3 0 one_ack
answer refuses log Call.create_write_op = 5
answer refuses log Call.create_read_op = 6
answer refuses log (Call.write_op_operate op _ _) =
    if refuses
    then (negsuc 124, if op == 5 then (2, Cell.int (negsuc 124)) ∷ [] else [])
    else (pos 0, [])
answer refuses log (Call.read_op_operate _ _ _) =
    (pos 0, (2, Cell.vals_step (if refuses then failed_step else read_step)) ∷ [])
answer refuses log (Call.omap_get_next2 _) = next_pair log
answer refuses log (Call.shutdown _) = pos 0
answer refuses log (Call.conf_read_file _ _) = pos 0
answer refuses log (Call.conf_set _ _ _) = pos 0
answer refuses log (Call.connect _) = pos 0
answer refuses log (Call.pool_create _ _) = pos 0
answer refuses log (Call.pool_delete _ _) = pos 0
answer refuses log (Call.blocklist_add _ _ _) = pos 0
answer refuses log (Call.wait_for_latest_osdmap _) = pos 0
answer refuses log (Call.ioctx_destroy _) = pos 0
answer refuses log (Call.write _ _ _ _ _) = pos 0
answer refuses log (Call.write_full _ _ _ _) = pos 0
answer refuses log (Call.append _ _ _ _) = pos 0
answer refuses log (Call.trunc _ _ _) = pos 0
answer refuses log (Call.remove _ _) = pos 0
answer refuses log (Call.nobjects_list_close _) = pos 0
answer refuses log (Call.lock_exclusive _ _ _ _ _ _ _) = pos 0
answer refuses log (Call.unlock _ _ _ _) = pos 0
answer refuses log (Call.break_lock _ _ _ _ _) = pos 0
answer refuses log (Call.unwatch2 _ _) = pos 0
answer refuses log (Call.watch_flush _) = pos 0
answer refuses log (Call.notify_ack _ _ _ _ _ _) = pos 0
answer refuses log (Call.buffer_free _) = pos 0
answer refuses log (Call.free_notify_response _ _ _) = pos 0
answer refuses log (Call.release_write_op _) = pos 0
answer refuses log (Call.release_read_op _) = pos 0
answer refuses log (Call.write_op_assert_version _ _) = pos 0
answer refuses log (Call.write_op_assert_exists _) = pos 0
answer refuses log (Call.write_op_create _ _) = pos 0
answer refuses log (Call.write_op_write _ _ _ _) = pos 0
answer refuses log (Call.write_op_write_full _ _ _) = pos 0
answer refuses log (Call.write_op_append _ _ _) = pos 0
answer refuses log (Call.write_op_remove _) = pos 0
answer refuses log (Call.write_op_truncate _ _) = pos 0
answer refuses log (Call.write_op_omap_set2 _ _ _ _ _ _) = pos 0
answer refuses log (Call.write_op_omap_rm_keys2 _ _ _ _) = pos 0
answer refuses log (Call.write_op_setxattr _ _ _ _) = pos 0
answer refuses log (Call.write_op_cmpxattr _ _ _ _ _) = pos 0
answer refuses log (Call.write_op_omap_cmp2 _ _ _ _ _ _ _) = pos 0
answer refuses log (Call.write_op_omap_rm_range2 _ _ _ _ _) = pos 0
answer refuses log (Call.write_op_omap_clear _) = pos 0
answer refuses log (Call.read_op_assert_version _ _) = pos 0
answer refuses log (Call.read_op_read _ _ _ _) = pos 0
answer refuses log (Call.read_op_omap_get_vals2 _ _ _ _ _) = pos 0
answer refuses log (Call.read_op_omap_get_keys2 _ _ _ _) = pos 0
answer refuses log (Call.read_op_omap_get_vals_by_keys2 _ _ _ _ _) = pos 0
answer refuses log (Call.omap_get_end _) = pos 0

abbrev pub serving : Platform
serving = record { librados = answer false; overflow_checks = true }

abbrev pub refusing : Platform
refusing = record { librados = answer true; overflow_checks = false }

abbrev pub rados : Rados
rados = record { handle = 1 }

abbrev pub io : IoCtx
io = record { ioctx = 2; cluster = 1; pool_name = rbd }

-- Nothing was called, and nothing is alive.
abbrev pub bare : World
bare = record { log = []; next = 1; mem = λ _. none }

pub obj-NoNul : NoNul obj
obj-NoNul = (ground arith, tt)

pub rbd-NoNul : NoNul rbd
rbd-NoNul = (ground arith, (ground arith, (ground arith, tt)))
