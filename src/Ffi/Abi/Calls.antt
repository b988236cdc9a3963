-- ===== src/Ffi/Abi/Calls.antt =====
-- Each call with the arguments that the source writes for it, against its declaration.
use librados_rs.Base.{ℕ, List, [], ◌∷◌, Option, none, some}
use librados_rs.Error.{Bytes}
use librados_rs.Ffi.Call.{Call}
use librados_rs.Ffi.Memory.{Timeval}
use librados_rs.Ffi.Abi.{
  Value, number, raw, null, text, block, room, strings, sizes, slot, trampoline, Admits,
}
use librados_rs.Ffi.Abi.Declared.{declaration}

abbrev pub text_or_null : Option Bytes → Value
text_or_null none = null
text_or_null (some s) = text s

abbrev pub block_or_null : Option Bytes → (n : ℕ) → Value
block_or_null none n = null
block_or_null (some b) n = block b n

abbrev slot_or_null : Option Timeval → Value
slot_or_null none = null
slot_or_null (some _) = slot

-- The arguments, in the order of the call.
abbrev pub arguments : Call → List Value
arguments Call.version = slot ∷ slot ∷ slot ∷ []
arguments (Call.create id) = slot ∷ text_or_null id ∷ []
arguments (Call.shutdown r) = raw r ∷ []
arguments (Call.conf_read_file r path) = raw r ∷ text path ∷ []
arguments (Call.conf_set r option value) = raw r ∷ text option ∷ text value ∷ []
arguments (Call.connect r) = raw r ∷ []
arguments (Call.pool_create r name) = raw r ∷ text name ∷ []
arguments (Call.pool_delete r name) = raw r ∷ text name ∷ []
arguments (Call.pool_list r buf) = raw r ∷ room buf ∷ number buf.len ∷ []
arguments (Call.blocklist_add r addr seconds) = raw r ∷ text addr ∷ number seconds ∷ []
arguments (Call.wait_for_latest_osdmap r) = raw r ∷ []
arguments (Call.ioctx_create r pool) = raw r ∷ text pool ∷ slot ∷ []
arguments (Call.ioctx_destroy io) = raw io ∷ []
arguments (Call.get_last_version io) = raw io ∷ []
arguments (Call.write io oid buf len off) =
    raw io ∷ text oid ∷ block buf len ∷ number len ∷ number off ∷ []
arguments (Call.write_full io oid buf len) = raw io ∷ text oid ∷ block buf len ∷ number len ∷ []
arguments (Call.append io oid buf len) = raw io ∷ text oid ∷ block buf len ∷ number len ∷ []
arguments (Call.read io oid buf off) =
    raw io ∷ text oid ∷ room buf ∷ number buf.len ∷ number off ∷ []
arguments (Call.stat io oid) = raw io ∷ text oid ∷ slot ∷ slot ∷ []
arguments (Call.trunc io oid size) = raw io ∷ text oid ∷ number size ∷ []
arguments (Call.remove io oid) = raw io ∷ text oid ∷ []
arguments (Call.nobjects_list_open io) = raw io ∷ slot ∷ []
arguments (Call.nobjects_list_next2 list) = raw list ∷ slot ∷ null ∷ null ∷ slot ∷ null ∷ null ∷ []
arguments (Call.nobjects_list_close list) = raw list ∷ []
arguments (Call.getxattr io oid name buf) =
    raw io ∷ text oid ∷ text name ∷ room buf ∷ number buf.len ∷ []
arguments (Call.lock_exclusive io oid name cookie desc duration flags) =
    raw io
    ∷ text oid
    ∷ text name
    ∷ text cookie
    ∷ text desc
    ∷ slot_or_null duration
    ∷ number flags
    ∷ []
arguments (Call.unlock io oid name cookie) = raw io ∷ text oid ∷ text name ∷ text cookie ∷ []
arguments (Call.break_lock io oid name client cookie) =
    raw io ∷ text oid ∷ text name ∷ text client ∷ text cookie ∷ []
arguments (Call.list_lockers io oid name tag clients cookies addrs) =
    raw io
    ∷ text oid
    ∷ text name
    ∷ slot
    ∷ room tag
    ∷ slot
    ∷ room clients
    ∷ slot
    ∷ room cookies
    ∷ slot
    ∷ room addrs
    ∷ slot
    ∷ []
arguments (Call.watch3 io oid timeout arg) =
    raw io ∷ text oid ∷ slot ∷ trampoline ∷ trampoline ∷ number timeout ∷ raw arg ∷ []
arguments (Call.unwatch2 io cookie) = raw io ∷ number cookie ∷ []
arguments (Call.watch_flush r) = raw r ∷ []
arguments (Call.notify2 io oid buf len timeout_ms) =
    raw io ∷ text oid ∷ block buf len ∷ number len ∷ number timeout_ms ∷ slot ∷ slot ∷ []
arguments (Call.notify_ack io oid notify_id cookie reply len) =
    raw io ∷ text oid ∷ number notify_id ∷ number cookie ∷ block_or_null reply len ∷ number len ∷ []
arguments (Call.buffer_free buf) = raw buf ∷ []
arguments (Call.decode_notify_response reply len) =
    raw reply ∷ number len ∷ slot ∷ slot ∷ slot ∷ slot ∷ []
arguments (Call.free_notify_response acks n timeouts) = raw acks ∷ number n ∷ raw timeouts ∷ []
arguments Call.create_write_op = []
arguments Call.create_read_op = []
arguments (Call.release_write_op op) = raw op ∷ []
arguments (Call.release_read_op op) = raw op ∷ []
arguments (Call.write_op_assert_version op ver) = raw op ∷ number ver ∷ []
arguments (Call.write_op_assert_exists op) = raw op ∷ []
arguments (Call.write_op_create op mode) = raw op ∷ number mode ∷ null ∷ []
arguments (Call.write_op_write op buf len off) =
    raw op ∷ block buf len ∷ number len ∷ number off ∷ []
arguments (Call.write_op_write_full op buf len) = raw op ∷ block buf len ∷ number len ∷ []
arguments (Call.write_op_append op buf len) = raw op ∷ block buf len ∷ number len ∷ []
arguments (Call.write_op_remove op) = raw op ∷ []
arguments (Call.write_op_truncate op off) = raw op ∷ number off ∷ []
arguments (Call.write_op_omap_set2 op keys vals key_lens val_lens n) =
    raw op
    ∷ strings keys key_lens n
    ∷ strings vals val_lens n
    ∷ sizes key_lens n
    ∷ sizes val_lens n
    ∷ number n
    ∷ []
arguments (Call.write_op_omap_rm_keys2 op keys key_lens n) =
    raw op ∷ strings keys key_lens n ∷ sizes key_lens n ∷ number n ∷ []
arguments (Call.write_op_setxattr op name value len) =
    raw op ∷ text name ∷ block value len ∷ number len ∷ []
arguments (Call.write_op_cmpxattr op name cmp value len) =
    raw op ∷ text name ∷ number cmp ∷ block value len ∷ number len ∷ []
arguments (Call.write_op_omap_cmp2 op key cmp value key_len val_len _) =
    raw op
    ∷ block key key_len
    ∷ number cmp
    ∷ block value val_len
    ∷ number key_len
    ∷ number val_len
    ∷ slot
    ∷ []
arguments (Call.write_op_omap_rm_range2 op begin begin_len end end_len) =
    raw op ∷ block begin begin_len ∷ number begin_len ∷ block end end_len ∷ number end_len ∷ []
arguments (Call.write_op_omap_clear op) = raw op ∷ []
arguments (Call.write_op_operate op io oid) = raw op ∷ raw io ∷ text oid ∷ null ∷ number 0 ∷ []
arguments (Call.read_op_assert_version op ver) = raw op ∷ number ver ∷ []
arguments (Call.read_op_read op offset buf _) =
    raw op ∷ number offset ∷ number buf.len ∷ room buf ∷ slot ∷ slot ∷ []
arguments (Call.read_op_omap_get_vals2 op start prefix max _) =
    raw op ∷ text_or_null start ∷ text_or_null prefix ∷ number max ∷ slot ∷ slot ∷ slot ∷ []
arguments (Call.read_op_omap_get_keys2 op start max _) =
    raw op ∷ text_or_null start ∷ number max ∷ slot ∷ slot ∷ slot ∷ []
arguments (Call.read_op_omap_get_vals_by_keys2 op keys n key_lens _) =
    raw op ∷ strings keys key_lens n ∷ number n ∷ sizes key_lens n ∷ slot ∷ slot ∷ []
arguments (Call.read_op_operate op io oid) = raw op ∷ raw io ∷ text oid ∷ number 0 ∷ []
arguments (Call.omap_get_next2 iter) = raw iter ∷ slot ∷ slot ∷ slot ∷ slot ∷ []
arguments (Call.omap_get_end iter) = raw iter ∷ []

-- The call keeps to its declaration.
abbrev pub IsSound : Call → Type 0
IsSound c = Admits (declaration c).params (arguments c)

abbrev pub AllSound : List Call → Type 0
AllSound [] = Unit
AllSound (c ∷ log) = IsSound c × AllSound log
