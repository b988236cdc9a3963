-- ===== src/Ffi/Call.antt =====
-- The librados functions that the library calls, and their replies.
use librados_rs.Base.{ℕ, ℤ, List, Option}
use librados_rs.Error.{Bytes}
use librados_rs.Ffi.Memory.{Ptr, Room, Timeval, NotifyAckT, NotifyTimeoutT}

-- The out slots of a step of a compound read, as src/read_op.rs boxes them.
pub record ReadStepData : Type 0 where
  pub buf : Bytes
  pub bytes_read : ℕ
  pub prval : ℤ

pub record OmapValsStep : Type 0 where
  pub iter : Ptr
  pub more : ℕ
  pub prval : ℤ

pub record OmapKeysStep : Type 0 where
  pub iter : Ptr
  pub more : ℕ
  pub prval : ℤ

-- What the trampolines need of a watch: the ioctx, its cluster and the object.
pub record WatchState : Type 0 where
  pub ioctx : Ptr
  pub cluster : Ptr
  pub oid : Bytes

-- A heap cell: the box of a `c_int`, of a read step with the type it was boxed at, of a watch, or the
-- `()` of an `Arc`.
pub data Cell : Type 0 where
  int : ℤ → Cell
  data_step : ReadStepData → Cell
  vals_step : OmapValsStep → Cell
  keys_step : OmapKeysStep → Cell
  watch_state : WatchState → Cell
  unit : Cell

-- What librados wrote through the slots that it holds, as the new contents of those cells.
abbrev pub Writes : Type 0
Writes = List (Ptr × Cell)

pub data Call : Type 0 where
  version : Call
  create : Option Bytes → Call
  shutdown : Ptr → Call
  conf_read_file : Ptr → Bytes → Call
  conf_set : Ptr → Bytes → Bytes → Call
  connect : Ptr → Call
  pool_create pool_delete : Ptr → Bytes → Call
  pool_list : Ptr → (buf : Room) → Call
  blocklist_add : Ptr → Bytes → (seconds : ℕ) → Call
  wait_for_latest_osdmap : Ptr → Call
  ioctx_create : Ptr → Bytes → Call
  ioctx_destroy : Ptr → Call
  get_last_version : Ptr → Call
  write : Ptr → (oid : Bytes) → (buf : Bytes) → (len : ℕ) → (off : ℕ) → Call
  write_full append : Ptr → (oid : Bytes) → (buf : Bytes) → (len : ℕ) → Call
  read : Ptr → (oid : Bytes) → (buf : Room) → (off : ℕ) → Call
  stat : Ptr → (oid : Bytes) → Call
  trunc : Ptr → (oid : Bytes) → (size : ℕ) → Call
  remove : Ptr → (oid : Bytes) → Call
  nobjects_list_open : Ptr → Call
  nobjects_list_next2 nobjects_list_close : Ptr → Call
  getxattr : Ptr → (oid name : Bytes) → (buf : Room) → Call
  lock_exclusive :
      Ptr → (oid name cookie desc : Bytes) → (duration : Option Timeval) → (flags : ℕ) → Call
  unlock : Ptr → (oid name cookie : Bytes) → Call
  break_lock : Ptr → (oid name client cookie : Bytes) → Call
  list_lockers : Ptr → (oid name : Bytes) → (tag clients cookies addrs : Room) → Call
  watch3 : Ptr → (oid : Bytes) → (timeout : ℕ) → (arg : Ptr) → Call
  unwatch2 : Ptr → (handle : ℕ) → Call
  watch_flush : Ptr → Call
  notify2 : Ptr → (oid : Bytes) → (buf : Bytes) → (len : ℕ) → (timeout_ms : ℕ) → Call
  notify_ack :
      Ptr → (oid : Bytes) → (notify_id handle : ℕ) → (reply : Option Bytes) → (len : ℕ) → Call
  buffer_free : Ptr → Call
  decode_notify_response : Ptr → (len : ℕ) → Call
  free_notify_response : (acks : Ptr) → (nr_acks : ℕ) → (timeouts : Ptr) → Call
  create_write_op create_read_op : Call
  release_write_op release_read_op : Ptr → Call
  write_op_assert_version : Ptr → ℕ → Call
  write_op_assert_exists : Ptr → Call
  write_op_create : Ptr → (mode : ℕ) → Call
  write_op_write : Ptr → (buf : Bytes) → (len : ℕ) → (off : ℕ) → Call
  write_op_write_full write_op_append : Ptr → (buf : Bytes) → (len : ℕ) → Call
  write_op_remove : Ptr → Call
  write_op_truncate : Ptr → ℕ → Call
  write_op_omap_set2 : Ptr → (keys vals : List Bytes) → (key_lens val_lens : List ℕ) → ℕ → Call
  write_op_omap_rm_keys2 : Ptr → (keys : List Bytes) → (key_lens : List ℕ) → ℕ → Call
  write_op_setxattr : Ptr → (name value : Bytes) → (len : ℕ) → Call
  write_op_cmpxattr : Ptr → (name : Bytes) → (op : ℕ) → (value : Bytes) → (len : ℕ) → Call
  write_op_omap_cmp2 :
      Ptr
      → (key : Bytes) → (op : ℕ) → (value : Bytes) → (key_len val_len : ℕ) → (prval : Ptr) → Call
  write_op_omap_rm_range2 : Ptr → (begin : Bytes) → ℕ → (end : Bytes) → ℕ → Call
  write_op_omap_clear : Ptr → Call
  write_op_operate : (op io : Ptr) → (oid : Bytes) → Call
  read_op_assert_version : Ptr → ℕ → Call
  read_op_read : Ptr → (offset : ℕ) → (buf : Room) → (step : Ptr) → Call
  read_op_omap_get_vals2 :
      Ptr → (start_after filter_prefix : Option Bytes) → (max_return : ℕ) → (step : Ptr) → Call
  read_op_omap_get_keys2 :
      Ptr → (start_after : Option Bytes) → (max_return : ℕ) → (step : Ptr) → Call
  read_op_omap_get_vals_by_keys2 :
      Ptr → (keys : List Bytes) → (num : ℕ) → (key_lens : List ℕ) → (step : Ptr) → Call
  read_op_operate : (op io : Ptr) → (oid : Bytes) → Call
  omap_get_next2 omap_get_end : Ptr → Call

-- The `used` lengths come back through the slots that passed the buffer lengths.
pub record LockersReply : Type 0 where
  pub ret : ℤ
  pub exclusive : ℤ
  pub tag : Bytes
  pub clients : Bytes
  pub cookies : Bytes
  pub addrs : Bytes
  pub tag_used : ℕ
  pub clients_used : ℕ
  pub cookies_used : ℕ
  pub addrs_used : ℕ

-- Each array is a pointer, what is readable behind it, and a count.
pub record DecodeReply : Type 0 where
  pub ret : ℤ
  pub acks : Ptr
  pub ack_array : List NotifyAckT
  pub nr_acks : ℕ
  pub timeouts : Ptr
  pub timeout_array : List NotifyTimeoutT
  pub nr_timeouts : ℕ

pub record NextReply : Type 0 where
  pub key : Option Bytes
  pub val : Option Bytes
  pub key_len : ℕ
  pub val_len : ℕ

-- A buffer that librados writes comes back as the bytes written at its front.
abbrev pub Reply : Call → Type 0
Reply version = ℤ × ℤ × ℤ
Reply (create _) = ℤ × Ptr
Reply (pool_list _ _) = ℤ × Bytes
Reply (ioctx_create _ _) = ℤ × Ptr
Reply (get_last_version _) = ℕ
Reply (read _ _ _ _) = ℤ × Bytes
Reply (stat _ _) = ℤ × ℕ × ℤ
Reply (nobjects_list_open _) = ℤ × Ptr
Reply (nobjects_list_next2 _) = ℤ × Option Bytes × ℕ
Reply (getxattr _ _ _ _) = ℤ × Bytes
Reply (list_lockers _ _ _ _ _ _ _) = LockersReply
Reply (watch3 _ _ _ _) = ℤ × ℕ
Reply (notify2 _ _ _ _ _) = ℤ × Ptr × ℕ
Reply (decode_notify_response _ _) = DecodeReply
Reply create_write_op = Ptr
Reply create_read_op = Ptr
Reply (write_op_operate _ _ _) = ℤ × Writes
Reply (read_op_operate _ _ _) = ℤ × Writes
Reply (omap_get_next2 _) = NextReply
Reply _ = ℤ
