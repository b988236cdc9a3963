-- ===== src/Ffi/Abi/Objects.antt =====
-- The functions of src/ffi.rs on the objects of a pool.
use librados_rs.Base.{[], ◌∷◌}
use librados_rs.Ffi.Abi.{
  Signature, c_int, uint8, uint32, uint64, size_t, ssize_t, void, handle, const_char, mut_char,
  mut_ptr, callback,
}

abbrev pub rados_nobjects_list_open : Signature
rados_nobjects_list_open = record { params = handle ∷ mut_ptr ∷ []; ret = c_int }

abbrev pub rados_nobjects_list_next2 : Signature
rados_nobjects_list_next2 = record {
  params = handle ∷ mut_ptr ∷ mut_ptr ∷ mut_ptr ∷ mut_ptr ∷ mut_ptr ∷ mut_ptr ∷ [];
  ret = c_int;
}

abbrev pub rados_nobjects_list_close : Signature
rados_nobjects_list_close = record { params = handle ∷ []; ret = void }

abbrev pub rados_get_last_version : Signature
rados_get_last_version = record { params = handle ∷ []; ret = uint64 }

abbrev pub rados_write : Signature
rados_write = record {
  params = handle ∷ const_char ∷ const_char ∷ size_t ∷ uint64 ∷ [];
  ret = c_int;
}

abbrev pub rados_write_full : Signature
rados_write_full = record { params = handle ∷ const_char ∷ const_char ∷ size_t ∷ []; ret = c_int }

abbrev pub rados_append : Signature
rados_append = record { params = handle ∷ const_char ∷ const_char ∷ size_t ∷ []; ret = c_int }

abbrev pub rados_read : Signature
rados_read = record { params = handle ∷ const_char ∷ mut_char ∷ size_t ∷ uint64 ∷ []; ret = c_int }

abbrev pub rados_remove : Signature
rados_remove = record { params = handle ∷ const_char ∷ []; ret = c_int }

abbrev pub rados_trunc : Signature
rados_trunc = record { params = handle ∷ const_char ∷ uint64 ∷ []; ret = c_int }

abbrev pub rados_getxattr : Signature
rados_getxattr = record {
  params = handle ∷ const_char ∷ const_char ∷ mut_char ∷ size_t ∷ [];
  ret = c_int;
}

abbrev pub rados_stat : Signature
rados_stat = record { params = handle ∷ const_char ∷ mut_ptr ∷ mut_ptr ∷ []; ret = c_int }

abbrev pub rados_watch3 : Signature
rados_watch3 = record {
  params = handle ∷ const_char ∷ mut_ptr ∷ callback ∷ callback ∷ uint32 ∷ mut_ptr ∷ [];
  ret = c_int;
}

abbrev pub rados_unwatch2 : Signature
rados_unwatch2 = record { params = handle ∷ uint64 ∷ []; ret = c_int }

abbrev pub rados_notify2 : Signature
rados_notify2 = record {
  params = handle ∷ const_char ∷ const_char ∷ c_int ∷ uint64 ∷ mut_ptr ∷ mut_ptr ∷ [];
  ret = c_int;
}

abbrev pub rados_decode_notify_response : Signature
rados_decode_notify_response = record {
  params = mut_char ∷ size_t ∷ mut_ptr ∷ mut_ptr ∷ mut_ptr ∷ mut_ptr ∷ [];
  ret = c_int;
}

abbrev pub rados_free_notify_response : Signature
rados_free_notify_response = record { params = mut_ptr ∷ size_t ∷ mut_ptr ∷ []; ret = void }

abbrev pub rados_notify_ack : Signature
rados_notify_ack = record {
  params = handle ∷ const_char ∷ uint64 ∷ uint64 ∷ const_char ∷ c_int ∷ [];
  ret = c_int;
}

abbrev pub rados_lock_exclusive : Signature
rados_lock_exclusive = record {
  params = handle ∷ const_char ∷ const_char ∷ const_char ∷ const_char ∷ mut_ptr ∷ uint8 ∷ [];
  ret = c_int;
}

abbrev pub rados_unlock : Signature
rados_unlock = record { params = handle ∷ const_char ∷ const_char ∷ const_char ∷ []; ret = c_int }

abbrev pub rados_list_lockers : Signature
rados_list_lockers = record {
  params =
      handle ∷ const_char ∷ const_char ∷ mut_ptr ∷ mut_char ∷ mut_ptr ∷ mut_char ∷ mut_ptr
      ∷ mut_char ∷ mut_ptr ∷ mut_char ∷ mut_ptr ∷ [];
  ret = ssize_t;
}

abbrev pub rados_break_lock : Signature
rados_break_lock = record {
  params = handle ∷ const_char ∷ const_char ∷ const_char ∷ const_char ∷ [];
  ret = c_int;
}
