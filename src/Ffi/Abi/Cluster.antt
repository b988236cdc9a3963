-- ===== src/Ffi/Abi/Cluster.antt =====
-- The functions of src/ffi.rs on a cluster handle.
use librados_rs.Base.{[], ◌∷◌}
use librados_rs.Ffi.Abi.{
  Signature, c_int, uint32, size_t, void, handle, const_char, mut_char, mut_ptr,
}

abbrev pub rados_version : Signature
rados_version = record { params = mut_ptr ∷ mut_ptr ∷ mut_ptr ∷ []; ret = void }

abbrev pub rados_create : Signature
rados_create = record { params = mut_ptr ∷ const_char ∷ []; ret = c_int }

abbrev pub rados_connect : Signature
rados_connect = record { params = handle ∷ []; ret = c_int }

abbrev pub rados_shutdown : Signature
rados_shutdown = record { params = handle ∷ []; ret = void }

abbrev pub rados_conf_read_file : Signature
rados_conf_read_file = record { params = handle ∷ const_char ∷ []; ret = c_int }

abbrev pub rados_conf_set : Signature
rados_conf_set = record { params = handle ∷ const_char ∷ const_char ∷ []; ret = c_int }

abbrev pub rados_wait_for_latest_osdmap : Signature
rados_wait_for_latest_osdmap = record { params = handle ∷ []; ret = c_int }

abbrev pub rados_pool_list : Signature
rados_pool_list = record { params = handle ∷ mut_char ∷ size_t ∷ []; ret = c_int }

abbrev pub rados_ioctx_create : Signature
rados_ioctx_create = record { params = handle ∷ const_char ∷ mut_ptr ∷ []; ret = c_int }

abbrev pub rados_ioctx_destroy : Signature
rados_ioctx_destroy = record { params = handle ∷ []; ret = void }

abbrev pub rados_pool_create : Signature
rados_pool_create = record { params = handle ∷ const_char ∷ []; ret = c_int }

abbrev pub rados_pool_delete : Signature
rados_pool_delete = record { params = handle ∷ const_char ∷ []; ret = c_int }

abbrev pub rados_watch_flush : Signature
rados_watch_flush = record { params = handle ∷ []; ret = c_int }

abbrev pub rados_blocklist_add : Signature
rados_blocklist_add = record { params = handle ∷ mut_char ∷ uint32 ∷ []; ret = c_int }

abbrev pub rados_buffer_free : Signature
rados_buffer_free = record { params = mut_char ∷ []; ret = void }
