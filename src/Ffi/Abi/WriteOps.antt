-- ===== src/Ffi/Abi/WriteOps.antt =====
-- The functions of src/ffi.rs on compound writes.
use librados_rs.Base.{[], ◌∷◌}
use librados_rs.Ffi.Abi.{
  Signature, c_int, uint8, uint64, size_t, void, handle, const_char, const_ptr, mut_ptr,
}

abbrev pub rados_create_write_op : Signature
rados_create_write_op = record { params = []; ret = handle }

abbrev pub rados_release_write_op : Signature
rados_release_write_op = record { params = handle ∷ []; ret = void }

abbrev pub rados_write_op_assert_exists : Signature
rados_write_op_assert_exists = record { params = handle ∷ []; ret = void }

abbrev pub rados_write_op_assert_version : Signature
rados_write_op_assert_version = record { params = handle ∷ uint64 ∷ []; ret = void }

abbrev pub rados_write_op_cmpxattr : Signature
rados_write_op_cmpxattr = record {
  params = handle ∷ const_char ∷ uint8 ∷ const_char ∷ size_t ∷ [];
  ret = void;
}

abbrev pub rados_write_op_omap_cmp2 : Signature
rados_write_op_omap_cmp2 = record {
  params = handle ∷ const_char ∷ uint8 ∷ const_char ∷ size_t ∷ size_t ∷ mut_ptr ∷ [];
  ret = void;
}

abbrev pub rados_write_op_setxattr : Signature
rados_write_op_setxattr = record {
  params = handle ∷ const_char ∷ const_char ∷ size_t ∷ [];
  ret = void;
}

abbrev pub rados_write_op_create : Signature
rados_write_op_create = record { params = handle ∷ c_int ∷ const_char ∷ []; ret = void }

abbrev pub rados_write_op_write : Signature
rados_write_op_write = record { params = handle ∷ const_char ∷ size_t ∷ uint64 ∷ []; ret = void }

abbrev pub rados_write_op_write_full : Signature
rados_write_op_write_full = record { params = handle ∷ const_char ∷ size_t ∷ []; ret = void }

abbrev pub rados_write_op_append : Signature
rados_write_op_append = record { params = handle ∷ const_char ∷ size_t ∷ []; ret = void }

abbrev pub rados_write_op_remove : Signature
rados_write_op_remove = record { params = handle ∷ []; ret = void }

abbrev pub rados_write_op_truncate : Signature
rados_write_op_truncate = record { params = handle ∷ uint64 ∷ []; ret = void }

abbrev pub rados_write_op_omap_set2 : Signature
rados_write_op_omap_set2 = record {
  params = handle ∷ const_ptr ∷ const_ptr ∷ const_ptr ∷ const_ptr ∷ size_t ∷ [];
  ret = void;
}

abbrev pub rados_write_op_omap_rm_keys2 : Signature
rados_write_op_omap_rm_keys2 = record {
  params = handle ∷ const_ptr ∷ const_ptr ∷ size_t ∷ [];
  ret = void;
}

abbrev pub rados_write_op_omap_rm_range2 : Signature
rados_write_op_omap_rm_range2 = record {
  params = handle ∷ const_char ∷ size_t ∷ const_char ∷ size_t ∷ [];
  ret = void;
}

abbrev pub rados_write_op_omap_clear : Signature
rados_write_op_omap_clear = record { params = handle ∷ []; ret = void }

abbrev pub rados_write_op_operate : Signature
rados_write_op_operate = record {
  params = handle ∷ handle ∷ const_char ∷ mut_ptr ∷ c_int ∷ [];
  ret = c_int;
}
