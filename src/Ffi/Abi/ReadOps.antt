-- ===== src/Ffi/Abi/ReadOps.antt =====
-- The functions of src/ffi.rs on compound reads and omap iterators.
use librados_rs.Base.{[], ◌∷◌}
use librados_rs.Ffi.Abi.{
  Signature, c_int, uint64, size_t, void, handle, const_char, mut_char, const_ptr, mut_ptr,
}

abbrev pub rados_omap_get_next2 : Signature
rados_omap_get_next2 = record {
  params = handle ∷ mut_ptr ∷ mut_ptr ∷ mut_ptr ∷ mut_ptr ∷ [];
  ret = c_int;
}

abbrev pub rados_omap_get_end : Signature
rados_omap_get_end = record { params = handle ∷ []; ret = void }

abbrev pub rados_create_read_op : Signature
rados_create_read_op = record { params = []; ret = handle }

abbrev pub rados_release_read_op : Signature
rados_release_read_op = record { params = handle ∷ []; ret = void }

abbrev pub rados_read_op_assert_version : Signature
rados_read_op_assert_version = record { params = handle ∷ uint64 ∷ []; ret = void }

abbrev pub rados_read_op_read : Signature
rados_read_op_read = record {
  params = handle ∷ uint64 ∷ size_t ∷ mut_char ∷ mut_ptr ∷ mut_ptr ∷ [];
  ret = void;
}

abbrev pub rados_read_op_omap_get_vals2 : Signature
rados_read_op_omap_get_vals2 = record {
  params = handle ∷ const_char ∷ const_char ∷ uint64 ∷ mut_ptr ∷ mut_ptr ∷ mut_ptr ∷ [];
  ret = void;
}

abbrev pub rados_read_op_omap_get_keys2 : Signature
rados_read_op_omap_get_keys2 = record {
  params = handle ∷ const_char ∷ uint64 ∷ mut_ptr ∷ mut_ptr ∷ mut_ptr ∷ [];
  ret = void;
}

abbrev pub rados_read_op_omap_get_vals_by_keys2 : Signature
rados_read_op_omap_get_vals_by_keys2 = record {
  params = handle ∷ const_ptr ∷ size_t ∷ const_ptr ∷ mut_ptr ∷ mut_ptr ∷ [];
  ret = void;
}

abbrev pub rados_read_op_operate : Signature
rados_read_op_operate = record { params = handle ∷ handle ∷ const_char ∷ c_int ∷ []; ret = c_int }
