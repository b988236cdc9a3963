-- ===== src/Ffi/Abi/Declared.antt =====
-- Each call with its declaration in src/ffi.rs.
use librados_rs.Ffi.Call.{Call}
use librados_rs.Ffi.Abi.{Signature}
use librados_rs.Ffi.Abi.Cluster.{
  rados_version, rados_create, rados_connect, rados_shutdown, rados_conf_read_file, rados_conf_set,
  rados_wait_for_latest_osdmap, rados_pool_list, rados_ioctx_create, rados_ioctx_destroy,
  rados_pool_create, rados_pool_delete, rados_watch_flush, rados_blocklist_add, rados_buffer_free,
}
use librados_rs.Ffi.Abi.Objects.{
  rados_nobjects_list_open, rados_nobjects_list_next2, rados_nobjects_list_close,
  rados_get_last_version, rados_write, rados_write_full, rados_append, rados_read, rados_remove,
  rados_trunc, rados_getxattr, rados_stat, rados_watch3, rados_unwatch2, rados_notify2,
  rados_decode_notify_response, rados_free_notify_response, rados_notify_ack, rados_lock_exclusive,
  rados_unlock, rados_list_lockers, rados_break_lock,
}
use librados_rs.Ffi.Abi.WriteOps.{
  rados_create_write_op, rados_release_write_op, rados_write_op_assert_exists,
  rados_write_op_assert_version, rados_write_op_cmpxattr, rados_write_op_omap_cmp2,
  rados_write_op_setxattr, rados_write_op_create, rados_write_op_write, rados_write_op_write_full,
  rados_write_op_append, rados_write_op_remove, rados_write_op_truncate, rados_write_op_omap_set2,
  rados_write_op_omap_rm_keys2, rados_write_op_omap_rm_range2, rados_write_op_omap_clear,
  rados_write_op_operate,
}
use librados_rs.Ffi.Abi.ReadOps.{
  rados_omap_get_next2, rados_omap_get_end, rados_create_read_op, rados_release_read_op,
  rados_read_op_assert_version, rados_read_op_read, rados_read_op_omap_get_vals2,
  rados_read_op_omap_get_keys2, rados_read_op_omap_get_vals_by_keys2, rados_read_op_operate,
}

abbrev pub declaration : Call → Signature
declaration Call.version = rados_version
declaration (Call.create _) = rados_create
declaration (Call.shutdown _) = rados_shutdown
declaration (Call.conf_read_file _ _) = rados_conf_read_file
declaration (Call.conf_set _ _ _) = rados_conf_set
declaration (Call.connect _) = rados_connect
declaration (Call.pool_create _ _) = rados_pool_create
declaration (Call.pool_delete _ _) = rados_pool_delete
declaration (Call.pool_list _ _) = rados_pool_list
declaration (Call.blocklist_add _ _ _) = rados_blocklist_add
declaration (Call.wait_for_latest_osdmap _) = rados_wait_for_latest_osdmap
declaration (Call.ioctx_create _ _) = rados_ioctx_create
declaration (Call.ioctx_destroy _) = rados_ioctx_destroy
declaration (Call.get_last_version _) = rados_get_last_version
declaration (Call.write _ _ _ _ _) = rados_write
declaration (Call.write_full _ _ _ _) = rados_write_full
declaration (Call.append _ _ _ _) = rados_append
declaration (Call.read _ _ _ _) = rados_read
declaration (Call.stat _ _) = rados_stat
declaration (Call.trunc _ _ _) = rados_trunc
declaration (Call.remove _ _) = rados_remove
declaration (Call.nobjects_list_open _) = rados_nobjects_list_open
declaration (Call.nobjects_list_next2 _) = rados_nobjects_list_next2
declaration (Call.nobjects_list_close _) = rados_nobjects_list_close
declaration (Call.getxattr _ _ _ _) = rados_getxattr
declaration (Call.lock_exclusive _ _ _ _ _ _ _) = rados_lock_exclusive
declaration (Call.unlock _ _ _ _) = rados_unlock
declaration (Call.break_lock _ _ _ _ _) = rados_break_lock
declaration (Call.list_lockers _ _ _ _ _ _ _) = rados_list_lockers
declaration (Call.watch3 _ _ _ _) = rados_watch3
declaration (Call.unwatch2 _ _) = rados_unwatch2
declaration (Call.watch_flush _) = rados_watch_flush
declaration (Call.notify2 _ _ _ _ _) = rados_notify2
declaration (Call.notify_ack _ _ _ _ _ _) = rados_notify_ack
declaration (Call.buffer_free _) = rados_buffer_free
declaration (Call.decode_notify_response _ _) = rados_decode_notify_response
declaration (Call.free_notify_response _ _ _) = rados_free_notify_response
declaration Call.create_write_op = rados_create_write_op
declaration Call.create_read_op = rados_create_read_op
declaration (Call.release_write_op _) = rados_release_write_op
declaration (Call.release_read_op _) = rados_release_read_op
declaration (Call.write_op_assert_version _ _) = rados_write_op_assert_version
declaration (Call.write_op_assert_exists _) = rados_write_op_assert_exists
declaration (Call.write_op_create _ _) = rados_write_op_create
declaration (Call.write_op_write _ _ _ _) = rados_write_op_write
declaration (Call.write_op_write_full _ _ _) = rados_write_op_write_full
declaration (Call.write_op_append _ _ _) = rados_write_op_append
declaration (Call.write_op_remove _) = rados_write_op_remove
declaration (Call.write_op_truncate _ _) = rados_write_op_truncate
declaration (Call.write_op_omap_set2 _ _ _ _ _ _) = rados_write_op_omap_set2
declaration (Call.write_op_omap_rm_keys2 _ _ _ _) = rados_write_op_omap_rm_keys2
declaration (Call.write_op_setxattr _ _ _ _) = rados_write_op_setxattr
declaration (Call.write_op_cmpxattr _ _ _ _ _) = rados_write_op_cmpxattr
declaration (Call.write_op_omap_cmp2 _ _ _ _ _ _ _) = rados_write_op_omap_cmp2
declaration (Call.write_op_omap_rm_range2 _ _ _ _ _) = rados_write_op_omap_rm_range2
declaration (Call.write_op_omap_clear _) = rados_write_op_omap_clear
declaration (Call.write_op_operate _ _ _) = rados_write_op_operate
declaration (Call.read_op_assert_version _ _) = rados_read_op_assert_version
declaration (Call.read_op_read _ _ _ _) = rados_read_op_read
declaration (Call.read_op_omap_get_vals2 _ _ _ _ _) = rados_read_op_omap_get_vals2
declaration (Call.read_op_omap_get_keys2 _ _ _ _) = rados_read_op_omap_get_keys2
declaration (Call.read_op_omap_get_vals_by_keys2 _ _ _ _ _) = rados_read_op_omap_get_vals_by_keys2
declaration (Call.read_op_operate _ _ _) = rados_read_op_operate
declaration (Call.omap_get_next2 _) = rados_omap_get_next2
declaration (Call.omap_get_end _) = rados_omap_get_end
