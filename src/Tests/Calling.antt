-- ===== src/Tests/Calling.antt =====
-- A client of the whole library, and the calls that it causes.
use librados_rs.Base.{
  none, ℕ, Bool, true, false, if◌then◌else◌, pos, neg_of_ℕ, length, ◌≤◌, ◌≡◌, ◌≢◌, refl, List, [],
  ◌∷◌, Option, some, arith,
}
use librados_rs.Error.{Bytes, enoent}
use librados_rs.Handles.{Duration}
use librados_rs.Ffi.Call.{Call, Reply}
use librados_rs.Ffi.World.{Platform, World}
use librados_rs.IoCtx.Locks.Packed.{fit, needed, full_reply, short_reply}
use librados_rs.Conn.Admin as Admin
use librados_rs.IoCtx.Locks.Table as Table
use librados_rs.IoCtx.Objects.Semantics as Storing
use librados_rs.IoCtx.Watch.{Notification}
use librados_rs.WriteOp.Program.{WriteStep}
use librados_rs.WriteOp.{WriteOp}
use librados_rs.ReadOp.Build.{ReadStep}
use librados_rs.ReadOp.{ReadOp}
use librados_rs.Error.{fault}
use librados_rs.Ffi.Defined.{StaysWithin}
use librados_rs.Client.Defined.{no_method_faults}
use librados_rs.Client.{Request, perform}
use librados_rs.Tests.Cluster.{held, obj, rbd, rados, serving, io, bare}

abbrev day : Duration
day = record { secs = 86400; nanos = 0 }

-- A closure that replies with two bytes.
abbrev reply_two : Notification → World → Option Bytes × World
reply_two n w = (some (1 ∷ 2 ∷ []), w)

abbrev write_op : WriteOp
write_op = record { op = 5; cmps = [] }

abbrev read_op : ReadOp
read_op = record { op = 6; operation = 7; steps = [] }

-- The client configures the cluster, notifies, locks, and runs a compound write and a compound read.
abbrev busy : List Request
busy =
    Request.notified reply_two 0 3 4 5 (some rbd) 3
    ∷ Request.cluster rados Admin.Request.list_pools
    ∷ Request.cluster rados (Admin.Request.blocklist_add rbd day)
    ∷ Request.object io (Storing.Request.write obj rbd 4096)
    ∷ Request.getxattr io obj rbd
    ∷ Request.lock io (Table.LockRequest.lock obj rbd rbd obj (some day) 1)
    ∷ Request.notify io obj rbd day
    ∷ Request.add_write (WriteStep.omap_set ((obj, rbd) ∷ (rbd, obj) ∷ [])) write_op
    ∷ Request.add_write (WriteStep.omap_cmp obj 1 rbd) write_op
    ∷ Request.operate_write write_op io obj
    ∷ Request.add_read (ReadStep.omap_get_vals_by_keys (obj ∷ rbd ∷ [])) read_op
    ∷ Request.operate_read read_op io obj
    ∷ []

-- The cluster, with an empty pool.
abbrev replies : List Call → (c : Call) → Reply c
replies log (Call.nobjects_list_next2 _) = (neg_of_ℕ enoent, none, 0)
replies log c = serving.librados log c

abbrev empty_pool : Platform
empty_pool = record { librados = replies; overflow_checks = true }

lockers-within :
    (b : Bool) (t c k a : ℕ)
    → fit (needed held) (record { tag = t; clients = c; cookies = k; addrs = a }) ≡ b
    → let r = if b then full_reply (pos 1) held else short_reply held in
      (length r.tag ≤ t) × (length r.clients ≤ c) × (length r.cookies ≤ k) × (length r.addrs ≤ a)
lockers-within true t c k a e = ground arith
lockers-within false t c k a e = (omega arith, omega arith, omega arith, omega arith)

empty_pool-StaysWithin : StaysWithin empty_pool
empty_pool-StaysWithin = record {
  pools = λ log r len. ground arith;
  data_read = λ log a oid len off. omega arith;
  value = λ log a oid name len. ground arith;
  lockers = λ log a oid name t c k s.
      lockers-within
        (fit (needed held)
          (record { tag = t.len; clients = c.len; cookies = k.len; addrs = s.len }))
        t.len c.len k.len s.len refl;
  entry = λ log list h. absurd cc;
  decoded = λ log reply len. (omega arith, omega arith, (omega arith, tt));
}

no_method_faults_example : (perform empty_pool 3 (Request.list_lockers io obj rbd) bare).0 ≢ fault
no_method_faults_example =
    no_method_faults empty_pool 3 empty_pool-StaysWithin (Request.list_lockers io obj rbd) bare tt
