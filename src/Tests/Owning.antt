-- ===== src/Tests/Owning.antt =====
-- A cluster handle that its context outlives.
use librados_rs.Base.{◌≡◌, refl, [], ◌∷◌, arith}
use librados_rs.Ffi.Call.{Call}
use librados_rs.Handles.Ownership
use librados_rs.Handles.Ownership.{
  Cluster, IoCtxArc, Reach, created, drop_rados, drop_ioctx, open_ioctx, drop_arc,
}
use librados_rs.Handles.Ownership.Laws.{
  IsCounted, Ended, live, destroyed, size, Reach-IsCounted, shutdown_last,
}

abbrev context : IoCtxArc
context = record { ioctx = 2; count = 1 }

-- The `Rados` is dropped while its context is alive.
abbrev orphaned : Cluster
orphaned = record { handle = 1; count = 1; clones = 0; contexts = context ∷ []; log = [] }

-- The context is dropped, too.
abbrev closed : Cluster
closed = record {
  handle = 1;
  count = 0;
  clones = 0;
  contexts = record { ioctx = 2; count = 0 } ∷ [];
  log = Call.shutdown 1 ∷ Call.ioctx_destroy 2 ∷ [];
}

orphans : Reach (created 1) orphaned
unfolding open_ioctx drop_rados
orphans =
    Ownership.next (Ownership.next Ownership.here (Ownership.opens 0 2 refl))
      (Ownership.drops_rados 0 refl)

closes : Reach (created 1) closed
unfolding drop_ioctx
closes = Ownership.next orphans (Ownership.drops_ioctx 0 0 context refl refl)

Reach-IsCounted_example : IsCounted orphaned
Reach-IsCounted_example = Reach-IsCounted orphans

shutdown_last_example :
    (closed.clones ≡ 0)
    × (live closed.contexts ≡ 0)
    × (destroyed closed.log ≡ size closed.contexts)
    × Ended closed
shutdown_last_example = shutdown_last closes (ground arith)
