-- ===== src/Handles/Ownership.antt =====
-- The `Arc`s behind `Rados` (src/conn.rs) and `IoCtx` (src/ioctx.rs): who keeps a cluster handle
-- alive, and when it is shut down.
pub mod Laws
use librados_rs.Base.{
  ℕ, zero, suc, ◌+◌, ◌-◌, ◌≡◌, List, [], ◌∷◌, ◌++◌, set, get_elem?, Option, none, some, ◌==◌,
  if◌then◌else◌,
}
use librados_rs.Ffi.Memory.{Ptr}
use librados_rs.Ffi.Call
use librados_rs.Ffi.Call.{Call}

-- An `Arc<IoCtxHandle>`: its raw ioctx, and how many clones of the `IoCtx` are alive.
pub record IoCtxArc : Type 0 where
  pub ioctx : Ptr
  pub count : ℕ

-- An `Arc<RadosHandle>` with everything that holds it: `count` is its strong count, of which
-- `clones` are in `Rados` values; the others are in the contexts. `log` has the destructors'
-- calls, the last first.
pub record Cluster : Type 0 where
  pub handle : Ptr
  pub count : ℕ
  pub clones : ℕ
  pub contexts : List IoCtxArc
  pub log : List Call

-- What `Rados::create` returns.
abbrev pub created : Ptr → Cluster
created handle = record { handle = handle; count = 1; clones = 1; contexts = []; log = [] }

-- The drop of one `Arc<RadosHandle>`: the last one runs `impl Drop for RadosHandle`.
unfoldable pub drop_arc : Cluster → Cluster
drop_arc s =
    if s.count == 1
    then record s { count = 0; log = Call.shutdown s.handle ∷ s.log }
    else record s { count = s.count - 1 }

-- `Rados::clone`
unfoldable pub clone_rados : Cluster → Cluster
clone_rados s = record s { count = s.count + 1; clones = s.clones + 1 }

-- The drop of a `Rados`.
unfoldable pub drop_rados : Cluster → Cluster
unfolding drop_arc
drop_rados s = drop_arc (record s { clones = s.clones - 1 })

-- `IoCtx::new`, which clones the cluster's `Arc`.
unfoldable pub open_ioctx : Ptr → Cluster → Cluster
open_ioctx ioctx s = record s {
  count = s.count + 1;
  contexts = record { ioctx = ioctx; count = 1 } ∷ s.contexts;
}

-- `IoCtx::clone`
unfoldable pub clone_ioctx : ℕ → IoCtxArc → Cluster → Cluster
clone_ioctx i arc s = record s {
  contexts = set s.contexts i (record arc { count = arc.count + 1 });
}

-- The drop of an `IoCtx`: the last clone runs `impl Drop for IoCtxHandle`, and then the drop of
-- its field `cluster`.
unfoldable pub drop_ioctx : ℕ → IoCtxArc → Cluster → Cluster
unfolding drop_arc
drop_ioctx i arc s =
    if arc.count == 1
    then drop_arc (record s {
      contexts = set s.contexts i (record arc { count = 0 });
      log = Call.ioctx_destroy arc.ioctx ∷ s.log;
    })
    else record s { contexts = set s.contexts i (record arc { count = arc.count - 1 }) }

-- What a program can do: only a value that is alive can be cloned, used or dropped.
pub data Step (s : Cluster) : Cluster → Type 0 where
  clones_rados : (n : ℕ) → s.clones ≡ suc n → Step s (clone_rados s)
  drops_rados : (n : ℕ) → s.clones ≡ suc n → Step s (drop_rados s)
  opens : (n : ℕ) (ioctx : Ptr) → s.clones ≡ suc n → Step s (open_ioctx ioctx s)
  clones_ioctx :
      (i n : ℕ) (arc : IoCtxArc)
      → get_elem? s.contexts i ≡ some arc
      → arc.count ≡ suc n
      → Step s (clone_ioctx i arc s)
  drops_ioctx :
      (i n : ℕ) (arc : IoCtxArc)
      → get_elem? s.contexts i ≡ some arc
      → arc.count ≡ suc n
      → Step s (drop_ioctx i arc s)

pub data Reach (s : Cluster) : Cluster → Type 0 where
  here : Reach s s
  next : {t u : Cluster} → Reach s t → Step t u → Reach s u
