-- ===== src/IoCtx/Watch/Clones.antt =====
-- The clones of an `IoCtx` that its watches hold (src/ioctx.rs), together with the owners of
-- Handles.Ownership: one in the boxed `WatchState`, and one in the `Watch`.
pub mod Counts
pub mod Shares
pub mod Kept
pub mod Outlives
use librados_rs.Base.{
  ℕ, zero, suc, ◌+◌, ◌-◌, ◌≡◌, Bool, true, false, List, [], ◌∷◌, set, get_elem?, Option, none, some,
  if◌then◌else◌,
}
use librados_rs.Ffi.Memory.{Ptr}
use librados_rs.Ffi.Call
use librados_rs.Handles.Ownership
use librados_rs.Handles.Ownership.{
  IoCtxArc, Cluster, created, clone_rados, drop_rados, open_ioctx, clone_ioctx, drop_ioctx,
}
use librados_rs.IoCtx.Watch.{DropStep, unwatch, flush, reclaim}
use librados_rs.IoCtx.Watch.Lifecycle.{Life, fresh}
use librados_rs.IoCtx.Watch.Lifecycle

-- The state holds a clone while it is alive, the `Watch` while `owned`.
pub record WatchClones : Type 0 where
  pub handle : ℕ
  pub life : Life
  pub owned : Bool

-- The clones of one context: those that a client holds, and its watches.
pub record Share : Type 0 where
  pub users : ℕ
  pub watches : List WatchClones

-- A cluster with the share of each of its contexts.
pub record Client : Type 0 where
  pub cluster : Cluster
  pub shares : List Share

-- What `Rados::create` returns.
abbrev pub started : Ptr → Client
started handle = record { cluster = created handle; shares = [] }

-- The context `i` and its share.
pub record At (c : Client) (i : ℕ) (arc : IoCtxArc) (share : Share) : Type 0 where
  pub context : get_elem? c.cluster.contexts i ≡ some arc
  pub shared : get_elem? c.shares i ≡ some share

-- Watch `j` of a share becomes `w`.
abbrev pub rewatch : Share → (j : ℕ) → WatchClones → Share
rewatch share j w = record share { watches = set share.watches j w }

-- `IoCtx::watch` boxes the state, with a clone, and asks librados.
unfoldable pub ask_watch : (i : ℕ) → IoCtxArc → Share → (handle : ℕ) → Client → Client
ask_watch i arc share handle c = record {
  cluster = clone_ioctx i arc c.cluster;
  shares = set c.shares i (record share {
    watches = record { handle = handle; life = fresh; owned = false } ∷ share.watches;
  });
}

-- Where librados grants the watch: the `Watch` takes another clone.
unfoldable pub grant_watch : (i : ℕ) → IoCtxArc → Share → (j : ℕ) → WatchClones → Client → Client
grant_watch i arc share j w c = record {
  cluster = clone_ioctx i arc c.cluster;
  shares = set c.shares i (rewatch share j (record w { owned = true }));
}

-- A life without its state.
abbrev pub freed : Life → Life
freed l = record l { registered = false; alive = false; left = [] }

-- Where it refuses: the box is dropped.
unfoldable pub refuse_watch : (i : ℕ) → IoCtxArc → Share → (j : ℕ) → WatchClones → Client → Client
refuse_watch i arc share j w c = record {
  cluster = drop_ioctx i arc c.cluster;
  shares = set c.shares i (rewatch share j (record w { life = freed w.life }));
}

-- A statement of the destructor of a `Watch`: two calls, and the drop of the box with its clone.
unfoldable pub drop_statement : DropStep → (i : ℕ) → IoCtxArc → (handle : ℕ) → Cluster → Cluster
drop_statement unwatch i arc handle s = record s { log = Call.unwatch2 arc.ioctx handle ∷ s.log }
drop_statement flush i arc handle s = record s { log = Call.watch_flush s.handle ∷ s.log }
drop_statement reclaim i arc handle s = drop_ioctx i arc s

unfoldable pub drop_next :
    DropStep → (i : ℕ) → IoCtxArc → Share → (j : ℕ) → WatchClones → Life → Client → Client
drop_next d i arc share j w l c = record {
  cluster = drop_statement d i arc w.handle c.cluster;
  shares = set c.shares i (rewatch share j (record w { life = l }));
}

-- The drop of the fields of a `Watch`, behind its destructor.
unfoldable pub drop_fields : (i : ℕ) → IoCtxArc → Share → (j : ℕ) → WatchClones → Client → Client
drop_fields i arc share j w c = record {
  cluster = drop_ioctx i arc c.cluster;
  shares = set c.shares i (rewatch share j (record w { owned = false }));
}

-- The event is one of librados or of a callback: it is queued, starts, begins to drop its own watch, or
-- ends.
abbrev pub IsForeign : {l m : Life} → Lifecycle.Step l m → Type 0
IsForeign (Lifecycle.dispatch _) = Unit
IsForeign (Lifecycle.begin _ _ _) = Unit
IsForeign (Lifecycle.finish _ _) = Unit
IsForeign (Lifecycle.enter _ _ _ _) = Unit
IsForeign (Lifecycle.leave _ _ _) = Unit
IsForeign _ = ⊥

-- The event is this statement of the destructor.
abbrev pub IsStatement : {l m : Life} → DropStep → Lifecycle.Step l m → Type 0
IsStatement unwatch (Lifecycle.unwatched _ _) = Unit
IsStatement flush (Lifecycle.flushed _ _ _ _) = Unit
IsStatement reclaim (Lifecycle.reclaimed _ _) = Unit
IsStatement _ _ = ⊥

-- What a client and librados can do: the client clones, uses and drops what it holds itself.
pub data Step (c : Client) : Client → Type 0 where
  clones_rados :
      (n : ℕ) → c.cluster.clones ≡ suc n → Step c (record c { cluster = clone_rados c.cluster })
  drops_rados :
      (n : ℕ) → c.cluster.clones ≡ suc n → Step c (record c { cluster = drop_rados c.cluster })
  opens :
      (n : ℕ) (ioctx : Ptr)
      → c.cluster.clones ≡ suc n
      → Step c (record {
        cluster = open_ioctx ioctx c.cluster;
        shares = record { users = 1; watches = [] } ∷ c.shares;
      })
  clones_ioctx :
      (i n : ℕ) (arc : IoCtxArc) (share : Share)
      → At c i arc share
      → share.users ≡ suc n
      → Step c (record {
        cluster = clone_ioctx i arc c.cluster;
        shares = set c.shares i (record share { users = share.users + 1 });
      })
  drops_ioctx :
      (i n : ℕ) (arc : IoCtxArc) (share : Share)
      → At c i arc share
      → share.users ≡ suc n
      → Step c (record {
        cluster = drop_ioctx i arc c.cluster;
        shares = set c.shares i (record share { users = share.users - 1 });
      })
  asks :
      (i n : ℕ) (arc : IoCtxArc) (share : Share) (handle : ℕ)
      → At c i arc share
      → share.users ≡ suc n
      → Step c (ask_watch i arc share handle c)
  granted :
      (i j : ℕ) (arc : IoCtxArc) (share : Share) (w : WatchClones)
      → At c i arc share
      → get_elem? share.watches j ≡ some w
      → w.owned ≡ false
      → w.life.alive ≡ true
      → Step c (grant_watch i arc share j w c)
  -- librados has registered no callback
  refused :
      (i j : ℕ) (arc : IoCtxArc) (share : Share) (w : WatchClones)
      → At c i arc share
      → get_elem? share.watches j ≡ some w
      → w.owned ≡ false
      → w.life.alive ≡ true
      → w.life.queued ≡ 0
      → w.life.running ≡ false
      → Step c (refuse_watch i arc share j w c)
  calls_back :
      (i j : ℕ) (arc : IoCtxArc) (share : Share) (w : WatchClones) (l : Life)
      → At c i arc share
      → get_elem? share.watches j ≡ some w
      → (e : Lifecycle.Step w.life l) → IsForeign e
      → Step c (record c { shares = set c.shares i (rewatch share j (record w { life = l })) })
  -- the client drops the `Watch`
  drops_watch :
      (d : DropStep) (i j : ℕ) (arc : IoCtxArc) (share : Share) (w : WatchClones) (l : Life)
      → At c i arc share
      → get_elem? share.watches j ≡ some w
      → w.owned ≡ true
      → (e : Lifecycle.Step w.life l) → IsStatement d e
      → Step c (drop_next d i arc share j w l c)
  drops_fields :
      (i j : ℕ) (arc : IoCtxArc) (share : Share) (w : WatchClones)
      → At c i arc share
      → get_elem? share.watches j ≡ some w
      → w.owned ≡ true
      → w.life.left ≡ []
      → Step c (drop_fields i arc share j w c)

pub data Reach (c : Client) : Client → Type 0 where
  here : Reach c c
  next : {d e : Client} → Reach c d → Step d e → Reach c e
