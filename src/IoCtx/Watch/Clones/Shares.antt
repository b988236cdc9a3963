-- ===== src/IoCtx/Watch/Clones/Shares.antt =====
-- A client whose counts are right, and what a change of one share does to it.
use librados_rs.Base.{
  ℕ, suc, ◌+◌, ◌-◌, ◌<◌, ◌≡◌, inl, refl, ap, ◌∙◌, sym, true, false, ◌∷◌, set, get_elem?, some,
  arith,
}
use librados_rs.Ffi.Call.{Call}
use librados_rs.Handles.Ownership
use librados_rs.Handles.Ownership.{
  IoCtxArc, Cluster, created, drop_arc, clone_rados, drop_rados, open_ioctx, clone_ioctx,
  drop_ioctx,
}
use librados_rs.Handles.Ownership.Laws.{IsCounted, Step-IsCounted}
use librados_rs.IoCtx.Watch.Lifecycle.{IsSound}
use librados_rs.IoCtx.Watch.Clones.{WatchClones, Share, Client, At, rewatch, freed}
use librados_rs.IoCtx.Watch.Clones.Counts.{
  one_if, holds, total, AllSound, Fits, Fits-at, Fits-set, all_hold-set, AllSound-at, AllSound-set,
  set-same, drop_ioctx-contexts, live-at,
}

-- What holds of a client: each count is right, and each life is one of the lives of a watch.
pub record IsKept (c : Client) : Type 0 where
  pub counted : IsCounted c.cluster
  pub fits : Fits c.cluster.contexts c.shares

-- A call that frees nothing.
abbrev pub IsUse : Call → Type 0
IsUse (Call.unwatch2 _ _) = Unit
IsUse (Call.watch_flush _) = Unit
IsUse _ = ⊥

pub logged-IsCounted :
    (s : Cluster) (c : Call)
    → IsUse c
    → 0 < s.count
    → IsCounted s
    → IsCounted (record s { log = c ∷ s.log })
logged-IsCounted s (Call.unwatch2 _ _) u lt k = record {
  counts = k.counts;
  shut = k.shut;
  opened = k.opened;
  ended = inl lt;
}
logged-IsCounted s (Call.watch_flush _) u lt k = record {
  counts = k.counts;
  shut = k.shut;
  opened = k.opened;
  ended = inl lt;
}
logged-IsCounted s _ u lt k = absurd u

module _ (c : Client) (k : IsKept c) (i : ℕ) (arc : IoCtxArc) (share : Share)
    (at' : At c i arc share) where
  pub counts : arc.count ≡ total share
  counts = (Fits-at c.cluster.contexts c.shares i arc share k.fits at'.context at'.shared).0

  pub sound : AllSound share.watches
  sound = (Fits-at c.cluster.contexts c.shares i arc share k.fits at'.context at'.shared).1

  -- While a context is alive, so is the cluster.
  pub connected : 0 < arc.count → 0 < c.cluster.count
  connected lt = omega (arith, k.counted.counts, live-at c.cluster.contexts i arc at'.context lt)

  reshare :
      (s : Cluster) (m : ℕ) (t : Share)
      → IsCounted s
      → s.contexts ≡ set c.cluster.contexts i (record arc { count = m })
      → m ≡ total t
      → AllSound t.watches
      → IsKept (record { cluster = s; shares = set c.shares i t })
  reshare s m t counted same e ok = record {
    counted = counted;
    fits =
        rw same (Fits-set c.cluster.contexts c.shares i (record arc { count = m }) t k.fits e ok);
  }

  pub more :
      (t : Share)
      → 0 < total share
      → total t ≡ suc (total share)
      → AllSound t.watches
      → IsKept (record { cluster = clone_ioctx i arc c.cluster; shares = set c.shares i t })
  unfolding clone_ioctx
  more t lt e ok =
      reshare (clone_ioctx i arc c.cluster) (arc.count + 1) t
        (Step-IsCounted
          (Ownership.clones_ioctx i (arc.count - 1) arc at'.context (omega (arith, counts)))
          k.counted)
        refl (omega (arith, counts)) ok

  pub fewer :
      (t : Share)
      → total share ≡ suc (total t)
      → AllSound t.watches
      → IsKept (record { cluster = drop_ioctx i arc c.cluster; shares = set c.shares i t })
  fewer t e ok =
      let n : arc.count ≡ suc (total t) = counts ∙ e in
      reshare (drop_ioctx i arc c.cluster) (total t) t
        (Step-IsCounted (Ownership.drops_ioctx i (total t) arc at'.context n) k.counted)
        (drop_ioctx-contexts i (total t) arc c.cluster n) refl ok

  -- The counts stay; the log may have another call.
  pub as_many :
      (s : Cluster) (t : Share)
      → IsCounted s
      → s.contexts ≡ c.cluster.contexts
      → total t ≡ total share
      → AllSound t.watches
      → IsKept (record { cluster = s; shares = set c.shares i t })
  as_many s t counted same e ok =
      reshare s arc.count t counted (same ∙ sym (set-same c.cluster.contexts i arc at'.context))
        (counts ∙ sym e) ok

  module _ (j : ℕ) (w : WatchClones) (here' : get_elem? share.watches j ≡ some w) where
    pub life_sound : IsSound w.life
    life_sound = AllSound-at share.watches j w sound here'

    pub recount : (v : WatchClones) → total (rewatch share j v) + holds w ≡ total share + holds v
    recount v = omega (arith, all_hold-set share.watches j w v here')

    pub resound : (v : WatchClones) → IsSound v.life → AllSound (rewatch share j v).watches
    resound v s = AllSound-set share.watches j v sound s

    pub held : holds w + 0 < suc (total share)
    held = omega (arith, recount (record w { life = freed w.life; owned = false }))

    pub open_while_alive : w.life.alive ≡ true → 0 < total share
    open_while_alive a = let one : one_if w.life.alive ≡ 1 = ap one_if a in omega (arith, one, held)

    pub open_while_owned : w.owned ≡ true → 0 < total share
    open_while_owned a = let one : one_if w.owned ≡ 1 = ap one_if a in omega (arith, one, held)
