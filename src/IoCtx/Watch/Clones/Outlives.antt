-- ===== src/IoCtx/Watch/Clones/Outlives.antt =====
-- A context outlives its watches.
use librados_rs.Base.{
  ℕ, zero, suc, ◌<◌, ◌≡◌, inl, inr, refl, false, Bool-cases, List, [], ◌∷◌, get_elem?, some, arith,
}
use librados_rs.Ffi.Memory.{Ptr}
use librados_rs.Handles.Ownership.{IoCtxArc}
use librados_rs.Handles.Ownership.Laws.{shutdowns}
use librados_rs.IoCtx.Watch.Lifecycle.{Life, IsSound}
use librados_rs.IoCtx.Watch.Lifecycle
use librados_rs.IoCtx.Watch.Clones.{WatchClones, Share, Client, started, At, Reach}
use librados_rs.IoCtx.Watch.Clones.Counts.{Fits, total}
use librados_rs.IoCtx.Watch.Clones.Shares.{
  IsKept, counts, connected, life_sound, open_while_alive, open_while_owned,
}
use librados_rs.IoCtx.Watch.Clones.Kept.{Step-alive, Reach-IsKept}

arc_of :
    (as' : List IoCtxArc) (ss : List Share) (i : ℕ) (s : Share)
    → Fits as' ss
    → get_elem? ss i ≡ some s
    → (a : IoCtxArc) × (get_elem? as' i ≡ some a)
arc_of [] [] i s f h = cc
arc_of [] (_ ∷ ss) i s f h = absurd f
arc_of (_ ∷ as') [] i s f h = absurd f
arc_of (a ∷ as') (_ ∷ ss) zero s f h = (a, refl)
arc_of (_ ∷ as') (_ ∷ ss) (suc i) s f h = arc_of as' ss i s f.2 h

module _ {handle : Ptr} {c : Client} (r : Reach (started handle) c) (i j : ℕ) (share : Share)
    (w : WatchClones) (shared : get_elem? c.shares i ≡ some share)
    (watches : get_elem? share.watches j ≡ some w) where
  kept : IsKept c
  kept = Reach-IsKept r

  abbrev context : IoCtxArc
  context = (arc_of c.cluster.contexts c.shares i share kept.fits shared).0

  here' : At c i context share
  here' = record {
    context = (arc_of c.cluster.contexts c.shares i share kept.fits shared).1;
    shared = shared;
  }

  -- The context of the watch is open, and the cluster has not been shut down.
  abbrev pub IsOpen : Type 0
  IsOpen =
      (arc : IoCtxArc) × (get_elem? c.cluster.contexts i ≡ some arc)
      × (0 < arc.count)
      × (shutdowns c.cluster.log ≡ 0)

  open_where_held : 0 < total share → IsOpen
  open_where_held lt =
      let counted : 0 < context.count = omega (arith, counts c kept i context share here') in
      let up : 0 < c.cluster.count = connected c kept i context share here' counted in
      (context, here'.context, counted, omega (arith, kept.counted.shut))

  sound_life : IsSound w.life
  sound_life = life_sound c kept i context share here' j w watches

  -- However a client clones and drops its handles and contexts, makes watches and drops them, and
  -- librados calls back: at any event of the life of a watch, that is where a callback is queued,
  -- starts or ends, and at each statement of its destructor, the context of the watch has not been
  -- destroyed and the cluster has not been shut down.
  pub events_find_open : {l : Life} → Lifecycle.Step w.life l → IsOpen
  events_find_open e =
      open_where_held
        (open_while_alive c kept i context share here' j w watches (Step-alive e sound_life))

  -- However a client clones and drops its handles and contexts, makes watches and drops them, and
  -- librados calls back: once the cluster has been shut down, every watch that was asked for has
  -- been dropped, its state freed, and no callback of it runs, waits or can be queued.
  pub shutdown_ends_watches :
      0 < shutdowns c.cluster.log
      → (w.owned ≡ false)
        × (w.life.alive ≡ false)
        × (w.life.running ≡ false)
        × (w.life.queued ≡ 0)
        × (w.life.registered ≡ false)
  shutdown_ends_watches down = elim (Bool-cases w.owned) [
    | inl o ↦
        let (_, _, _, up) =
          open_where_held (open_while_owned c kept i context share here' j w watches o) in
        absurd (omega arith)
    | inr o ↦ elim (Bool-cases w.life.alive) [
      | inl a ↦
          let (_, _, _, up) =
            open_where_held (open_while_alive c kept i context share here' j w watches a) in
          absurd (omega arith)
      | inr a ↦ ground (arith, sound_life)
    ]
  ]
