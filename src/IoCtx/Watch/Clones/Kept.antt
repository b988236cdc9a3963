-- ===== src/IoCtx/Watch/Clones/Kept.antt =====
-- The counts and the lives are kept by every step.
use librados_rs.Base.{
  ℕ, ◌+◌, ◌-◌, ◌<◌, ◌≡◌, refl, ap, true, false, ◌∷◌, set, get_elem?, some, arith,
}
use librados_rs.Ffi.Memory.{Ptr}
use librados_rs.Ffi.Call.{Call}
use librados_rs.Handles.Ownership
use librados_rs.Handles.Ownership.{
  IoCtxArc, Cluster, created, clone_rados, drop_rados, open_ioctx, clone_ioctx, drop_ioctx,
}
use librados_rs.Handles.Ownership.Laws.{Step-IsCounted, Reach-IsCounted}
use librados_rs.IoCtx.Watch.{DropStep, unwatch, flush, reclaim, drop_program}
use librados_rs.IoCtx.Watch.Lifecycle.{Life, fresh, IsSound, Step-IsSound}
use librados_rs.IoCtx.Watch.Lifecycle
use librados_rs.IoCtx.Watch.Clones
use librados_rs.IoCtx.Watch.Clones.{
  WatchClones, Share, Client, started, At, rewatch, ask_watch, grant_watch, refuse_watch,
  drop_statement, drop_next, drop_fields, freed, IsForeign, IsStatement, Step, Reach,
}
use librados_rs.IoCtx.Watch.Clones.Counts.{one_if, holds, total, drop_arc-contexts}
use librados_rs.IoCtx.Watch.Clones.Shares.{
  IsUse, IsKept, counts, sound, connected, more, fewer, as_many, life_sound, recount, resound,
  logged-IsCounted, open_while_alive,
}

fresh-IsSound : IsSound fresh
unfolding drop_program
fresh-IsSound = ground arith

-- A life in which something can still happen has its state.
pub Step-alive : {l m : Life} → Lifecycle.Step l m → IsSound l → l.alive ≡ true
Step-alive (Lifecycle.dispatch h) s = ground arith
Step-alive (Lifecycle.begin n r q) s = ground arith
Step-alive (Lifecycle.finish h o) s = ground arith
Step-alive (Lifecycle.enter r h o b) s = ground arith
Step-alive (Lifecycle.leave h n e) s = ground arith
Step-alive (Lifecycle.unwatched r h) s = ground arith
Step-alive (Lifecycle.flushed r h q n) s = ground arith
Step-alive (Lifecycle.reclaimed r h) s = ground arith

-- Only the reclaim frees the state.
foreign-alive : {l m : Life} → (e : Lifecycle.Step l m) → IsForeign e → m.alive ≡ l.alive
foreign-alive (Lifecycle.dispatch h) f = refl
foreign-alive (Lifecycle.begin n r q) f = refl
foreign-alive (Lifecycle.finish h o) f = refl
foreign-alive (Lifecycle.enter r h o b) f = refl
foreign-alive (Lifecycle.leave h n e) f = refl
foreign-alive (Lifecycle.unwatched r h) f = absurd f
foreign-alive (Lifecycle.flushed r h q n) f = absurd f
foreign-alive (Lifecycle.reclaimed r h) f = absurd f

module _ (c : Client) (k : IsKept c) (i : ℕ) (arc : IoCtxArc) (share : Share)
    (at' : At c i arc share) (j : ℕ) (w : WatchClones)
    (here' : get_elem? share.watches j ≡ some w) where
  before : IsSound w.life
  before = life_sound c k i arc share at' j w here'

  used :
      (call : Call) (l : Life)
      → IsUse call
      → w.life.alive ≡ true
      → l.alive ≡ true
      → IsSound l
      → IsKept (record {
        cluster = record c.cluster { log = call ∷ c.cluster.log };
        shares = set c.shares i (rewatch share j (record w { life = l }));
      })
  used call l u a b s =
      let v : WatchClones = record w { life = l } in
      let same : holds v ≡ holds w = rw (a, b) in
      let some_left : 0 < total share = open_while_alive c k i arc share at' j w here' a in
      as_many c k i arc share at' (record c.cluster { log = call ∷ c.cluster.log })
        (rewatch share j v)
        (logged-IsCounted c.cluster call u
          (connected c k i arc share at' (omega (arith, counts c k i arc share at'))) k.counted)
        refl (omega (arith, same, recount c k i arc share at' j w here' v))
        (resound c k i arc share at' j w here' v s)

  statement :
      (d : DropStep) (l : Life)
      → (e : Lifecycle.Step w.life l) → IsStatement d e
      → IsKept (drop_next d i arc share j w l c)
  unfolding drop_next drop_statement
  statement unwatch l (Lifecycle.unwatched r h) u =
      let a = Step-alive {l = w.life} (Lifecycle.unwatched r h) before in
      used (Call.unwatch2 arc.ioctx w.handle) l tt a a
        (Step-IsSound {s = w.life} (Lifecycle.unwatched r h) before)
  statement flush l (Lifecycle.flushed r h q n) u =
      let a = Step-alive {l = w.life} (Lifecycle.flushed r h q n) before in
      used (Call.watch_flush c.cluster.handle) l tt a a
        (Step-IsSound {s = w.life} (Lifecycle.flushed r h q n) before)
  statement reclaim l (Lifecycle.reclaimed r h) u =
      let v : WatchClones = record w { life = l } in
      let a = Step-alive {l = w.life} (Lifecycle.reclaimed r h) before in
      let one : one_if w.life.alive ≡ 1 = ap one_if a in
      fewer c k i arc share at' (rewatch share j v)
        (omega (arith, one, recount c k i arc share at' j w here' v))
        (resound c k i arc share at' j w here' v
          (Step-IsSound {s = w.life} (Lifecycle.reclaimed r h) before))
  statement _ l _ u = absurd u

  -- A callback is queued, starts, drops its watch or ends.
  called_back :
      (l : Life)
      → (e : Lifecycle.Step w.life l) → IsForeign e
      → IsKept (record c { shares = set c.shares i (rewatch share j (record w { life = l })) })
  called_back l e f =
      let v : WatchClones = record w { life = l } in
      let same : one_if l.alive ≡ one_if w.life.alive = ap one_if (foreign-alive e f) in
      as_many c k i arc share at' c.cluster (rewatch share j v) k.counted refl
        (omega (arith, same, recount c k i arc share at' j w here' v))
        (resound c k i arc share at' j w here' v (Step-IsSound e before))

  granted_keeps : w.owned ≡ false → w.life.alive ≡ true → IsKept (grant_watch i arc share j w c)
  unfolding grant_watch
  granted_keeps o a =
      let v : WatchClones = record w { owned = true } in
      let zero' : one_if w.owned ≡ 0 = ap one_if o in
      more c k i arc share at' (rewatch share j v)
        (open_while_alive c k i arc share at' j w here' a)
        (omega (arith, zero', recount c k i arc share at' j w here' v))
        (resound c k i arc share at' j w here' v before)

  refused_keeps :
      w.life.alive ≡ true
      → w.life.queued ≡ 0
      → w.life.running ≡ false
      → IsKept (refuse_watch i arc share j w c)
  unfolding refuse_watch
  refused_keeps a q n =
      let v : WatchClones = record w { life = freed w.life } in
      let one : one_if w.life.alive ≡ 1 = ap one_if a in
      fewer c k i arc share at' (rewatch share j v)
        (omega (arith, one, recount c k i arc share at' j w here' v))
        (resound c k i arc share at' j w here' v (ground arith))

  fields_keep : w.owned ≡ true → IsKept (drop_fields i arc share j w c)
  unfolding drop_fields
  fields_keep o =
      let v : WatchClones = record w { owned = false } in
      let one : one_if w.owned ≡ 1 = ap one_if o in
      fewer c k i arc share at' (rewatch share j v)
        (omega (arith, one, recount c k i arc share at' j w here' v))
        (resound c k i arc share at' j w here' v before)

drop_rados-contexts : (s : Cluster) → (drop_rados s).contexts ≡ s.contexts
unfolding drop_rados
drop_rados-contexts s = drop_arc-contexts (record s { clones = s.clones - 1 })

Step-IsKept : {c d : Client} → Step c d → IsKept c → IsKept d
unfolding clone_rados open_ioctx ask_watch
Step-IsKept {c = c} (Clones.clones_rados n h) k = record {
  counted = Step-IsCounted (Ownership.clones_rados n h) k.counted;
  fits = k.fits;
}
Step-IsKept {c = c} (Clones.drops_rados n h) k = record {
  counted = Step-IsCounted (Ownership.drops_rados n h) k.counted;
  fits = rw (drop_rados-contexts c.cluster) k.fits;
}
Step-IsKept {c = c} (Clones.opens n ioctx h) k = record {
  counted = Step-IsCounted (Ownership.opens n ioctx h) k.counted;
  fits = (refl, tt, k.fits);
}
Step-IsKept {c = c} (Clones.clones_ioctx i n arc share at' h) k =
    more c k i arc share at' (record share { users = share.users + 1 }) (omega arith) (omega arith)
      (sound c k i arc share at')
Step-IsKept {c = c} (Clones.drops_ioctx i n arc share at' h) k =
    fewer c k i arc share at' (record share { users = share.users - 1 }) (omega arith)
      (sound c k i arc share at')
Step-IsKept {c = c} (Clones.asks i n arc share handle at' h) k =
    let w : WatchClones = record { handle = handle; life = fresh; owned = false } in
    more c k i arc share at' (record share { watches = w ∷ share.watches }) (omega arith)
      (omega arith) (fresh-IsSound, sound c k i arc share at')
Step-IsKept {c = c} (Clones.granted i j arc share w at' h o a) k =
    granted_keeps c k i arc share at' j w h o a
Step-IsKept {c = c} (Clones.refused i j arc share w at' h o a q n) k =
    refused_keeps c k i arc share at' j w h a q n
Step-IsKept {c = c} (Clones.calls_back i j arc share w l at' h e f) k =
    called_back c k i arc share at' j w h l e f
Step-IsKept {c = c} (Clones.drops_watch d i j arc share w l at' h o e u) k =
    statement c k i arc share at' j w h d l e u
Step-IsKept {c = c} (Clones.drops_fields i j arc share w at' h o left) k =
    fields_keep c k i arc share at' j w h o

pub Reach-IsKept : {handle : Ptr} {c : Client} → Reach (started handle) c → IsKept c
Reach-IsKept Clones.here = record { counted = Reach-IsCounted Ownership.here; fits = tt }
Reach-IsKept (Clones.next r st) = Step-IsKept st (Reach-IsKept r)
