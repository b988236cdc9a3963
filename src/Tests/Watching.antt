-- ===== src/Tests/Watching.antt =====
-- A watch that is all that is left of a client's handles.
use librados_rs.Base.{ℕ, ◌≡◌, refl, true, false, List, [], ◌∷◌, arith}
use librados_rs.Ffi.Call.{Call}
use librados_rs.Handles.Ownership.{
  IoCtxArc, open_ioctx, clone_ioctx, drop_ioctx, drop_rados, drop_arc,
}
use librados_rs.IoCtx.Watch.{DropStep, unwatch, flush, reclaim, drop_program}
use librados_rs.IoCtx.Watch.Lifecycle.{Life, fresh}
use librados_rs.IoCtx.Watch.Lifecycle
use librados_rs.IoCtx.Watch.Clones
use librados_rs.IoCtx.Watch.Clones.{
  WatchClones, Share, Client, started, At, Reach, ask_watch, grant_watch, drop_next, drop_statement,
  drop_fields,
}
use librados_rs.IoCtx.Watch.Clones.Outlives.{IsOpen, events_find_open, shutdown_ends_watches}

-- The context 2 with so many clones.
abbrev arc : ℕ → IoCtxArc
arc n = record { ioctx = 2; count = n }

-- The watch with what is left of its drop.
abbrev dropping : List DropStep → Life
dropping steps = record {
  registered = false;
  queued = 0;
  running = false;
  alive = true;
  left = steps;
  inside = false;
}

abbrev watch_in : Life → WatchClones
watch_in l = record { handle = 77; life = l; owned = true }

abbrev asked : WatchClones
asked = record { handle = 77; life = fresh; owned = false }

abbrev share : ℕ → List WatchClones → Share
share users watches = record { users = users; watches = watches }

-- The client holds one clone, and nothing is watched; then its watch is all that there is.
abbrev client : (count clones arcs users : ℕ) → List WatchClones → List Call → Client
client count clones arcs users watches log = record {
  cluster = record {
    handle = 1;
    count = count;
    clones = clones;
    contexts = arc arcs ∷ [];
    log = log;
  };
  shares = share users watches ∷ [];
}

opened : Reach (started 1) (client 2 1 1 1 [] [])
unfolding open_ioctx
opened = Clones.next Clones.here (Clones.opens 0 2 refl)

abbrev alone : Client
alone = client 1 0 2 0 (watch_in fresh ∷ []) []

watched : Reach (started 1) alone
unfolding ask_watch grant_watch clone_ioctx drop_ioctx drop_rados drop_arc
watched =
    let here' : At (client 2 1 1 1 [] []) 0 (arc 1) (share 1 []) = record {
      context = refl;
      shared = refl;
    } in
    let a : Reach (started 1) (client 2 1 2 1 (asked ∷ []) []) =
      Clones.next opened (Clones.asks 0 0 (arc 1) (share 1 []) 77 here' refl) in
    let b : Reach (started 1) (client 2 1 3 1 (watch_in fresh ∷ []) []) = Clones.next a (
      Clones.granted 0 0 (arc 2) (share 1 (asked ∷ [])) asked
        (record { context = refl; shared = refl }) refl refl refl) in
    let d : Reach (started 1) (client 2 1 2 0 (watch_in fresh ∷ []) []) = Clones.next b (
      Clones.drops_ioctx 0 0 (arc 3) (share 1 (watch_in fresh ∷ []))
        (record { context = refl; shared = refl }) refl) in
    Clones.next d (Clones.drops_rados 0 refl)

events_find_open_example :
    IsOpen watched 0 0 (share 0 (watch_in fresh ∷ [])) (watch_in fresh) refl refl
unfolding drop_program
events_find_open_example =
    events_find_open watched 0 0 (share 0 (watch_in fresh ∷ [])) (watch_in fresh) refl refl
      (Lifecycle.unwatched (flush ∷ reclaim ∷ []) refl)

abbrev gone : WatchClones
gone = record {
  handle = 77;
  life = record {
    registered = false;
    queued = 0;
    running = false;
    alive = false;
    left = [];
    inside = false;
  };
  owned = false;
}

abbrev calls : List Call
calls = Call.watch_flush 1 ∷ Call.unwatch2 2 77 ∷ []

-- Its state is freed, and its fields are not dropped yet.
abbrev hollow : WatchClones
hollow = record gone { owned = true }

hollowed : Reach (started 1) (client 1 0 1 0 (hollow ∷ []) calls)
unfolding drop_program drop_next drop_statement drop_ioctx
hollowed =
    let a : Reach (started 1) (
        client 1 0 2 0 (watch_in (dropping (flush ∷ reclaim ∷ [])) ∷ [])
          (Call.unwatch2 2 77 ∷ [])) =
      Clones.next watched (
        Clones.drops_watch unwatch 0 0 (arc 2) (share 0 (watch_in fresh ∷ [])) (watch_in fresh)
          (dropping (flush ∷ reclaim ∷ [])) (record { context = refl; shared = refl }) refl refl
          (Lifecycle.unwatched (flush ∷ reclaim ∷ []) refl) tt) in
    let w : WatchClones = watch_in (dropping (flush ∷ reclaim ∷ [])) in
    let b : Reach (started 1) (client 1 0 2 0 (watch_in (dropping (reclaim ∷ [])) ∷ []) calls) =
      Clones.next a (
        Clones.drops_watch flush 0 0 (arc 2) (share 0 (w ∷ [])) w (dropping (reclaim ∷ []))
          (record { context = refl; shared = refl }) refl refl
          (Lifecycle.flushed (reclaim ∷ []) refl refl refl) tt) in
    let v : WatchClones = watch_in (dropping (reclaim ∷ [])) in
    Clones.next b (
      Clones.drops_watch reclaim 0 0 (arc 2) (share 0 (v ∷ [])) v hollow.life
        (record { context = refl; shared = refl }) refl refl (Lifecycle.reclaimed [] refl) tt)

ended :
    Reach (started 1) (client 0 0 0 0 (gone ∷ []) (Call.shutdown 1 ∷ Call.ioctx_destroy 2 ∷ calls))
unfolding drop_fields drop_ioctx drop_arc
ended = Clones.next hollowed (
    Clones.drops_fields 0 0 (arc 1) (share 0 (hollow ∷ [])) hollow
      (record { context = refl; shared = refl }) refl refl refl)

shutdown_ends_watches_example :
    (gone.owned ≡ false)
    × (gone.life.alive ≡ false)
    × (gone.life.running ≡ false)
    × (gone.life.queued ≡ 0)
    × (gone.life.registered ≡ false)
shutdown_ends_watches_example =
    shutdown_ends_watches ended 0 0 (share 0 (gone ∷ [])) gone refl refl (ground arith)
