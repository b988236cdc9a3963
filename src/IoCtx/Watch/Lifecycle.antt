-- ===== src/IoCtx/Watch/Lifecycle.antt =====
-- A watch among the callbacks that librados runs: which orders of events are possible while a
-- `Watch` is dropped. What librados does is as src/ioctx.rs cites it: it dispatches only while
-- the watch is registered, its finisher strand runs one callback at a time, and a flush returns
-- once every earlier callback has returned. A drop runs on a thread of the client, or within a
-- callback of the watch itself, which then cannot return before the drop is over.
use librados_rs.Base.{ℕ, suc, ◌+◌, ◌≡◌, ◌⊎◌, Bool, true, false, List, [], ◌∷◌, arith}
use librados_rs.IoCtx.Watch.{DropStep, unwatch, flush, reclaim, drop_program}

-- `left` is what the drop has still to do; `alive` says that the `WatchState` is allocated; `inside`
-- says that the drop runs within the callback that is running.
pub record Life : Type 0 where
  pub registered : Bool
  pub queued : ℕ
  pub running : Bool
  pub alive : Bool
  pub left : List DropStep
  pub inside : Bool

pub data Step (s : Life) : Life → Type 0 where
  -- librados finds the cookie and queues a callback
  dispatch : s.registered ≡ true → Step s (record s { queued = s.queued + 1 })
  -- the strand starts the next callback
  begin :
      (n : ℕ)
      → s.running ≡ false
      → s.queued ≡ suc n
      → Step s (record s { queued = n; running = true })
  -- the callback returns
  finish : s.running ≡ true → s.inside ≡ false → Step s (record s { running = false })
  -- the callback begins to drop its own watch, which nothing else has begun to do
  enter :
      (r : List DropStep)
      → s.running ≡ true
      → s.inside ≡ false
      → s.left ≡ unwatch ∷ r
      → Step s (record s { inside = true })
  -- the callback returns once that drop is over
  leave :
      s.running ≡ true
      → s.inside ≡ true
      → s.left ≡ []
      → Step s (record s { running = false; inside = false })
  -- the statements of the drop
  unwatched :
      (r : List DropStep)
      → s.left ≡ unwatch ∷ r
      → Step s (record s { registered = false; left = r })
  flushed :
      (r : List DropStep)
      → s.left ≡ flush ∷ r
      → s.queued ≡ 0
      → s.running ≡ false
      → Step s (record s { left = r })
  reclaimed :
      (r : List DropStep) → s.left ≡ reclaim ∷ r → Step s (record s { alive = false; left = r })

pub data Reach (s : Life) : Life → Type 0 where
  here : Reach s s
  next : {t u : Life} → Reach s t → Step t u → Reach s u

-- A watch that `IoCtx::watch` has just returned.
abbrev pub fresh : Life
fresh = record {
  registered = true;
  queued = 0;
  running = false;
  alive = true;
  left = drop_program;
  inside = false;
}

-- No callback is queued or running.
abbrev pub IsQuiet : Life → Type 0
IsQuiet s = (s.queued ≡ 0) × (s.running ≡ false) × (s.registered ≡ false)

-- What holds, by how far the drop has come.
abbrev pub IsSound : Life → Type 0
IsSound s =
    ((s.left ≡ unwatch ∷ flush ∷ reclaim ∷ []) × (s.alive ≡ true) × (s.registered ≡ true))
    ⊎ ((s.left ≡ flush ∷ reclaim ∷ []) × (s.alive ≡ true) × (s.registered ≡ false))
    ⊎ ((s.left ≡ reclaim ∷ []) × (s.alive ≡ true) × IsQuiet s)
    ⊎ ((s.left ≡ []) × (s.alive ≡ false) × IsQuiet s)

pub Step-IsSound : {s t : Life} → Step s t → IsSound s → IsSound t
Step-IsSound (dispatch h) i = ground arith
Step-IsSound (begin n r q) i = ground arith
Step-IsSound (finish h o) i = ground arith
Step-IsSound (enter r h o b) i = ground arith
Step-IsSound (leave h n e) i = ground arith
Step-IsSound (unwatched r h) i = ground arith
Step-IsSound (flushed r h q n) i = ground arith
Step-IsSound (reclaimed r h) i = ground arith

pub Reach-IsSound : {t : Life} → Reach fresh t → IsSound t
unfolding drop_program
Reach-IsSound here = ground arith
Reach-IsSound (next r st) = Step-IsSound st (Reach-IsSound r)

-- In every order of events from a watch that was just registered: once its state has been freed,
-- no callback runs or waits, and none can be dispatched.
pub callbacks_see_live_state :
    {t : Life}
    → Reach fresh t
    → t.alive ≡ false
    → (t.running ≡ false) × (t.queued ≡ 0) × (t.registered ≡ false)
callbacks_see_live_state r dead = ground (arith, Reach-IsSound r)
