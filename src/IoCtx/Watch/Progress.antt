-- ===== src/IoCtx/Watch/Progress.antt =====
-- A watch that is dropped on a thread of the client goes away in every order of events: nothing that
-- the drop waits for can be put off for ever. One that is dropped within its own callback never
-- does.
use librados_rs.Base.{ℕ, ◌+◌, ◌*◌, ◌≡◌, Bool, true, false, [], length, arith}
use librados_rs.IoCtx.Watch.Lifecycle
use librados_rs.IoCtx.Watch.Lifecycle.{Life, Step, Reach, fresh, IsSound, Reach-IsSound}

-- Every run from `s` comes to a state with `P`: some step is possible until then, and whichever is
-- taken, the same holds of the state after it.
pub data Inevitably (P : Life → Type 0) : Life → Type 0 where
  now : {s : Life} → P s → Inevitably P s
  later :
      {s : Life} → (u : Life) → Step s u → ((t : Life) → Step s t → Inevitably P t) → Inevitably P s

-- The drop has run to its end, and the state is freed.
abbrev pub IsDropped : Life → Type 0
IsDropped s = (s.left ≡ []) × (s.alive ≡ false) × (s.queued ≡ 0) × (s.running ≡ false)

abbrev busy : Bool → ℕ
busy true = 1
busy false = 0

-- What is still to be done once nothing more is dispatched.
abbrev work : Life → ℕ
work s = s.queued * 2 + busy s.running + length s.left

-- The drop has unregistered the watch, and does not run within its callback.
abbrev pub IsOutside : Life → Type 0
IsOutside s = (s.registered ≡ false) × (s.inside ≡ false)

-- While a drop is within a callback, the callback runs and the state is allocated.
abbrev IsHeld : Life → Type 0
IsHeld s = s.inside ≡ true → (s.running ≡ true) × (s.alive ≡ true)

Step-IsHeld : {s t : Life} → Step s t → IsSound s → IsHeld s → IsHeld t
Step-IsHeld (Lifecycle.dispatch h) i k = k
Step-IsHeld (Lifecycle.begin n h q) i k = λ e. ground (arith, k e)
Step-IsHeld (Lifecycle.finish h n) i k = λ e. ground arith
Step-IsHeld (Lifecycle.enter l h n b) i k = λ e. ground arith
Step-IsHeld (Lifecycle.leave h n e) i k = λ e'. ground arith
Step-IsHeld (Lifecycle.unwatched l h) i k = k
Step-IsHeld (Lifecycle.flushed l h q n) i k = λ e. ground (arith, k e)
Step-IsHeld (Lifecycle.reclaimed l h) i k = λ e. ground (arith, k e)

Reach-IsHeld : {t : Life} → Reach fresh t → IsHeld t
Reach-IsHeld Lifecycle.here = λ e. ground arith
Reach-IsHeld (Lifecycle.next r st) = Step-IsHeld st (Reach-IsSound r) (Reach-IsHeld r)

-- Nothing can happen.
abbrev pub IsStuck : Life → Type 0
IsStuck s = (t : Life) → ¬ Step s t

held-IsStuck :
    {s t : Life} → Step s t → IsSound s → IsHeld s → s.registered ≡ false → s.inside ≡ true → ⊥
held-IsStuck (Lifecycle.dispatch h) i k o e = ground arith
held-IsStuck (Lifecycle.begin n h q) i k o e = ground (arith, k e)
held-IsStuck (Lifecycle.finish h n) i k o e = ground arith
held-IsStuck (Lifecycle.enter l h n b) i k o e = ground arith
held-IsStuck (Lifecycle.leave h n b) i k o e = ground (arith, k e)
held-IsStuck (Lifecycle.unwatched l h) i k o e = ground arith
held-IsStuck (Lifecycle.flushed l h q n) i k o e = ground (arith, k e)
held-IsStuck (Lifecycle.reclaimed l h) i k o e = ground (arith, k e)

-- In every order of events: wherever a drop runs within a callback of its own watch, that callback
-- has not returned and the state is still allocated. Once `rados_unwatch2` has returned in the
-- drop, nothing more can happen: the drop waits for the callback, and the callback for the drop.
pub drop_in_callback_deadlocks :
    {t : Life}
    → Reach fresh t
    → t.inside ≡ true
    → (t.running ≡ true) × (t.alive ≡ true) × (t.registered ≡ false → IsStuck t)
drop_in_callback_deadlocks r e =
    let held = Reach-IsHeld r in
    ((held e).0, (held e).1, λ o u st. held-IsStuck st (Reach-IsSound r) held o e)
