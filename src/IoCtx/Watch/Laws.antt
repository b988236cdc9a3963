-- ===== src/IoCtx/Watch/Laws.antt =====
-- Registering a watch, and answering its notifications.
use librados_rs.Base.{
  ℕ, suc, ◌<◌, ◌^◌, ◌≡◌, refl, ℤ, pos, negsuc, [], ◌∷◌, Option, none, some, length, arith, ==_refl,
  ltb, inl, inr, ◌+◌, if◌then◌else◌,
}
use librados_rs.Error.{Bytes, ok, err, of_errno}
use librados_rs.Error.Laws.{check_err-negsuc, check_err-pos, IsCode, judged}
use librados_rs.Text.Laws.{NoNul, cstring-NoNul}
use librados_rs.Handles.{IoCtx}
use librados_rs.Ffi.Memory.{Ptr}
use librados_rs.Ffi.Call.{Call, Cell, WatchState}
use librados_rs.Ffi.World.{Platform, World, logged, release, poke}
use librados_rs.IoCtx.Notify.{copy_payload}
use librados_rs.IoCtx.Watch.{
  Notification, Watch, watch, watch_notify_trampoline, reply_len, reply_ptr, state_at,
}

-- The state that is boxed for a watch.
abbrev pub state_of : IoCtx → (oid : Bytes) → WatchState
state_of io oid = record { ioctx = io.ioctx; cluster = io.cluster; oid = oid }

-- The call that registers the watch, with the state at address `a`.
abbrev pub registers : IoCtx → (oid : Bytes) → (a : Ptr) → Call
registers io oid a = Call.watch3 io.ioctx oid 0 a

-- What a return code leaves of a box that librados was given.
abbrev pub left_at : ℤ → Cell → Option Cell
left_at (pos _) c = some c
left_at (negsuc _) c = none

module _ (p : Platform) (io : IoCtx) (oid : Bytes) (w : World) (no_nul : NoNul oid) where
  abbrev pub watch_reply : ℤ × ℕ
  watch_reply = p.librados w.log (registers io oid w.next)

  -- The world in which librados has the state.
  abbrev watched : World
  watched = record {
    log = registers io oid w.next ∷ w.log;
    next = w.next + 1;
    mem = poke w.mem w.next (some (Cell.watch_state (state_of io oid)));
  }

  abbrev watching : Watch
  watching = record { handle = watch_reply.1; io = io; state = w.next }

  registered : (k : ℕ) → watch_reply.0 ≡ pos k → watch p io oid w ≡ (ok watching, watched)
  unfolding watch
  registered k e = rw (cstring-NoNul oid no_nul, e, check_err-pos p.overflow_checks k)

  refused :
      (e : ℕ)
      → suc e < 2 ^ 31
      → watch_reply.0 ≡ negsuc e
      → watch p io oid w ≡ (err (of_errno (pos (suc e))), release w.next watched)
  unfolding watch
  refused e small h = rw (cstring-NoNul oid no_nul, h, check_err-negsuc p.overflow_checks e small)

  -- With an object name free of NUL bytes, librados is asked once, with the address of the boxed
  -- state. Where it registers the watch, the watch owns that state, which is alive; where it returns
  -- a negated errno, the outcome is its error and the state is freed.
  pub watch_lem :
      IsCode watch_reply.0
      → let (r, w') = watch p io oid w in
        (r ≡ judged watch_reply.0 (ok watching))
        × (w'.mem w.next ≡ left_at watch_reply.0 (Cell.watch_state (state_of io oid)))
        × (w'.log ≡ registers io oid w.next ∷ w.log)
  watch_lem (inl (k, e)) = rw (registered k e, e, ==_refl w.next) (refl, refl, refl)
  watch_lem (inr (e, h, small)) = rw (refused e small h, h, ==_refl w.next) (refl, refl, refl)

-- The pointer and the length of the ack for what a callback returned: nothing where it panicked,
-- and nothing for a reply that is empty or too long for a C int.
abbrev pub acked : Option Bytes → Option Bytes × ℕ
acked none = (none, 0)
acked (some []) = (none, 0)
acked (some (b ∷ r)) =
    if ltb (length (b ∷ r)) (2 ^ 31) then (some (b ∷ r), length (b ∷ r)) else (none, 0)

-- What `catch_unwind(...).unwrap_or_default()` makes of it.
abbrev answer : Option Bytes → Bytes
answer none = []
answer (some r) = r

acked-answer : (out : Option Bytes) → acked out ≡ (reply_ptr (answer out), reply_len (answer out))
unfolding reply_ptr
acked-answer none = refl
acked-answer (some []) = refl
acked-answer (some (b ∷ r)) = ground arith

caught : (out : Option Bytes) → (elim out [ none ↦ ok [] | some a ↦ ok a ]) ≡ ok (answer out)
caught none = refl
caught (some r) = refl

state_at_lem :
    (arg : Ptr) (s : WatchState) (w : World)
    → w.mem arg ≡ some (Cell.watch_state s)
    → state_at arg w ≡ (ok s, w)
unfolding state_at
state_at_lem arg s w h = rw h

module _ (on_notify : Notification → World → Option Bytes × World) (arg : Ptr)
    (notify_id handle notifier_id : ℕ) (payload : Option Bytes) (len : ℕ) (w : World) where
  abbrev delivered : Bytes → Notification
  delivered b = record { notify_id = notify_id; notifier_id = notifier_id; payload = b }

  -- Where the payload is readable and the state is alive before and after the callback: the
  -- notification is acked exactly once, for its object and its id, with the bytes that the
  -- callback returned where their number fits a C int, and with an empty reply where it does not
  -- or the callback panicked.
  pub trampoline_acks :
      (b : Bytes) (s s' : WatchState)
      → copy_payload payload len ≡ ok b
      → w.mem arg ≡ some (Cell.watch_state s)
      → (on_notify (delivered b) w).1.mem arg ≡ some (Cell.watch_state s')
      → let (out, w') = on_notify (delivered b) w in
        watch_notify_trampoline on_notify arg notify_id handle notifier_id payload len w ≡ (
          ok tt,
          logged (Call.notify_ack s'.ioctx s'.oid notify_id handle (acked out).0 (acked out).1) w',
        )
  unfolding watch_notify_trampoline
  trampoline_acks b s s' copied before after =
      let (out, w') = on_notify (delivered b) w in
      rw (state_at_lem arg s w before, copied, caught, state_at_lem arg s' w' after, acked-answer)
