-- ===== src/IoCtx/Watch/Abi.antt =====
-- The calls of watches (src/ioctx.rs) keep to their declarations: registering one, dropping one, and
-- acknowledging a notification.
use librados_rs.Base.{
  ℕ, ◌<◌, ◌^◌, ◌≡◌, refl, ◌≤◌, [], ◌∷◌, Option, none, some, length, ◌==◌, Bool-cases, inl, inr,
  arith,
}
use librados_rs.Error.{Bytes, check_err}
use librados_rs.Handles.{IoCtx}
use librados_rs.Ffi.Call
use librados_rs.Ffi.Call.{WatchState, Cell}
use librados_rs.Ffi.World.{Platform, World, Io, tell, ◌>>=◌}
use librados_rs.Ffi.Abi.Calls.{AllSound}
use librados_rs.Ffi.Abi.Keeps.{Clean, clean, by_string, by_outcome, by_run, failed-Clean}
use librados_rs.IoCtx.Watch
use librados_rs.IoCtx.Watch.{Watch, Notification, state_at, watch_state_of, reply_len, reply_ptr}
use librados_rs.IoCtx.Notify.{copy_payload}
use librados_rs.Text.Laws.{NoNul}
use librados_rs.Ffi.Memory.{Ptr}
use librados_rs.Ffi.Abi.{Fits, const_char}
use librados_rs.Ffi.Abi.Calls.{block_or_null}

pub watch-Clean :
    (p : Platform) (io : IoCtx) (oid : Bytes) (w : World)
    → AllSound w.log
    → Clean (Watch.watch p io oid w)
unfolding Watch.watch
watch-Clean p io oid w h = by_string oid _ w h λ o.
    let c = Call.watch3 io.ioctx oid 0 w.next in
    let h' : AllSound (c ∷ w.log) = ((tt, (o, (tt, (tt, (tt, (omega arith, (tt, tt))))))), h) in
    by_run _ _
      (failed-Clean (check_err p.overflow_checks (p.librados w.log c).0, _) _ (clean h') λ w' k. k)
      λ u w' e k. clean k

pub drop_watch-Clean :
    (watch : Watch) (w : World)
    → watch.handle < 2 ^ 64
    → AllSound w.log
    → AllSound (Watch.drop_watch watch w).log
unfolding Watch.drop_watch
drop_watch-Clean watch w small h = ((tt, tt), ((tt, (small, tt)), h))

-- The state of a watch is read from its box.
by_state :
    {A : Type 0} (c : Option Cell) (arg : Ptr) (k : WatchState → Io A) (w : World)
    → w.mem arg ≡ c
    → AllSound w.log
    → ((s : WatchState) → c ≡ some (Cell.watch_state s) → Clean (k s w))
    → Clean ((state_at arg >>= k) w)
unfolding state_at
by_state none arg k w e h go = rw e (clean h)
by_state (some (Cell.watch_state s)) arg k w e h go = rw e (go s refl)
by_state (some (Cell.int _)) arg k w e h go = rw e (clean h)
by_state (some (Cell.data_step _)) arg k w e h go = rw e (clean h)
by_state (some (Cell.vals_step _)) arg k w e h go = rw e (clean h)
by_state (some (Cell.keys_step _)) arg k w e h go = rw e (clean h)
by_state (some Cell.unit) arg k w e h go = rw e (clean h)

reply_len_bounds : (reply : Bytes) → (reply_len reply < 2 ^ 31) × (reply_len reply ≤ length reply)
unfolding reply_len
reply_len_bounds reply = ground arith

reply_ptr-Fits :
    (reply : Bytes) → Fits const_char (block_or_null (reply_ptr reply) (reply_len reply))
unfolding reply_ptr
reply_ptr-Fits reply =
    let (_, b) = reply_len_bounds reply in
    elim (Bool-cases (reply_len reply == 0)) [ inl e ↦ rw e tt | inr e ↦ rw e b ]

-- Where the closure keeps to the declarations, and leaves the box of the watch with a name free of NUL
-- bytes.
pub notified-Clean :
    (on_notify : Notification → World → Option Bytes × World) (arg : Ptr)
    (notify_id handle notifier_id : ℕ) (payload : Option Bytes) (payload_len : ℕ) (w : World)
    → notify_id < 2 ^ 64
    → handle < 2 ^ 64
    → ((n : Notification) → AllSound (on_notify n w).1.log)
    → ((n : Notification) (s : WatchState)
        → (on_notify n w).1.mem arg ≡ some (Cell.watch_state s)
        → NoNul s.oid)
    → AllSound w.log
    → Clean (
        Watch.watch_notify_trampoline on_notify arg notify_id handle notifier_id payload payload_len
          w)
unfolding Watch.watch_notify_trampoline
notified-Clean on_notify arg id handle notifier payload len w i j keeps named h =
    by_state (w.mem arg) arg _ w refl h λ s e.
      by_outcome (copy_payload payload len) _ w h λ copied e'.
        let note : Notification = record {
          notify_id = id;
          notifier_id = notifier;
          payload = copied;
        } in
        let ack : Bytes → WatchState → Io (Unit {0}) = λ reply state.
          tell
            (Call.notify_ack state.ioctx state.oid id handle (reply_ptr reply) (reply_len reply)) in
        by_outcome (Watch.catch_unwind (on_notify note) [] w).0
          (λ reply. state_at arg >>= ack reply) (on_notify note w).1 (keeps note)
          λ reply e₁.
            by_state ((on_notify note w).1.mem arg) arg (ack reply) (on_notify note w).1 refl
              (keeps note)
              λ state e₂.
                let (small, _) = reply_len_bounds reply in
                clean (
                  (tt, (named note state e₂, (i, (j, (reply_ptr-Fits reply, (small, tt)))))),
                  keeps note,
                )
