-- ===== src/IoCtx/Watch.antt =====
-- src/ioctx.rs: registering a watch, its destructor, and the trampolines that librados calls.
-- The two closures of a watch are parameters of the trampolines; a closure that panics gives
-- `none`. What it captures is part of the world that it returns.
pub mod Laws
pub mod Abi
pub mod Clones
pub mod Lifecycle
pub mod Progress
use librados_rs.Base.{
  ℕ, ◌^◌, ◌≡◌, ℤ, Option, none, some, List, [], ◌∷◌, length, ltb, ◌==◌, if◌then◌else◌,
}
use librados_rs.Error.{Bytes, Outcome, ok, err, fault}
use librados_rs.Text.{cstring}
use librados_rs.Handles.{IoCtx}
use librados_rs.IoCtx.Notify.{copy_payload}
use librados_rs.Ffi.Memory.{Ptr}
use librados_rs.Ffi.Call
use librados_rs.Ffi.Call.{WatchState, Cell}
use librados_rs.Ffi.World.{
  Platform, World, Io, pure, lift, tell, logged, alloc, release, load, ◌>>=◌, ◌>>◌, call, check,
  on_error,
}

pub record Notification : Type 0 where
  pub notify_id : ℕ
  pub notifier_id : ℕ
  pub payload : Bytes

pub record Watch : Type 0 where
  pub handle : ℕ
  pub io : IoCtx
  pub state : Ptr

-- The statements of `impl Drop for Watch`.
pub data DropStep : Type 0 where
  unwatch flush reclaim : DropStep

-- `impl Drop for Watch`, in its order.
unfoldable pub drop_program : List DropStep
drop_program = unwatch ∷ flush ∷ reclaim ∷ []

-- One statement: `rados_unwatch2`, `rados_watch_flush`, and the drop of the box.
unfoldable pub drop_step : DropStep → Watch → World → World
drop_step unwatch watch w = logged (Call.unwatch2 watch.io.ioctx watch.handle) w
drop_step flush watch w = logged (Call.watch_flush watch.io.cluster) w
drop_step reclaim watch w = release watch.state w

unfoldable pub run_drop : List DropStep → Watch → World → World
unfolding drop_step
run_drop [] watch w = w
run_drop (s ∷ steps) watch w = run_drop steps watch (drop_step s watch w)

unfoldable pub drop_watch : Watch → World → World
unfolding run_drop drop_program
drop_watch watch w = run_drop drop_program watch w

-- `&mut *arg.cast::<WatchState>()`
abbrev pub watch_state_of : Cell → Outcome WatchState
watch_state_of (Cell.watch_state s) = ok s
watch_state_of _ = fault

unfoldable pub state_at : Ptr → Io WatchState
state_at arg = do c ← load arg; lift (watch_state_of c)

-- A call of a closure under `catch_unwind`.
abbrev pub catch_unwind : {A : Type 0} → (World → Option A × World) → A → Io A
catch_unwind f d w = (elim (f w).0 [ none ↦ ok d | some a ↦ ok a ], (f w).1)

-- `c_int::try_from(reply.len()).unwrap_or(0)`
unfoldable pub reply_len : Bytes → ℕ
reply_len reply = if ltb (length reply) (2 ^ 31) then length reply else 0

-- `reply_ptr`
unfoldable pub reply_ptr : Bytes → Option Bytes
unfolding reply_len
reply_ptr reply = if reply_len reply == 0 then none else some reply

unfoldable pub watch_notify_trampoline :
    (on_notify : Notification → World → Option Bytes × World)
    → (arg : Ptr) → (notify_id handle notifier_id : ℕ) → (payload : Option Bytes)
    → (payload_len : ℕ) → Io (Unit {0})
watch_notify_trampoline on_notify arg notify_id handle notifier_id payload payload_len = do
  _ ← state_at arg
  copied ← lift (copy_payload payload payload_len)
  reply ←
      catch_unwind
        (on_notify (record { notify_id = notify_id; notifier_id = notifier_id; payload = copied }))
        []
  state ← state_at arg
  tell (Call.notify_ack state.ioctx state.oid notify_id handle (reply_ptr reply) (reply_len reply))

unfoldable pub watch_error_trampoline :
    (on_error : ℤ → World → Option (Unit {0}) × World) → (arg : Ptr) → (code : ℤ) → Io (Unit {0})
watch_error_trampoline on_error arg code = do _ ← state_at arg; catch_unwind (on_error code) tt

module _ (p : Platform) where
  unfoldable pub watch : IoCtx → (oid : Bytes) → Io Watch
  watch io oid = do
    c_oid ← lift (cstring oid)
    state ←
        alloc (Cell.watch_state (record { ioctx = io.ioctx; cluster = io.cluster; oid = c_oid }))
    (ret, handle) ← call p (Call.watch3 io.ioctx c_oid 0 state)
    on_error (check p ret) (release state)
    pure (record { handle = handle; io = io; state = state })
