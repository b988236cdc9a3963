-- ===== src/Tests/Notifying.antt =====
-- Watches and notifications.
use librados_rs.Base.{
  ℕ, ◌*◌, ◌+◌, ◌≤◌, ◌<◌, ◌^◌, ◌≡◌, ◌↔◌, refl, false, pos, inl, inr, [], ◌∷◌, Option, some, arith,
}
use librados_rs.Error.{Bytes, ok, err, not_found, of_errno, neg_checked, check_err}
use librados_rs.Text.{cstring, nul_position}
use librados_rs.Handles.{Duration}
use librados_rs.Ffi.Call.{Call, Cell}
use librados_rs.Ffi.World.{World, logged, poke}
use librados_rs.IoCtx.Notify.{
  copy_payload, notify, notify_failed, decode_notify_response, as_millis, timeout_seconds,
  c_int_or_overflow,
}
use librados_rs.IoCtx.Notify.Laws.{
  IsSettled, sent, frees, last_call, notify_releases_reply, notify_outcome,
}
use librados_rs.IoCtx.Notify.Delivery.{notify_lem}
use librados_rs.IoCtx.Notify.Timeout.{timeout_seconds_bounds, timeout_seconds-zero_iff}
use librados_rs.IoCtx.Locks.{timeval_of}
use librados_rs.IoCtx.Locks.Expiry.{timeval_of_bounds}
use librados_rs.Ffi.Memory.{Timeval}
use librados_rs.IoCtx.Watch.{Notification, drop_program, watch, watch_notify_trampoline}
use librados_rs.IoCtx.Watch.Laws.{registers, state_of, watch_lem, trampoline_acks}
use librados_rs.IoCtx.Watch.Lifecycle
use librados_rs.IoCtx.Watch.Lifecycle.{Life, Step, Reach, fresh, callbacks_see_live_state}
use librados_rs.Tests.Cluster.{obj, one_ack, rbd, serving, refusing, io, bare, obj-NoNul}

-- A second and a half.
abbrev some_time : Duration
some_time = record { secs = 1; nanos = 500000000 }

rounds_up : timeout_seconds some_time ≡ ok 2
unfolding timeout_seconds
rounds_up = refl

fits_int : c_int_or_overflow 3 ≡ ok 3
unfolding c_int_or_overflow
fits_int = refl

timeout_seconds_bounds_example :
    (as_millis some_time ≤ 2000) × (2000 < as_millis some_time + 1000) × (2000 < 2 ^ 64)
timeout_seconds_bounds_example = timeout_seconds_bounds some_time 2 rounds_up

-- Half a millisecond.
abbrev brief : Duration
brief = record { secs = 0; nanos = 500000 }

timeout_seconds-zero_iff_example :
    (timeout_seconds brief ≡ ok 0) ↔ ((brief.secs ≡ 0) × (brief.nanos < 1000000))
timeout_seconds-zero_iff_example = timeout_seconds-zero_iff brief

notify_settles : IsSettled (notify serving io obj rbd some_time bare).0
unfolding notify cstring nul_position timeout_seconds c_int_or_overflow notify_failed neg_checked
    check_err decode_notify_response
notify_settles = tt

notify_releases_reply_example :
    let w' = (notify serving io obj rbd some_time bare).1 in
    (last_call w'.log ≡ some (Call.buffer_free 9)) × (frees w'.log ≡ 1)
notify_releases_reply_example =
    notify_releases_reply serving io obj rbd some_time 2 3 bare obj-NoNul rounds_up fits_int
      notify_settles

notify_lem_example : notify serving io obj rbd some_time bare ≡ (
  ok one_ack,
  record bare {
    log =
        Call.buffer_free 9
        ∷ Call.free_notify_response 3 1 0
        ∷ Call.decode_notify_response 9 40
        ∷ sent io obj rbd 3 2
        ∷ [];
  },
)
notify_lem_example =
    notify_lem serving io obj rbd some_time 2 3 bare obj-NoNul rounds_up fits_int 0 3 0 one_ack
      (inr (0, refl)) (ground arith) (ground arith) refl (inl (ground arith)) (inr refl)

notify_outcome_example : (notify refusing io obj rbd some_time bare).0 ≡ err not_found
unfolding of_errno
notify_outcome_example =
    notify_outcome refusing io obj rbd some_time 2 3 bare obj-NoNul rounds_up fits_int
      (inr (1, refl, ground arith))

watch_lem_example :
    let (r, w') = watch serving io obj bare in
    (r ≡ ok (record { handle = 77; io = io; state = 1 }))
    × (w'.mem 1 ≡ some (Cell.watch_state (state_of io obj)))
    × (w'.log ≡ registers io obj 1 ∷ [])
watch_lem_example = watch_lem serving io obj bare obj-NoNul (inl (0, refl))

-- A callback that answers with the payload.
abbrev echo : Notification → World → Option Bytes × World
echo n w = (some n.payload, w)

abbrev watched : World
watched = record bare { mem = poke bare.mem 1 (some (Cell.watch_state (state_of io obj))) }

copies : copy_payload (some rbd) 3 ≡ ok rbd
unfolding copy_payload
copies = refl

trampoline_acks_example :
    watch_notify_trampoline echo 1 8 77 6 (some rbd) 3 watched
    ≡ (ok tt, logged (Call.notify_ack 2 obj 8 77 (some rbd) 3) watched)
trampoline_acks_example =
    trampoline_acks echo 1 8 77 6 (some rbd) 3 watched rbd (state_of io obj) (state_of io obj)
      copies refl refl

-- A watch that has been dropped.
abbrev over : Life
over = record {
  registered = false;
  queued = 0;
  running = false;
  alive = false;
  left = [];
  inside = false;
}

-- A notification is dispatched and handled while the watch is dropped.
dropped : Reach fresh over
unfolding drop_program
dropped =
    Lifecycle.next
      (Lifecycle.next
        (Lifecycle.next
          (Lifecycle.next
            (Lifecycle.next (Lifecycle.next Lifecycle.here (Lifecycle.dispatch refl))
              (Lifecycle.begin 0 refl refl))
            (Lifecycle.unwatched _ refl))
          (Lifecycle.finish refl refl))
        (Lifecycle.flushed _ refl refl refl))
      (Lifecycle.reclaimed _ refl)

callbacks_see_live_state_example :
    (over.running ≡ false) × (over.queued ≡ 0) × (over.registered ≡ false)
callbacks_see_live_state_example = callbacks_see_live_state dropped refl

-- A second and a half, as a timeval.
abbrev some_timeval : Timeval
some_timeval = record { tv_sec = pos 1; tv_usec = pos 500000 }

passes_on : timeval_of some_time ≡ ok some_timeval
unfolding timeval_of
passes_on = refl

timeval_of_bounds_example :
    (s u : ℕ) × (some_timeval.tv_sec ≡ pos s)
    × (some_timeval.tv_usec ≡ pos u)
    × (s < 2 ^ 63)
    × (u < 1000000)
    × ((s * 1000000 + u) * 1000 ≤ some_time.secs * 1000000000 + some_time.nanos)
    × (some_time.secs * 1000000000 + some_time.nanos < (s * 1000000 + u) * 1000 + 1000)
timeval_of_bounds_example = timeval_of_bounds some_time some_timeval (ground arith) passes_on
