-- ===== src/IoCtx/Notify/Timeout.antt =====
-- The timeout and the payload length that `notify` passes on.
use librados_rs.Base.{ℕ, ◌+◌, ◌-◌, ◌*◌, ◌^◌, ◌≤◌, ◌<◌, ◌≡◌, ◌↔◌, pos, arith}
use librados_rs.Error.{ok, err, rados, eoverflow}
use librados_rs.Handles.{Duration}
use librados_rs.IoCtx.Notify.{as_millis, timeout_seconds}

-- A timeout that is accepted is a whole number of seconds that rounds the milliseconds of the
-- duration up; in milliseconds it fits a u64.
pub timeout_seconds_bounds :
    (d : Duration) (s : ℕ)
    → timeout_seconds d ≡ ok s
    → (as_millis d ≤ s * 1000) × (s * 1000 < as_millis d + 1000) × (s * 1000 < 2 ^ 64)
unfolding timeout_seconds
timeout_seconds_bounds d s h = ground arith

-- A timeout is refused with EOVERFLOW exactly where its seconds, rounded up, do not fit a u32.
timeout_seconds-err_iff :
    (d : Duration)
    → (timeout_seconds d ≡ err (rados (pos eoverflow))) ↔ ((2 ^ 32 - 1) * 1000 < as_millis d)
unfolding timeout_seconds
timeout_seconds-err_iff d = ground arith

-- The timeout 0, by which the OSD takes its own default, is passed exactly for the durations
-- below one millisecond, not for `Duration::ZERO` alone.
pub timeout_seconds-zero_iff :
    (d : Duration) → (timeout_seconds d ≡ ok 0) ↔ ((d.secs ≡ 0) × (d.nanos < 1000000))
unfolding timeout_seconds
timeout_seconds-zero_iff d = ground arith
