-- ===== src/IoCtx/Locks/Expiry.antt =====
-- The duration that `lock_exclusive` passes on.
use librados_rs.Base.{
  ℕ, ◌+◌, ◌*◌, ◌/◌, ◌^◌, ◌≤◌, ◌<◌, ◌≡◌, ◌↔◌, inl, inr, Bool-cases, ltb, pos, arith,
}
use librados_rs.Error.{ok, err, rados, eoverflow}
use librados_rs.Handles.{Duration}
use librados_rs.Ffi.Memory.{Timeval}
use librados_rs.IoCtx.Locks.{timeval_of}

-- For a duration whose nanoseconds are below 10 ^ 9: the timeval that is accepted has seconds
-- that fit an i64 and less than 10 ^ 6 microseconds, and is the duration with what is below a
-- microsecond cut off.
pub timeval_of_bounds :
    (d : Duration) (tv : Timeval)
    → d.nanos < 1000000000
    → timeval_of d ≡ ok tv
    → (s u : ℕ) × (tv.tv_sec ≡ pos s)
      × (tv.tv_usec ≡ pos u)
      × (s < 2 ^ 63)
      × (u < 1000000)
      × ((s * 1000000 + u) * 1000 ≤ d.secs * 1000000000 + d.nanos)
      × (d.secs * 1000000000 + d.nanos < (s * 1000000 + u) * 1000 + 1000)
unfolding timeval_of
timeval_of_bounds d tv small h = elim (Bool-cases (ltb d.secs (2 ^ 63))) [
  | inl e ↦ (
    d.secs,
    d.nanos / 1000,
    ground arith,
    ground arith,
    ground arith,
    omega arith,
    omega arith,
    omega arith,
  )
  | inr e ↦ ground arith
]

-- EOVERFLOW exactly where the seconds do not fit an i64.
timeval_of-err_iff :
    (d : Duration) → (timeval_of d ≡ err (rados (pos eoverflow))) ↔ (2 ^ 63 ≤ d.secs)
unfolding timeval_of
timeval_of-err_iff d = ground arith
