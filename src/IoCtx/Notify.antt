-- ===== src/IoCtx/Notify.antt =====
-- src/ioctx.rs: `notify`, and the decoding of the watchers' replies.
pub mod Laws
pub mod Abi
pub mod Defined
pub mod Timeout
pub mod Decode
pub mod Delivery
use librados_rs.Base.{
  ℕ, zero, suc, ◌+◌, ◌*◌, ◌/◌, ◌%◌, ◌^◌, ◌≡◌, ◌||◌, ℤ, pos, ◌==ℤ◌, List, [], ◌∷◌, Option, none,
  some, length, ltb, ◌==◌, if◌then◌else◌,
}
use librados_rs.Error.{Bytes, Outcome, ok, err, rados, neg_checked, eoverflow, etimedout}
use librados_rs.Text.{cstring}
use librados_rs.Handles.{IoCtx, Duration}
use librados_rs.Conn.{u32_or_overflow}
use librados_rs.Ffi.Memory.{Ptr, null, NotifyAckT, NotifyTimeoutT, from_raw_parts}
use librados_rs.Ffi.Call
use librados_rs.Ffi.World.{
  Platform, Io, pure, lift, tell, logged, ◌>>=◌, ◌>>◌, call, check, followed_by, on_error,
}

pub record NotifyAck : Type 0 where
  pub notifier_id : ℕ
  pub cookie : ℕ
  pub payload : Bytes

pub record NotifyTimeout : Type 0 where
  pub notifier_id : ℕ
  pub cookie : ℕ

pub record NotifyResponse : Type 0 where
  pub acks : List NotifyAck
  pub timeouts : List NotifyTimeout

-- `Duration::as_millis`
unfoldable pub as_millis : Duration → ℕ
as_millis d = d.secs * 1000 + d.nanos / 1000000

-- `a.div_ceil(1000)`
unfoldable pub div_ceil_1000 : ℕ → ℕ
div_ceil_1000 a = if a % 1000 == 0 then a / 1000 else a / 1000 + 1

unfoldable pub timeout_seconds : Duration → Outcome ℕ
unfolding as_millis div_ceil_1000 u32_or_overflow
timeout_seconds d = u32_or_overflow (div_ceil_1000 (as_millis d))

-- `c_int::try_from(len)`, with EOVERFLOW for what does not fit.
unfoldable pub c_int_or_overflow : ℕ → Outcome ℕ
c_int_or_overflow n = if ltb n (2 ^ 31) then ok n else err (rados (pos eoverflow))

-- The unsafe `as_slice`: a null pointer is the empty slice.
unfoldable pub as_slice : {A : Type 0} → Ptr → List A → ℕ → Outcome (List A)
unfolding from_raw_parts
as_slice ptr array len = if ptr == null then ok [] else from_raw_parts array len

-- A payload copied out; a null pointer is the empty one.
unfoldable pub copy_payload : Option Bytes → ℕ → Outcome Bytes
unfolding from_raw_parts
copy_payload none len = ok []
copy_payload (some m) len = from_raw_parts m len

unfoldable pub copy_acks : List NotifyAckT → Io (List NotifyAck)
unfolding copy_payload
copy_acks [] = pure []
copy_acks (a ∷ acks) = do
  payload ← lift (copy_payload a.payload a.payload_len)
  rest ← copy_acks acks
  pure (record { notifier_id = a.notifier_id; cookie = a.cookie; payload = payload } ∷ rest)

unfoldable pub copy_timeouts : List NotifyTimeoutT → List NotifyTimeout
copy_timeouts [] = []
copy_timeouts (t ∷ ts) =
    record { notifier_id = t.notifier_id; cookie = t.cookie } ∷ copy_timeouts ts

module _ (p : Platform) where
  unfoldable pub decode_notify_response : Ptr → (reply_len : ℕ) → Io NotifyResponse
  unfolding as_slice copy_acks copy_timeouts
  decode_notify_response reply reply_len =
      if reply == null || reply_len == 0 then pure (record { acks = []; timeouts = [] }) else do
        r ← call p (Call.decode_notify_response reply reply_len)
        check p r.ret
        ack_slice ← lift (as_slice r.acks r.ack_array r.nr_acks)
        acks ← copy_acks ack_slice
        timeout_slice ← lift (as_slice r.timeouts r.timeout_array r.nr_timeouts)
        tell (Call.free_notify_response r.acks r.nr_acks r.timeouts)
        pure (record { acks = acks; timeouts = copy_timeouts timeout_slice })

  -- The `if -ret != ETIMEDOUT && let Err(err) = check_err(ret)`.
  unfoldable pub notify_failed : ℤ → Ptr → Io (Unit {0})
  notify_failed ret reply = do
    e ← lift (neg_checked p.overflow_checks 32 ret)
    if e ==ℤ pos etimedout
        then pure tt
        else on_error (check p ret) (logged (Call.buffer_free reply))

  unfoldable pub notify : IoCtx → (oid payload : Bytes) → (timeout : Duration) → Io NotifyResponse
  notify io oid payload timeout = do
    c_oid ← lift (cstring oid)
    seconds ← lift (timeout_seconds timeout)
    let timeout_ms = seconds * 1000
    payload_len ← lift (c_int_or_overflow (length payload))
    (ret, reply, reply_len) ← call p (Call.notify2 io.ioctx c_oid payload payload_len timeout_ms)
    notify_failed ret reply
    followed_by (decode_notify_response reply reply_len) (logged (Call.buffer_free reply))
