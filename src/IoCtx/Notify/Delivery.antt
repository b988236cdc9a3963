-- ===== src/IoCtx/Notify/Delivery.antt =====
-- A notification with its responses, from the arguments to the calls that are made.
use librados_rs.Base.{ℕ, ◌≡◌, ◌≢◌, ◌⊎◌, inl, inr, pos, negsuc, ◌∷◌, map, length}
use librados_rs.Error.{Bytes, ok}
use librados_rs.Text.Laws.{NoNul}
use librados_rs.Handles.{IoCtx, Duration}
use librados_rs.Ffi.Memory.{Ptr, null}
use librados_rs.Ffi.Call
use librados_rs.Ffi.Call.{Call}
use librados_rs.Ffi.World.{Platform, World}
use librados_rs.IoCtx.Notify.{
  NotifyResponse, notify, notify_failed, timeout_seconds, c_int_or_overflow,
}
use librados_rs.IoCtx.Notify.Laws.{sent, reply, w₁, notify_steps, passes, times_out}
use librados_rs.IoCtx.Notify.Decode.{encode, encode_ack, encode_timeout, IsArray, decode_lem}

module _ (p : Platform) (io : IoCtx) (oid payload : Bytes) (timeout : Duration) (s n : ℕ)
    (w : World) (no_nul : NoNul oid) (in_time : timeout_seconds timeout ≡ ok s)
    (in_size : c_int_or_overflow (length payload) ≡ ok n) where
  abbrev after : World
  after = w₁ p io oid payload timeout s n w no_nul in_time in_size

  abbrev replied : Call.Reply (sent io oid payload n s)
  replied = reply p io oid payload timeout s n w no_nul in_time in_size

  passed :
      (replied.0 ≡ negsuc 109) ⊎ ((k : ℕ) × (replied.0 ≡ pos k))
      → notify_failed p replied.0 replied.1 after ≡ (ok tt, after)
  passed (inl e) = rw e (times_out p replied.1 after)
  passed (inr (k, e)) = rw e (passes p k replied.1 after)

  -- Where `notify` accepts its arguments, rados_notify2 returns zero or more, or -ETIMEDOUT, with a
  -- buffer that is not empty, and librados decodes it to the structs that stand for a response: that
  -- is the response returned, every ack with its payload and every timeout, in order. Four calls are
  -- made: the notification, the decoding, and the release of the arrays and then of the buffer.
  pub notify_lem :
      (code : ℕ) (acks timeouts : Ptr) (r : NotifyResponse)
      → (replied.0 ≡ negsuc 109) ⊎ ((k : ℕ) × (replied.0 ≡ pos k))
      → replied.1 ≢ null
      → replied.2 ≢ 0
      → p.librados after.log (Call.decode_notify_response replied.1 replied.2)
        ≡ encode code acks timeouts r
      → IsArray acks (map encode_ack r.acks)
      → IsArray timeouts (map encode_timeout r.timeouts)
      → notify p io oid payload timeout w ≡ (
        ok r,
        record w {
          log =
              Call.buffer_free replied.1
              ∷ Call.free_notify_response acks (length (map encode_ack r.acks)) timeouts
              ∷ Call.decode_notify_response replied.1 replied.2
              ∷ sent io oid payload n s
              ∷ w.log;
        },
      )
  notify_lem code acks timeouts r delivered whole filled encoded ha ht = rw (
    notify_steps p io oid payload timeout s n w no_nul in_time in_size,
    passed delivered,
    decode_lem p replied.1 replied.2 code acks timeouts r after whole filled encoded ha ht,
  )
