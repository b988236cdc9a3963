-- ===== src/IoCtx/Notify/Abi.antt =====
-- The calls of `notify` and of the decoding of its replies (src/ioctx.rs) keep to their declarations.
use librados_rs.Base.{
  ℕ, ◌*◌, ◌<◌, ◌^◌, ◌≡◌, ◌||◌, ◌==◌, ℤ, pos, ◌==ℤ◌, List, [], ◌∷◌, length, arith,
}
use librados_rs.Error.{Bytes, check_err, neg_checked, etimedout, ok}
use librados_rs.Handles.{IoCtx, Duration}
use librados_rs.Ffi.Memory.{Ptr, null, NotifyAckT}
use librados_rs.Ffi.Call.{Call, DecodeReply}
use librados_rs.Ffi.World.{Platform, World, logged}
use librados_rs.Ffi.Abi.Calls.{AllSound}
use librados_rs.Ffi.Abi.Keeps.{
  Clean, clean, by_string, by_outcome, by_run, by_test, settled-Clean, failed-Clean,
}
use librados_rs.IoCtx.Notify
use librados_rs.IoCtx.Notify.Timeout.{timeout_seconds_bounds}

-- The lengths that librados writes through out pointers are those of a `size_t`.
pub record RepliesTyped (p : Platform) : Type 0 where
  pub reply_len :
      (log : List Call) (io : Ptr) (oid buf : Bytes) (len timeout_ms : ℕ)
      → (p.librados log (Call.notify2 io oid buf len timeout_ms)).2 < 2 ^ 64
  pub nr_acks :
      (log : List Call) (reply : Ptr) (len : ℕ)
      → (p.librados log (Call.decode_notify_response reply len)).nr_acks < 2 ^ 64

-- A length that is passed on fits a C int, and no more than the payload is read.
c_int_ok : (n len : ℕ) → Notify.c_int_or_overflow n ≡ ok len → (len ≡ n) × (len < 2 ^ 31)
unfolding Notify.c_int_or_overflow
c_int_ok n len h = ground arith

copy_acks-Clean :
    (acks : List NotifyAckT) (w : World) → AllSound w.log → Clean (Notify.copy_acks acks w)
unfolding Notify.copy_acks
copy_acks-Clean [] w h = clean h
copy_acks-Clean (a ∷ acks) w h =
    by_outcome (Notify.copy_payload a.payload a.payload_len) _ w h
      λ b e. by_run (Notify.copy_acks acks w) _ (copy_acks-Clean acks w h) λ rest w' e' h'. clean h'

module _ (p : Platform) (typed : RepliesTyped p) where
  pub decode-Clean :
      (reply : Ptr) (len : ℕ) (w : World)
      → len < 2 ^ 64
      → AllSound w.log
      → Clean (Notify.decode_notify_response p reply len w)
  unfolding Notify.decode_notify_response
  decode-Clean reply len w small h =
      let c = Call.decode_notify_response reply len in
      let r : DecodeReply = p.librados w.log c in
      let h' : AllSound (c ∷ w.log) = ((tt, (small, (tt, (tt, (tt, (tt, tt)))))), h) in
      by_test (reply == null || len == 0) _ _ w (clean h) (
        by_outcome (check_err p.overflow_checks r.ret) _ _ h' λ u e₁.
          by_outcome (Notify.as_slice r.acks r.ack_array r.nr_acks) _ _ h' λ acks e₂.
            by_run (Notify.copy_acks acks (logged c w)) _ (copy_acks-Clean acks _ h')
              λ copied w' e₃ h''.
                by_outcome (Notify.as_slice r.timeouts r.timeout_array r.nr_timeouts) _ w' h''
                  λ timeouts e₄. clean ((tt, (typed.nr_acks w.log reply len, (tt, tt))), h''))

  notify_failed-Clean :
      (ret : ℤ) (reply : Ptr) (w : World)
      → AllSound w.log
      → Clean (Notify.notify_failed p ret reply w)
  unfolding Notify.notify_failed
  notify_failed-Clean ret reply w h = by_outcome (neg_checked p.overflow_checks 32 ret) _ w h λ e f.
      by_test (e ==ℤ pos etimedout) _ _ w (clean h)
        (failed-Clean (check_err p.overflow_checks ret, w) _ (clean h) λ w' h'. ((tt, tt), h'))

  pub notify-Clean :
      (io : IoCtx) (oid payload : Bytes) (timeout : Duration) (w : World)
      → AllSound w.log
      → Clean (Notify.notify p io oid payload timeout w)
  unfolding Notify.notify
  notify-Clean io oid payload timeout w h = by_string oid _ w h λ o.
      by_outcome (Notify.timeout_seconds timeout) _ w h λ s e₁.
        by_outcome (Notify.c_int_or_overflow (length payload)) _ w h λ len e₂.
          let (same, small) = c_int_ok (length payload) len e₂ in
          let (_, _, ms) = timeout_seconds_bounds timeout s e₁ in
          let c = Call.notify2 io.ioctx oid payload len (s * 1000) in
          let (ret, reply, reply_len) = p.librados w.log c in
          let h' : AllSound (c ∷ w.log) =
            ((tt, (o, (omega arith, (small, (ms, (tt, (tt, tt))))))), h) in
          by_run (Notify.notify_failed p ret reply (logged c w)) _
            (notify_failed-Clean ret reply _ h')
            λ u w' e₃ h''.
              settled-Clean (Notify.decode_notify_response p reply reply_len w') _
                (decode-Clean reply reply_len w'
                  (typed.reply_len w.log io.ioctx oid payload len (s * 1000)) h'')
                λ w'' k. ((tt, tt), k)
