-- ===== src/IoCtx/Notify/Defined.antt =====
-- `notify` and the decoding of its replies (src/ioctx.rs) stay clear of undefined behaviour.
use librados_rs.Base.{
  ℕ, ◌*◌, ◌≤◌, ◌≡◌, ◌||◌, ◌==◌, Bool-cases, inl, inr, zero, suc, take, ℤ, pos, ◌==ℤ◌, List, [], ◌∷◌,
  Option, none, some, length, leb, arith,
}
use librados_rs.Error.{Bytes, ok, check_err, neg_checked, etimedout}
use librados_rs.Handles.{IoCtx, Duration}
use librados_rs.Ffi.Memory.{Ptr, null, NotifyAckT, from_raw_parts}
use librados_rs.Ffi.Call
use librados_rs.Ffi.Call.{DecodeReply}
use librados_rs.Ffi.World.{Platform, World, logged}
use librados_rs.Ffi.Defined.{
  StaysWithin, IsDefined, Defined, defined, HasPayload, AllReadable, then_outcome, then_string,
  then_run, then_test, settled-Defined, failed-Defined, check_err-IsDefined, neg_checked-IsDefined,
  from_raw_parts-IsDefined,
}
use librados_rs.IoCtx.Notify

timeout_seconds-IsDefined : (d : Duration) → IsDefined (Notify.timeout_seconds d)
unfolding Notify.timeout_seconds
timeout_seconds-IsDefined d = ground arith

c_int_or_overflow-IsDefined : (n : ℕ) → IsDefined (Notify.c_int_or_overflow n)
unfolding Notify.c_int_or_overflow
c_int_or_overflow-IsDefined n = ground arith

copy_payload-IsDefined :
    (m : Option Bytes) (n : ℕ) → HasPayload m n → IsDefined (Notify.copy_payload m n)
unfolding Notify.copy_payload
copy_payload-IsDefined none n h = tt
copy_payload-IsDefined (some m) n h = from_raw_parts-IsDefined m n h

as_slice-IsDefined :
    {A : Type 0} (ptr : Ptr) (m : List A) (n : ℕ)
    → n ≤ length m
    → IsDefined (Notify.as_slice ptr m n)
unfolding Notify.as_slice
as_slice-IsDefined ptr m n h = elim (Bool-cases (ptr == null)) [
  | inl e ↦ rw e tt
  | inr e ↦ rw e (from_raw_parts-IsDefined m n h)
]

AllReadable-take : (n : ℕ) (acks : List NotifyAckT) → AllReadable acks → AllReadable (take n acks)
AllReadable-take zero acks h = tt
AllReadable-take (suc n) [] h = tt
AllReadable-take (suc n) (a ∷ acks) h = (h.0, AllReadable-take n acks h.1)

AllReadable-as_slice :
    (ptr : Ptr) (m : List NotifyAckT) (n : ℕ) (s : List NotifyAckT)
    → AllReadable m
    → Notify.as_slice ptr m n ≡ ok s
    → AllReadable s
unfolding Notify.as_slice from_raw_parts
AllReadable-as_slice ptr m n s h e = elim (Bool-cases (ptr == null)) [
  | inl b ↦ let g : s ≡ [] = grind (arith, b, e) in rw g tt
  | inr b ↦ elim (Bool-cases (leb n (length m))) [
    | inl c ↦ let g : s ≡ take n m = grind (arith, b, c, e) in rw g (AllReadable-take n m h)
    | inr c ↦ absurd (grind (arith, b, c, e))
  ]
]

copy_acks-Defined :
    (acks : List NotifyAckT) (w : World) → AllReadable acks → Defined (Notify.copy_acks acks w)
unfolding Notify.copy_acks
copy_acks-Defined [] w h = defined tt
copy_acks-Defined (a ∷ acks) w h =
    then_outcome (Notify.copy_payload a.payload a.payload_len) _ w
      (copy_payload-IsDefined a.payload a.payload_len h.0)
      λ b e.
        then_run (Notify.copy_acks acks w) _ (copy_acks-Defined acks w h.1) λ rest w' e'. defined tt

module _ (p : Platform) (within : StaysWithin p) where
  decode-Defined :
      (reply : Ptr) (len : ℕ) (w : World) → Defined (Notify.decode_notify_response p reply len w)
  unfolding Notify.decode_notify_response
  decode-Defined reply len w =
      let c = Call.decode_notify_response reply len in
      let r : DecodeReply = p.librados w.log c in
      let (acks_fit, timeouts_fit, readable) = within.decoded w.log reply len in
      then_test (reply == null || len == 0) _ _ w (defined tt) (
        then_outcome (check_err p.overflow_checks r.ret) _ (logged c w)
          (check_err-IsDefined p.overflow_checks r.ret)
          λ u e₁.
            then_outcome (Notify.as_slice r.acks r.ack_array r.nr_acks) _ _
              (as_slice-IsDefined r.acks r.ack_array r.nr_acks acks_fit)
              λ acks e₂.
                then_run (Notify.copy_acks acks (logged c w)) _
                  (copy_acks-Defined acks _
                    (AllReadable-as_slice r.acks r.ack_array r.nr_acks acks readable e₂))
                  λ copied w' e₃.
                    then_outcome (Notify.as_slice r.timeouts r.timeout_array r.nr_timeouts) _ w'
                      (as_slice-IsDefined r.timeouts r.timeout_array r.nr_timeouts timeouts_fit)
                      λ timeouts e₄. defined tt)

  notify_failed-Defined :
      (ret : ℤ) (reply : Ptr) (w : World) → Defined (Notify.notify_failed p ret reply w)
  unfolding Notify.notify_failed
  notify_failed-Defined ret reply w =
      then_outcome (neg_checked p.overflow_checks 32 ret) _ w
        (neg_checked-IsDefined p.overflow_checks 32 ret)
        λ e f. then_test (e ==ℤ pos etimedout) _ _ w (defined tt) (
          failed-Defined (check_err p.overflow_checks ret, w) _
            (defined (check_err-IsDefined p.overflow_checks ret)))

  pub notify-Defined :
      (io : IoCtx) (oid payload : Bytes) (timeout : Duration) (w : World)
      → Defined (Notify.notify p io oid payload timeout w)
  unfolding Notify.notify
  notify-Defined io oid payload timeout w = then_string oid _ w (
      then_outcome (Notify.timeout_seconds timeout) _ w (timeout_seconds-IsDefined timeout) λ s e₁.
        then_outcome (Notify.c_int_or_overflow (length payload)) _ w
          (c_int_or_overflow-IsDefined (length payload))
          λ len e₂.
            let c = Call.notify2 io.ioctx oid payload len (s * 1000) in
            let (ret, reply, reply_len) = p.librados w.log c in
            then_run (Notify.notify_failed p ret reply (logged c w)) _
              (notify_failed-Defined ret reply _)
              λ u w' e₃.
                settled-Defined (Notify.decode_notify_response p reply reply_len w') _
                  (decode-Defined reply reply_len w'))
