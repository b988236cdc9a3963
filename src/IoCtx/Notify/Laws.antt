-- ===== src/IoCtx/Notify/Laws.antt =====
-- The reply buffer of `notify`, and what becomes of each return code.
use librados_rs.Base.{
  ℕ, suc, ◌*◌, ◌^◌, ◌<◌, ◌≡◌, ◌≢◌, refl, ◌⊎◌, ℤ, pos, negsuc, List, [], ◌∷◌, Option, none, some,
  length, arith, inl, inr, Bool-cases, take, ◌==◌, ==_iff, ==_ne, if◌then◌else◌, ◌∙◌,
}
use librados_rs.Error.{
  Bytes, RadosError, Outcome, ok, err, rados, panic, fault, out_of_fuel, of_errno, check_err,
  neg_checked,
}
use native.Mathlib.Decide.{ℕ_discrete}
use librados_rs.Error.Laws.{neg_pos_ne_errno, IsCode}
use librados_rs.Text.Laws.{NoNul, cstring-NoNul}
use librados_rs.Handles.{IoCtx, Duration}
use librados_rs.Ffi.Memory.{Ptr, NotifyAckT}
use librados_rs.Ffi.Call.{Call}
use librados_rs.Ffi.World.{Platform, World, logged, settled, and_then, followed_by}
use librados_rs.IoCtx.Notify.{
  copy_acks, decode_notify_response, notify_failed, notify, timeout_seconds, c_int_or_overflow,
}

-- How often a buffer was freed.
abbrev pub frees : List Call → ℕ
frees [] = 0
frees (Call.buffer_free _ ∷ log) = suc (frees log)
frees (_ ∷ log) = frees log

-- The last call.
abbrev pub last_call : List Call → Option Call
last_call [] = none
last_call (c ∷ _) = some c

-- The run came back to the caller, with a value or an error.
abbrev pub IsSettled : {A : Type 0} → Outcome A → Type 0
IsSettled (ok _) = Unit
IsSettled (err _) = Unit
IsSettled _ = ⊥

settled-outcome : {A : Type 0} (r : Outcome A × World) (d : World → World) → (settled r d).0 ≡ r.0
settled-outcome (ok a, w) d = refl
settled-outcome (err e, w) d = refl
settled-outcome (panic, w) d = refl
settled-outcome (fault, w) d = refl
settled-outcome (out_of_fuel, w) d = refl

copy_acks-world : (l : List NotifyAckT) (w : World) → (copy_acks l w).1 ≡ w
unfolding copy_acks
copy_acks-world [] w = refl
copy_acks-world (a ∷ l) w = ground (arith, copy_acks-world l w)

module _ (p : Platform) where
  decode-frees :
      (reply : Ptr) (len : ℕ) (w : World)
      → frees (decode_notify_response p reply len w).1.log ≡ frees w.log
  unfolding decode_notify_response
  decode-frees reply len w =
      let d = p.librados w.log (Call.decode_notify_response reply len) in
      let w' = logged (Call.decode_notify_response reply len) w in
      ground (
        arith,
        copy_acks-world [] w',
        copy_acks-world d.ack_array w',
        copy_acks-world (take d.nr_acks d.ack_array) w',
      )

  pub passes : (n : ℕ) (reply : Ptr) (w : World) → notify_failed p (pos n) reply w ≡ (ok tt, w)
  unfolding notify_failed neg_checked check_err
  passes n reply w = rw (neg_pos_ne_errno n 109)

  pub times_out : (reply : Ptr) (w : World) → notify_failed p (negsuc 109) reply w ≡ (ok tt, w)
  unfolding notify_failed neg_checked check_err
  times_out reply w = refl

  fails :
      (n : ℕ) (reply : Ptr) (w : World)
      → n ≢ 109
      → n ≢ 2147483647
      → notify_failed p (negsuc n) reply w
        ≡ (err (of_errno (pos (suc n))), logged (Call.buffer_free reply) w)
  unfolding notify_failed neg_checked check_err
  fails n reply w ne fit = ground arith

  overflows :
      (reply : Ptr) (w : World)
      → ((e : RadosError) × (notify_failed p (negsuc 2147483647) reply w
            ≡ (err e, logged (Call.buffer_free reply) w)))
        ⊎ (notify_failed p (negsuc 2147483647) reply w ≡ (panic, w))
  unfolding notify_failed neg_checked check_err
  overflows reply w = elim (Bool-cases p.overflow_checks) [
    | inl e ↦ inr (rw e)
    | inr e ↦ inl (rados (negsuc 2147483647), rw e)
  ]

  -- The error check passes, or frees the reply and fails, or panics on the least code.
  notify_failed-cases :
      (ret : ℤ) (reply : Ptr) (w : World)
      → (notify_failed p ret reply w ≡ (ok tt, w))
        ⊎ ((e : RadosError) × (notify_failed p ret reply w
              ≡ (err e, logged (Call.buffer_free reply) w)))
        ⊎ (notify_failed p ret reply w ≡ (panic, w))
  notify_failed-cases (pos n) reply w = inl (passes n reply w)
  notify_failed-cases (negsuc n) reply w = elim (ℕ_discrete n 109) [
    | yes e ↦ rw e (inl (times_out reply w))
    | no ne ↦ elim (ℕ_discrete n 2147483647) [
      | yes e ↦ rw e (inr (overflows reply w))
      | no fit ↦ inr (inl (of_errno (pos (suc n)), fails n reply w ne fit))
    ]
  ]

-- The outcome of a code where a timeout is no failure.
abbrev pub judged_late : {A : Type 0} → ℤ → Outcome A → Outcome A
judged_late (pos _) o = o
judged_late (negsuc e) o = if e == 109 then o else err (of_errno (pos (suc e)))

-- The call that `notify` makes once its arguments are accepted.
abbrev pub sent : IoCtx → Bytes → Bytes → ℕ → ℕ → Call
sent io oid payload n s = Call.notify2 io.ioctx oid payload n (s * 1000)

module _ (p : Platform) (io : IoCtx) (oid payload : Bytes) (timeout : Duration) (s n : ℕ)
    (w : World) (no_nul : NoNul oid) (in_time : timeout_seconds timeout ≡ ok s)
    (in_size : c_int_or_overflow (length payload) ≡ ok n) where
  -- What rados_notify2 replies.
  abbrev pub reply : ℤ × Ptr × ℕ
  reply = p.librados w.log (sent io oid payload n s)

  abbrev pub w₁ : World
  w₁ = logged (sent io oid payload n s) w

  -- `notify` after its guards.
  pub notify_steps :
      notify p io oid payload timeout w
      ≡ and_then (notify_failed p reply.0 reply.1 w₁).0 (notify_failed p reply.0 reply.1 w₁).1 λ _.
        followed_by (decode_notify_response p reply.1 reply.2) (logged (Call.buffer_free reply.1))
  unfolding notify
  notify_steps = rw (cstring-NoNul oid no_nul, in_time, in_size)

  -- Where `notify` accepts its arguments and comes back with a value or an error: the reply
  -- buffer of rados_notify2 has been freed, exactly once and by the last call, whatever the
  -- return codes were.
  pub notify_releases_reply :
      IsSettled (notify p io oid payload timeout w).0
      → let (r, w') = notify p io oid payload timeout w in
        (last_call w'.log ≡ some (Call.buffer_free reply.1)) × (frees w'.log ≡ suc (frees w.log))
  notify_releases_reply = rw notify_steps (elim (notify_failed-cases p reply.0 reply.1 w₁) [
    | inl passed ↦ rw passed λ h. ground (arith, decode-frees p reply.1 reply.2 w₁)
    | inr (inl (e, failed)) ↦ rw failed λ h. (refl, refl)
    | inr (inr panicked) ↦ rw panicked λ h. absurd h
  ])

  after_pass :
      notify_failed p reply.0 reply.1 w₁ ≡ (ok tt, w₁)
      → (notify p io oid payload timeout w).0 ≡ (decode_notify_response p reply.1 reply.2 w₁).0
  after_pass e =
      rw (notify_steps, e) (settled-outcome (decode_notify_response p reply.1 reply.2 w₁) _)

  notify_decodes :
      (reply.0 ≡ negsuc 109) ⊎ ((k : ℕ) × (reply.0 ≡ pos k))
      → (notify p io oid payload timeout w).0 ≡ (decode_notify_response p reply.1 reply.2 w₁).0
  notify_decodes (inl e) = after_pass (rw e (times_out p reply.1 w₁))
  notify_decodes (inr (k, e)) = after_pass (rw e (passes p k reply.1 w₁))

  notify_fails :
      (e : ℕ)
      → suc e < 2 ^ 31
      → e ≢ 109
      → reply.0 ≡ negsuc e
      → (notify p io oid payload timeout w).0 ≡ err (of_errno (pos (suc e)))
  notify_fails e small ne h =
      rw (notify_steps, h, fails p e reply.1 w₁ ne (λ k. absurd (omega arith)))

  -- Where `notify` accepts its arguments: the outcome is that of decoding the reply where
  -- rados_notify2 returns zero or more, or -ETIMEDOUT, and the error of any other negated errno.
  pub notify_outcome :
      IsCode reply.0
      → (notify p io oid payload timeout w).0
        ≡ judged_late reply.0 (decode_notify_response p reply.1 reply.2 w₁).0
  notify_outcome (inl (k, e)) = notify_decodes (inr (k, e)) ∙ rw e
  notify_outcome (inr (e, h, small)) = elim (ℕ_discrete e 109) [
    | yes late ↦ notify_decodes (inl (rw late at h)) ∙ rw (h, (==_iff e 109).1 late)
    | no ne ↦ notify_fails e small ne h ∙ rw (h, ==_ne e 109 ne)
  ]
