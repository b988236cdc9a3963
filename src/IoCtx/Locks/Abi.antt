-- ===== src/IoCtx/Locks/Abi.antt =====
-- The calls of the `cls_lock` operations of src/ioctx.rs keep to their declarations.
use librados_rs.Base.{ℕ, zero, suc, ◌<◌, ◌^◌, pos, ◌==ℤ◌, as_i32, ◌∷◌, Option, none, some}
use librados_rs.Error.{Bytes, check_err, neg_checked}
use librados_rs.Text.{zeroed, sub_usize, slice_to}
use librados_rs.Text.Laws.{NoNul, zeroed_ok-holds}
use librados_rs.Handles.{IoCtx, Duration}
use librados_rs.Ffi.Memory.{room_of, Timeval, write_buf}
use librados_rs.Ffi.Call
use librados_rs.Ffi.Call.{LockersReply}
use librados_rs.Ffi.World.{Platform, World}
use librados_rs.Ffi.Abi.Calls.{IsSound, AllSound}
use librados_rs.Ffi.Abi.Keeps.{Clean, clean, by_string, by_outcome, by_run, by_test}
use librados_rs.IoCtx.Locks
use librados_rs.IoCtx.Locks.{Sizes}
use librados_rs.IoCtx.Locks.Table.{LockRequest, run}

-- The flags are a u8.
abbrev pub IsTyped : LockRequest → Type 0
IsTyped (LockRequest.lock oid name cookie desc duration flags) = flags < 2 ^ 8
IsTyped _ = Unit

-- The address of a time, or null.
lock_exclusive-IsSound :
    (io : ℕ) (oid name cookie desc : Bytes) (tv : Option Timeval) (flags : ℕ)
    → NoNul oid
    → NoNul name
    → NoNul cookie
    → NoNul desc
    → flags < 2 ^ 8
    → IsSound (Call.lock_exclusive io oid name cookie desc tv flags)
lock_exclusive-IsSound io oid name cookie desc none flags o n c d f =
    (tt, (o, (n, (c, (d, (tt, (f, tt)))))))
lock_exclusive-IsSound io oid name cookie desc (some tv) flags o n c d f =
    (tt, (o, (n, (c, (d, (tt, (f, tt)))))))

timeval_opt-Clean :
    (d : Option Duration) (w : World) → AllSound w.log → Clean (Locks.timeval_opt d w)
unfolding Locks.timeval_opt
timeval_opt-Clean none w h = clean h
timeval_opt-Clean (some d) w h = by_outcome (Locks.timeval_of d) _ w h λ tv e. clean h

module _ (p : Platform) (io : IoCtx) where
  pub run-Clean : (r : LockRequest) (w : World) → IsTyped r → AllSound w.log → Clean (run p io r w)
  unfolding run Locks.lock_exclusive Locks.unlock Locks.break_lock
  run-Clean (LockRequest.lock oid name cookie desc duration flags) w t h = by_string oid _ w h λ o.
      by_string name _ w h λ n. by_string cookie _ w h λ c. by_string desc _ w h λ d.
        by_run (Locks.timeval_opt duration w) _ (timeval_opt-Clean duration w h) λ tv w' e h'.
          clean (lock_exclusive-IsSound io.ioctx oid name cookie desc tv flags o n c d t, h')
  run-Clean (LockRequest.unlock oid name cookie) w t h =
      by_string oid _ w h λ o.
        by_string name _ w h λ n. by_string cookie _ w h λ c. clean ((tt, (o, (n, (c, tt)))), h)
  run-Clean (LockRequest.break_lock oid name client cookie) w t h = by_string oid _ w h λ o.
      by_string name _ w h λ n.
        by_string client _ w h
          λ l. by_string cookie _ w h λ c. clean ((tt, (o, (n, (l, (c, tt))))), h)

  decode_lockers-Clean :
      (r : LockersReply) (tag clients cookies addrs : Bytes) (w : World)
      → AllSound w.log
      → Clean (Locks.decode_lockers p r tag clients cookies addrs w)
  unfolding Locks.decode_lockers
  decode_lockers-Clean r tag clients cookies addrs w h =
      by_outcome (sub_usize p.overflow_checks r.tag_used 1) _ w h λ n e₁.
        by_outcome (slice_to tag n) _ w h λ tag' e₂.
          by_outcome (Locks.strings clients r.clients_used) _ w h λ cs e₃.
            by_outcome (Locks.strings cookies r.cookies_used) _ w h
              λ ks e₄. by_outcome (Locks.strings addrs r.addrs_used) _ w h λ as' e₅. clean h

  loop-Clean :
      (fuel : ℕ) (oid name : Bytes) (sizes : Sizes) (w : World)
      → NoNul oid
      → NoNul name
      → AllSound w.log
      → Clean (Locks.list_lockers_loop p fuel io oid name sizes w)
  unfolding Locks.list_lockers_loop
  loop-Clean zero oid name sizes w o n h = clean h
  loop-Clean (suc fuel) oid name sizes w o n h = by_outcome (zeroed sizes.tag) _ w h λ b₁ e₁.
      by_outcome (zeroed sizes.clients) _ w h λ b₂ e₂.
        by_outcome (zeroed sizes.cookies) _ w h λ b₃ e₃.
          by_outcome (zeroed sizes.addrs) _ w h λ b₄ e₄.
            let z₁ = zeroed_ok-holds sizes.tag b₁ e₁ in
            let z₂ = zeroed_ok-holds sizes.clients b₂ e₂ in
            let z₃ = zeroed_ok-holds sizes.cookies b₃ e₃ in
            let z₄ = zeroed_ok-holds sizes.addrs b₄ e₄ in
            let c =
              Call.list_lockers io.ioctx oid name (room_of b₁ sizes.tag) (room_of b₂ sizes.clients)
                (room_of b₃ sizes.cookies) (room_of b₄ sizes.addrs) in
            let r : LockersReply = p.librados w.log c in
            let h' : AllSound (c ∷ w.log) =
              ((tt, (o, (n, (tt, (z₁, (tt, (z₂, (tt, (z₃, (tt, (z₄, (tt, tt)))))))))))), h) in
            by_outcome (write_buf b₁ r.tag) _ _ h' λ t₁ f₁.
              by_outcome (write_buf b₂ r.clients) _ _ h' λ t₂ f₂.
                by_outcome (write_buf b₃ r.cookies) _ _ h' λ t₃ f₃.
                  by_outcome (write_buf b₄ r.addrs) _ _ h' λ t₄ f₄.
                    by_outcome (neg_checked p.overflow_checks 64 r.ret) _ _ h' λ e g.
                      by_test (e ==ℤ pos Locks.erange) _ _ _ (loop-Clean fuel oid name _ _ o n h') (
                        by_outcome (check_err p.overflow_checks (as_i32 r.ret)) _ _ h'
                          λ u g'. decode_lockers-Clean r t₁ t₂ t₃ t₄ _ h')

  pub list_lockers-Clean :
      (fuel : ℕ) (oid name : Bytes) (w : World)
      → AllSound w.log
      → Clean (Locks.list_lockers p fuel io oid name w)
  unfolding Locks.list_lockers
  list_lockers-Clean fuel oid name w h =
      by_string oid _ w h λ o. by_string name _ w h λ n. loop-Clean fuel oid name _ w o n h
