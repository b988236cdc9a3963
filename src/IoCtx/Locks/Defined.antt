-- ===== src/IoCtx/Locks/Defined.antt =====
-- The `cls_lock` operations of src/ioctx.rs stay clear of undefined behaviour.
use librados_rs.Base.{
  ℕ, zero, suc, ◌≤◌, ◌≡◌, pos, ◌==ℤ◌, as_i32, Option, none, some, length, arith, length-replicate,
}
use librados_rs.Error.{Bytes, ok, check_err, neg_checked, erange}
use librados_rs.Text.{slice_to, zeroed, sub_usize}
use librados_rs.Handles.{IoCtx, Duration}
use librados_rs.Ffi.Memory.{room_of, write_buf}
use librados_rs.Ffi.Call
use librados_rs.Ffi.Call.{LockersReply}
use librados_rs.Ffi.World.{Platform, World}
use librados_rs.Ffi.Defined.{
  StaysWithin, IsDefined, Defined, defined, then_outcome, then_string, then_run, then_test,
  write_buf-IsDefined, check_err-IsDefined, neg_checked-IsDefined, sub_usize-IsDefined,
  zeroed-IsDefined, slice_to-IsDefined,
}
use librados_rs.IoCtx.Locks
use librados_rs.IoCtx.Locks.{Sizes}
use librados_rs.IoCtx.Locks.Table.{LockRequest, run}

timeval_of-IsDefined : (d : Duration) → IsDefined (Locks.timeval_of d)
unfolding Locks.timeval_of
timeval_of-IsDefined d = ground arith

timeval_opt-Defined : (d : Option Duration) (w : World) → Defined (Locks.timeval_opt d w)
unfolding Locks.timeval_opt
timeval_opt-Defined none w = defined tt
timeval_opt-Defined (some d) w =
    then_outcome (Locks.timeval_of d) _ w (timeval_of-IsDefined d) λ tv e. defined tt

strings-IsDefined : (buf : Bytes) (len : ℕ) → IsDefined (Locks.strings buf len)
unfolding Locks.strings slice_to
strings-IsDefined buf len = ground arith

-- A zeroed buffer has its length.
zeroed-holds : (n m : ℕ) (buf : Bytes) → zeroed n ≡ ok buf → m ≤ n → m ≤ length buf
unfolding zeroed
zeroed-holds n m buf e h = let l = length-replicate {A = ℕ} n 0 in grind arith

module _ (p : Platform) (within : StaysWithin p) (io : IoCtx) where
  pub run-Defined : (r : LockRequest) (w : World) → Defined (run p io r w)
  unfolding run Locks.lock_exclusive Locks.unlock Locks.break_lock
  run-Defined (LockRequest.lock oid name cookie desc duration flags) w = then_string oid _ w (
      then_string name _ w (
        then_string cookie _ w (
          then_string desc _ w (
            then_run (Locks.timeval_opt duration w) _ (timeval_opt-Defined duration w)
              λ tv w' e. defined (check_err-IsDefined _ _)))))
  run-Defined (LockRequest.unlock oid name cookie) w =
      then_string oid _ w
        (then_string name _ w (then_string cookie _ w (defined (check_err-IsDefined _ _))))
  run-Defined (LockRequest.break_lock oid name client cookie) w = then_string oid _ w (
      then_string name _ w
        (then_string client _ w (then_string cookie _ w (defined (check_err-IsDefined _ _)))))

  decode_lockers-Defined :
      (r : LockersReply) (tag clients cookies addrs : Bytes) (w : World)
      → Defined (Locks.decode_lockers p r tag clients cookies addrs w)
  unfolding Locks.decode_lockers
  decode_lockers-Defined r tag clients cookies addrs w =
      then_outcome (sub_usize p.overflow_checks r.tag_used 1) _ w
        (sub_usize-IsDefined p.overflow_checks r.tag_used 1)
        λ n e₁. then_outcome (slice_to tag n) _ w (slice_to-IsDefined tag n) λ tag' e₂.
          then_outcome (Locks.strings clients r.clients_used) _ w
            (strings-IsDefined clients r.clients_used)
            λ cs e₃.
              then_outcome (Locks.strings cookies r.cookies_used) _ w
                (strings-IsDefined cookies r.cookies_used)
                λ ks e₄.
                  then_outcome (Locks.strings addrs r.addrs_used) _ w
                    (strings-IsDefined addrs r.addrs_used) λ as' e₅. defined tt

  loop-Defined :
      (fuel : ℕ) (oid name : Bytes) (sizes : Sizes) (w : World)
      → Defined (Locks.list_lockers_loop p fuel io oid name sizes w)
  unfolding Locks.list_lockers_loop
  loop-Defined zero oid name sizes w = defined tt
  loop-Defined (suc fuel) oid name sizes w =
      then_outcome (zeroed sizes.tag) _ w (zeroed-IsDefined sizes.tag) λ b₁ e₁.
        then_outcome (zeroed sizes.clients) _ w (zeroed-IsDefined sizes.clients) λ b₂ e₂.
          then_outcome (zeroed sizes.cookies) _ w (zeroed-IsDefined sizes.cookies) λ b₃ e₃.
            then_outcome (zeroed sizes.addrs) _ w (zeroed-IsDefined sizes.addrs) λ b₄ e₄.
              let r : LockersReply = p.librados w.log (
                Call.list_lockers io.ioctx oid name (room_of b₁ sizes.tag)
                  (room_of b₂ sizes.clients) (room_of b₃ sizes.cookies) (room_of b₄ sizes.addrs)) in
              let (t, c, k, a) =
                within.lockers w.log io.ioctx oid name (room_of b₁ sizes.tag)
                  (room_of b₂ sizes.clients) (room_of b₃ sizes.cookies) (room_of b₄ sizes.addrs) in
              then_outcome (write_buf b₁ r.tag) _ _
                (write_buf-IsDefined b₁ r.tag (zeroed-holds sizes.tag (length r.tag) b₁ e₁ t))
                λ t₁ f₁.
                  then_outcome (write_buf b₂ r.clients) _ _
                    (write_buf-IsDefined b₂ r.clients
                      (zeroed-holds sizes.clients (length r.clients) b₂ e₂ c))
                    λ t₂ f₂.
                      then_outcome (write_buf b₃ r.cookies) _ _
                        (write_buf-IsDefined b₃ r.cookies
                          (zeroed-holds sizes.cookies (length r.cookies) b₃ e₃ k))
                        λ t₃ f₃.
                          then_outcome (write_buf b₄ r.addrs) _ _
                            (write_buf-IsDefined b₄ r.addrs
                              (zeroed-holds sizes.addrs (length r.addrs) b₄ e₄ a))
                            λ t₄ f₄.
                              then_outcome (neg_checked p.overflow_checks 64 r.ret) _ _
                                (neg_checked-IsDefined p.overflow_checks 64 r.ret)
                                λ e g.
                                  then_test (e ==ℤ pos Locks.erange) _ _ _
                                    (loop-Defined fuel oid name _ _)
                                    (then_outcome (check_err p.overflow_checks (as_i32 r.ret)) _ _
                                      (check_err-IsDefined p.overflow_checks (as_i32 r.ret))
                                      λ u g'. decode_lockers-Defined r t₁ t₂ t₃ t₄ _)

  pub list_lockers-Defined :
      (fuel : ℕ) (oid name : Bytes) (w : World) → Defined (Locks.list_lockers p fuel io oid name w)
  unfolding Locks.list_lockers
  list_lockers-Defined fuel oid name w =
      then_string oid _ w (then_string name _ w (loop-Defined fuel oid name _ w))
