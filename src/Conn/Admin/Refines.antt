-- ===== src/Conn/Admin/Refines.antt =====
-- The methods of `Rados` refine the cluster that librados keeps.
use librados_rs.Base.{
  ℕ, suc, ◌^◌, ◌≡◌, refl, Bool-cases, inl, inr, ltb, leb, ℤ, List, [], ◌∷◌, length,
}
use librados_rs.Error.{Bytes, ok}
use librados_rs.Error.Laws.{check_err-pos, check_err-negsuc}
use librados_rs.Text.Laws.{pack}
use librados_rs.Text.Refusals.{obeyed, Meets, gate}
use librados_rs.Handles.{Rados, IoCtx, Duration}
use librados_rs.Ffi.Memory.{whole, Ptr}
use librados_rs.Ffi.Call
use librados_rs.Ffi.Call.{Call}
use librados_rs.Ffi.World.{
  Platform, World, Io, logged, lift, checked, call, check, pure, ◌>>=◌, ◌>>◌,
}
use librados_rs.IoCtx.Objects.Semantics.{Answer, done, failed, outcome_of, code_of}
use librados_rs.IoCtx.Objects.Semantics.Refines.{Fits, Fits_lem, check_code}
use librados_rs.Conn
use librados_rs.Conn.{u32_or_overflow}
use librados_rs.Conn.Pools.{list_pools_lem}
use librados_rs.Conn.Admin.{
  Request, Command, read_conf, configure, join, add_pool, remove_pool, block, sync, call_of,
  reply_of, Admin, Opens, Keeps, run, run_all, in_seconds, performed, opened, spec, replay,
}

-- The code in a reply.
abbrev ret_of : (r : Rados) → (c : Command) → Call.Reply (call_of r c) → ℤ
ret_of r (read_conf path) ret = ret
ret_of r (configure option value) ret = ret
ret_of r join ret = ret
ret_of r (add_pool name) ret = ret
ret_of r (remove_pool name) ret = ret
ret_of r (block addr seconds) ret = ret
ret_of r sync ret = ret

ret_of-reply_of :
    (r : Rados) (c : Command) (a : Answer (Unit {0})) → ret_of r c (reply_of r c a) ≡ code_of a
ret_of-reply_of r (read_conf path) a = refl
ret_of-reply_of r (configure option value) a = refl
ret_of-reply_of r join a = refl
ret_of-reply_of r (add_pool name) a = refl
ret_of-reply_of r (remove_pool name) a = refl
ret_of-reply_of r (block addr seconds) a = refl
ret_of-reply_of r sync a = refl

module _ (p : Platform) (spare : ℕ) (r : Rados) (t : Admin) (keeps : Keeps p r t) where
  perform-Fits : (c : Command) (w : World) → Fits (t.perform c (keeps.state w.log)).0
  perform-Fits c w = Fits_lem _ (t.errnos_fit c (keeps.state w.log))

  -- One call, whose code is the outcome.
  commands :
      (c : Command) (w : World)
      → Meets keeps.state
          (checked p (call_of r c) (ret_of r c) w)
          (obeyed (performed t r) (ok c) (keeps.state w.log))
  commands c w = (
    rw (keeps.replies w.log c, ret_of-reply_of r c (t.perform c (keeps.state w.log)).0)
        (check_code p.overflow_checks (λ u. u) _ (perform-Fits c w)),
    keeps.moves w.log c,
  )

  blocks :
      (addr : Bytes) (d : Duration) (w : World)
      → Meets keeps.state
          ((lift (u32_or_overflow d.secs) >>= λ seconds.
              checked p (Call.blocklist_add r.handle addr seconds) (λ ret. ret))
            w)
          (obeyed (performed t r) (in_seconds d (block addr)) (keeps.state w.log))
  unfolding u32_or_overflow
  blocks addr d w = elim (Bool-cases (ltb d.secs (2 ^ 32))) [
    | inl fits ↦ rw fits (commands (block addr d.secs) w)
    | inr over ↦ rw over (refl, refl)
  ]

  -- What is done with an accepted name.
  abbrev asks_for : (pool name : Bytes) → Io IoCtx
  asks_for pool name = do
    (ret, ioctx) ← call p (Call.ioctx_create r.handle name)
    check p ret
    pure (record { ioctx = ioctx; cluster = r.handle; pool_name = pool })

  asks_for-Opens :
      (pool name : Bytes) (w : World) (a : Answer Ptr)
      → Opens a (p.librados w.log (Call.ioctx_create r.handle name))
      → Fits a
      → asks_for pool name w ≡ (
        outcome_of (λ ioctx. record { ioctx = ioctx; cluster = r.handle; pool_name = pool }) a,
        logged (Call.ioctx_create r.handle name) w,
      )
  asks_for-Opens pool name w (done a) (ret, ioctx) fits =
      rw (ret, ioctx, check_err-pos p.overflow_checks 0)
  asks_for-Opens pool name w (failed e) ret fits =
      rw (ret, check_err-negsuc p.overflow_checks e fits)

  lists_pools :
      (w : World)
      → Meets keeps.state
          (Conn.list_pools p (suc (suc spare)) r w)
          (ok (t.pools (keeps.state w.log)), keeps.state w.log)
  lists_pools w =
      let σ = keeps.state w.log in
      let lists = keeps.lists σ in
      let done' =
        list_pools_lem p r (t.pools σ) (λ log. keeps.state log ≡ σ) lists (t.pools_short σ)
          (keeps.stays σ) spare w refl (t.pools_named σ) in
      let once = keeps.stays σ w.log 1024 refl in
      let total = length (pack (t.pools σ)) in
      let twice = keeps.stays σ (Call.pool_list r.handle (whole 1024) ∷ w.log) total once in
      rw done' (elim (Bool-cases (leb total 1024)) [
        | inl fit ↦ rw fit (refl, once)
        | inr tight ↦ rw tight (refl, twice)
      ])

  run-Meets :
      (q : Request) (w : World)
      → Meets keeps.state (run p (suc (suc spare)) r q w) (spec t r q (keeps.state w.log))
  unfolding run spec Conn.conf_read_file Conn.conf_set Conn.connect Conn.create_pool
      Conn.delete_pool Conn.blocklist_add Conn.wait_for_latest_osdmap Conn.create_ioctx
  run-Meets (Request.conf_read_file path) w =
      gate keeps.state (performed t r) path [] _ (ok (read_conf path)) w
        (commands (read_conf path) w)
  run-Meets (Request.conf_set option value) w =
      let c = ok (configure option value) in
      gate keeps.state (performed t r) option (value ∷ []) _ c w
        (gate keeps.state (performed t r) value [] _ c w (commands (configure option value) w))
  run-Meets Request.connect w = commands join w
  run-Meets (Request.create_pool name) w =
      gate keeps.state (performed t r) name [] _ (ok (add_pool name)) w (commands (add_pool name) w)
  run-Meets (Request.delete_pool name) w =
      gate keeps.state (performed t r) name [] _ (ok (remove_pool name)) w
        (commands (remove_pool name) w)
  run-Meets Request.list_pools w = lists_pools w
  run-Meets (Request.blocklist_add addr expire) w =
      gate keeps.state (performed t r) addr [] _ (in_seconds expire (block addr)) w
        (blocks addr expire w)
  run-Meets Request.wait_for_latest_osdmap w = commands sync w
  run-Meets (Request.create_ioctx pool) w = gate keeps.state (opened t r) pool [] _ (ok pool) w (
      let fits = Fits_lem _ (t.open_errnos_fit pool (keeps.state w.log)) in
      rw (asks_for-Opens pool pool w _ (keeps.opens w.log pool) fits)
        (refl, keeps.moves_open w.log pool))

  -- Where librados keeps some cluster: whatever sequence of methods a client calls on a `Rados`, it
  -- gets the outcomes of the specification, and the cluster changes as it says. The first string
  -- with a NUL byte, and then a blocklisting of 2 ^ 32 seconds or more, is refused without a
  -- change; parts of a second are cut off; `list_pools`, on fuel for two rounds, returns the pools
  -- that there are, and changes nothing; `create_ioctx` returns the context that was opened for
  -- the pool.
  pub run_all_obeys :
      (qs : List Request) (w : World)
      → let (os, w') = run_all p (suc (suc spare)) r qs w in
        (os ≡ (replay t r qs (keeps.state w.log)).0)
        × (keeps.state w'.log ≡ (replay t r qs (keeps.state w.log)).1)
  unfolding run_all replay
  run_all_obeys [] w = (refl, refl)
  run_all_obeys (q ∷ qs) w =
      let (o, moved) = run-Meets q w in
      let (os, moved') = run_all_obeys qs (run p (suc (suc spare)) r q w).1 in
      (rw (o, os, moved), rw (moved', moved))
