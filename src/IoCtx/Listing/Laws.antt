-- ===== src/IoCtx/Listing/Laws.antt =====
-- `list_objects` against what librados documents of an object listing.
use librados_rs.Base.{
  Option-cases, inl, inr, some, false, ℕ, zero, suc, ◌<◌, ◌≡◌, refl, ap, ◌∙◌, pos, neg_of_ℕ, is_neg,
  List, [], ◌∷◌, ◌++◌, map, length, arith, append_assoc, append-nil, take,
}
use librados_rs.Error.{Bytes, ok, enoent, neg_checked, check_err}
use librados_rs.Text.{from_utf8_lossy}
use librados_rs.Handles.{IoCtx}
use librados_rs.Ffi.Memory.{Ptr, from_raw_parts}
use librados_rs.Ffi.Buffers.{from_raw_parts_whole}
use librados_rs.Ffi.Call.{Call}
use librados_rs.Ffi.World.{Platform, World, logged}
use librados_rs.IoCtx.Notify.Laws.{IsSettled, last_call}
use librados_rs.IoCtx.Listing.{name_of, list_loop, list_objects, drop_list}

-- How often a listing was closed.
abbrev pub closings : List Call → ℕ
closings [] = 0
closings (Call.nobjects_list_close _ ∷ log) = suc (closings log)
closings (_ ∷ log) = closings log

-- The log after `n` more calls of the listing.
abbrev pub asked : ℕ → Ptr → List Call → List Call
asked zero ctx log = log
asked (suc n) ctx log = asked n ctx (Call.nobjects_list_next2 ctx ∷ log)

-- After `log` the context `ctx` yields these names one by one, and then -ENOENT.
abbrev pub Yields : Platform → Ptr → List Call → List Bytes → Type 0
Yields p ctx log [] = (p.librados log (Call.nobjects_list_next2 ctx)).0 ≡ neg_of_ℕ enoent
Yields p ctx log (s ∷ ss) =
    (p.librados log (Call.nobjects_list_next2 ctx) ≡ (pos 0, some s, length s))
    × Yields p ctx (Call.nobjects_list_next2 ctx ∷ log) ss

module _ (p : Platform) where
  loop_lists :
      (fuel : ℕ) (ctx : Ptr) (names ss : List Bytes) (w : World)
      → Yields p ctx w.log ss
      → length ss < fuel
      → list_loop p fuel ctx names w ≡ (
        ok (names ++ map from_utf8_lossy ss),
        record w { log = asked (suc (length ss)) ctx w.log },
      )
  unfolding list_loop name_of neg_checked check_err
  loop_lists zero ctx names ss w h lt = absurd (omega arith)
  loop_lists (suc fuel) ctx names [] w h lt = rw (h, append-nil)
  loop_lists (suc fuel) ctx names (s ∷ ss) w h lt =
      rw (h.0, from_raw_parts_whole s)
        (loop_lists fuel ctx (names ++ from_utf8_lossy s ∷ []) ss
            (logged (Call.nobjects_list_next2 ctx) w) h.1 (omega arith)
          ∙ ap
              (λ r. (
                ok r,
                record w {
                  log = asked (suc (length ss)) ctx (Call.nobjects_list_next2 ctx ∷ w.log);
                },
              ))
              (append_assoc names (from_utf8_lossy s ∷ []) (map from_utf8_lossy ss)))

  -- Where librados opens a listing that yields the names `ss`, and then -ENOENT: `list_objects`
  -- returns them all, in order, as text, and closes the listing last. One more round than there
  -- are names is enough.
  pub list_objects_lem :
      (fuel : ℕ) (io : IoCtx) (ctx : Ptr) (ss : List Bytes) (w : World)
      → p.librados w.log (Call.nobjects_list_open io.ioctx) ≡ (pos 0, ctx)
      → Yields p ctx (Call.nobjects_list_open io.ioctx ∷ w.log) ss
      → length ss < fuel
      → list_objects p fuel io w ≡ (
        ok (map from_utf8_lossy ss),
        record w {
          log =
              Call.nobjects_list_close ctx
              ∷ asked (suc (length ss)) ctx (Call.nobjects_list_open io.ioctx ∷ w.log);
        },
      )
  unfolding list_objects check_err
  list_objects_lem fuel io ctx ss w opened yields lt =
      rw (opened, loop_lists fuel ctx [] ss (logged (Call.nobjects_list_open io.ioctx) w) yields lt)

  -- The loop closes nothing itself.
  list_loop-closings :
      (fuel : ℕ) (ctx : Ptr) (names : List Bytes) (w : World)
      → closings (list_loop p fuel ctx names w).1.log ≡ closings w.log
  unfolding list_loop name_of from_raw_parts
  list_loop-closings zero ctx names w = refl
  list_loop-closings (suc fuel) ctx names w =
      let (ret, entry, size) = p.librados w.log (Call.nobjects_list_next2 ctx) in
      elim (Option-cases entry) [
        | inl e ↦ rw e (ground arith)
        | inr (m, e) ↦ rw e (
            ground (
              arith,
              list_loop-closings fuel ctx (names ++ from_utf8_lossy (take size m) ∷ [])
                  (logged (Call.nobjects_list_next2 ctx) w),
            ))
      ]

  -- Where librados opens a listing, and `list_objects` comes back with names or with an error:
  -- its context is closed exactly once, by the last call.
  pub list_objects_closes :
      (fuel : ℕ) (io : IoCtx) (w : World)
      → is_neg (p.librados w.log (Call.nobjects_list_open io.ioctx)).0 ≡ false
      → IsSettled (list_objects p fuel io w).0
      → let (r, w') = list_objects p fuel io w in
        (last_call w'.log
          ≡ some (Call.nobjects_list_close (p.librados w.log (Call.nobjects_list_open io.ioctx)).1))
        × (closings w'.log ≡ suc (closings w.log))
  unfolding list_objects check_err drop_list
  list_objects_closes fuel io w opened =
      let sent = Call.nobjects_list_open io.ioctx in
      let ctx = (p.librados w.log sent).1 in
      rw opened (λ h. ground (arith, list_loop-closings fuel ctx [] (logged sent w)))
