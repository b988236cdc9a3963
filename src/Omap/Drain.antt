-- ===== src/Omap/Drain.antt =====
-- An omap iterator is drained by `pairs`.
use librados_rs.Base.{
  refl, Option, ℕ, zero, suc, ◌<◌, ◌≡◌, ap, ◌∙◌, List, [], ◌∷◌, ◌++◌, none, some, length, arith,
  append_assoc, append-nil,
}
use librados_rs.Error.{Bytes, ok}
use librados_rs.Ffi.Memory.{Ptr}
use librados_rs.Ffi.Buffers.{from_raw_parts_whole}
use librados_rs.Ffi.Call.{Call, NextReply}
use librados_rs.Ffi.World.{Platform, World, logged}
use librados_rs.IoCtx.Notify.{copy_payload}
use librados_rs.Omap.{OmapIter, pairs_loop, pairs}

-- An empty value comes as a null pointer.
abbrev pub value_pointer : Bytes → Option Bytes
value_pointer [] = none
value_pointer (b ∷ v) = some (b ∷ v)

-- The reply for one pair.
abbrev pub pair_reply : Bytes × Bytes → NextReply
pair_reply (k, v) = record {
  key = some k;
  val = value_pointer v;
  key_len = length k;
  val_len = length v;
}

-- The reply at the end.
abbrev pub end_reply : NextReply
end_reply = record { key = none; val = none; key_len = 0; val_len = 0 }

-- After `log` the iterator yields these pairs one by one, and then a null key.
abbrev pub YieldsPairs : Platform → Ptr → List Call → List (Bytes × Bytes) → Type 0
YieldsPairs p iter log [] = p.librados log (Call.omap_get_next2 iter) ≡ end_reply
YieldsPairs p iter log (kv ∷ kvs) =
    (p.librados log (Call.omap_get_next2 iter) ≡ pair_reply kv)
    × YieldsPairs p iter (Call.omap_get_next2 iter ∷ log) kvs

-- The log after `n` more steps of the iterator.
abbrev pub stepped : ℕ → Ptr → List Call → List Call
stepped zero iter log = log
stepped (suc n) iter log = stepped n iter (Call.omap_get_next2 iter ∷ log)

copied : (v : Bytes) → copy_payload (value_pointer v) (length v) ≡ ok v
unfolding copy_payload
copied [] = refl
copied (b ∷ v) = from_raw_parts_whole (b ∷ v)

module _ (p : Platform) (iter : OmapIter) where
  loop_drains :
      (fuel : ℕ) (acc kvs : List (Bytes × Bytes)) (w : World)
      → YieldsPairs p iter.raw w.log kvs
      → length kvs < fuel
      → pairs_loop p fuel iter acc w
        ≡ (ok (acc ++ kvs), record w { log = stepped (suc (length kvs)) iter.raw w.log })
  unfolding pairs_loop
  loop_drains zero acc kvs w h lt = absurd (omega arith)
  loop_drains (suc fuel) acc [] w h lt = rw (h, append-nil)
  loop_drains (suc fuel) acc ((k, v) ∷ kvs) w h lt =
      rw
        (
          ap (λ (r : NextReply). r.key) h.0,
          ap (λ (r : NextReply). r.key_len) h.0,
          ap (λ (r : NextReply). r.val) h.0,
          ap (λ (r : NextReply). r.val_len) h.0,
          from_raw_parts_whole k,
          copied v,
        )
        (loop_drains fuel (acc ++ (k, v) ∷ []) kvs (logged (Call.omap_get_next2 iter.raw) w) h.1
            (omega arith)
          ∙ ap
              (λ r. (
                ok r,
                record w {
                  log = stepped (suc (length kvs)) iter.raw (Call.omap_get_next2 iter.raw ∷ w.log);
                },
              ))
              (append_assoc acc ((k, v) ∷ []) kvs))

  -- Where an iterator yields the pairs `kvs`, and then a null key: `pairs` gives exactly these,
  -- in order, empty values included. One more round than there are pairs is enough.
  pub pairs_lem :
      (fuel : ℕ) (kvs : List (Bytes × Bytes)) (w : World)
      → YieldsPairs p iter.raw w.log kvs
      → length kvs < fuel
      → pairs p fuel iter w ≡ (ok kvs, record w { log = stepped (suc (length kvs)) iter.raw w.log })
  unfolding pairs
  pairs_lem fuel kvs w h lt = loop_drains fuel [] kvs w h lt
