-- ===== src/IoCtx/Notify/Decode.antt =====
-- The decoding of the watchers' replies.
use librados_rs.Base.{
  ℕ, ◌≡◌, ◌≢◌, ◌⊎◌, inl, inr, refl, ap, ◌==◌, ==_ne, Bool-cases, pos, List, [], ◌∷◌, map, length,
  some,
}
use librados_rs.Error.{ok}
use librados_rs.Error.Laws.{check_err-pos}
use librados_rs.Ffi.Memory.{Ptr, null, NotifyAckT, NotifyTimeoutT}
use librados_rs.Ffi.Buffers.{from_raw_parts_whole}
use librados_rs.Ffi.Call.{Call, DecodeReply}
use librados_rs.Ffi.World.{Platform, World, logged}
use librados_rs.IoCtx.Notify.{
  NotifyAck, NotifyTimeout, NotifyResponse, as_slice, copy_payload, copy_acks, copy_timeouts,
  decode_notify_response,
}

-- The struct that librados allocates for an ack.
abbrev pub encode_ack : NotifyAck → NotifyAckT
encode_ack a = record {
  notifier_id = a.notifier_id;
  cookie = a.cookie;
  payload = some a.payload;
  payload_len = length a.payload;
}

abbrev pub encode_timeout : NotifyTimeout → NotifyTimeoutT
encode_timeout t = record { notifier_id = t.notifier_id; cookie = t.cookie }

-- The reply that stands for a response, with its arrays at these addresses.
abbrev pub encode : ℕ → (acks timeouts : Ptr) → NotifyResponse → DecodeReply
encode code acks timeouts r = record {
  ret = pos code;
  acks = acks;
  ack_array = map encode_ack r.acks;
  nr_acks = length (map encode_ack r.acks);
  timeouts = timeouts;
  timeout_array = map encode_timeout r.timeouts;
  nr_timeouts = length (map encode_timeout r.timeouts);
}

-- An array at `a`; an empty one may be a null pointer.
abbrev pub IsArray : {A : Type 0} → Ptr → List A → Type 0
IsArray a xs = (a ≢ null) ⊎ (xs ≡ [])

as_slice_whole :
    {A : Type 0} (a : Ptr) (xs : List A) → IsArray a xs → as_slice a xs (length xs) ≡ ok xs
unfolding as_slice
as_slice_whole a xs (inl h) = rw (==_ne a null h) (from_raw_parts_whole xs)
as_slice_whole a xs (inr e) =
    rw e (elim (Bool-cases (a == null)) [ inl h ↦ rw h | inr h ↦ rw h (from_raw_parts_whole []) ])

copy_acks-encode : (l : List NotifyAck) (w : World) → copy_acks (map encode_ack l) w ≡ (ok l, w)
unfolding copy_acks copy_payload
copy_acks-encode [] w = refl
copy_acks-encode (a ∷ l) w = rw (from_raw_parts_whole a.payload, copy_acks-encode l w)

copy_timeouts-encode : (l : List NotifyTimeout) → copy_timeouts (map encode_timeout l) ≡ l
unfolding copy_timeouts
copy_timeouts-encode [] = refl
copy_timeouts-encode (t ∷ l) = ap (◌∷◌ t) (copy_timeouts-encode l)

-- Where the reply is not empty and librados decodes it to the structs that stand for a response:
-- the decoding gives back every ack with its payload and every timeout, in order, and then frees
-- the two arrays.
pub decode_lem :
    (p : Platform) (reply : Ptr) (len code : ℕ) (acks timeouts : Ptr) (r : NotifyResponse)
    (w : World)
    → reply ≢ null
    → len ≢ 0
    → p.librados w.log (Call.decode_notify_response reply len) ≡ encode code acks timeouts r
    → IsArray acks (map encode_ack r.acks)
    → IsArray timeouts (map encode_timeout r.timeouts)
    → decode_notify_response p reply len w ≡ (
      ok r,
      logged
          (Call.free_notify_response acks (length (map encode_ack r.acks)) timeouts)
          (logged (Call.decode_notify_response reply len) w),
    )
unfolding decode_notify_response
decode_lem p reply len code acks timeouts r w hr hl replied ha ht = rw (
  ==_ne reply null hr,
  ==_ne len 0 hl,
  replied,
  check_err-pos p.overflow_checks code,
  as_slice_whole acks (map encode_ack r.acks) ha,
  copy_acks-encode r.acks,
  as_slice_whole timeouts (map encode_timeout r.timeouts) ht,
  copy_timeouts-encode r.timeouts,
)
