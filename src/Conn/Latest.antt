-- ===== src/Conn/Latest.antt =====
-- `Rados::list_pools` while others create and delete pools.
use librados_rs.Ffi.Memory.{whole}
use librados_rs.Base.{
  ℕ, zero, suc, ◌+◌, ◌<◌, ◌≤◌, ◌^◌, ◌≡◌, refl, ap, ◌∙◌, List, ◌∷◌, ◌++◌, leb, length, drop,
  replicate, arith, inl, inr, Bool-cases,
}
use librados_rs.Error.{Bytes, Outcome, ok}
use librados_rs.Text.Laws.{pack}
use librados_rs.Text.Utf8.{All}
use librados_rs.Handles.{Rados}
use librados_rs.Ffi.Call.{Call}
use librados_rs.Ffi.History.{Grew, same, Grew-before}
use librados_rs.Ffi.World.{Platform, World, logged}
use librados_rs.Conn.{list_pools_loop, list_pools}
use librados_rs.Conn.Pools.{ListsPools, IsPoolName, round_fits, round_grows, after_loop}

-- Now is the moment after these calls.
abbrev pub Moment : List Call → List Call → Type 0
Moment log l = l ≡ log

-- A call that lists pools.
abbrev pub Lists : ℕ → Call → Type 0
Lists h c = (len : ℕ) × (c ≡ Call.pool_list h (whole len))

module _ (p : Platform) (r : Rados) (names : List Call → List Bytes)
    (lists : (log : List Call) → ListsPools p r.handle (names log) (Moment log))
    (short : (log : List Call) → length (pack (names log)) + 1 < 2 ^ 31) where
  -- A loop ends well: its last call, after `log`, met these names, and they stand at the front of
  -- the buffer.
  abbrev Ended : World → Outcome (Bytes × ℕ) × World → Type 0
  Ended w (o, w') =
      (log : List Call) × (len : ℕ) × (rest : Bytes) × (o
        ≡ ok (pack (names log) ++ rest, length (pack (names log))))
      × (w' ≡ record w { log = Call.pool_list r.handle (whole len) ∷ log })
      × Grew (Lists r.handle) w.log log

  loop_ends :
      (fuel bound : ℕ) (buf : Bytes) (w : World)
      → ((log : List Call) → length (pack (names log)) ≤ bound)
      → bound ≤ fuel + length buf
      → Ended w (list_pools_loop p (suc fuel) r buf w)
  loop_ends zero bound buf w h enough =
      let most = h w.log in
      let e =
        round_fits p r (names w.log) (Moment w.log) (lists w.log) (short w.log) zero buf w refl
          (omega arith) in
      rw e (w.log, length buf, drop (length (pack (names w.log))) buf, refl, refl, same)
  loop_ends (suc fuel) bound buf w h enough =
      let total = length (pack (names w.log)) in
      elim (Bool-cases (leb total (length buf))) [
        | inl fit ↦
            let e =
              round_fits p r (names w.log) (Moment w.log) (lists w.log) (short w.log) (suc fuel) buf
                w refl (ground arith) in
            rw e (w.log, length buf, drop total buf, refl, refl, same)
        | inr tight ↦
            let (bigger, n, e) =
              round_grows p r (names w.log) (Moment w.log) (lists w.log) (short w.log) (suc fuel)
                buf w refl (ground arith) in
            let less : length buf < total = ground arith in
            let (log, len, rest, o, w', grew) =
              loop_ends fuel bound bigger (logged (Call.pool_list r.handle (whole (length buf))) w)
                h (omega arith) in
            rw e (log, len, rest, o, w', Grew-before (length buf, refl) grew)
      ]

  -- Where the pools may change between any two calls, their names being text without NUL bytes and
  -- not empty, in at most `bound` bytes, and less than 2 ^ 31: `list_pools` calls nothing but
  -- rados_pool_list, and returns exactly the pools that its last call met. One round for each byte
  -- of the bound beyond the first 1024 is enough, and one more.
  pub list_pools_latest :
      (fuel bound : ℕ) (w : World)
      → ((log : List Call) → All IsPoolName (names log))
      → ((log : List Call) → length (pack (names log)) ≤ bound)
      → bound ≤ fuel + 1024
      → let (o, w') = list_pools p (suc fuel) r w in
        (log : List Call) × (len : ℕ) × (o ≡ ok (names log))
        × (w' ≡ record w { log = Call.pool_list r.handle (whole len) ∷ log })
        × Grew (Lists r.handle) w.log log
  list_pools_latest fuel bound w named h enough =
      let start = replicate 1024 0 in
      let run = list_pools_loop p (suc fuel) r start w in
      let (log, len, rest, o, w', grew) = loop_ends fuel bound start w h enough in
      let ran : run ≡ (
        ok (pack (names log) ++ rest, length (pack (names log))),
        record w { log = Call.pool_list r.handle (whole len) ∷ log },
      ) =
        ap (λ a. (a, run.1)) o
        ∙ ap (λ b. (ok (pack (names log) ++ rest, length (pack (names log))), b)) w' in
      let e =
        after_loop p r (names log) (Moment log) (lists log) (short log) (suc fuel) rest w _
          (named log) ran in
      rw e (log, len, refl, refl, grew)
