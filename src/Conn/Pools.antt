-- ===== src/Conn/Pools.antt =====
-- `Rados::list_pools` against what librados documents of `rados_pool_list`.
use librados_rs.Ffi.Memory.{whole}
use librados_rs.Base.{
  ℕ, suc, ◌+◌, ◌-◌, ◌^◌, ◌<◌, ◌≤◌, ◌≡◌, ◌≢◌, ap, ◌∙◌, Bool, pos, as_usize, List, [], ◌∷◌, ◌++◌, map,
  leb, length, take, drop, replicate, if◌then◌else◌, arith, inl, inr, Bool-cases,
}
use librados_rs.Error.{Bytes, ok, check_err}
use librados_rs.Text.{split_nul, drop_empty, sub_usize, from_utf8_lossy}
use librados_rs.Text.Laws.{
  slice_to-append, resize-ok, length-resized, NoNul, pack, split_nul-pack, drop_empty-pack,
}
use librados_rs.Text.Utf8.{All, All-map, IsUtf8, map-from_utf8_lossy}
use librados_rs.Handles.{Rados}
use librados_rs.Ffi.Call.{Call}
use librados_rs.Ffi.Buffers.{write_buf-ok, length-written}
use librados_rs.Ffi.World.{Platform, World, logged}
use librados_rs.Conn.{list_pools_loop, list_pools}

-- `rados_pool_list` while the cluster has these pools: it returns the needed length plus one,
-- writes all names where they fit, and never more than the buffer holds.
pub record ListsPools (p : Platform) (h : ℕ) (names : List Bytes) (Now : List Call → Type 0)
    : Type 0 where
  pub needed :
      (log : List Call) (len : ℕ)
      → Now log
      → (p.librados log (Call.pool_list h (whole len))).0 ≡ pos (length (pack names) + 1)
  pub fits :
      (log : List Call) (len : ℕ)
      → Now log
      → length (pack names) ≤ len
      → (p.librados log (Call.pool_list h (whole len))).1 ≡ pack names
  pub bounded :
      (log : List Call) (len : ℕ)
      → Now log
      → length (p.librados log (Call.pool_list h (whole len))).1 ≤ len

-- A listing changes no pool.
abbrev pub Stays : ℕ → (List Call → Type 0) → Type 0
Stays h Now = (log : List Call) (len : ℕ) → Now log → Now (Call.pool_list h (whole len) ∷ log)

-- A pool name: not empty, free of NUL bytes, and text.
abbrev pub IsPoolName : Bytes → Type 0
IsPoolName s = (s ≢ []) × NoNul s × IsUtf8 s

-- `ret as usize - 1` where `ret` is one more than `n`.
less_one :
    (checks : Bool) (n : ℕ) → n + 1 < 2 ^ 31 → sub_usize checks (as_usize (pos (n + 1))) 1 ≡ ok n
unfolding sub_usize
less_one checks n h = ground arith

module _ (p : Platform) (r : Rados) (names : List Bytes) (Now : List Call → Type 0)
    (lists : ListsPools p r.handle names Now) (small : length (pack names) + 1 < 2 ^ 31) where
  abbrev total : ℕ
  total = length (pack names)

  abbrev asked : ℕ → World → World
  asked len w = logged (Call.pool_list r.handle (whole len)) w

  -- A round whose buffer is large enough is the last one.
  pub round_fits :
      (fuel : ℕ) (buf : Bytes) (w : World)
      → Now w.log
      → total ≤ length buf
      → list_pools_loop p (suc fuel) r buf w
        ≡ (ok (pack names ++ drop total buf, total), asked (length buf) w)
  unfolding list_pools_loop check_err
  round_fits fuel buf w now h =
      rw
        (
          lists.fits w.log (length buf) now h,
          lists.needed w.log (length buf) now,
          write_buf-ok buf (pack names) h,
          less_one p.overflow_checks total small,
          length-written buf (pack names) h,
        )
        (ground arith)

  -- A round whose buffer is too small goes on with one of exactly the needed length.
  pub round_grows :
      (fuel : ℕ) (buf : Bytes) (w : World)
      → Now w.log
      → length buf < total
      → (bigger : Bytes) × (length bigger ≡ total)
        × (list_pools_loop p (suc fuel) r buf w
            ≡ list_pools_loop p fuel r bigger (asked (length buf) w))
  unfolding list_pools_loop check_err
  round_grows fuel buf w now h =
      let written = (p.librados w.log (Call.pool_list r.handle (whole (length buf)))).1 in
      let b = lists.bounded w.log (length buf) now in
      let buf' = written ++ drop (length written) buf in
      let e = length-written buf written b in
      (
        take total buf' ++ replicate (total - length buf') 0,
        length-resized buf' total,
        rw
            (
              lists.needed w.log (length buf) now,
              write_buf-ok buf written b,
              less_one p.overflow_checks total small,
              resize-ok buf' total (omega arith),
            )
            (ground arith),
      )

  two_rounds :
      Stays r.handle Now
      → (fuel : ℕ) (buf : Bytes) (w : World) → Now w.log
      → length buf < total
      → (rest : Bytes) × (list_pools_loop p (suc (suc fuel)) r buf w
          ≡ (ok (pack names ++ rest, total), asked total (asked (length buf) w)))
  two_rounds stays fuel buf w now h =
      let (bigger, n, e) = round_grows (suc fuel) buf w now h in
      let done =
        round_fits fuel bigger (asked (length buf) w) (stays w.log (length buf) now)
          (omega arith) in
      let same =
        ap (λ k. (ok (pack names ++ drop total bigger, total), asked k (asked (length buf) w))) n in
      (drop total bigger, e ∙ done ∙ same)

  decode : All IsPoolName names → map from_utf8_lossy (drop_empty (split_nul (pack names))) ≡ names
  decode h =
      rw
        (
          split_nul-pack names (All-map (λ s i. i.1) names h),
          drop_empty-pack names (All-map (λ s i. i.0) names h),
        )
        (map-from_utf8_lossy names (All-map (λ s i. i.2) names h))

  -- What `list_pools` makes of a loop that ended with the names in front.
  pub after_loop :
      (fuel : ℕ) (rest : Bytes) (w w' : World)
      → All IsPoolName names
      → list_pools_loop p fuel r (replicate 1024 0) w ≡ (ok (pack names ++ rest, total), w')
      → list_pools p fuel r w ≡ (ok names, w')
  unfolding list_pools
  after_loop fuel rest w w' h e = rw (e, slice_to-append (pack names) rest, decode h)

  -- While librados lists these pools, which a listing does not change, whose names are text without NUL bytes and not empty, in
  -- less than 2 ^ 31 bytes: `list_pools` returns exactly the names, in their order. It asks once
  -- with 1024 bytes, and where that is too little once more with exactly what is needed, so two
  -- rounds are enough.
  pub list_pools_lem :
      Stays r.handle Now
      → (fuel : ℕ) (w : World) → Now w.log
      → All IsPoolName names
      → list_pools p (suc (suc fuel)) r w
        ≡ (ok names, if leb total 1024 then asked 1024 w else asked total (asked 1024 w))
  list_pools_lem stays fuel w now h = elim (Bool-cases (leb total 1024)) [
    | inl fit ↦ rw fit (
        after_loop (suc (suc fuel)) _ w _ h
          (round_fits (suc fuel) (replicate 1024 0) w now (ground arith)))
    | inr tight ↦
        let (rest, e) = two_rounds stays fuel (replicate 1024 0) w now (ground arith) in
        rw tight (after_loop (suc (suc fuel)) rest w _ h e)
  ]
