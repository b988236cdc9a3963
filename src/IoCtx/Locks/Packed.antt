-- ===== src/IoCtx/Locks/Packed.antt =====
-- `list_lockers` against what librados documents of `rados_list_lockers`.
use librados_rs.Base.{
  ℕ, suc, ◌+◌, ◌-◌, ◌<◌, ◌≤◌, ◌^◌, ◌≡◌, refl, ap, ◌∙◌, Bool, true, false, not, ℤ, pos, neg_of_ℕ,
  as_i32, ◌==ℤ◌, List, [], ◌∷◌, ◌++◌, map, length, drop, replicate, take, ◌==◌, arith,
  length-append, length-replicate, append_assoc, Bool-cases, inl, inr, ◌&&◌, leb, if◌then◌else◌,
}
use librados_rs.Error.{Bytes, ok, erange, neg_checked, check_err}
use librados_rs.Error.Laws.{neg_pos_ne_errno}
use librados_rs.Text.{slice_to, sub_usize, zeroed}
use librados_rs.Text.Laws.{
  zeroed-ok, NoNul, pack, slice_to-append, split_nul-take-pack, cstring-NoNul,
}
use librados_rs.Text.Utf8.{All, All-map, IsUtf8, map-from_utf8_lossy, from_utf8_lossy-IsUtf8}
use librados_rs.Handles.{IoCtx}
use librados_rs.Ffi.Memory.{whole, write_buf}
use librados_rs.Ffi.Buffers.{write_buf-ok}
use librados_rs.Ffi.Call.{Call, LockersReply}
use librados_rs.Ffi.World.{Platform, World, logged}
use librados_rs.IoCtx.Locks.{
  Locker, Lockers, Sizes, strings, zip_lockers, decode_lockers, list_lockers_loop, list_lockers,
}

-- A string of a lock: text free of NUL bytes; it may be empty.
abbrev pub IsText : Bytes → Type 0
IsText s = NoNul s × IsUtf8 s

some_bytes : (s : Bytes) (ss : List Bytes) → (length (pack (s ∷ ss)) == 0) ≡ false
unfolding pack
some_bytes s ss = ground (arith, length-append s (0 ∷ pack ss))

slice_front :
    (s : Bytes) (ss : List Bytes) (rest : Bytes)
    → slice_to (pack (s ∷ ss) ++ rest) (length (pack (s ∷ ss)) - 1)
      ≡ ok (take (length (pack (s ∷ ss)) - 1) (pack (s ∷ ss) ++ rest))
unfolding slice_to
slice_front s ss rest = ground (arith, length-append (pack (s ∷ ss)) rest)

-- Unpacking the front of a buffer gives back the packed strings, empty ones included.
pub strings-pack :
    (ss : List Bytes) (rest : Bytes)
    → All IsText ss
    → strings (pack ss ++ rest) (length (pack ss)) ≡ ok ss
unfolding strings pack
strings-pack [] rest h = refl
strings-pack (s ∷ ss) rest h =
    let n = length (pack (s ∷ ss)) in
    rw
      (
        some_bytes s ss,
        slice_front s ss rest,
        split_nul-take-pack s ss rest (All-map (λ _ i. i.0) (s ∷ ss) h),
      )
      (ap ok (map-from_utf8_lossy (s ∷ ss) (All-map (λ _ i. i.1) (s ∷ ss) h)))

zip_lockers-map :
    (ls : List Locker)
    → zip_lockers (map (λ l. l.client) ls) (map (λ l. l.cookie) ls) (map (λ l. l.addr) ls) ≡ ls
unfolding zip_lockers
zip_lockers-map [] = refl
zip_lockers-map (l ∷ ls) = ap (◌∷◌ l) (zip_lockers-map ls)

-- The strings of the lockers, as they are packed.
abbrev pub clients_of : List Locker → List Bytes
clients_of ls = map (λ l. l.client) ls

abbrev pub cookies_of : List Locker → List Bytes
cookies_of ls = map (λ l. l.cookie) ls

abbrev pub addrs_of : List Locker → List Bytes
addrs_of ls = map (λ l. l.addr) ls

-- What the four buffers need to hold.
abbrev pub needed : Lockers → Sizes
needed l = record {
  tag = length l.tag + 1;
  clients = length (pack (clients_of l.lockers));
  cookies = length (pack (cookies_of l.lockers));
  addrs = length (pack (addrs_of l.lockers));
}

-- All four buffers are large enough.
abbrev pub fit : Sizes → Sizes → Bool
fit n s =
    leb n.tag s.tag && leb n.clients s.clients && leb n.cookies s.cookies && leb n.addrs s.addrs

-- No buffer is larger than a return code can count.
abbrev pub IsModest : Sizes → Type 0
IsModest s = (s.tag < 2 ^ 31) × (s.clients < 2 ^ 31) × (s.cookies < 2 ^ 31) × (s.addrs < 2 ^ 31)

-- What is written where everything fits.
abbrev pub full_reply : ℤ → Lockers → LockersReply
full_reply exclusive l = record {
  ret = pos (length l.lockers);
  exclusive = exclusive;
  tag = l.tag ++ 0 ∷ [];
  clients = pack (clients_of l.lockers);
  cookies = pack (cookies_of l.lockers);
  addrs = pack (addrs_of l.lockers);
  tag_used = (needed l).tag;
  clients_used = (needed l).clients;
  cookies_used = (needed l).cookies;
  addrs_used = (needed l).addrs;
}

-- Where a buffer is too small nothing is written, and the needed lengths are reported.
abbrev pub short_reply : Lockers → LockersReply
short_reply l = record {
  ret = neg_of_ℕ erange;
  exclusive = pos 0;
  tag = [];
  clients = [];
  cookies = [];
  addrs = [];
  tag_used = (needed l).tag;
  clients_used = (needed l).clients;
  cookies_used = (needed l).cookies;
  addrs_used = (needed l).addrs;
}

abbrev pub request : IoCtx → (oid name : Bytes) → Sizes → Call
request io oid name s =
    Call.list_lockers io.ioctx oid name (whole s.tag) (whole s.clients) (whole s.cookies)
      (whole s.addrs)

-- `rados_list_lockers` of a lock with these holders.
pub record HoldsLock (p : Platform) (io : IoCtx) (oid name : Bytes) (l : Lockers) : Type 0 where
  pub exclusive : ℤ
  pub exclusive_flag : not (exclusive ==ℤ pos 0) ≡ l.exclusive
  pub fits :
      (log : List Call) (s : Sizes)
      → fit (needed l) s ≡ true
      → p.librados log (request io oid name s) ≡ full_reply exclusive l
  pub too_small :
      (log : List Call) (s : Sizes)
      → fit (needed l) s ≡ false
      → p.librados log (request io oid name s) ≡ short_reply l
  pub tag_text : IsText l.tag
  pub clients_text : All IsText (clients_of l.lockers)
  pub cookies_text : All IsText (cookies_of l.lockers)
  pub addrs_text : All IsText (addrs_of l.lockers)
  pub modest : IsModest (needed l)
  pub few : length l.lockers < 2 ^ 31

zeroed_small : (n : ℕ) → n < 2 ^ 31 → zeroed n ≡ ok (replicate n 0)
zeroed_small n h = zeroed-ok n (omega arith)

filled :
    (s : Bytes) (n : ℕ)
    → length s ≤ n
    → write_buf (replicate n 0) s ≡ ok (s ++ drop (length s) (replicate {A = ℕ} n 0))
filled s n h = write_buf-ok (replicate n 0) s (omega (arith, length-replicate {A = ℕ} n 0))

-- The tag, less its NUL.
tag-ok : (checks : Bool) (n : ℕ) → sub_usize checks (n + 1) 1 ≡ ok n
unfolding sub_usize
tag-ok checks n = ground arith

tag_slice : (s rest : Bytes) → slice_to ((s ++ 0 ∷ []) ++ rest) (length s) ≡ ok s
tag_slice s rest = rw append_assoc (slice_to-append s (0 ∷ rest))

as_i32-pos : (n : ℕ) → n < 2 ^ 31 → as_i32 (pos n) ≡ pos n
as_i32-pos n h = ground arith

abbrev pub first_sizes : Sizes
first_sizes = record { tag = 64; clients = 64; cookies = 64; addrs = 64 }

module _ (p : Platform) (io : IoCtx) (oid name : Bytes) (l : Lockers)
    (lock : HoldsLock p io oid name l) where
  decode_full :
      (t c k a : Bytes) (w : World)
      → decode_lockers p
          (full_reply lock.exclusive l)
          ((l.tag ++ 0 ∷ []) ++ t)
          (pack (clients_of l.lockers) ++ c)
          (pack (cookies_of l.lockers) ++ k)
          (pack (addrs_of l.lockers) ++ a)
          w
        ≡ (ok l, w)
  unfolding decode_lockers
  decode_full t c k a w = rw (
    tag-ok p.overflow_checks (length l.tag),
    tag_slice l.tag t,
    strings-pack (clients_of l.lockers) c lock.clients_text,
    strings-pack (cookies_of l.lockers) k lock.cookies_text,
    strings-pack (addrs_of l.lockers) a lock.addrs_text,
    from_utf8_lossy-IsUtf8 lock.tag_text.1,
    zip_lockers-map l.lockers,
    lock.exclusive_flag,
  )

  round_fits :
      (fuel : ℕ) (s : Sizes) (w : World)
      → IsModest s
      → fit (needed l) s ≡ true
      → list_lockers_loop p (suc fuel) io oid name s w ≡ (ok l, logged (request io oid name s) w)
  unfolding list_lockers_loop neg_checked check_err
  round_fits fuel s w m h =
      rw
        (
          zeroed_small s.tag m.0,
          zeroed_small s.clients m.1,
          zeroed_small s.cookies m.2,
          zeroed_small s.addrs m.3,
          length-replicate {A = ℕ} s.tag 0,
          length-replicate {A = ℕ} s.clients 0,
          length-replicate {A = ℕ} s.cookies 0,
          length-replicate {A = ℕ} s.addrs 0,
          lock.fits w.log s h,
          filled (l.tag ++ 0 ∷ []) s.tag (ground (arith, length-append l.tag (0 ∷ []))),
          filled (pack (clients_of l.lockers)) s.clients (ground arith),
          filled (pack (cookies_of l.lockers)) s.cookies (ground arith),
          filled (pack (addrs_of l.lockers)) s.addrs (ground arith),
          neg_pos_ne_errno (length l.lockers) 33,
          as_i32-pos (length l.lockers) lock.few,
        )
        (decode_full _ _ _ _ (logged (request io oid name s) w))

  round_grows :
      (fuel : ℕ) (s : Sizes) (w : World)
      → IsModest s
      → fit (needed l) s ≡ false
      → list_lockers_loop p (suc fuel) io oid name s w
        ≡ list_lockers_loop p fuel io oid name (needed l) (logged (request io oid name s) w)
  unfolding list_lockers_loop neg_checked
  round_grows fuel s w m h = rw (
    zeroed_small s.tag m.0,
    zeroed_small s.clients m.1,
    zeroed_small s.cookies m.2,
    zeroed_small s.addrs m.3,
    length-replicate {A = ℕ} s.tag 0,
    length-replicate {A = ℕ} s.clients 0,
    length-replicate {A = ℕ} s.cookies 0,
    length-replicate {A = ℕ} s.addrs 0,
    lock.too_small w.log s h,
    filled [] s.tag (omega arith),
    filled [] s.clients (omega arith),
    filled [] s.cookies (omega arith),
    filled [] s.addrs (omega arith),
  )

  -- Where librados holds a lock whose strings are text without NUL bytes and take less than 2 ^
  -- 31 bytes each way, and the names are free of NUL bytes: `list_lockers` returns the lock and
  -- its holders exactly, empty cookies included. It asks once with 64 bytes for each buffer, and
  -- where one is too small once more with exactly what is needed, so two rounds are enough.
  pub list_lockers_lem :
      (fuel : ℕ) (w : World)
      → NoNul oid
      → NoNul name
      → list_lockers p (suc (suc fuel)) io oid name w ≡ (
        ok l,
        if fit (needed l) first_sizes
            then logged (request io oid name first_sizes) w
            else logged
                (request io oid name (needed l))
                (logged (request io oid name first_sizes) w),
      )
  unfolding list_lockers
  list_lockers_lem fuel w ho hn =
      rw (cstring-NoNul oid ho, cstring-NoNul name hn)
        (elim (Bool-cases (fit (needed l) first_sizes)) [
          | inl e ↦ rw e (round_fits (suc fuel) first_sizes w (omega arith) e)
          | inr e ↦ rw e (
              round_grows (suc fuel) first_sizes w (omega arith) e
              ∙ round_fits fuel (needed l) (logged (request io oid name first_sizes) w) lock.modest
                  (ground arith))
        ])
