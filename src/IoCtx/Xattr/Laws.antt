-- ===== src/IoCtx/Xattr/Laws.antt =====
-- `getxattr` against what librados documents of `rados_getxattr`.
use native.Mathlib.Nat.{pow-suc}
use librados_rs.Ffi.Memory.{whole}
use librados_rs.Base.{
  ◌%◌, ℕ, suc, zero, ◌+◌, ◌-◌, ◌*◌, ◌^◌, ◌<◌, ◌≤◌, ◌≡◌, refl, ap, ◌∙◌, pos, neg_of_ℕ, List, ◌∷◌,
  ◌++◌, leb, length, take, drop, replicate, arith, inl, inr, Bool-cases, take-append_left,
}
use librados_rs.Error.{Bytes, Outcome, ok, erange, check_err, neg_checked}
use librados_rs.Error.Laws.{neg_pos_ne_errno}
use librados_rs.Text.Laws.{NoNul, cstring-NoNul, resize-ok, length-resized}
use librados_rs.Handles.{IoCtx}
use librados_rs.Ffi.Buffers.{write_buf-ok, length-written}
use librados_rs.Ffi.Call.{Call}
use librados_rs.Ffi.History.{Grew, same, Grew-before}
use librados_rs.Ffi.World.{Platform, World, logged}
use librados_rs.IoCtx.Xattr.{getxattr_loop, getxattr}

-- `rados_getxattr` of an attribute that may change between any two calls, `value` being what is
-- stored after these calls: its length and its bytes where they fit, and otherwise -ERANGE, with
-- no more written than the buffer holds.
pub record HoldsXattr (p : Platform) (io : IoCtx) (oid name : Bytes) (value : List Call → Bytes)
    : Type 0 where
  pub fits :
      (log : List Call) (len : ℕ)
      → length (value log) ≤ len
      → p.librados log (Call.getxattr io.ioctx oid name (whole len))
        ≡ (pos (length (value log)), value log)
  pub too_small :
      (log : List Call) (len : ℕ)
      → len < length (value log)
      → (p.librados log (Call.getxattr io.ioctx oid name (whole len))).0 ≡ neg_of_ℕ erange
  pub bounded :
      (log : List Call) (len : ℕ)
      → length (p.librados log (Call.getxattr io.ioctx oid name (whole len))).1 ≤ len

-- A call for this attribute.
abbrev pub Asks : IoCtx → (oid name : Bytes) → Call → Type 0
Asks io oid name c = (len : ℕ) × (c ≡ Call.getxattr io.ioctx oid name (whole len))

double_bound : (n b k : ℕ) → n ≤ b * 2 ^ suc k → n ≤ b * 2 * 2 ^ k
double_bound n b k h = let h' : n ≤ b * (2 ^ k * 2) = rw (pow-suc 2 k) at h in omega arith

module _ (p : Platform) (io : IoCtx) (oid name : Bytes) (value : List Call → Bytes)
    (holds : HoldsXattr p io oid name value)
    (small : (log : List Call) → length (value log) < 2 ^ 31) where
  abbrev asked : ℕ → World → World
  asked len w = logged (Call.getxattr io.ioctx oid name (whole len)) w

  round_fits :
      (fuel : ℕ) (buf : Bytes) (w : World)
      → length (value w.log) ≤ length buf
      → getxattr_loop p (suc fuel) io oid name buf w ≡ (ok (value w.log), asked (length buf) w)
  unfolding getxattr_loop check_err neg_checked
  round_fits fuel buf w h =
      let short = small w.log in
      rw
        (
          holds.fits w.log (length buf) h,
          write_buf-ok buf (value w.log) h,
          neg_pos_ne_errno (length (value w.log)) 33,
        )
        (ap (λ v. (ok v, asked (length buf) w))
          (take-append_left (length (value w.log) % 2 ^ 64) (value w.log)
            (drop (length (value w.log)) buf) (omega arith)))

  round_doubles :
      (fuel : ℕ) (buf : Bytes) (w : World)
      → length buf < length (value w.log)
      → (bigger : Bytes) × (length bigger ≡ length buf * 2)
        × (getxattr_loop p (suc fuel) io oid name buf w
            ≡ getxattr_loop p fuel io oid name bigger (asked (length buf) w))
  unfolding getxattr_loop neg_checked
  round_doubles fuel buf w h =
      let written = (p.librados w.log (Call.getxattr io.ioctx oid name (whole (length buf)))).1 in
      let b = holds.bounded w.log (length buf) in
      let buf' = written ++ drop (length written) buf in
      let e = length-written buf written b in
      (
        take (length buf' * 2) buf' ++ replicate (length buf' * 2 - length buf') 0,
        length-resized buf' (length buf' * 2) ∙ ap (λ (k : ℕ). k * 2) e,
        rw
            (
              holds.too_small w.log (length buf) h,
              write_buf-ok buf written b,
              resize-ok buf' (length buf' * 2) (omega arith),
            )
            refl,
      )

  -- A value that always fits the buffer after `fuel` doublings is found, in at most `fuel + 1`
  -- calls: it is the one that the last call met.
  abbrev Found : (fuel : ℕ) → World → Outcome Bytes × World → Type 0
  Found fuel w (r, w') =
      (log : List Call) × (len : ℕ) × (r ≡ ok (value log))
      × (w' ≡ record w { log = Call.getxattr io.ioctx oid name (whole len) ∷ log })
      × Grew (Asks io oid name) w.log log
      × (length log ≤ length w.log + fuel)

  loop_finds :
      (fuel : ℕ) (buf : Bytes) (w : World)
      → ((log : List Call) → length (value log) ≤ length buf * 2 ^ fuel)
      → Found fuel w (getxattr_loop p (suc fuel) io oid name buf w)
  loop_finds zero buf w h =
      let enough = h w.log in
      rw (round_fits zero buf w (omega arith)) (w.log, length buf, refl, refl, same, omega arith)
  loop_finds (suc fuel) buf w h = elim (Bool-cases (leb (length (value w.log)) (length buf))) [
    | inl fit ↦
        rw (round_fits (suc fuel) buf w (ground arith))
          (w.log, length buf, refl, refl, same, omega arith)
    | inr tight ↦
        let (bigger, n, e) = round_doubles (suc fuel) buf w (ground arith) in
        let more' : (log : List Call) → length (value log) ≤ length bigger * 2 ^ fuel =
          λ log. rw n (double_bound (length (value log)) (length buf) fuel (h log)) in
        let (log, len, r, w', grew, calls) = loop_finds fuel bigger (asked (length buf) w) more' in
        rw e (log, len, r, w', Grew-before (length buf, refl) grew, omega arith)
  ]

  -- Where librados holds a value of less than 2 ^ 31 bytes, which may change between any two
  -- calls but never exceeds 256 * 2 ^ `fuel` bytes, and the names are free of NUL bytes:
  -- `getxattr` calls nothing else, at most `fuel + 1` times, and returns exactly the value that
  -- its last call met.
  pub getxattr_lem :
      (fuel : ℕ) (w : World)
      → NoNul oid
      → NoNul name
      → ((log : List Call) → length (value log) ≤ 256 * 2 ^ fuel)
      → let (r, w') = getxattr p (suc fuel) io oid name w in
        (log : List Call) × (len : ℕ) × (r ≡ ok (value log))
        × (w' ≡ record w { log = Call.getxattr io.ioctx oid name (whole len) ∷ log })
        × Grew (Asks io oid name) w.log log
        × (length log ≤ length w.log + fuel)
  unfolding getxattr
  getxattr_lem fuel w ho hn h =
      rw (cstring-NoNul oid ho, cstring-NoNul name hn) (loop_finds fuel (replicate 256 0) w h)
