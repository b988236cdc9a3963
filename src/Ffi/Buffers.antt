-- ===== src/Ffi/Buffers.antt =====
-- Laws of foreign writes into buffers and of slices.
use librados_rs.Base.{
  take_all, ℕ, suc, zero, ◌-◌, ◌≤◌, ◌≡◌, List, [], ◌∷◌, ◌++◌, arith, length, drop, length-append,
}
use librados_rs.Error.{Bytes, ok}
use librados_rs.Ffi.Memory.{write_buf, from_raw_parts}

pub length-drop : {A : Type 0} (n : ℕ) (xs : List A) → length (drop n xs) ≡ length xs - n
length-drop zero xs = omega arith
length-drop (suc n) [] = omega arith
length-drop (suc n) (x ∷ xs) = omega (arith, length-drop n xs)

module _ (buf written : Bytes) (h : length written ≤ length buf) where
  -- A write that fits succeeds, and keeps the length of the buffer.
  pub write_buf-ok : write_buf buf written ≡ ok (written ++ drop (length written) buf)
  unfolding write_buf
  write_buf-ok = ground arith

  pub length-written : length (written ++ drop (length written) buf) ≡ length buf
  length-written =
      omega
        (arith, length-append written (drop (length written) buf), length-drop (length written) buf)

pub from_raw_parts_whole : {A : Type 0} (s : List A) → from_raw_parts s (length s) ≡ ok s
unfolding from_raw_parts
from_raw_parts_whole s = ground (arith, take_all s)
