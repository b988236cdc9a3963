-- ===== src/Error.antt =====
-- src/error.rs: the error type, and the classification of librados return codes. An outcome also
-- says how a call can end without a value: by a panic, or by undefined behaviour (`fault`).
-- `out_of_fuel` is the model's own: a loop was given too few rounds.
pub mod Laws
use librados_rs.Base.{
  ℕ, ◌+◌, ◌≡◌, Bool, true, false, ℤ, pos, negsuc, ◌==ℤ◌, neg, is_neg, ◌-◌, ◌^◌, List, Option,
  if◌then◌else◌,
}

abbrev pub Bytes : Type 0
Bytes = List ℕ

-- `nul` holds the position of the first NUL byte, and the bytes.
pub data RadosError : Type 0 where
  rados : ℤ → RadosError
  not_found : RadosError
  already_exists : RadosError
  nul : ℕ → Bytes → RadosError
  invalid_handle : RadosError

pub data Outcome (A : Type 0) : Type 0 where
  ok : A → Outcome A
  err : RadosError → Outcome A
  panic fault out_of_fuel : Outcome A

-- The errno values of libc on Linux.
abbrev pub enoent : ℕ
enoent = 2

abbrev pub eexist : ℕ
eexist = 17

abbrev pub erange : ℕ
erange = 34

abbrev pub eoverflow : ℕ
eoverflow = 75

abbrev pub etimedout : ℕ
etimedout = 110

-- The least value of a signed integer of `w` bits.
abbrev pub min_value : ℕ → ℤ
min_value w = negsuc (2 ^ (w - 1) - 1)

-- `-z` at `w` bits. Only the least value overflows: it panics where overflow checks are compiled
-- in, and wraps to itself where they are not.
unfoldable pub neg_checked : Bool → ℕ → ℤ → Outcome ℤ
neg_checked checks w z = if z ==ℤ min_value w then (if checks then panic else ok z) else ok (neg z)

-- The `match` on `-ret`.
unfoldable pub of_errno : ℤ → RadosError
of_errno e =
    if e ==ℤ pos enoent then not_found else if e ==ℤ pos eexist then already_exists else rados e

-- `err` of the negated code.
abbrev fail_with : Outcome ℤ → Outcome (Unit {0})
fail_with (ok e) = err (of_errno e)
fail_with (err e) = err e
fail_with panic = panic
fail_with fault = fault
fail_with out_of_fuel = out_of_fuel

unfoldable pub check_err : Bool → ℤ → Outcome (Unit {0})
unfolding neg_checked of_errno
check_err checks ret = if is_neg ret then fail_with (neg_checked checks 32 ret) else ok tt
