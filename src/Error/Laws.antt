-- ===== src/Error/Laws.antt =====
-- What `check_err` makes of a return code.
use librados_rs.Base.{
  ◌⊎◌, ◌==ℤ◌, ℕ, suc, ◌<◌, ◌^◌, ◌≡◌, ◌≢◌, ◌↔◌, refl, Bool, false, ℤ, pos, negsuc, is_neg, arith,
  neg, zero,
}
use librados_rs.Error.{
  RadosError, Outcome, rados, not_found, already_exists, ok, err, enoent, eexist, of_errno,
  check_err,
}

-- A code of zero or more is a success, and no negative code is.
pub check_err-ok_iff :
    (checks : Bool) (ret : ℤ) → (check_err checks ret ≡ ok tt) ↔ (is_neg ret ≡ false)
unfolding check_err
check_err-ok_iff checks (pos n) = (λ _. refl, λ _. refl)
check_err-ok_iff checks (negsuc n) = ground arith

-- `r` is the error that stands for the errno `e`.
abbrev pub Classified : ℕ → RadosError → Type 0
Classified e r =
    ((r ≡ not_found) ↔ (e ≡ enoent))
    × ((r ≡ already_exists) ↔ (e ≡ eexist))
    × ((r ≡ rados (pos e)) ↔ ((e ≢ enoent) × (e ≢ eexist)))

pub of_errno-Classified : (e : ℕ) → Classified e (of_errno (pos e))
unfolding of_errno
of_errno-Classified e = ground arith

pub check_err-pos : (checks : Bool) (n : ℕ) → check_err checks (pos n) ≡ ok tt
unfolding check_err
check_err-pos checks n = refl

pub check_err-negsuc :
    (checks : Bool) (n : ℕ)
    → suc n < 2 ^ 31
    → check_err checks (negsuc n) ≡ err (of_errno (pos (suc n)))
unfolding check_err
check_err-negsuc checks n h = ground arith

-- A negated errno below 2 ^ 31 is the error that stands for it, whether or not overflow is
-- checked.
pub check_err_errno :
    (checks : Bool) (n : ℕ)
    → suc n < 2 ^ 31
    → (r : RadosError) × (check_err checks (negsuc n) ≡ err r) × Classified (suc n) r
check_err_errno checks n h =
    (of_errno (pos (suc n)), check_err-negsuc checks n h, of_errno-Classified (suc n))

-- A success is taken for no errno.
pub neg_pos_ne_errno : (n e : ℕ) → (neg (pos n) ==ℤ pos (suc e)) ≡ false
neg_pos_ne_errno zero e = ground arith
neg_pos_ne_errno (suc n) e = refl

-- A code that a C function returns as a negated errno, or a success.
abbrev pub IsCode : ℤ → Type 0
IsCode z = ((k : ℕ) × (z ≡ pos k)) ⊎ ((e : ℕ) × (z ≡ negsuc e) × (suc e < 2 ^ 31))

-- The outcome of a code: what a success gives, or the error of the errno.
abbrev pub judged : {A : Type 0} → ℤ → Outcome A → Outcome A
judged (pos _) o = o
judged (negsuc e) o = err (of_errno (pos (suc e)))
