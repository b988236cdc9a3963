-- ===== src/Ffi/Memory.antt =====
-- The structs of src/ffi.rs, and the boxed values that librados holds pointers to.
use librados_rs.Base.{ℕ, ℤ, List, ◌++◌, Option, length, take, drop, leb, if◌then◌else◌}
use librados_rs.Error.{Bytes, Outcome, ok, fault}

-- An address; 0 is the null pointer. Raw librados handles are addresses too.
abbrev pub Ptr : Type 0
Ptr = ℕ

abbrev pub null : Ptr
null = 0

pub record Timeval : Type 0 where
  pub tv_sec : ℤ
  pub tv_usec : ℤ

-- A buffer that librados fills: how many bytes it has, and how many it is said to have.
pub record Room : Type 0 where
  pub held : ℕ
  pub len : ℕ

abbrev pub room_of : Bytes → (len : ℕ) → Room
room_of buf len = record { held = length buf; len = len }

-- A buffer of `n` bytes that is passed with its own length.
abbrev pub whole : ℕ → Room
whole n = record { held = n; len = n }

-- `payload` is `none` for a null pointer, and else what is readable behind it.
pub record NotifyAckT : Type 0 where
  pub notifier_id : ℕ
  pub cookie : ℕ
  pub payload : Option Bytes
  pub payload_len : ℕ

pub record NotifyTimeoutT : Type 0 where
  pub notifier_id : ℕ
  pub cookie : ℕ

-- `slice::from_raw_parts` on readable memory; undefined behaviour past its end.
unfoldable pub from_raw_parts : {A : Type 0} → List A → ℕ → Outcome (List A)
from_raw_parts m len = if leb len (length m) then ok (take len m) else fault

-- A foreign write of `written` at the front of a buffer; undefined behaviour past its end.
unfoldable pub write_buf : Bytes → Bytes → Outcome Bytes
write_buf buf written =
    if leb (length written) (length buf) then ok (written ++ drop (length written) buf) else fault
