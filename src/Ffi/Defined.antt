-- ===== src/Ffi/Defined.antt =====
-- Runs without undefined behaviour, put together from their parts, and what is asked of librados for
-- them: it stays within the buffers that it is given, and what it hands out is readable.
use librados_rs.Base.{
  is_neg, ℕ, ◌≤◌, ◌≡◌, ◌≢◌, refl, Bool, true, false, if◌then◌else◌, ℤ, List, [], ◌∷◌, length,
  Option, Option-cases, none, some, inl, inr, arith,
}
use librados_rs.Error.{Bytes, Outcome, ok, err, panic, fault, out_of_fuel, check_err, neg_checked}
use librados_rs.Text.{cstring, nul_position, slice_to, resize, zeroed, sub_usize}
use librados_rs.Text.Laws.{NoNul-nul_position, cstring-NoNul}
use librados_rs.Text.Refusals.{cstring_nul}
use librados_rs.Ffi.Memory.{Room, Ptr, NotifyAckT, from_raw_parts, write_buf}
use librados_rs.Ffi.Call.{Call}
use librados_rs.Ffi.World.{Platform, World, Io, lift, ◌>>=◌, and_then, dropping, settled, failed}

abbrev pub IsDefined : {A : Type 0} → Outcome A → Type 0
IsDefined fault = ⊥
IsDefined _ = Unit

pub not_fault : {A : Type 0} (o : Outcome A) → IsDefined o → o ≢ fault
not_fault (ok a) d = λ e. ground arith
not_fault (err a) d = λ e. ground arith
not_fault fault d = absurd d
not_fault panic d = λ e. ground arith
not_fault out_of_fuel d = λ e. ground arith

-- The run does not end in undefined behaviour.
pub record Defined {A : Type 0} (r : Outcome A × World) : Type 0 where
  pub result : IsDefined r.0

pub defined : {A : Type 0} {r : Outcome A × World} → IsDefined r.0 → Defined r
defined d = record { result = d }

pub then_outcome :
    {A B : Type 0} (o : Outcome A) (k : A → Io B) (w : World)
    → IsDefined o
    → ((a : A) → o ≡ ok a → Defined (k a w))
    → Defined (and_then o w k)
then_outcome (ok a) k w d go = go a refl
then_outcome (err e) k w d go = defined tt
then_outcome panic k w d go = defined tt
then_outcome fault k w d go = absurd d
then_outcome out_of_fuel k w d go = defined tt

pub then_string :
    {A : Type 0} (s : Bytes) (k : Bytes → Io A) (w : World)
    → Defined (k s w)
    → Defined ((lift (cstring s) >>= k) w)
then_string s k w go = elim (Option-cases (nul_position s)) [
  | inl all ↦ rw (cstring-NoNul s (NoNul-nul_position s all)) go
  | inr (i, found) ↦ rw (cstring_nul s i found) (defined tt)
]

pub then_run :
    {A B : Type 0} (r : Outcome A × World) (k : A → Io B)
    → Defined r
    → ((a : A) (w' : World) → r ≡ (ok a, w') → Defined (k a w'))
    → Defined (and_then r.0 r.1 k)
then_run (ok a, w) k h go = go a w refl
then_run (err e, w) k h go = defined tt
then_run (panic, w) k h go = defined tt
then_run (fault, w) k h go = absurd h.result
then_run (out_of_fuel, w) k h go = defined tt

pub then_test :
    {A : Type 0} (b : Bool) (m k : Io A) (w : World)
    → Defined (m w)
    → Defined (k w)
    → Defined ((if b then m else k) w)
then_test true m k w x y = x
then_test false m k w x y = y

module _ {A : Type 0} where
  pub dropping-Defined :
      (r : Outcome A × World) (d : World → World) → Defined r → Defined (dropping r d)
  dropping-Defined (ok a, w) d h = defined tt
  dropping-Defined (err e, w) d h = defined tt
  dropping-Defined (panic, w) d h = defined tt
  dropping-Defined (fault, w) d h = absurd h.result
  dropping-Defined (out_of_fuel, w) d h = defined tt

  pub settled-Defined :
      (r : Outcome A × World) (d : World → World) → Defined r → Defined (settled r d)
  settled-Defined (ok a, w) d h = defined tt
  settled-Defined (err e, w) d h = defined tt
  settled-Defined (panic, w) d h = defined tt
  settled-Defined (fault, w) d h = absurd h.result
  settled-Defined (out_of_fuel, w) d h = defined tt

  pub failed-Defined :
      (r : Outcome A × World) (d : World → World) → Defined r → Defined (failed r d)
  failed-Defined (ok a, w) d h = defined tt
  failed-Defined (err e, w) d h = defined tt
  failed-Defined (panic, w) d h = defined tt
  failed-Defined (fault, w) d h = absurd h.result
  failed-Defined (out_of_fuel, w) d h = defined tt

  pub slice_to-IsDefined : (s : List A) (n : ℕ) → IsDefined (slice_to s n)
  unfolding slice_to
  slice_to-IsDefined s n = ground arith

  -- Memory that is readable for its length.
  pub from_raw_parts-IsDefined :
      (m : List A) (n : ℕ) → n ≤ length m → IsDefined (from_raw_parts m n)
  unfolding from_raw_parts
  from_raw_parts-IsDefined m n h = ground arith

pub write_buf-IsDefined :
    (buf written : Bytes) → length written ≤ length buf → IsDefined (write_buf buf written)
unfolding write_buf
write_buf-IsDefined buf written h = ground arith

pub neg_checked-IsDefined : (checks : Bool) (n : ℕ) (z : ℤ) → IsDefined (neg_checked checks n z)
unfolding neg_checked
neg_checked-IsDefined checks n z = ground arith

pub check_err-IsDefined : (checks : Bool) (z : ℤ) → IsDefined (check_err checks z)
unfolding check_err
check_err-IsDefined checks z = ground arith

pub sub_usize-IsDefined : (checks : Bool) (a b : ℕ) → IsDefined (sub_usize checks a b)
unfolding sub_usize
sub_usize-IsDefined checks a b = ground arith

pub resize-IsDefined : (buf : Bytes) (n : ℕ) → IsDefined (resize buf n)
unfolding resize
resize-IsDefined buf n = ground arith

pub zeroed-IsDefined : (n : ℕ) → IsDefined (zeroed n)
unfolding zeroed
zeroed-IsDefined n = ground arith

-- There is a pointer, and it is readable for the length.
abbrev pub IsReadable : Option Bytes → (len : ℕ) → Type 0
IsReadable none len = ⊥
IsReadable (some m) len = len ≤ length m

-- The payload of an ack is readable for its length, or null.
abbrev pub HasPayload : Option Bytes → (len : ℕ) → Type 0
HasPayload none len = Unit
HasPayload (some m) len = len ≤ length m

abbrev pub AllReadable : List NotifyAckT → Type 0
AllReadable [] = Unit
AllReadable (a ∷ acks) = HasPayload a.payload a.payload_len × AllReadable acks

-- librados writes no more than the length that it is given for a buffer, and what it hands out is readable for its length.
pub record StaysWithin (p : Platform) : Type 0 where
  pub pools :
      (log : List Call) (r : Ptr) (b : Room)
      → length (p.librados log (Call.pool_list r b)).1 ≤ b.len
  pub data_read :
      (log : List Call) (io : Ptr) (oid : Bytes) (b : Room) (off : ℕ)
      → length (p.librados log (Call.read io oid b off)).1 ≤ b.len
  pub value :
      (log : List Call) (io : Ptr) (oid name : Bytes) (b : Room)
      → length (p.librados log (Call.getxattr io oid name b)).1 ≤ b.len
  pub lockers :
      (log : List Call) (io : Ptr) (oid name : Bytes) (tag clients cookies addrs : Room)
      → let r = p.librados log (Call.list_lockers io oid name tag clients cookies addrs) in
        (length r.tag ≤ tag.len)
        × (length r.clients ≤ clients.len)
        × (length r.cookies ≤ cookies.len)
        × (length r.addrs ≤ addrs.len)
  pub entry :
      (log : List Call) (list : Ptr)
      → let (ret, name, size) = p.librados log (Call.nobjects_list_next2 list) in
        is_neg ret ≡ false → IsReadable name size
  pub decoded :
      (log : List Call) (reply : Ptr) (len : ℕ)
      → let r = p.librados log (Call.decode_notify_response reply len) in
        (r.nr_acks ≤ length r.ack_array)
        × (r.nr_timeouts ≤ length r.timeout_array)
        × AllReadable r.ack_array
