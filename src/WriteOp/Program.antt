-- ===== src/WriteOp/Program.antt =====
-- A compound write as the list of steps that a caller adds, and as the list that librados reads
-- from the calls.
pub mod Laws
use librados_rs.Base.{
  ℕ, zero, suc, ◌+◌, ◌≡◌, refl, ap, ◌∙◌, Bool, true, false, List, [], ◌∷◌, ◌++◌, map, Option, none,
  some, length, take, take_all, ◌==◌, ==_refl, if◌then◌else◌, append_assoc, append-nil, arith, sym,
}
use librados_rs.Error.{Bytes, Outcome, ok, err}
use librados_rs.Text.Laws.{NoNul, cstring-NoNul}
use librados_rs.Ffi.Memory.{Ptr}
use librados_rs.Ffi.Call
use librados_rs.Ffi.Call.{Call}
use librados_rs.Ffi.World.{World, Io, pure, ◌>>=◌, ◌>>◌}
use librados_rs.WriteOp
use librados_rs.WriteOp.{WriteOp}

-- A call of a method of `WriteOp`, with its arguments.
pub data WriteStep : Type 0 where
  assert_version : ℕ → WriteStep
  assert_exists : WriteStep
  create : (exclusive : Bool) → WriteStep
  write : Bytes → (offset : ℕ) → WriteStep
  write_full append : Bytes → WriteStep
  remove : WriteStep
  truncate : ℕ → WriteStep
  omap_set : List (Bytes × Bytes) → WriteStep
  omap_rm_keys : List Bytes → WriteStep
  setxattr : (name value : Bytes) → WriteStep
  cmpxattr : (name : Bytes) → (op : ℕ) → (value : Bytes) → WriteStep
  omap_cmp : (key : Bytes) → (op : ℕ) → (value : Bytes) → WriteStep
  omap_rm_range : (begin end : Bytes) → WriteStep
  omap_clear : WriteStep

abbrev after : WriteOp → Io (Unit {0}) → Io WriteOp
after o m = m >> pure o

-- The method is called on the op.
unfoldable pub add : WriteStep → WriteOp → Io WriteOp
add (WriteStep.assert_version ver) o = after o (WriteOp.assert_version o ver)
add WriteStep.assert_exists o = after o (WriteOp.assert_exists o)
add (WriteStep.create exclusive) o = after o (WriteOp.create o exclusive)
add (WriteStep.write buf offset) o = after o (WriteOp.write o buf offset)
add (WriteStep.write_full buf) o = after o (WriteOp.write_full o buf)
add (WriteStep.append buf) o = after o (WriteOp.append o buf)
add WriteStep.remove o = after o (WriteOp.remove o)
add (WriteStep.truncate offset) o = after o (WriteOp.truncate o offset)
add (WriteStep.omap_set entries) o = after o (WriteOp.omap_set o entries)
add (WriteStep.omap_rm_keys keys) o = after o (WriteOp.omap_rm_keys o keys)
add (WriteStep.setxattr name value) o = after o (WriteOp.setxattr o name value)
add (WriteStep.cmpxattr name op value) o = after o (WriteOp.cmpxattr o name op value)
add (WriteStep.omap_cmp key op value) o = WriteOp.omap_cmp o key op value >>= λ r. pure r.0
add (WriteStep.omap_rm_range begin end) o = after o (WriteOp.omap_rm_range o begin end)
add WriteStep.omap_clear o = after o (WriteOp.omap_clear o)

unfoldable pub add_all : List WriteStep → WriteOp → Io WriteOp
unfolding add
add_all [] o = pure o
add_all (s ∷ steps) o = add s o >>= add_all steps

-- Strings of the given lengths.
unfoldable pub strings_at : List Bytes → List ℕ → List Bytes
strings_at (m ∷ ms) (n ∷ ns) = take n m ∷ strings_at ms ns
strings_at _ _ = []

unfoldable pub zip : List Bytes → List Bytes → List (Bytes × Bytes)
zip (k ∷ ks) (v ∷ vs) = (k, v) ∷ zip ks vs
zip _ _ = []

-- What librados reads from a call on the op `op`: a buffer is as long as the length passed with
-- it, an array has as many elements as the count passed with it, and a name ends at its NUL.
unfoldable pub read_step : (op : Ptr) → Call → Option WriteStep
unfolding strings_at zip
read_step op (Call.write_op_assert_version o ver) =
    if o == op then some (WriteStep.assert_version ver) else none
read_step op (Call.write_op_assert_exists o) =
    if o == op then some WriteStep.assert_exists else none
read_step op (Call.write_op_create o mode) =
    if o == op then some (WriteStep.create (mode == 1)) else none
read_step op (Call.write_op_write o buf len off) =
    if o == op then some (WriteStep.write (take len buf) off) else none
read_step op (Call.write_op_write_full o buf len) =
    if o == op then some (WriteStep.write_full (take len buf)) else none
read_step op (Call.write_op_append o buf len) =
    if o == op then some (WriteStep.append (take len buf)) else none
read_step op (Call.write_op_remove o) = if o == op then some WriteStep.remove else none
read_step op (Call.write_op_truncate o off) =
    if o == op then some (WriteStep.truncate off) else none
read_step op (Call.write_op_omap_set2 o keys vals key_lens val_lens n) =
    if o == op
    then some
        (WriteStep.omap_set (take n (zip (strings_at keys key_lens) (strings_at vals val_lens))))
    else none
read_step op (Call.write_op_omap_rm_keys2 o keys key_lens n) =
    if o == op then some (WriteStep.omap_rm_keys (take n (strings_at keys key_lens))) else none
read_step op (Call.write_op_setxattr o name value len) =
    if o == op then some (WriteStep.setxattr name (take len value)) else none
read_step op (Call.write_op_cmpxattr o name cmp value len) =
    if o == op then some (WriteStep.cmpxattr name cmp (take len value)) else none
read_step op (Call.write_op_omap_cmp2 o key cmp value key_len val_len _) =
    if o == op then some (WriteStep.omap_cmp (take key_len key) cmp (take val_len value)) else none
read_step op (Call.write_op_omap_rm_range2 o begin begin_len end end_len) =
    if o == op
    then some (WriteStep.omap_rm_range (take begin_len begin) (take end_len end))
    else none
read_step op (Call.write_op_omap_clear o) = if o == op then some WriteStep.omap_clear else none
read_step op _ = none

abbrev extend : List WriteStep → Option WriteStep → List WriteStep
extend steps none = steps
extend steps (some s) = steps ++ s ∷ []

-- The steps that librados has read for the op, the first one first. Once an op is released, another
-- one at its address starts afresh.
unfoldable pub program : (op : Ptr) → List Call → List WriteStep
unfolding read_step
program op [] = []
program op (Call.release_write_op o ∷ log) = if o == op then [] else program op log
program op (c ∷ log) = extend (program op log) (read_step op c)
