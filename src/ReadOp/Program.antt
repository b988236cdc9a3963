-- ===== src/ReadOp/Program.antt =====
-- A compound read as the list of steps that librados reads from the calls, each with the address
-- of its box.
use librados_rs.Base.{List, [], ◌∷◌, ◌++◌, Option, none, some, take, ◌==◌, if◌then◌else◌}
use librados_rs.Ffi.Memory.{Ptr}
use librados_rs.Ffi.Call.{Call}
use librados_rs.ReadOp.Build.{ReadStep}
use librados_rs.WriteOp.Program.{strings_at}

-- What librados reads from a call on the op `op`: an array has as many elements as the count
-- passed with it, and a key is as long as the length passed with it.
unfoldable pub read_step : (op : Ptr) → Call → Option (ReadStep × Ptr)
unfolding strings_at
read_step op (Call.read_op_read o off buf step) =
    if o == op then some (ReadStep.read off buf.len, step) else none
read_step op (Call.read_op_omap_get_vals2 o start prefix max step) =
    if o == op then some (ReadStep.omap_get_vals start prefix max, step) else none
read_step op (Call.read_op_omap_get_keys2 o start max step) =
    if o == op then some (ReadStep.omap_get_keys start max, step) else none
read_step op (Call.read_op_omap_get_vals_by_keys2 o keys n lens step) =
    if o == op
    then some (ReadStep.omap_get_vals_by_keys (take n (strings_at keys lens)), step)
    else none
read_step op _ = none

abbrev extend : List (ReadStep × Ptr) → Option (ReadStep × Ptr) → List (ReadStep × Ptr)
extend steps none = steps
extend steps (some s) = steps ++ s ∷ []

-- The steps that librados has read for the op, the first one first. Once an op is released, another
-- one at its address starts afresh.
unfoldable pub program : (op : Ptr) → List Call → List (ReadStep × Ptr)
unfolding read_step
program op [] = []
program op (Call.release_read_op o ∷ log) = if o == op then [] else program op log
program op (c ∷ log) = extend (program op log) (read_step op c)
