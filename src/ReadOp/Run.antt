-- ===== src/ReadOp/Run.antt =====
-- src/read_op.rs: operating a compound read and taking its results, and the one-step reads of
-- src/ioctx.rs.
use librados_rs.Base.{
  ℕ, ◌==◌, not, ℤ, List, [], ◌∷◌, Option, none, some, map, take, set, get_elem?, if◌then◌else◌,
}
use librados_rs.Error.{
  Bytes, invalid_handle, Outcome, ok, err, panic, fault, out_of_fuel, check_err,
}
use librados_rs.Text.{cstring}
use librados_rs.Handles.{IoCtx}
use librados_rs.Ffi.Memory.{Ptr}
use librados_rs.Ffi.Call
use librados_rs.Ffi.Call.{Cell}
use librados_rs.Ffi.World.{
  Platform, Io, pure, lift, logged, load, release, store_all, finally, unless_ok, ◌>>=◌, ◌>>◌, call,
  check,
}
use librados_rs.Omap.{OmapPage, OmapKeys, OmapIter, drop_iter, pairs, collect}
use librados_rs.ReadOp
use librados_rs.ReadOp.{Kind, El, Handle, ReadOp, drop_read_op, new}

-- `Box<dyn Any>`: a value with its type.
pub data Any : Type 0 where
  bytes : Bytes → Any
  page : OmapPage → Any
  keys : OmapKeys → Any

pub record ReadResults : Type 0 where
  pub operation : Ptr
  pub results : List (Option (ℤ × Any))

-- `ReadStep::prval`, by the type of the step.
abbrev pub prval_of : Cell → Outcome ℤ
prval_of (Cell.data_step s) = ok s.prval
prval_of (Cell.vals_step s) = ok s.prval
prval_of (Cell.keys_step s) = ok s.prval
prval_of _ = fault

-- `downcast::<T>().expect(...)`
unfoldable pub downcast : (k : Kind) → Any → Outcome (El k)
downcast Kind.data_kind (bytes b) = ok b
downcast Kind.vals_kind (page m) = ok m
downcast Kind.keys_kind (keys m) = ok m
downcast _ _ = panic

module _ (p : Platform) where
  -- `ReadStep::into_result`, by the type of the step; the omap iterator ends with the step.
  unfoldable pub into_result : ℕ → Cell → Io Any
  unfolding drop_iter pairs collect
  into_result fuel (Cell.data_step s) = pure (bytes (take s.bytes_read s.buf))
  into_result fuel (Cell.vals_step s) =
      let iter : OmapIter = record { raw = s.iter } in
      finally
        (do
          kvs ← pairs p fuel iter
          pure (page (record { entries = collect kvs; more = not (s.more == 0) })))
        (drop_iter iter)
  into_result fuel (Cell.keys_step s) =
      let iter : OmapIter = record { raw = s.iter } in
      finally
        (do
          kvs ← pairs p fuel iter
          pure (
              keys
                (record { keys = collect (map (λ kv. (kv.0, tt)) kvs); more = not (s.more == 0) })))
        (drop_iter iter)
  into_result fuel _ = lift fault

  -- One element of the `map` over the steps: its box is consumed.
  unfoldable pub step_result : ℕ → Ptr → Io (Option (ℤ × Any))
  unfolding into_result
  step_result fuel a = do
    c ← load a
    prval ← lift (prval_of c)
    value ← finally (into_result fuel c) (release a)
    pure (some (prval, value))

  unfoldable pub step_results : ℕ → List Ptr → Io (List (Option (ℤ × Any)))
  unfolding step_result
  step_results fuel [] = pure []
  step_results fuel (a ∷ steps) = do
    r ← step_result fuel a
    rs ← step_results fuel steps
    pure (r ∷ rs)

  -- Up to `check_err(ret)?`, while the op still owns its steps.
  unfoldable pub submit : ReadOp → IoCtx → (oid : Bytes) → Io (Unit {0})
  submit o io oid = do
    c_oid ← lift (cstring oid)
    (ret, writes) ← call p (Call.read_op_operate o.op io.ioctx c_oid)
    store_all writes
    check p ret

  unfoldable pub operate : ℕ → ReadOp → IoCtx → (oid : Bytes) → Io ReadResults
  unfolding submit drop_read_op step_results
  operate fuel o io oid = do
    unless_ok (submit o io oid) (drop_read_op o)
    finally
        (do
          results ← step_results fuel o.steps
          pure (record { operation = o.operation; results = results }))
        (logged (Call.release_read_op o.op))

  -- What `take` gives for a slot that it found filled.
  unfoldable pub opened : (k : Kind) → ℤ × Any → Outcome (El k)
  opened k (prval, value) = elim (check_err p.overflow_checks prval) [
    | ok _ ↦ downcast k value
    | err e ↦ err e
    | panic ↦ panic
    | fault ↦ fault
    | out_of_fuel ↦ out_of_fuel
  ]

  -- The results with the slot emptied, and the value. A slot that is missing or already empty
  -- panics.
  unfoldable pub take_slot :
      (k : Kind) → ReadResults → ℕ → Option (Option (ℤ × Any)) → Outcome (El k) × ReadResults
  take_slot k rs i none = (panic, rs)
  take_slot k rs i (some none) = (panic, rs)
  take_slot k rs i (some (some r)) = (opened k r, record rs { results = set rs.results i none })

  -- `ReadResults::take`
  unfoldable pub take_result : (k : Kind) → ReadResults → Handle k → Outcome (El k) × ReadResults
  unfolding take_slot
  take_result k rs h =
      if rs.operation == h.operation
      then take_slot k rs h.index (get_elem? rs.results h.index)
      else (err invalid_handle, rs)

  -- An op of one step: it is dropped where the step cannot be added.
  unfoldable pub read_one :
      (k : Kind) → ℕ → IoCtx → (oid : Bytes) → (ReadOp → Io (ReadOp × Handle k)) → Io (El k)
  unfolding new operate take_result
  read_one k fuel io oid add = do
    o ← new p
    (o', h) ← unless_ok (add o) (drop_read_op o)
    rs ← operate fuel o' io oid
    lift (take_result k rs h).0

  -- `IoCtx::omap_get_vals`
  unfoldable pub omap_vals :
      ℕ
      → IoCtx
      → (oid : Bytes) → (start_after filter_prefix : Option Bytes) → (max_return : ℕ) → Io OmapPage
  unfolding read_one
  omap_vals fuel io oid start_after filter_prefix max_return =
      read_one Kind.vals_kind fuel io oid
        (λ o. ReadOp.omap_get_vals o start_after filter_prefix max_return)

  -- `IoCtx::omap_get_keys`
  unfoldable pub omap_keys :
      ℕ → IoCtx → (oid : Bytes) → (start_after : Option Bytes) → (max_return : ℕ) → Io OmapKeys
  unfolding read_one
  omap_keys fuel io oid start_after max_return =
      read_one Kind.keys_kind fuel io oid (λ o. ReadOp.omap_get_keys o start_after max_return)

  -- `IoCtx::omap_get_vals_by_keys`
  unfoldable pub omap_vals_by_keys : ℕ → IoCtx → (oid : Bytes) → (keys : List Bytes) → Io OmapPage
  unfolding read_one
  omap_vals_by_keys fuel io oid wanted =
      read_one Kind.vals_kind fuel io oid (λ o. ReadOp.omap_get_vals_by_keys o wanted)
