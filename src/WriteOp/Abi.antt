-- ===== src/WriteOp/Abi.antt =====
-- The calls of a compound write (src/write_op.rs) keep to their declarations.
use librados_rs.Base.{
  ℕ, suc, ◌<◌, ◌≤◌, ◌^◌, true, false, pos, ◌==ℤ◌, List, [], ◌∷◌, map, length, arith,
}
use librados_rs.Error.{Bytes, check_err}
use librados_rs.Text.Laws.{NoNul}
use librados_rs.Handles.{IoCtx}
use librados_rs.Ffi.Memory.{Ptr}
use librados_rs.Ffi.Call.{Call}
use librados_rs.Ffi.World.{Platform, World, load, store_all, logged}
use librados_rs.Ffi.Abi.{AllBelow, Readable}
use librados_rs.Ffi.Abi.Calls.{AllSound}
use librados_rs.Ffi.Abi.Keeps.{
  Clean, clean, by_string, by_outcome, by_run, by_test, by_result, by_result_string, dropping-Clean,
  store_all-Clean,
}
use librados_rs.WriteOp
use librados_rs.WriteOp.{WriteOp, drop_write_op}
use librados_rs.WriteOp.Drop.{drop_write_op-log}
use librados_rs.WriteOp.Run.{
  position_from, deref, run_op, operate_report, operate, raise_report, Report, done, failed,
}
use librados_rs.WriteOp.Program.{WriteStep, add}

-- The arguments as their Rust types bound them: a slice has at most isize::MAX bytes or elements.
abbrev pub IsTyped : WriteStep → Type 0
IsTyped (WriteStep.assert_version ver) = ver < 2 ^ 64
IsTyped (WriteStep.write buf offset) = (length buf < 2 ^ 63) × (offset < 2 ^ 64)
IsTyped (WriteStep.write_full buf) = length buf < 2 ^ 63
IsTyped (WriteStep.append buf) = length buf < 2 ^ 63
IsTyped (WriteStep.truncate offset) = offset < 2 ^ 64
IsTyped (WriteStep.omap_set entries) =
    (length entries < 2 ^ 63)
    × AllBelow (2 ^ 63) (map (λ e. length e.0) entries)
    × AllBelow (2 ^ 63) (map (λ e. length e.1) entries)
IsTyped (WriteStep.omap_rm_keys keys) =
    (length keys < 2 ^ 63) × AllBelow (2 ^ 63) (map (λ k. length k) keys)
IsTyped (WriteStep.setxattr name value) = length value < 2 ^ 63
IsTyped (WriteStep.cmpxattr name op value) = (op < 2 ^ 8) × (length value < 2 ^ 63)
IsTyped (WriteStep.omap_cmp key op value) =
    (length key < 2 ^ 63) × (op < 2 ^ 8) × (length value < 2 ^ 63)
IsTyped (WriteStep.omap_rm_range begin end) = (length begin < 2 ^ 63) × (length end < 2 ^ 63)
IsTyped _ = Unit

-- The lengths passed with an array of strings are their own.
pub Readable-lengths : (ss : List Bytes) → Readable ss (map (λ s. length s) ss)
Readable-lengths [] = tt
Readable-lengths (s ∷ ss) = (omega arith, Readable-lengths ss)

Readable-keys :
    (es : List (Bytes × Bytes)) → Readable (map (λ e. e.0) es) (map (λ e. length e.0) es)
Readable-keys [] = tt
Readable-keys (e ∷ es) = (omega arith, Readable-keys es)

Readable-vals :
    (es : List (Bytes × Bytes)) → Readable (map (λ e. e.1) es) (map (λ e. length e.1) es)
Readable-vals [] = tt
Readable-vals (e ∷ es) = (omega arith, Readable-vals es)

pub AllBelow-wide : (ns : List ℕ) → AllBelow (2 ^ 63) ns → AllBelow (2 ^ 64) ns
AllBelow-wide [] h = tt
AllBelow-wide (n ∷ ns) h = let small = h.0 in (omega arith, AllBelow-wide ns h.1)

pub counted : {A B : Type 0} (f : A → B) (as' : List A) → length as' ≤ length (map f as')
counted f [] = omega arith
counted f (a ∷ as') = let h = counted f as' in omega arith

pub omap_set-Clean :
    (entries : List (Bytes × Bytes)) (o : WriteOp) (w : World)
    → IsTyped (WriteStep.omap_set entries)
    → AllSound w.log
    → Clean (WriteOp.omap_set o entries w)
unfolding WriteOp.omap_set
omap_set-Clean entries o w (n, ks, vs) h = clean (
  (
    tt,
    (
      (counted (λ e. e.0) entries, Readable-keys entries),
      (
        (counted (λ e. e.1) entries, Readable-vals entries),
        (
          (counted (λ e. length e.0) entries, AllBelow-wide (map (λ e. length e.0) entries) ks),
          (
            (counted (λ e. length e.1) entries, AllBelow-wide (map (λ e. length e.1) entries) vs),
            (omega arith, tt),
          ),
        ),
      ),
    ),
  ),
  h,
)

pub omap_rm_keys-Clean :
    (keys : List Bytes) (o : WriteOp) (w : World)
    → IsTyped (WriteStep.omap_rm_keys keys)
    → AllSound w.log
    → Clean (WriteOp.omap_rm_keys o keys w)
unfolding WriteOp.omap_rm_keys
omap_rm_keys-Clean keys o w (n, ks) h = clean (
  (
    tt,
    (
      (omega arith, Readable-lengths keys),
      (
        (counted (λ k. length k) keys, AllBelow-wide (map (λ k. length k) keys) ks),
        (omega arith, tt),
      ),
    ),
  ),
  h,
)

pub omap_clear-Clean : (o : WriteOp) (w : World) → AllSound w.log → Clean (WriteOp.omap_clear o w)
unfolding WriteOp.omap_clear
omap_clear-Clean o w h = clean ((tt, tt), h)

pub add-Clean :
    (s : WriteStep) (o : WriteOp) (w : World) → IsTyped s → AllSound w.log → Clean (add s o w)
unfolding add WriteOp.assert_version WriteOp.assert_exists WriteOp.create WriteOp.write
    WriteOp.write_full WriteOp.append WriteOp.remove WriteOp.truncate WriteOp.omap_set
    WriteOp.omap_rm_keys WriteOp.setxattr WriteOp.cmpxattr WriteOp.omap_cmp WriteOp.omap_rm_range
    WriteOp.omap_clear
add-Clean (WriteStep.assert_version ver) o w t h = clean ((tt, (t, tt)), h)
add-Clean WriteStep.assert_exists o w t h = clean ((tt, tt), h)
add-Clean (WriteStep.create true) o w t h = clean ((tt, (omega arith, (tt, tt))), h)
add-Clean (WriteStep.create false) o w t h = clean ((tt, (omega arith, (tt, tt))), h)
add-Clean (WriteStep.write buf offset) o w (small, t) h =
    clean ((tt, (omega arith, (omega arith, (t, tt)))), h)
add-Clean (WriteStep.write_full buf) o w t h = clean ((tt, (omega arith, (omega arith, tt))), h)
add-Clean (WriteStep.append buf) o w t h = clean ((tt, (omega arith, (omega arith, tt))), h)
add-Clean WriteStep.remove o w t h = clean ((tt, tt), h)
add-Clean (WriteStep.truncate offset) o w t h = clean ((tt, (t, tt)), h)
add-Clean (WriteStep.omap_set entries) o w t h = clean ((omap_set-Clean entries o w t h).calls)
add-Clean (WriteStep.omap_rm_keys keys) o w t h = clean ((omap_rm_keys-Clean keys o w t h).calls)
add-Clean (WriteStep.setxattr name value) o w t h =
    by_run (WriteOp.setxattr o name value w) _
      (by_string name _ w h λ n. clean ((tt, (n, (omega arith, (omega arith, tt)))), h))
      λ u w' e k. clean k
add-Clean (WriteStep.cmpxattr name op value) o w (c, t) h =
    by_run (WriteOp.cmpxattr o name op value w) _
      (by_string name _ w h λ n. clean ((tt, (n, (c, (omega arith, (omega arith, tt))))), h))
      λ u w' e k. clean k
add-Clean (WriteStep.omap_cmp key op value) o w (k, c, v) h =
    clean ((tt, (omega arith, (c, (omega arith, (omega arith, (omega arith, (tt, tt))))))), h)
add-Clean (WriteStep.omap_rm_range begin end) o w (b, e) h =
    clean ((tt, (omega arith, (omega arith, (omega arith, (omega arith, tt))))), h)
add-Clean WriteStep.omap_clear o w t h = clean ((tt, tt), h)

pub drop_write_op-KeepsSound :
    (o : WriteOp) (w : World) → AllSound w.log → AllSound (drop_write_op o w).log
drop_write_op-KeepsSound o w h = rw (drop_write_op-log o w) ((tt, tt), h)

position_from-Clean :
    (i : ℕ) (cmps : List Ptr) (w : World) → AllSound w.log → Clean (position_from i cmps w)
unfolding position_from deref
position_from-Clean i [] w h = clean h
position_from-Clean i (a ∷ cmps) w h =
    by_run (deref a w) _ (by_outcome (load a w).0 _ w h λ c e. clean h) λ prval w' e h'.
      by_test (prval ==ℤ pos 0) _ _ w' (position_from-Clean (suc i) cmps w' h') (clean h')

raise_report-Clean : (r : Report) (w : World) → AllSound w.log → Clean (raise_report r w)
raise_report-Clean done w h = clean h
raise_report-Clean (failed e) w h = clean h

-- The op that `new` makes.
abbrev pub made : Platform → World → WriteOp
made p w = record { op = p.librados w.log Call.create_write_op; cmps = [] }

module _ (p : Platform) where
  run_op-Clean :
      (o : WriteOp) (io : IoCtx) (oid : Bytes) (w : World)
      → NoNul oid
      → AllSound w.log
      → Clean (run_op p o io oid w)
  unfolding run_op
  run_op-Clean o io oid w n h =
      let c = Call.write_op_operate o.op io.ioctx oid in
      let (ret, writes) = p.librados w.log c in
      let h' : AllSound (c ∷ w.log) = ((tt, (tt, (n, (tt, (omega arith, tt))))), h) in
      by_run (store_all writes (logged c w)) _ (store_all-Clean writes _ h') λ u w' e h''.
        by_result (check_err p.overflow_checks ret) _ _ w' h'' (λ u'. clean h'')
          λ e'.
            by_run (position_from 0 o.cmps w') _ (position_from-Clean 0 o.cmps w' h'')
              λ i w'' e'' k. clean k

  pub operate_report-Clean :
      (o : WriteOp) (io : IoCtx) (oid : Bytes) (w : World)
      → AllSound w.log
      → Clean (operate_report p o io oid w)
  unfolding operate_report
  operate_report-Clean o io oid w h =
      dropping-Clean _ _
        (by_result_string oid _ _ w h (λ n. run_op-Clean o io oid w n h) λ e. clean h)
        (drop_write_op-KeepsSound o)

  pub operate-Clean :
      (o : WriteOp) (io : IoCtx) (oid : Bytes) (w : World)
      → AllSound w.log
      → Clean (operate p o io oid w)
  unfolding operate
  operate-Clean o io oid w h =
      by_run (operate_report p o io oid w) _ (operate_report-Clean o io oid w h)
        λ r w' e h'. raise_report-Clean r w' h'
