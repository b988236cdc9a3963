-- ===== src/WriteOp/Program/Laws.antt =====
-- What librados reads from the calls of a build is what the caller has added.
use librados_rs.Base.{
  ◌≡◌, refl, ◌∙◌, true, false, List, [], ◌∷◌, ◌++◌, map, length, take, take_all, ==_refl,
  append_assoc, append-nil,
}
use mathlib.Core.Path.{subst}
use librados_rs.Error.{Bytes, ok}
use librados_rs.Text.Laws.{NoNul, cstring-NoNul}
use librados_rs.Ffi.Memory.{Ptr}
use librados_rs.Ffi.World.{World}
use librados_rs.WriteOp
use librados_rs.WriteOp.{WriteOp}
use librados_rs.WriteOp.Program.{WriteStep, add, add_all, strings_at, zip, program}

-- The attribute names of a step are free of NUL bytes.
abbrev pub IsClean : WriteStep → Type 0
IsClean (WriteStep.setxattr name value) = NoNul name
IsClean (WriteStep.cmpxattr name op value) = NoNul name
IsClean _ = Unit

abbrev pub AllClean : List WriteStep → Type 0
AllClean [] = Unit
AllClean (s ∷ steps) = IsClean s × AllClean steps

pub strings_at-whole : (ks : List Bytes) → strings_at ks (map (λ k. length k) ks) ≡ ks
unfolding strings_at
strings_at-whole [] = refl
strings_at-whole (k ∷ ks) = cc (take_all k, strings_at-whole ks)

entries-whole :
    (es : List (Bytes × Bytes))
    → take (length es) (
        zip
          (strings_at (map (λ e. e.0) es) (map (λ e. length e.0) es))
          (strings_at (map (λ e. e.1) es) (map (λ e. length e.1) es)))
      ≡ es
unfolding strings_at zip
entries-whole [] = refl
entries-whole ((k, v) ∷ es) = cc (take_all k, take_all v, entries-whole es)

-- The method succeeds, stays with its op, and librados has read one more step.
abbrev Adds : WriteStep → WriteOp → World → Type 0
Adds s o w =
    (o' : WriteOp) × ((add s o w).0 ≡ ok o')
    × (o'.op ≡ o.op)
    × (program o.op (add s o w).1.log ≡ program o.op w.log ++ s ∷ [])

add-Adds : (s : WriteStep) (o : WriteOp) (w : World) → IsClean s → Adds s o w
unfolding add program WriteOp.assert_version WriteOp.assert_exists WriteOp.create WriteOp.write
    WriteOp.write_full WriteOp.append WriteOp.remove WriteOp.truncate WriteOp.omap_set
    WriteOp.omap_rm_keys WriteOp.setxattr WriteOp.cmpxattr WriteOp.omap_cmp WriteOp.omap_rm_range
    WriteOp.omap_clear
add-Adds (WriteStep.assert_version ver) o w c = (o, refl, refl, rw (==_refl o.op))
add-Adds WriteStep.assert_exists o w c = (o, refl, refl, rw (==_refl o.op))
add-Adds (WriteStep.create true) o w c = (o, refl, refl, rw (==_refl o.op))
add-Adds (WriteStep.create false) o w c = (o, refl, refl, rw (==_refl o.op))
add-Adds (WriteStep.write buf offset) o w c = (o, refl, refl, rw (==_refl o.op, take_all buf))
add-Adds (WriteStep.write_full buf) o w c = (o, refl, refl, rw (==_refl o.op, take_all buf))
add-Adds (WriteStep.append buf) o w c = (o, refl, refl, rw (==_refl o.op, take_all buf))
add-Adds WriteStep.remove o w c = (o, refl, refl, rw (==_refl o.op))
add-Adds (WriteStep.truncate offset) o w c = (o, refl, refl, rw (==_refl o.op))
add-Adds (WriteStep.omap_set entries) o w c =
    (o, refl, refl, rw (==_refl o.op, entries-whole entries))
add-Adds (WriteStep.omap_rm_keys keys) o w c =
    (o, refl, refl, rw (==_refl o.op, strings_at-whole keys, take_all keys))
add-Adds (WriteStep.setxattr name value) o w c = (
  o,
  rw (cstring-NoNul name c) refl,
  refl,
  rw (cstring-NoNul name c, ==_refl o.op, take_all value),
)
add-Adds (WriteStep.cmpxattr name op value) o w c = (
  o,
  rw (cstring-NoNul name c) refl,
  refl,
  rw (cstring-NoNul name c, ==_refl o.op, take_all value),
)
add-Adds (WriteStep.omap_cmp key op value) o w c = (
  record o { cmps = o.cmps ++ w.next ∷ [] },
  refl,
  refl,
  rw (==_refl o.op, take_all key, take_all value),
)
add-Adds (WriteStep.omap_rm_range begin end) o w c =
    (o, refl, refl, rw (==_refl o.op, take_all begin, take_all end))
add-Adds WriteStep.omap_clear o w c = (o, refl, refl, rw (==_refl o.op))

-- However the methods of an op are called, with attribute names free of NUL bytes: all calls
-- succeed, and what librados reads from them is exactly the steps with their arguments, in order,
-- behind those that the op had.
pub add_all-program :
    (steps : List WriteStep) (o : WriteOp) (w : World)
    → AllClean steps
    → let (r, w') = add_all steps o w in
      (o' : WriteOp) × (r ≡ ok o')
      × (o'.op ≡ o.op)
      × (program o.op w'.log ≡ program o.op w.log ++ steps)
unfolding add_all
add_all-program [] o w c = (o, refl, refl, rw append-nil)
add_all-program (s ∷ steps) o w c =
    let (o₁, ran₁, op₁, read₁) = add-Adds s o w c.0 in
    let (o₂, ran₂, op₂, read₂) = add_all-program steps o₁ (add s o w).1 c.1 in
    let same = λ (a : Ptr).
      program a (add_all steps o₁ (add s o w).1).1.log ≡ program a (add s o w).1.log ++ steps in
    let read : same o.op = subst same op₁ read₂ in
    (o₂, rw ran₁ ran₂, op₂ ∙ op₁, rw (ran₁, read, read₁, append_assoc))
