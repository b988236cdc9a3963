-- ===== src/Omap/Keys.antt =====
-- The set of keys that src/read_op.rs collects for `omap_get_keys` against the map that it collects
-- for `omap_get_vals`.
use librados_rs.Base.{ℕ, ◌≡◌, refl, ap, ◌∙◌, inl, inr, not, ◌==◌, List, [], ◌∷◌, map}
use librados_rs.Error.{Bytes, Outcome, ok, err, panic, fault, out_of_fuel}
use librados_rs.Ffi.Call.{Cell, OmapKeysStep}
use librados_rs.Ffi.World.{Platform, World, Io, pure, and_then, dropping}
use librados_rs.Omap.{
  BTreeMap, compare_bytes, insert, collect_into, collect, pairs, drop_iter, OmapIter,
}
use librados_rs.Omap.Order.{Ordering-cases}
use librados_rs.Omap.Lookup.{insert_lt, insert_eq, insert_gt}
use librados_rs.ReadOp.Run.{Any, page, keys, into_result}

-- A pair without its value.
abbrev pub key_only : {V : Type 0} → Bytes × V → Bytes × Unit {0}
key_only kv = (kv.0, tt)

module _ {V : Type 0} where
  abbrev pub domain : List (Bytes × V) → BTreeMap (Unit {0})
  domain m = map key_only m

  domain-insert :
      (k : Bytes) (v : V) (m : BTreeMap V) → domain (insert k v m) ≡ insert k tt (domain m)
  unfolding insert
  domain-insert k v [] = refl
  domain-insert k v ((j, u) ∷ m) = elim (Ordering-cases (compare_bytes k j)) [
    | inl e ↦ rw (insert_lt k j v u m e, insert_lt k j tt tt (domain m) e)
    | inr (inl e) ↦ rw (insert_eq k j v u m e, insert_eq k j tt tt (domain m) e)
    | inr (inr e) ↦
        rw (insert_gt k j v u m e, insert_gt k j tt tt (domain m) e, domain-insert k v m)
  ]

  domain-collect_into :
      (m : BTreeMap V) (kvs : List (Bytes × V))
      → domain (collect_into m kvs) ≡ collect_into (domain m) (domain kvs)
  unfolding collect_into
  domain-collect_into m [] = refl
  domain-collect_into m ((k, v) ∷ kvs) =
      domain-collect_into (insert k v m) kvs
      ∙ ap (λ d. collect_into d (domain kvs)) (domain-insert k v m)

-- The keys of a page, where the result is one.
abbrev pub without_values : Outcome Any → Outcome Any
without_values (ok (page m)) = ok (keys (record { keys = domain m.entries; more = m.more }))
without_values o = o

-- The step that would have fetched the values as well.
abbrev pub with_values : OmapKeysStep → Cell
with_values s = Cell.vals_step (record { iter = s.iter; more = s.more; prval = s.prval })

-- The two results, from the pairs or the failure to get them.
abbrev as_keys : OmapKeysStep → List (Bytes × Bytes) → Io Any
as_keys s kvs = pure (keys (record { keys = collect (domain kvs); more = not (s.more == 0) }))

abbrev as_page : OmapKeysStep → List (Bytes × Bytes) → Io Any
as_page s kvs = pure (page (record { entries = collect kvs; more = not (s.more == 0) }))

same_keys :
    (s : OmapKeysStep) (r : Outcome (List (Bytes × Bytes))) (w : World) (d : World → World)
    → dropping (and_then r w (as_keys s)) d ≡ (
      without_values (dropping (and_then r w (as_page s)) d).0,
      (dropping (and_then r w (as_page s)) d).1,
    )
unfolding collect
same_keys s (ok kvs) w d = rw (domain-collect_into [] kvs)
same_keys s (err e) w d = refl
same_keys s panic w d = refl
same_keys s fault w d = refl
same_keys s out_of_fuel w d = refl

-- Whatever librados does: the step of `omap_get_keys` gives the keys of the page that the step of
-- `omap_get_vals` would have given in its place, makes the same calls, and fails where it would
-- have failed.
pub into_result-domain :
    (p : Platform) (fuel : ℕ) (s : OmapKeysStep) (w : World)
    → let (r, w') = into_result p fuel (with_values s) w in
      into_result p fuel (Cell.keys_step s) w ≡ (without_values r, w')
unfolding into_result
into_result-domain p fuel s w =
    let iter : OmapIter = record { raw = s.iter } in
    let (r, w₁) = pairs p fuel iter w in same_keys s r w₁ (drop_iter iter)
