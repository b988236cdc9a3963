-- ===== src/IoCtx/Omap/Map.antt =====
-- Omaps as sorted maps: what is set is what is read back.
use Prim.Native.Nat.{Ordering}
use librados_rs.Base.{
  ℕ, suc, ◌==◌, ◌&&◌, if◌then◌else◌, take, map, ltb, ◌<◌, ◌^◌, ◌≡◌, refl, ap, ◌∙◌, Bool, true,
  false, List, [], ◌∷◌, ◌++◌, Option, none, some, length, arith,
}
use librados_rs.Error.{Bytes, ok}
use librados_rs.Text.Laws.{NoNul}
use librados_rs.Handles.{IoCtx}
use librados_rs.Ffi.World.{Platform, World}
use librados_rs.IoCtx.Objects.Semantics.{Answer, done, failed}
use librados_rs.IoCtx.Omap.{
  Request, set, query, Semantics, Serves, run_all, AllFresh, spec, replay, AllPages,
}
use librados_rs.IoCtx.Omap.Refines.{run_all_lem}
use librados_rs.Omap.{BTreeMap, compare_bytes, insert, collect, collect_into}
use librados_rs.Omap.Order.{compare_bytes_refl}
use librados_rs.Omap.Lookup.{lookup, last_value, lookup-collect_into}
use librados_rs.ReadOp.Query.{Query}
use librados_rs.WriteOp.Program.{WriteStep}
use librados_rs.WriteOp.Session.{Verdict, applied, refused, IsVerdict, comparisons}

-- The omap of each object.
abbrev pub Pool : Type 0
Pool = Bytes → BTreeMap Bytes

-- The map of one object is replaced.
abbrev pub replace : (oid : Bytes) → BTreeMap Bytes → Pool → Pool
replace oid m σ o = elim (compare_bytes o oid) [
  | Ordering.lt ↦ σ o
  | Ordering.eq ↦ m
  | Ordering.gt ↦ σ o
]

abbrev keep_unless : Ordering → Bytes × Bytes → BTreeMap Bytes → BTreeMap Bytes
keep_unless Ordering.eq kv m = m
keep_unless _ kv m = kv ∷ m

unfoldable pub remove : Bytes → BTreeMap Bytes → BTreeMap Bytes
remove k [] = []
remove k ((j, v) ∷ m) = keep_unless (compare_bytes k j) (j, v) (remove k m)

unfoldable pub remove_all : List Bytes → BTreeMap Bytes → BTreeMap Bytes
unfolding remove
remove_all [] m = m
remove_all (k ∷ ks) m = remove_all ks (remove k m)

-- What a step makes of a map, where it sets, removes or clears.
abbrev changed : WriteStep → BTreeMap Bytes → Option (BTreeMap Bytes)
changed (WriteStep.omap_set entries) m = some (collect_into m entries)
changed (WriteStep.omap_rm_keys ks) m = some (remove_all ks m)
changed WriteStep.omap_clear m = some []
changed _ m = none

abbrev and_changed :
    Option (BTreeMap Bytes) → (BTreeMap Bytes → Option (BTreeMap Bytes)) → Option (BTreeMap Bytes)
and_changed none f = none
and_changed (some m) f = f m

unfoldable pub changed_all : List WriteStep → BTreeMap Bytes → Option (BTreeMap Bytes)
changed_all [] m = some m
changed_all (s ∷ steps) m = and_changed (changed s m) (changed_all steps)

-- An op with any other step is refused here, with EOPNOTSUPP.
abbrev settle : (oid : Bytes) → Option (BTreeMap Bytes) → Pool → Verdict × Pool
settle oid none σ = (refused 94 none, σ)
settle oid (some m) σ = (applied, replace oid m σ)

abbrev pub modify : (oid : Bytes) → List WriteStep → Pool → Verdict × Pool
modify oid steps σ = settle oid (changed_all steps (σ oid)) σ

-- The pair of a key that has a value.
abbrev pub binding : Bytes → Option Bytes → List (Bytes × Bytes)
binding k none = []
binding k (some v) = (k, v) ∷ []

abbrev bindings : List Bytes → BTreeMap Bytes → List (Bytes × Bytes)
bindings [] m = []
bindings (k ∷ ks) m = binding k (lookup k m) ++ bindings ks m

abbrev follows : Option Bytes → Bytes → Bool
follows none k = true
follows (some s) k = elim (compare_bytes s k) [
  | Ordering.lt ↦ true
  | Ordering.eq ↦ false
  | Ordering.gt ↦ false
]

abbrev starts_with : Bytes → Bytes → Bool
starts_with [] k = true
starts_with (a ∷ s) [] = false
starts_with (a ∷ s) (b ∷ k) = (a == b) && starts_with s k

abbrev has_prefix : Option Bytes → Bytes → Bool
has_prefix none k = true
has_prefix (some s) k = starts_with s k

-- The entries behind `start` that begin with `prefix`.
abbrev selected : (start prefix : Option Bytes) → BTreeMap Bytes → List (Bytes × Bytes)
selected start prefix [] = []
selected start prefix ((k, v) ∷ m) =
    let rest = selected start prefix m in
    if follows start k && has_prefix prefix k then (k, v) ∷ rest else rest

abbrev cut : (max : ℕ) → List (Bytes × Bytes) → List (Bytes × Bytes) × Bool
cut max kvs = (take max kvs, ltb max (length kvs))

unfoldable pub look : (oid : Bytes) → Query → Pool → Answer (List (Bytes × Bytes) × Bool)
unfolding lookup
look oid (Query.vals start prefix max) σ = done (cut max (selected start prefix (σ oid)))
look oid (Query.keys start max) σ =
    done (cut max (map (λ kv. (kv.0, [])) (selected start none (σ oid))))
look oid (Query.vals_by_keys ks) σ = done (bindings ks (σ oid), false)

pub settle-IsVerdict :
    (oid : Bytes) (m : Option (BTreeMap Bytes)) (σ : Pool) (n : ℕ) → IsVerdict (settle oid m σ).0 n
settle-IsVerdict oid none σ n = ground arith
settle-IsVerdict oid (some m) σ n = tt

pub look-errnos_fit :
    (oid : Bytes) (q : Query) (σ : Pool) (e : ℕ) → look oid q σ ≡ failed e → suc e < 2 ^ 31
unfolding look
look-errnos_fit oid (Query.vals start prefix max) σ e h = cc
look-errnos_fit oid (Query.keys start max) σ e h = cc
look-errnos_fit oid (Query.vals_by_keys ks) σ e h = cc

-- A pool of sorted maps.
unfoldable pub map_pool : Semantics
map_pool = record {
  State = Pool;
  modify = modify;
  look = look;
  sound = λ oid steps σ. settle-IsVerdict oid (changed_all steps (σ oid)) σ (comparisons steps);
  errnos_fit = look-errnos_fit;
}

length-binding :
    (k : Bytes) (v : Option Bytes) (fuel : ℕ) → 1 < fuel → length (binding k v ++ []) < fuel
length-binding k none fuel h = ground arith
length-binding k (some v) fuel h = ground arith

collect-binding : (k : Bytes) (v : Option Bytes) → collect (binding k v ++ []) ≡ binding k v
unfolding collect collect_into insert
collect-binding k none = refl
collect-binding k (some v) = refl

replace-here : (oid : Bytes) (m : BTreeMap Bytes) (σ : Pool) → replace oid m σ oid ≡ m
replace-here oid m σ = rw (compare_bytes_refl oid, replace)

-- The value of a key in the omap of an object.
unfoldable pub value_at : (oid k : Bytes) → map_pool.State → Option Bytes
unfolding map_pool
value_at oid k σ = lookup k (σ oid)

abbrev pub set_and_get : (oid : Bytes) → List (Bytes × Bytes) → Bytes → List Request
set_and_get oid entries k = set oid entries ∷ query oid (Query.vals_by_keys (k ∷ [])) ∷ []

module _ (p : Platform) (fuel : ℕ) (io : IoCtx) (serves : Serves p io map_pool) where
  -- Where librados serves a pool of sorted maps, each new op is fresh and there is fuel for two
  -- steps: entries that are set in the omap of an object, its name free of NUL bytes, are read back
  -- by key as the last value that the entries give the key, or else the value that the key had
  -- before.
  pub set-query :
      (oid : Bytes) (entries : List (Bytes × Bytes)) (k : Bytes) (w : World)
      → NoNul oid
      → 1 < fuel
      → AllFresh p fuel io (set_and_get oid entries k) w
      → let v = last_value k (value_at oid k (serves.state w.log)) entries in
        (run_all p fuel io (set_and_get oid entries k) w).0
        ≡ (set oid entries, ok tt)
          ∷ (
            query oid (Query.vals_by_keys (k ∷ [])),
            ok (record { entries = binding k v; more = false }),
          )
          ∷ []
  unfolding replay spec AllPages map_pool look changed_all value_at
  set-query oid entries k w no_nul enough fresh =
      let σ = serves.state w.log in
      let found : lookup k (replace oid (collect_into (σ oid) entries) σ oid)
          ≡ last_value k (lookup k (σ oid)) entries =
        ap (lookup k) (replace-here oid (collect_into (σ oid) entries) σ)
        ∙ lookup-collect_into k (σ oid) entries in
      let v = last_value k (lookup k (σ oid)) entries in
      let (r, _) =
        run_all_lem p fuel io map_pool serves (set_and_get oid entries k) w
          (no_nul, ((no_nul, tt), tt)) fresh
          (tt, (rw found (length-binding k v fuel enough), tt)) in
      r ∙ rw (found, collect-binding k v)
