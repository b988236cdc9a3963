-- ===== src/Omap.antt =====
-- src/omap.rs: the iterator that librados allocates for an omap step, and the sorted collections
-- that its pairs are collected into.
pub mod Order
pub mod Lookup
pub mod Drain
pub mod Keys
use Prim.Native.Nat.{compare, Ordering}
use librados_rs.Base.{ℕ, zero, suc, Bool, List, [], ◌∷◌, ◌++◌, none, some}
use librados_rs.Error.{Bytes, out_of_fuel}
use librados_rs.IoCtx.Notify.{copy_payload}
use librados_rs.Ffi.Memory.{Ptr, null, from_raw_parts}
use librados_rs.Ffi.Call
use librados_rs.Ffi.World.{Platform, World, Io, pure, lift, logged, ◌>>=◌, call}

-- The lexicographic order on bytes.
unfoldable pub compare_bytes : Bytes → Bytes → Ordering
compare_bytes [] [] = Ordering.eq
compare_bytes [] (b ∷ t) = Ordering.lt
compare_bytes (a ∷ s) [] = Ordering.gt
compare_bytes (a ∷ s) (b ∷ t) = elim (compare a b) [
  | Ordering.lt ↦ Ordering.lt
  | Ordering.eq ↦ compare_bytes s t
  | Ordering.gt ↦ Ordering.gt
]

-- A `BTreeMap` from bytes, as its entries in order.
abbrev pub BTreeMap : Type 0 → Type 0
BTreeMap V = List (Bytes × V)

module _ {V : Type 0} where
  unfoldable pub insert : Bytes → V → BTreeMap V → BTreeMap V
  insert k v [] = (k, v) ∷ []
  insert k v ((j, u) ∷ m) = elim (compare_bytes k j) [
    | Ordering.lt ↦ (k, v) ∷ (j, u) ∷ m
    | Ordering.eq ↦ (j, v) ∷ m
    | Ordering.gt ↦ (j, u) ∷ insert k v m
  ]

  -- Each pair in turn goes into the map.
  unfoldable pub collect_into : BTreeMap V → List (Bytes × V) → BTreeMap V
  collect_into m [] = m
  collect_into m ((k, v) ∷ kvs) = collect_into (insert k v m) kvs

  -- `collect()` into a map.
  unfoldable pub collect : List (Bytes × V) → BTreeMap V
  unfolding collect_into
  collect kvs = collect_into [] kvs

pub record OmapPage : Type 0 where
  pub entries : BTreeMap Bytes
  pub more : Bool

-- A `BTreeSet` is a map to the unit type.
pub record OmapKeys : Type 0 where
  pub keys : BTreeMap (Unit {0})
  pub more : Bool

-- The raw pointer.
pub record OmapIter : Type 0 where
  pub raw : Ptr

-- `OmapIter::empty`
abbrev pub empty : OmapIter
empty = record { raw = null }

-- `impl Drop for OmapIter`
unfoldable pub drop_iter : OmapIter → World → World
drop_iter iter = logged (Call.omap_get_end iter.raw)

module _ (p : Platform) where
  -- The `loop` of `pairs`, on fuel, with the pairs so far.
  unfoldable pub pairs_loop : ℕ → OmapIter → List (Bytes × Bytes) → Io (List (Bytes × Bytes))
  unfolding copy_payload
  pairs_loop zero iter acc = lift out_of_fuel
  pairs_loop (suc fuel) iter acc = do
    r ← call p (Call.omap_get_next2 iter.raw)
    elim r.key [
      | none ↦ pure acc
      | some k ↦ do
        key ← lift (from_raw_parts k r.key_len)
        val ← lift (copy_payload r.val r.val_len)
        pairs_loop fuel iter (acc ++ (key, val) ∷ [])
    ]

  unfoldable pub pairs : ℕ → OmapIter → Io (List (Bytes × Bytes))
  unfolding pairs_loop
  pairs fuel iter = pairs_loop fuel iter []
