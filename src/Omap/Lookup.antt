-- ===== src/Omap/Lookup.antt =====
-- What a key is given by the map that the pairs of an iterator are collected into: the last value.
use Prim.Native.Nat.{Ordering}
use librados_rs.Base.{◌≡◌, ◌⊎◌, inl, inr, refl, ◌∙◌, ap, List, [], ◌∷◌, Option, none, some}
use librados_rs.Error.{Bytes}
use librados_rs.Omap.{BTreeMap, compare_bytes, insert, collect_into}
use librados_rs.Omap.Order.{Ordering-cases, compare_bytes_eq, compare_bytes_gt}

module _ {V : Type 0} where
  pub insert_lt :
      (k j : Bytes) (v u : V) (m : BTreeMap V)
      → compare_bytes k j ≡ Ordering.lt
      → insert k v ((j, u) ∷ m) ≡ (k, v) ∷ (j, u) ∷ m
  unfolding insert
  insert_lt k j v u m e = rw (e, insert)

  pub insert_eq :
      (k j : Bytes) (v u : V) (m : BTreeMap V)
      → compare_bytes k j ≡ Ordering.eq
      → insert k v ((j, u) ∷ m) ≡ (j, v) ∷ m
  unfolding insert
  insert_eq k j v u m e = rw (e, insert)

  pub insert_gt :
      (k j : Bytes) (v u : V) (m : BTreeMap V)
      → compare_bytes k j ≡ Ordering.gt
      → insert k v ((j, u) ∷ m) ≡ (j, u) ∷ insert k v m
  unfolding insert
  insert_gt k j v u m e = rw (e, insert)

  -- The first choice for equal keys, and the second one for others.
  abbrev pub choose : Ordering → V → Option V → Option V
  choose Ordering.eq v other = some v
  choose _ v other = other

  -- The value of a key.
  unfoldable pub lookup : Bytes → BTreeMap V → Option V
  lookup k [] = none
  lookup k ((j, u) ∷ m) = choose (compare_bytes k j) u (lookup k m)

  -- The last value that the pairs give a key, or else `before`.
  unfoldable pub last_value : Bytes → Option V → List (Bytes × V) → Option V
  last_value k before [] = before
  last_value k before ((j, v) ∷ kvs) = last_value k (choose (compare_bytes k j) v before) kvs

  -- A key that differs from the first one is looked up behind it.
  lookup_behind :
      (i j : Bytes) (u : V) (m : BTreeMap V)
      → (compare_bytes i j ≡ Ordering.lt) ⊎ (compare_bytes i j ≡ Ordering.gt)
      → lookup i ((j, u) ∷ m) ≡ lookup i m
  unfolding lookup
  lookup_behind i j u m (inl e) = rw (e, lookup)
  lookup_behind i j u m (inr e) = rw (e, lookup)

  lookup_first :
      (i j : Bytes) (u : V) (m : BTreeMap V)
      → compare_bytes i j ≡ Ordering.eq
      → lookup i ((j, u) ∷ m) ≡ some u
  unfolding lookup
  lookup_first i j u m e = rw (e, lookup)

  found :
      (i k j : Bytes) (v u : V) (m : BTreeMap V)
      → compare_bytes j k ≡ Ordering.lt
      → compare_bytes i j ≡ Ordering.eq
      → lookup i ((j, u) ∷ insert k v m) ≡ choose (compare_bytes i k) v (lookup i ((j, u) ∷ m))
  found i k j v u m lt e =
      rw (lookup_first i j u (insert k v m) e, lookup_first i j u m e, compare_bytes_eq i j e, lt)

  replaced :
      (i j : Bytes) (v u : V) (m : BTreeMap V)
      → lookup i ((j, v) ∷ m) ≡ choose (compare_bytes i j) v (lookup i ((j, u) ∷ m))
  replaced i j v u m = elim (Ordering-cases (compare_bytes i j)) [
    | inl e ↦ rw (lookup_behind i j v m (inl e), lookup_behind i j u m (inl e), e)
    | inr (inl e) ↦ rw (lookup_first i j v m e, e)
    | inr (inr e) ↦ rw (lookup_behind i j v m (inr e), lookup_behind i j u m (inr e), e)
  ]

  passed :
      (i k j : Bytes) (v u : V) (m : BTreeMap V)
      → compare_bytes j k ≡ Ordering.lt
      → lookup i (insert k v m) ≡ choose (compare_bytes i k) v (lookup i m)
      → lookup i ((j, u) ∷ insert k v m) ≡ choose (compare_bytes i k) v (lookup i ((j, u) ∷ m))
  passed i k j v u m lt h = elim (Ordering-cases (compare_bytes i j)) [
    | inl e ↦ rw (lookup_behind i j u (insert k v m) (inl e), lookup_behind i j u m (inl e)) h
    | inr (inl e) ↦ found i k j v u m lt e
    | inr (inr e) ↦ rw (lookup_behind i j u (insert k v m) (inr e), lookup_behind i j u m (inr e)) h
  ]

  lookup-insert :
      (i k : Bytes) (v : V) (m : BTreeMap V)
      → lookup i (insert k v m) ≡ choose (compare_bytes i k) v (lookup i m)
  unfolding lookup insert
  lookup-insert i k v [] = refl
  lookup-insert i k v ((j, u) ∷ m) = elim (Ordering-cases (compare_bytes k j)) [
    | inl e ↦ rw (insert_lt k j v u m e, lookup)
    | inr (inl e) ↦ rw (insert_eq k j v u m e, compare_bytes_eq k j e) (replaced i j v u m)
    | inr (inr e) ↦
        rw (insert_gt k j v u m e)
          (passed i k j v u m (compare_bytes_gt k j e) (lookup-insert i k v m))
  ]

  pub lookup-collect_into :
      (k : Bytes) (m : BTreeMap V) (kvs : List (Bytes × V))
      → lookup k (collect_into m kvs) ≡ last_value k (lookup k m) kvs
  unfolding collect_into last_value
  lookup-collect_into k m [] = refl
  lookup-collect_into k m ((j, v) ∷ kvs) =
      lookup-collect_into k (insert j v m) kvs
      ∙ ap (λ o. last_value k o kvs) (lookup-insert k j v m)
