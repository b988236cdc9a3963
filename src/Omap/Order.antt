-- ===== src/Omap/Order.antt =====
-- The lexicographic order on bytes: its test for equality is right, and it has two directions.
use Prim.Native.Nat.{Ordering}
use librados_rs.Base.{◌≡◌, ◌⊎◌, inl, inr, refl, [], ◌∷◌, arith}
use librados_rs.Error.{Bytes}
use librados_rs.Omap.{compare_bytes}

pub Ordering-cases : (o : Ordering) → (o ≡ Ordering.lt) ⊎ (o ≡ Ordering.eq) ⊎ (o ≡ Ordering.gt)
Ordering-cases Ordering.lt = inl refl
Ordering-cases Ordering.eq = inr (inl refl)
Ordering-cases Ordering.gt = inr (inr refl)

pub compare_bytes_refl : (s : Bytes) → compare_bytes s s ≡ Ordering.eq
unfolding compare_bytes
compare_bytes_refl [] = refl
compare_bytes_refl (a ∷ s) = ground (arith, compare_bytes_refl s)

pub compare_bytes_eq : (s t : Bytes) → compare_bytes s t ≡ Ordering.eq → s ≡ t
unfolding compare_bytes
compare_bytes_eq [] [] h = refl
compare_bytes_eq [] (b ∷ t) h = cc
compare_bytes_eq (a ∷ s) [] h = cc
compare_bytes_eq (a ∷ s) (b ∷ t) h = ground (arith, compare_bytes_eq s t)

pub compare_bytes_gt :
    (s t : Bytes) → compare_bytes s t ≡ Ordering.gt → compare_bytes t s ≡ Ordering.lt
unfolding compare_bytes
compare_bytes_gt [] [] h = cc
compare_bytes_gt [] (b ∷ t) h = cc
compare_bytes_gt (a ∷ s) [] h = refl
compare_bytes_gt (a ∷ s) (b ∷ t) h = ground (arith, compare_bytes_gt s t)
