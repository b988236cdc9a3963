-- ===== src/ReadOp/Handles.antt =====
-- What a handle of a compound read can be exchanged for.
use librados_rs.Base.{
  ℕ, zero, suc, ◌<◌, ◌^◌, ◌≡◌, ◌≢◌, refl, ℤ, pos, negsuc, List, [], ◌∷◌, none, some, inl, inr, ◌∙◌,
  get_elem?, set, length, arith, ==_iff, get_elem?-append_last, take-append_left, take,
}
use librados_rs.Error.{invalid_handle, ok, err, panic, of_errno, check_err}
use librados_rs.Error.Laws.{check_err-negsuc, IsCode, judged}
use librados_rs.Ffi.Memory.{Ptr}
use librados_rs.Ffi.World.{Platform}
use librados_rs.ReadOp.{Kind, El, Handle, ReadOp, push}
use librados_rs.ReadOp.Run.{
  Any, bytes, page, keys, ReadResults, downcast, opened, take_slot, take_result,
}

-- A value boxed at the type that `k` stands for.
abbrev pub boxed : (k : Kind) → El k → Any
boxed Kind.data_kind v = bytes v
boxed Kind.vals_kind v = page v
boxed Kind.keys_kind v = keys v

-- The slot `i` holds the result of a step of kind `k`, and has not been taken.
abbrev pub Filled : (k : Kind) → ReadResults → ℕ → ℤ → El k → Type 0
Filled k rs i prval v = get_elem? rs.results i ≡ some (some (prval, boxed k v))

pub downcast-boxed : (k : Kind) (v : El k) → downcast k (boxed k v) ≡ ok v
unfolding downcast
downcast-boxed Kind.data_kind v = refl
downcast-boxed Kind.vals_kind v = refl
downcast-boxed Kind.keys_kind v = refl

-- `push` hands out the index of the new step, keeps the steps that older handles name, and marks
-- the handle with the op.
push_names :
    (k : Kind) (o : ReadOp) (step : Ptr)
    → let (o', h) = push k o step in
      (get_elem? o'.steps h.index ≡ some step)
      × (h.operation ≡ o'.operation)
      × (o'.operation ≡ o.operation)
      × (take h.index o'.steps ≡ o.steps)
unfolding push
push_names k o step = (
  get_elem?-append_last o.steps step,
  refl,
  refl,
  take-append_left (length o.steps) o.steps (step ∷ []) refl,
)

get_elem?-set_self :
    {A : Type 0} (xs : List A) (i : ℕ) {x : A} (v : A)
    → get_elem? xs i ≡ some x
    → get_elem? (set xs i v) i ≡ some v
get_elem?-set_self [] i v h = cc
get_elem?-set_self (x ∷ xs) zero v h = refl
get_elem?-set_self (x ∷ xs) (suc i) v h = get_elem?-set_self xs i v h

get_elem?-set_ne :
    {A : Type 0} (xs : List A) (i j : ℕ) (v : A) → i ≢ j → get_elem? (set xs i v) j ≡ get_elem? xs j
get_elem?-set_ne [] i j v h = refl
get_elem?-set_ne (x ∷ xs) zero zero v h = absurd (h refl)
get_elem?-set_ne (x ∷ xs) zero (suc j) v h = refl
get_elem?-set_ne (x ∷ xs) (suc i) zero v h = refl
get_elem?-set_ne (x ∷ xs) (suc i) (suc j) v h = get_elem?-set_ne xs i j v (omega arith)

opened_err :
    (p : Platform) (k : Kind) (e : ℕ) (a : Any)
    → suc e < 2 ^ 31
    → opened p k (negsuc e, a) ≡ err (of_errno (pos (suc e)))
unfolding opened
opened_err p k e a small = rw (check_err-negsuc p.overflow_checks e small, opened)

module _ (p : Platform) (k : Kind) (rs : ReadResults) (h : Handle k) where
  -- A handle of another operation is refused, and nothing is taken.
  take_foreign : rs.operation ≢ h.operation → take_result p k rs h ≡ (err invalid_handle, rs)
  unfolding take_result
  take_foreign ne = ground (arith, ==_iff rs.operation h.operation)

  module _ (own : rs.operation ≡ h.operation) (prval : ℤ) (v : El k)
      (filled : Filled k rs h.index prval v) where
    found :
        take_result p k rs h
        ≡ (opened p k (prval, boxed k v), record rs { results = set rs.results h.index none })
    unfolding take_result take_slot
    found = rw ((==_iff rs.operation h.operation).1 own, filled)

    pub take_result-operation : (take_result p k rs h).1.operation ≡ rs.operation
    take_result-operation = rw found

    pub take_value : (n : ℕ) → prval ≡ pos n → (take_result p k rs h).0 ≡ ok v
    unfolding opened check_err
    take_value n e = rw (found, e, downcast-boxed k v)

    pub take_error :
        (e : ℕ)
        → prval ≡ negsuc e
        → suc e < 2 ^ 31
        → (take_result p k rs h).0 ≡ err (of_errno (pos (suc e)))
    take_error n e small = rw (found, e, opened_err p k n (boxed k v) small)

    emptied : (take_result p k (record rs { results = set rs.results h.index none }) h).0 ≡ panic
    unfolding take_result take_slot
    emptied =
        rw (
          (==_iff rs.operation h.operation).1 own,
          get_elem?-set_self rs.results h.index none filled,
        )

    pub take_once :
        (j : ℕ)
        → h.index ≢ j
        → let rs' = (take_result p k rs h).1 in
          ((take_result p k rs' h).0 ≡ panic) × (get_elem? rs'.results j ≡ get_elem? rs.results j)
    take_once j ne = rw found (emptied, get_elem?-set_ne rs.results h.index j none ne)

    -- The operation's own handle, while its slot is filled with the code of its step and a value of
    -- its type: it is exchanged for that value, or for the error where the code is a negated errno;
    -- a second take of it panics, and every other slot is as it was.
    pub take_own :
        (j : ℕ)
        → IsCode prval
        → h.index ≢ j
        → let (r, rs') = take_result p k rs h in
          (r ≡ judged prval (ok v))
          × ((take_result p k rs' h).0 ≡ panic)
          × (get_elem? rs'.results j ≡ get_elem? rs.results j)
    take_own j (inl (n, e)) ne =
        let (again, others) = take_once j ne in (take_value n e ∙ rw e, again, others)
    take_own j (inr (e, h, small)) ne =
        let (again, others) = take_once j ne in (take_error e h small ∙ rw h, again, others)
