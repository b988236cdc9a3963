-- ===== src/ReadOp/Total.antt =====
-- Running a compound read fills each slot with a value of its handle's type, whatever librados
-- writes through the slots, and taking a handle never panics for it.
use librados_rs.Base.{
  ℕ, zero, suc, ◌<◌, ◌≡◌, ◌≢◌, ◌⊎◌, inl, inr, refl, sym, ◌∙◌, ℤ, pos, negsuc, List, [], ◌∷◌, Option,
  none, some, arith, ==_ne, length, get_elem?, take,
}
use librados_rs.Error.{Bytes, ok, err, of_errno}
use librados_rs.Error.Laws.{IsCode, check_err-pos, check_err-negsuc}
use librados_rs.Text.Laws.{NoNul, cstring-NoNul}
use librados_rs.Handles.{IoCtx}
use librados_rs.Ffi.Memory.{Ptr}
use librados_rs.Ffi.Call.{Call, Cell}
use librados_rs.Ffi.World.{Platform, World, logged, release}
use librados_rs.IoCtx.Notify.Laws.{IsSettled}
use librados_rs.Omap.Drain.{YieldsPairs}
use librados_rs.ReadOp.{Kind, El, Handle, ReadOp}
use librados_rs.ReadOp.Run.{
  Any, ReadResults, step_result, step_results, into_result, submit, operate, take_result,
}
use librados_rs.ReadOp.Handles.{boxed, Filled, take_value, take_error}
use librados_rs.ReadOp.Pages.{step_result-vals_step, step_result-keys_step}
use librados_rs.ReadOp.Wired.{
  Slot, registered, IsCell, Alive, Alive-transfer, Alive-logged, addresses, IsWired, Names,
  WritesSteps, store_all-Alive,
}

-- What `rados_read_op_operate` returns.
abbrev pub run_code : Platform → (op : Ptr) → IoCtx → (oid : Bytes) → List Call → ℤ
run_code p op io oid log = (p.librados log (Call.read_op_operate op io.ioctx oid)).0

-- Every iterator comes to its end after fewer than `fuel` pairs.
abbrev pub IsFinite : Platform → (fuel : ℕ) → Type 0
IsFinite p fuel =
    (iter : Ptr) (log : List Call)
    → (kvs : List (Bytes × Bytes)) × YieldsPairs p iter log kvs × (length kvs < fuel)

-- The results have a value of the right type, and a code, for each slot.
abbrev pub Fills : List Slot → List (Option (ℤ × Any)) → Type 0
Fills [] [] = Unit
Fills (s ∷ slots) (some (z, v) ∷ rs) =
    IsCode z × ((x : El s.1) × (v ≡ boxed s.1 x)) × Fills slots rs
Fills _ _ = ⊥

module _ (p : Platform) (fuel : ℕ) (finite : IsFinite p fuel) where
  -- The step at `a` becomes a value of its kind, and no other box is touched.
  abbrev Consumes : Ptr → Kind → World → Type 0
  Consumes a k w =
      (z : ℤ) × (v : El k) × (w' : World) × (step_result p fuel a w
        ≡ (ok (some (z, boxed k v)), w'))
      × IsCode z
      × (w'.next ≡ w.next)
      × ((b : Ptr) → b ≢ a → w'.mem b ≡ w.mem b)

  consumes :
      (a : Ptr) (k : Kind) (c : Cell) (w : World) → w.mem a ≡ some c → IsCell k c → Consumes a k w
  unfolding step_result into_result
  consumes a Kind.data_kind (Cell.data_step s) w h code =
      (s.prval, take s.bytes_read s.buf, release a w, rw h, code, refl, λ b ne. rw (==_ne b a ne))
  consumes a Kind.vals_kind (Cell.vals_step s) w h code =
      let (kvs, yields, enough) = finite s.iter w.log in
      (
        s.prval,
        _,
        _,
        step_result-vals_step p fuel kvs a w enough s h yields,
        code,
        refl,
        λ b ne. rw (==_ne b a ne),
      )
  consumes a Kind.keys_kind (Cell.keys_step s) w h code =
      let (kvs, yields, enough) = finite s.iter w.log in
      (
        s.prval,
        _,
        _,
        step_result-keys_step p fuel kvs a w enough s h yields,
        code,
        refl,
        λ b ne. rw (==_ne b a ne),
      )
  consumes a Kind.data_kind (Cell.int _) w h code = elim code [ ]
  consumes a Kind.data_kind (Cell.vals_step s) w h code = elim code [ ]
  consumes a Kind.data_kind (Cell.keys_step s) w h code = elim code [ ]
  consumes a Kind.data_kind (Cell.watch_state _) w h code = elim code [ ]
  consumes a Kind.data_kind Cell.unit w h code = elim code [ ]
  consumes a Kind.vals_kind (Cell.int _) w h code = elim code [ ]
  consumes a Kind.vals_kind (Cell.data_step s) w h code = elim code [ ]
  consumes a Kind.vals_kind (Cell.keys_step s) w h code = elim code [ ]
  consumes a Kind.vals_kind (Cell.watch_state _) w h code = elim code [ ]
  consumes a Kind.vals_kind Cell.unit w h code = elim code [ ]
  consumes a Kind.keys_kind (Cell.int _) w h code = elim code [ ]
  consumes a Kind.keys_kind (Cell.data_step s) w h code = elim code [ ]
  consumes a Kind.keys_kind (Cell.vals_step s) w h code = elim code [ ]
  consumes a Kind.keys_kind (Cell.watch_state _) w h code = elim code [ ]
  consumes a Kind.keys_kind Cell.unit w h code = elim code [ ]

  step_results-Fills :
      (lo : ℕ) (slots : List Slot) (w : World)
      → Alive w lo slots
      → (rs : List (Option (ℤ × Any))) × (w' : World) × (step_results p fuel (addresses slots) w
          ≡ (ok rs, w'))
        × Fills slots rs
  unfolding step_results
  step_results-Fills lo [] w h = ([], w, refl, tt)
  step_results-Fills lo (s ∷ slots) w h =
      let (c, here, cell) = h.2 in
      let (z, v, w₁, ran, code, next, others) = consumes s.0 s.1 c w here cell in
      let alive : Alive w₁ (suc s.0) slots =
        Alive-transfer w w₁ (suc s.0) slots (λ b l n. others b (omega arith)) (omega arith) h.3 in
      let (rs, w₂, ran', filled) = step_results-Fills (suc s.0) slots w₁ alive in
      (some (z, boxed s.1 v) ∷ rs, w₂, rw (ran, ran'), (code, (v, refl), filled))

-- What a slot's handle finds.
pub Fills-get :
    (slots : List Slot) (rs : List (Option (ℤ × Any))) (i : ℕ) (s : Slot)
    → Fills slots rs
    → get_elem? slots i ≡ some s
    → (z : ℤ) × (v : El s.1) × IsCode z × (get_elem? rs i ≡ some (some (z, boxed s.1 v)))
Fills-get [] [] i s fills h = cc
Fills-get [] (r ∷ rs) i s fills h = elim fills [ ]
Fills-get (t ∷ slots) [] i s fills h = elim fills [ ]
Fills-get (t ∷ slots) (none ∷ rs) i s fills h = elim fills [ ]
Fills-get (t ∷ slots) (some (z, v) ∷ rs) zero s fills h =
    let e : s ≡ t = cc in rw e (z, fills.1.0, fills.0, rw fills.1.1)
Fills-get (t ∷ slots) (some (z, v) ∷ rs) (suc i) s fills h = Fills-get slots rs i s fills.2 h

module _ (p : Platform) where
  -- Taking a slot that is filled, with a code.
  pub take-IsSettled :
      (k : Kind) (rs : ReadResults) (h : Handle k)
      → rs.operation ≡ h.operation
      → (z : ℤ) (v : El k) → IsCode z
      → Filled k rs h.index z v
      → IsSettled (take_result p k rs h).0
  take-IsSettled k rs h own z v code filled = elim code [
    | inl (m, e) ↦ rw (take_value p k rs h own z v filled m e) tt
    | inr (m, e, small) ↦ rw (take_error p k rs h own z v filled m e small) tt
  ]

  take-Fills :
      {k : Kind} (h : Handle k) (o : ReadOp) (slots : List Slot) (rs : ReadResults)
      → Names h o slots
      → rs.operation ≡ o.operation
      → Fills slots rs.results
      → IsSettled (take_result p k rs h).0
  take-Fills {k} h o slots rs n e fills =
      let (z, v, code, filled) = Fills-get slots rs.results h.index (n.address, k) fills n.slot in
      take-IsSettled k rs h (e ∙ sym n.own) z v code filled

  module _ (fuel : ℕ) (finite : IsFinite p fuel) (o : ReadOp) (slots : List Slot) (w : World)
      (wired : IsWired o slots w) (io : IoCtx) (oid : Bytes) (no_nul : NoNul oid)
      (code : IsCode (p.librados w.log (Call.read_op_operate o.op io.ioctx oid)).0)
      (writes : WritesSteps
        (registered o.op w.log)
        (p.librados w.log (Call.read_op_operate o.op io.ioctx oid)).1) where
    -- Operating fills every slot, or is the error of librados.
    pub operate-Fills :
        let r = (operate p fuel o io oid w).0 in
        let ret = run_code p o.op io oid w.log in
        ((n : ℕ) × (rs : ReadResults) × (ret ≡ pos n)
          × (r ≡ ok rs)
          × (rs.operation ≡ o.operation)
          × Fills slots rs.results)
        ⊎ ((e : ℕ) × (ret ≡ negsuc e) × (r ≡ err (of_errno (pos (suc e)))))
    unfolding operate submit
    operate-Fills =
        let run = Call.read_op_operate o.op io.ioctx oid in
        let alive = Alive-logged run w 0 slots wired.alive in
        let held = rw wired.held at writes in
        let (w₁, stored, alive₁, _) =
          store_all-Alive (logged run w) slots (p.librados w.log run).1 alive held in
        let (rs, w₂, ran, fills) = step_results-Fills p fuel finite 0 slots w₁ alive₁ in
        elim code [
          | inl (n, e) ↦
              rw
                (
                  cstring-NoNul oid no_nul,
                  stored,
                  e,
                  check_err-pos p.overflow_checks n,
                  wired.steps,
                  ran,
                )
                (inl (n, record { operation = o.operation; results = rs }, refl, refl, refl, fills))
          | inr (n, e, small) ↦
              rw (cstring-NoNul oid no_nul, stored, e, check_err-negsuc p.overflow_checks n small)
                (inr (n, refl, refl))
        ]

    -- Where the op is wired, the object's name is free of NUL bytes, every iterator comes to its
    -- end before the fuel does, and librados answers with a code and writes only steps of the right
    -- kind, each with a code, through the slots that it holds: a negated errno is the error of
    -- operating the op; any other code gives results in which taking any handle of the op gives a
    -- value of the handle's type or an error. Neither panics, touches freed memory or runs out of
    -- fuel.
    pub operate-take_result :
        {k : Kind} (h : Handle k)
        → Names h o slots
        → let r = (operate p fuel o io oid w).0 in
          let ret = run_code p o.op io oid w.log in
          ((n : ℕ) × (rs : ReadResults) × (ret ≡ pos n)
            × (r ≡ ok rs)
            × IsSettled (take_result p k rs h).0)
          ⊎ ((e : ℕ) × (ret ≡ negsuc e) × (r ≡ err (of_errno (pos (suc e)))))
    operate-take_result h n = elim operate-Fills [
      | inl (m, rs, ret, ran, own, fills) ↦
          inl (m, rs, ret, ran, take-Fills h o slots rs n own fills)
      | inr failed ↦ inr failed
    ]
