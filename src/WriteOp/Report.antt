-- ===== src/WriteOp/Report.antt =====
-- What `operate_report` says of a failed write, and what becomes of the op.
use librados_rs.Base.{
  ℕ, zero, suc, ◌+◌, ◌<◌, ◌≡◌, ◌∙◌, ◌^◌, ◌≢◌, inl, inr, refl, ap, false, ℤ, pos, negsuc, ◌==ℤ◌,
  List, [], ◌∷◌, Option, none, some, get_elem?, arith, if◌then◌else◌, Bool-cases,
}
use librados_rs.Error.{Bytes, ok, check_err, of_errno}
use librados_rs.Error.Laws.{check_err-negsuc}
use librados_rs.Text.Laws.{NoNul, cstring-NoNul}
use librados_rs.Handles.{IoCtx}
use librados_rs.Ffi.Memory.{Ptr}
use librados_rs.Ffi.Call.{Call, Cell, Writes}
use librados_rs.Ffi.World.{Platform, World, logged, store_all}
use librados_rs.WriteOp.{WriteOp, drop_write_op}
use librados_rs.WriteOp.Drop.{
  AllFreed, IsOther, drop_write_op-log, drop_write_op-AllFreed, drop_write_op-mem, store_all-log,
}
use librados_rs.WriteOp.Run.{done, report_error, handle_of, position_from, run_op, operate_report}

-- The box at `a` is alive and holds `z`.
abbrev pub Holds : World → Ptr → ℤ → Type 0
Holds w a z = w.mem a ≡ some (Cell.int z)

-- The boxes at `as'` hold `zs`, one by one.
abbrev pub HoldsAll : World → List Ptr → List ℤ → Type 0
HoldsAll w [] [] = Unit
HoldsAll w (a ∷ as') (z ∷ zs) = Holds w a z × HoldsAll w as' zs
HoldsAll w _ _ = ⊥

-- The first position of a value other than 0, counted from `i`.
unfoldable pub first_nonzero : ℕ → List ℤ → Option ℕ
first_nonzero i [] = none
first_nonzero i (z ∷ zs) = if z ==ℤ pos 0 then first_nonzero (suc i) zs else some i

position_from-first_nonzero :
    (i : ℕ) (as' : List Ptr) (zs : List ℤ) (w : World)
    → HoldsAll w as' zs
    → position_from i as' w ≡ (ok (first_nonzero i zs), w)
unfolding position_from first_nonzero
position_from-first_nonzero i [] [] w h = refl
position_from-first_nonzero i [] (z ∷ zs) w h = absurd h
position_from-first_nonzero i (a ∷ as') [] w h = absurd h
position_from-first_nonzero i (a ∷ as') (z ∷ zs) w h = rw h.0 (elim (Bool-cases (z ==ℤ pos 0)) [
  | inl e ↦ rw e (position_from-first_nonzero (suc i) as' zs w h.1)
  | inr e ↦ rw e
])

-- The slot `i` was written with an error code, and those before it were not.
pub record FirstFailure (zs : List ℤ) (i : ℕ) : Type 0 where
  pub code : ℤ
  pub written : get_elem? zs i ≡ some code
  pub nonzero : code ≢ pos 0
  pub earlier : (j : ℕ) → j < i → get_elem? zs j ≡ some (pos 0)

==ℤ-ne : (z : ℤ) → z ≢ pos 0 → (z ==ℤ pos 0) ≡ false
==ℤ-ne (pos n) h = ground (arith, λ (e : n ≡ 0). h (ap pos e))
==ℤ-ne (negsuc n) h = refl

first_nonzero-FirstFailure :
    (k i : ℕ) (zs : List ℤ) → FirstFailure zs i → first_nonzero k zs ≡ some (k + i)
unfolding first_nonzero
first_nonzero-FirstFailure k i [] f = cc (f.written)
first_nonzero-FirstFailure k zero (z ∷ zs) f =
    let e : z ≡ f.code = cc (f.written) in rw (e, ==ℤ-ne f.code f.nonzero) (ap some (omega arith))
first_nonzero-FirstFailure k (suc i) (z ∷ zs) f =
    let e : z ≡ pos 0 = cc (f.earlier 0 (omega arith)) in
    rw e (
      first_nonzero-FirstFailure (suc k) i zs (record {
        code = f.code;
        written = f.written;
        nonzero = f.nonzero;
        earlier = λ j h. f.earlier (suc j) (omega arith);
      })
      ∙ ap some (omega arith))

-- No slot was written with an error code.
abbrev pub AllZero : List ℤ → Type 0
AllZero [] = Unit
AllZero (z ∷ zs) = (z ≡ pos 0) × AllZero zs

first_nonzero-AllZero : (k : ℕ) (zs : List ℤ) → AllZero zs → first_nonzero k zs ≡ none
unfolding first_nonzero
first_nonzero-AllZero k [] h = refl
first_nonzero-AllZero k (z ∷ zs) h = rw h.0 (first_nonzero-AllZero (suc k) zs h.1)

-- The call that runs the op, and what librados replies.
abbrev pub operated : WriteOp → IoCtx → (oid : Bytes) → Call
operated o io oid = Call.write_op_operate o.op io.ioctx oid

abbrev pub reply : Platform → WriteOp → IoCtx → (oid : Bytes) → World → ℤ × Writes
reply p o io oid w = p.librados w.log (operated o io oid)

module _ (p : Platform) (o : WriteOp) (io : IoCtx) (oid : Bytes) (w w₂ : World) (zs : List ℤ)
    (no_nul : NoNul oid) where
  module _
      (stored : store_all (reply p o io oid w).1 (logged (operated o io oid) w) ≡ (ok tt, w₂)) where
    -- With an object name free of NUL bytes, and where what librados writes leaves `w₂`: a code
    -- of zero or more is a success, and the op is released and its boxes are freed.
    pub operate_report_done :
        (k : ℕ)
        → (reply p o io oid w).0 ≡ pos k
        → operate_report p o io oid w ≡ (ok done, drop_write_op o w₂)
    unfolding operate_report run_op check_err
    operate_report_done k e = rw (cstring-NoNul oid no_nul, stored, e)

    pub operate_report_failed :
        (e : ℕ)
        → suc e < 2 ^ 31
        → (reply p o io oid w).0 ≡ negsuc e
        → HoldsAll w₂ o.cmps zs
        → operate_report p o io oid w ≡ (
          ok (report_error (of_errno (pos (suc e))) (handle_of (first_nonzero 0 zs))),
          drop_write_op o w₂,
        )
    unfolding operate_report run_op
    operate_report_failed e small h boxes = rw (
      cstring-NoNul oid no_nul,
      stored,
      h,
      check_err-negsuc p.overflow_checks e small,
      position_from-first_nonzero 0 o.cmps zs w₂ boxes,
    )

    -- With an object name free of NUL bytes, where what librados writes leaves `w₂`, in which the
    -- boxes hold `zs`: a negated errno is reported as its error, together with the index `i` of
    -- the first box that does not hold 0. The op is released all the same, once, by the last call,
    -- after the one that ran it, and its boxes are freed, and nothing else.
    pub operate_report_names_guard :
        (e i : ℕ)
        → suc e < 2 ^ 31
        → (reply p o io oid w).0 ≡ negsuc e
        → HoldsAll w₂ o.cmps zs
        → FirstFailure zs i
        → let (r, w') = operate_report p o io oid w in
          (r ≡ ok (report_error (of_errno (pos (suc e))) (some (record { index = i }))))
          × (w'.log ≡ Call.release_write_op o.op ∷ operated o io oid ∷ w.log)
          × AllFreed w' o.cmps
          × ((b : Ptr) → IsOther b o.cmps → w'.mem b ≡ w₂.mem b)
    operate_report_names_guard e i small h boxes f =
        let run =
          operate_report_failed e small h boxes
          ∙ ap (λ c. (ok (report_error (of_errno (pos (suc e))) (handle_of c)), drop_write_op o w₂))
              (first_nonzero-FirstFailure 0 i zs f ∙ ap some (omega arith)) in
        let log = store_all-log (reply p o io oid w).1 (logged (operated o io oid) w) w₂ stored in
        rw run (
          refl,
          drop_write_op-log o w₂ ∙ ap (◌∷◌ (Call.release_write_op o.op)) log,
          drop_write_op-AllFreed o w₂,
          drop_write_op-mem o w₂,
        )

    -- With an object name free of NUL bytes, where what librados writes leaves `w₂`, in which all
    -- boxes hold 0: a negated errno is reported as its error without a comparison; the op is
    -- released and its boxes are freed.
    operate_report_names_none :
        (e : ℕ)
        → suc e < 2 ^ 31
        → (reply p o io oid w).0 ≡ negsuc e
        → HoldsAll w₂ o.cmps zs
        → AllZero zs
        → operate_report p o io oid w
          ≡ (ok (report_error (of_errno (pos (suc e))) none), drop_write_op o w₂)
    operate_report_names_none e small h boxes z =
        operate_report_failed e small h boxes
        ∙ ap (λ c. (ok (report_error (of_errno (pos (suc e))) (handle_of c)), drop_write_op o w₂))
            (first_nonzero-AllZero 0 zs z)
