-- ===== src/ReadOp/OneStep.antt =====
-- The one-step omap reads of src/ioctx.rs come back, whatever their arguments are.
use librados_rs.Base.{ℕ, ◌≡◌, ◌⊎◌, inl, inr, List, [], ◌∷◌, Option, none, some, Option-cases}
use librados_rs.Error.{Bytes, RadosError, nul, err}
use librados_rs.Text.{nul_position}
use librados_rs.Text.Laws.{NoNul-nul_position}
use librados_rs.Handles.{IoCtx}
use librados_rs.Ffi.Call.{Call}
use librados_rs.Ffi.World.{Platform, World}
use librados_rs.IoCtx.Notify.Laws.{IsSettled}
use librados_rs.Text.Refusals.{cstring_nul}
use librados_rs.ReadOp
use librados_rs.ReadOp.{Kind, ReadOp, new, cstring_opt}
use librados_rs.ReadOp.Run.{operate, submit, read_one, omap_vals, omap_keys, omap_vals_by_keys}
use librados_rs.ReadOp.Pages.{NoNulOpt, cstring_opt-NoNul}
use librados_rs.ReadOp.Wired.{registered}
use librados_rs.ReadOp.Build.{ReadStep, kind_of, IsAccepted, add, add-IsWired}
use librados_rs.ReadOp.Total.{IsFinite, operate-take_result}
use librados_rs.ReadOp.Session.{IsHonest, new_op, new_op-IsWired}

-- An optional string is either free of NUL bytes or refused.
cstring_opt-cases :
    (s : Option Bytes)
    → NoNulOpt s ⊎ ((e : RadosError) × ((w : World) → cstring_opt s w ≡ (err e, w)))
unfolding cstring_opt
cstring_opt-cases none = inl tt
cstring_opt-cases (some s) = elim (Option-cases (nul_position s)) [
  | inl e ↦ inl (NoNul-nul_position s e)
  | inr (i, e) ↦ inr (nul i s, λ w. rw (cstring_nul s i e))
]

-- A run on an object with a NUL byte in its name.
operate-nul :
    (p : Platform) (fuel : ℕ) (o : ReadOp) (io : IoCtx) (oid : Bytes) (w : World) (i : ℕ)
    → nul_position oid ≡ some i
    → (operate p fuel o io oid w).0 ≡ err (nul i oid)
unfolding operate submit
operate-nul p fuel o io oid w i h = rw (cstring_nul oid i h)

module _ (p : Platform) (fuel : ℕ) (honest : IsHonest p) (finite : IsFinite p fuel) (io : IoCtx)
    (oid : Bytes) (w : World)
    (empty : registered (p.librados w.log Call.create_read_op) w.log ≡ []) where
  -- An op of one step that is accepted.
  accepted_settles :
      (s : ReadStep) → IsAccepted s → IsSettled (read_one p (kind_of s) fuel io oid (add s) w).0
  unfolding read_one new
  accepted_settles s accepted =
      let (_, wired) = new_op-IsWired p w empty in
      let (o, h, ran, wired₁, names, _, _, _) =
        add-IsWired s (new_op p w) [] (new p w).1 accepted wired in
      let w₁ = (add s (new_op p w) (new p w).1).1 in
      let slots = ((new p w).1.next, kind_of s) ∷ [] in
      elim (Option-cases (nul_position oid)) [
        | inl clean ↦
            elim (operate-take_result p fuel finite o slots w₁ wired₁ io oid
              (NoNul-nul_position oid clean) (honest.codes w₁.log o.op io.ioctx oid)
              (honest.writes w₁.log o.op io.ioctx oid) h names) [
                | inl (_, rs, _, done, settled) ↦ rw (ran, done) settled
                | inr (e, _, failed) ↦ rw (ran, failed) tt
              ]
        | inr (i, e) ↦ rw (ran, operate-nul p fuel o io oid w₁ i e) tt
      ]

  -- An op whose step is refused.
  refused_settles :
      (s : ReadStep) (e : RadosError)
      → ((o : ReadOp) (w' : World) → add s o w' ≡ (err e, w'))
      → IsSettled (read_one p (kind_of s) fuel io oid (add s) w).0
  unfolding read_one
  refused_settles s e refused = rw (refused (new_op p w) (new p w).1) tt

  vals_settle :
      (start prefix : Option Bytes) (max : ℕ)
      → IsSettled
          (read_one p Kind.vals_kind fuel io oid
            (add (ReadStep.omap_get_vals start prefix max))
            w).0
  unfolding add ReadOp.omap_get_vals
  vals_settle start prefix max =
      let s = ReadStep.omap_get_vals start prefix max in
      elim (cstring_opt-cases start) [
        | inr (e, bad) ↦ refused_settles s e (λ o w'. rw (bad w'))
        | inl ok_start ↦ elim (cstring_opt-cases prefix) [
          | inl ok_prefix ↦ accepted_settles s (ok_start, ok_prefix)
          | inr (e, bad) ↦
              refused_settles s e (λ o w'. rw (cstring_opt-NoNul start w' ok_start, bad w'))
        ]
      ]

  keys_settle :
      (start : Option Bytes) (max : ℕ)
      → IsSettled
          (read_one p Kind.keys_kind fuel io oid (add (ReadStep.omap_get_keys start max)) w).0
  unfolding add ReadOp.omap_get_keys
  keys_settle start max = elim (cstring_opt-cases start) [
    | inl accepted ↦ accepted_settles (ReadStep.omap_get_keys start max) accepted
    | inr (e, bad) ↦ refused_settles (ReadStep.omap_get_keys start max) e (λ o w'. rw (bad w'))
  ]

  -- Where librados keeps its promises, every iterator ends before the fuel does, and a new op has no
  -- steps: `omap_get_vals`, `omap_get_keys` and `omap_get_vals_by_keys` come back with a page or an
  -- error whatever the name of the object and their other arguments are, NUL bytes included. None
  -- panics, touches freed memory or runs out of fuel.
  pub omap_reads_settle :
      (start prefix : Option Bytes) (max : ℕ) (keys : List Bytes)
      → IsSettled (omap_vals p fuel io oid start prefix max w).0
        × IsSettled (omap_keys p fuel io oid start max w).0
        × IsSettled (omap_vals_by_keys p fuel io oid keys w).0
  unfolding omap_vals omap_keys omap_vals_by_keys add
  omap_reads_settle start prefix max keys = (
    vals_settle start prefix max,
    keys_settle start max,
    accepted_settles (ReadStep.omap_get_vals_by_keys keys) tt,
  )
