-- ===== src/WriteOp/Drop.antt =====
-- What the drop of a compound write (src/write_op.rs) leaves: the op released and its boxes freed.
use librados_rs.Base.{
  ◌≡◌, ◌≢◌, refl, sym, ap, ◌∙◌, List, [], ◌∷◌, Option, none, some, ◌==◌, ==_refl, ==_ne, Bool-cases,
  inl, inr,
}
use librados_rs.Error.{Outcome, ok, err, panic, fault, out_of_fuel}
use librados_rs.Ffi.Memory.{Ptr}
use librados_rs.Ffi.Call.{Call, Cell, Writes}
use librados_rs.Ffi.World.{World, Io, and_then, release, release_all, store, store_all}
use librados_rs.WriteOp.{WriteOp, drop_write_op}

-- Nothing is alive at these addresses.
abbrev pub AllFreed : World → List Ptr → Type 0
AllFreed w [] = Unit
AllFreed w (a ∷ as') = (w.mem a ≡ none) × AllFreed w as'

-- The address is none of these.
abbrev pub IsOther : Ptr → List Ptr → Type 0
IsOther b [] = Unit
IsOther b (a ∷ as') = (b ≢ a) × IsOther b as'

release_all-log : (as' : List Ptr) (w : World) → (release_all as' w).log ≡ w.log
release_all-log [] w = refl
release_all-log (a ∷ as') w = release_all-log as' _

-- What is free stays free.
release_all-none :
    (as' : List Ptr) (b : Ptr) (w : World) → w.mem b ≡ none → (release_all as' w).mem b ≡ none
release_all-none [] b w h = h
release_all-none (a ∷ as') b w h =
    release_all-none as' b (release a w)
      (elim (Bool-cases (b == a)) [ inl e ↦ rw e refl | inr e ↦ rw e h ])

release_all-AllFreed : (as' : List Ptr) (w : World) → AllFreed (release_all as' w) as'
release_all-AllFreed [] w = tt
release_all-AllFreed (a ∷ as') w = (
  release_all-none as' a (release a w) (rw (==_refl a) refl),
  release_all-AllFreed as' (release a w),
)

release_all-mem :
    (as' : List Ptr) (w : World) (b : Ptr) → IsOther b as' → (release_all as' w).mem b ≡ w.mem b
release_all-mem [] w b h = refl
release_all-mem (a ∷ as') w b h = release_all-mem as' (release a w) b h.1 ∙ rw (==_ne b a h.0) refl

module _ (o : WriteOp) (w : World) where
  pub drop_write_op-log : (drop_write_op o w).log ≡ Call.release_write_op o.op ∷ w.log
  unfolding drop_write_op
  drop_write_op-log = release_all-log o.cmps _

  pub drop_write_op-AllFreed : AllFreed (drop_write_op o w) o.cmps
  unfolding drop_write_op
  drop_write_op-AllFreed = release_all-AllFreed o.cmps _

  pub drop_write_op-mem : (b : Ptr) → IsOther b o.cmps → (drop_write_op o w).mem b ≡ w.mem b
  unfolding drop_write_op
  drop_write_op-mem b h = release_all-mem o.cmps _ b h

-- What librados stores is no call.
store-log :
    (b : Option Cell) (a : Ptr) (c : Cell) (w : World) → w.mem a ≡ b → (store a c w).1.log ≡ w.log
store-log none a c w e = rw (e, store) refl
store-log (some _) a c w e = rw (e, store) refl

and_then-log :
    (r : Outcome (Unit {0}) × World) (m : Io (Unit {0}))
    → ((w : World) → (m w).1.log ≡ w.log)
    → (and_then r.0 r.1 (λ _. m)).1.log ≡ r.1.log
and_then-log (ok _, w) m h = h w
and_then-log (err _, w) m h = refl
and_then-log (panic, w) m h = refl
and_then-log (fault, w) m h = refl
and_then-log (out_of_fuel, w) m h = refl

kept-log : (ws : Writes) (w : World) → (store_all ws w).1.log ≡ w.log
kept-log [] w = refl
kept-log ((a, c) ∷ ws) w =
    and_then-log (store a c w) (store_all ws) (kept-log ws) ∙ store-log (w.mem a) a c w refl

pub store_all-log : (ws : Writes) (w w' : World) → store_all ws w ≡ (ok tt, w') → w'.log ≡ w.log
store_all-log ws w w' h = sym (ap (λ (r : Outcome (Unit {0}) × World). r.1.log) h) ∙ kept-log ws w
