-- ===== src/IoCtx/Watch/Clones/Counts.antt =====
-- The clones of a context are counted, by the client's and those of its watches.
use librados_rs.Base.{
  ℕ, zero, suc, ◌+◌, ◌-◌, ◌<◌, ◌≡◌, inl, inr, refl, ap, sym, Bool, true, false, Bool-cases, List,
  [], ◌∷◌, set, get_elem?, some, ◌==◌, arith,
}
use librados_rs.Ffi.Call.{Call}
use librados_rs.Handles.Ownership.{IoCtxArc, Cluster, drop_arc, drop_ioctx}
use librados_rs.Handles.Ownership.Laws.{live, one_of-suc}
use librados_rs.IoCtx.Watch.Lifecycle.{IsSound}
use librados_rs.IoCtx.Watch.Clones.{WatchClones, Share}

abbrev pub one_if : Bool → ℕ
one_if true = 1
one_if false = 0

abbrev pub holds : WatchClones → ℕ
holds w = one_if w.owned + one_if w.life.alive

abbrev pub all_hold : List WatchClones → ℕ
all_hold [] = 0
all_hold (w ∷ ws) = holds w + all_hold ws

abbrev pub total : Share → ℕ
total share = share.users + all_hold share.watches

abbrev pub AllSound : List WatchClones → Type 0
AllSound [] = Unit
AllSound (w ∷ ws) = IsSound w.life × AllSound ws

-- Each context counts the clones of its share.
abbrev pub Fits : List IoCtxArc → List Share → Type 0
Fits [] [] = Unit
Fits (a ∷ as') (s ∷ ss) = (a.count ≡ total s) × AllSound s.watches × Fits as' ss
Fits _ _ = ⊥

pub Fits-at :
    (as' : List IoCtxArc) (ss : List Share) (i : ℕ) (a : IoCtxArc) (s : Share)
    → Fits as' ss
    → get_elem? as' i ≡ some a
    → get_elem? ss i ≡ some s
    → (a.count ≡ total s) × AllSound s.watches
Fits-at [] [] i a s f h k = cc
Fits-at [] (_ ∷ ss) i a s f h k = absurd f
Fits-at (_ ∷ as') [] i a s f h k = absurd f
Fits-at (x ∷ as') (y ∷ ss) zero a s f h k =
    let e : a ≡ x = cc in let d : s ≡ y = cc in rw (e, d) (f.0, f.1)
Fits-at (_ ∷ as') (_ ∷ ss) (suc i) a s f h k = Fits-at as' ss i a s f.2 h k

pub Fits-set :
    (as' : List IoCtxArc) (ss : List Share) (i : ℕ) (b : IoCtxArc) (t : Share)
    → Fits as' ss
    → b.count ≡ total t
    → AllSound t.watches
    → Fits (set as' i b) (set ss i t)
Fits-set [] [] i b t f c s = tt
Fits-set [] (_ ∷ ss) i b t f c s = absurd f
Fits-set (_ ∷ as') [] i b t f c s = absurd f
Fits-set (_ ∷ as') (_ ∷ ss) zero b t f c s = (c, s, f.2)
Fits-set (_ ∷ as') (_ ∷ ss) (suc i) b t f c s = (f.0, f.1, Fits-set as' ss i b t f.2 c s)

pub all_hold-set :
    (ws : List WatchClones) (j : ℕ) (w v : WatchClones)
    → get_elem? ws j ≡ some w
    → all_hold (set ws j v) + holds w ≡ all_hold ws + holds v
all_hold-set [] j w v h = cc
all_hold-set (x ∷ ws) zero w v h = let e : x ≡ w = cc in rw e (omega arith)
all_hold-set (x ∷ ws) (suc j) w v h = omega (arith, all_hold-set ws j w v h)

pub AllSound-at :
    (ws : List WatchClones) (j : ℕ) (w : WatchClones)
    → AllSound ws
    → get_elem? ws j ≡ some w
    → IsSound w.life
AllSound-at [] j w s h = cc
AllSound-at (x ∷ ws) zero w s h = let e : w ≡ x = cc in rw e s.0
AllSound-at (x ∷ ws) (suc j) w s h = AllSound-at ws j w s.1 h

pub AllSound-set :
    (ws : List WatchClones) (j : ℕ) (v : WatchClones)
    → AllSound ws
    → IsSound v.life
    → AllSound (set ws j v)
AllSound-set [] j v s h = tt
AllSound-set (x ∷ ws) zero v s h = (h, s.1)
AllSound-set (x ∷ ws) (suc j) v s h = (s.0, AllSound-set ws j v s.1 h)

pub set-same :
    {A : Type 0} (xs : List A) (i : ℕ) (x : A) → get_elem? xs i ≡ some x → set xs i x ≡ xs
set-same [] i x h = refl
set-same (y ∷ xs) zero x h = let e : x ≡ y = cc in ap (λ z. z ∷ xs) e
set-same (y ∷ xs) (suc i) x h = ap (λ ys. y ∷ ys) (set-same xs i x h)

pub drop_arc-contexts : (s : Cluster) → (drop_arc s).contexts ≡ s.contexts
unfolding drop_arc
drop_arc-contexts s = elim (Bool-cases (s.count == 1)) [ inl e ↦ rw e | inr e ↦ rw e ]

pub drop_ioctx-contexts :
    (i n : ℕ) (arc : IoCtxArc) (s : Cluster)
    → arc.count ≡ suc n
    → (drop_ioctx i arc s).contexts ≡ set s.contexts i (record arc { count = n })
unfolding drop_ioctx
drop_ioctx-contexts i n arc s h = elim (Bool-cases (arc.count == 1)) [
  | inl e ↦
      let z : n ≡ 0 = ground arith in
      rw (
        e,
        drop_arc-contexts (record s {
          contexts = set s.contexts i (record arc { count = 0 });
          log = Call.ioctx_destroy arc.ioctx ∷ s.log;
        }),
        z,
      )
  | inr e ↦ let z : arc.count - 1 ≡ n = omega arith in rw (e, z)
]

pub live-at :
    (as' : List IoCtxArc) (i : ℕ) (a : IoCtxArc)
    → get_elem? as' i ≡ some a
    → 0 < a.count
    → 0 < live as'
live-at [] i a h lt = cc
live-at (x ∷ as') zero a h lt =
    let e : a ≡ x = cc in
    let lt' : 0 < x.count = rw (sym e) lt in
    omega (arith, one_of-suc x.count (x.count - 1) (omega arith))
live-at (x ∷ as') (suc i) a h lt = omega (arith, live-at as' i a h lt)
