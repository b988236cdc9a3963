-- ===== src/Handles/Ownership/Laws.antt =====
-- The strong count of a cluster handle, and the order of its destructors.
use librados_rs.Base.{
  ◌⊎◌, ℕ, zero, suc, ◌+◌, ◌-◌, ◌<◌, ◌≡◌, refl, ap, Bool-cases, inl, inr, List, [], ◌∷◌, set,
  get_elem?, Option, none, some, ◌==◌, arith,
}
use librados_rs.Ffi.Memory.{Ptr}
use librados_rs.Ffi.Call.{Call}
use librados_rs.Handles.Ownership.{
  IoCtxArc, Cluster, created, drop_arc, clone_rados, drop_rados, open_ioctx, clone_ioctx,
  drop_ioctx, Step, Reach,
}
use librados_rs.Handles.Ownership

-- 1 for a context that is alive.
abbrev pub one_of : ℕ → ℕ
one_of zero = 0
one_of (suc _) = 1

-- How many contexts are alive.
abbrev pub live : List IoCtxArc → ℕ
live [] = 0
live (a ∷ as') = one_of a.count + live as'

-- How often the cluster was shut down, and contexts were destroyed.
abbrev pub shutdowns : List Call → ℕ
shutdowns [] = 0
shutdowns (Call.shutdown _ ∷ log) = suc (shutdowns log)
shutdowns (_ ∷ log) = shutdowns log

abbrev pub destroyed : List Call → ℕ
destroyed [] = 0
destroyed (Call.ioctx_destroy _ ∷ log) = suc (destroyed log)
destroyed (_ ∷ log) = destroyed log

-- The last call.
abbrev pub last_call : List Call → Option Call
last_call [] = none
last_call (c ∷ _) = some c

abbrev pub size : List IoCtxArc → ℕ
size [] = 0
size (_ ∷ as') = suc (size as')

live-set :
    (as' : List IoCtxArc) (i : ℕ) (a b : IoCtxArc)
    → get_elem? as' i ≡ some a
    → live (set as' i b) + one_of a.count ≡ live as' + one_of b.count
live-set [] i a b h = cc
live-set (x ∷ as') zero a b h = let e : x ≡ a = cc in rw e (omega arith)
live-set (x ∷ as') (suc i) a b h = omega (arith, live-set as' i a b h)

size-set : (as' : List IoCtxArc) (i : ℕ) (b : IoCtxArc) → size (set as' i b) ≡ size as'
size-set [] i b = refl
size-set (x ∷ as') zero b = refl
size-set (x ∷ as') (suc i) b = ap suc (size-set as' i b)

pub one_of-suc : (m n : ℕ) → m ≡ suc n → one_of m ≡ 1
one_of-suc zero n h = absurd (omega arith)
one_of-suc (suc m) n h = refl

-- The last call was the shutdown of this handle.
abbrev pub Ended : Cluster → Type 0
Ended s = last_call s.log ≡ some (Call.shutdown s.handle)

-- The strong count is that of the values that hold the handle; the handle is shut down once that
-- count is 0, and not before, and nothing is called after that; every context that was opened is
-- alive or destroyed.
pub record IsCounted (s : Cluster) : Type 0 where
  pub counts : s.count ≡ s.clones + live s.contexts
  pub shut : shutdowns s.log ≡ 1 - s.count
  pub opened : destroyed s.log + live s.contexts ≡ size s.contexts
  pub ended : (0 < s.count) ⊎ Ended s

drop_arc-IsCounted :
    (s : Cluster)
    → s.count ≡ suc (s.clones + live s.contexts)
    → shutdowns s.log ≡ 0
    → destroyed s.log + live s.contexts ≡ size s.contexts
    → IsCounted (drop_arc s)
unfolding drop_arc
drop_arc-IsCounted s c h o = elim (Bool-cases (s.count == 1)) [
  | inl e ↦
      rw e (record { counts = ground arith; shut = omega arith; opened = o; ended = inr refl })
  | inr e ↦ rw e (record {
    counts = ground arith;
    shut = ground arith;
    opened = o;
    ended = inl (ground arith);
  })
]

pub Step-IsCounted : {s t : Cluster} → Step s t → IsCounted s → IsCounted t
unfolding clone_rados drop_rados open_ioctx clone_ioctx drop_ioctx
Step-IsCounted {s = s} (Ownership.clones_rados n h) i = record {
  counts = omega (arith, i.counts);
  shut = omega (arith, i.shut, i.counts);
  opened = i.opened;
  ended = inl (omega arith);
}
Step-IsCounted {s = s} (Ownership.drops_rados n h) i =
    drop_arc-IsCounted (record s { clones = s.clones - 1 }) (omega (arith, i.counts))
      (omega (arith, i.shut, i.counts)) i.opened
Step-IsCounted {s = s} (Ownership.opens n ioctx h) i = record {
  counts = omega (arith, i.counts);
  shut = omega (arith, i.shut, i.counts);
  opened = omega (arith, i.opened);
  ended = inl (omega arith);
}
Step-IsCounted {s = s} (Ownership.clones_ioctx j n arc h k) i =
    let l = live-set s.contexts j arc (record arc { count = arc.count + 1 }) h in
    let z = size-set s.contexts j (record arc { count = arc.count + 1 }) in
    let a = one_of-suc arc.count n k in
    let b = one_of-suc (arc.count + 1) arc.count (omega arith) in
    let more = set s.contexts j (record arc { count = arc.count + 1 }) in
    let c : s.count ≡ s.clones + live more = omega (arith, i.counts, l, a, b) in
    let o : destroyed s.log + live more ≡ size more = omega (arith, i.opened, l, z, a, b) in
    record { counts = c; shut = i.shut; opened = o; ended = i.ended }
Step-IsCounted {s = s} (Ownership.drops_ioctx j n arc h k) i =
    let a = one_of-suc arc.count n k in
    elim (Bool-cases (arc.count == 1)) [
      | inl e ↦
          let l = live-set s.contexts j arc (record arc { count = 0 }) h in
          let z = size-set s.contexts j (record arc { count = 0 }) in
          rw e (
            drop_arc-IsCounted
              (record s {
                contexts = set s.contexts j (record arc { count = 0 });
                log = Call.ioctx_destroy arc.ioctx ∷ s.log;
              })
              (omega (arith, i.counts, l, a)) (omega (arith, i.shut, i.counts, l, a))
              (omega (arith, i.opened, l, z, a)))
      | inr e ↦
          let l = live-set s.contexts j arc (record arc { count = arc.count - 1 }) h in
          let z = size-set s.contexts j (record arc { count = arc.count - 1 }) in
          let b = one_of-suc (arc.count - 1) (arc.count - 2) (ground arith) in
          rw e (record {
            counts = omega (arith, i.counts, l, a, b);
            shut = i.shut;
            opened = omega (arith, i.opened, l, z, a, b);
            ended = i.ended;
          })
    ]

-- However a program clones and drops its handles and contexts: the strong count of the cluster
-- handle is that of the values alive that hold it, the handle is shut down once, at count 0 and
-- by the last call, and each context that was opened is alive or destroyed.
pub Reach-IsCounted : {handle : Ptr} {t : Cluster} → Reach (created handle) t → IsCounted t
Reach-IsCounted Ownership.here = record {
  counts = refl;
  shut = refl;
  opened = refl;
  ended = inl (omega arith);
}
Reach-IsCounted (Ownership.next r st) = Step-IsCounted st (Reach-IsCounted r)

-- However a program clones and drops its handles and contexts: once the cluster handle has been
-- shut down, no `Rados` and no `IoCtx` is alive, each context that was opened has been destroyed,
-- and the shutdown was the last call.
pub shutdown_last :
    {handle : Ptr} {t : Cluster}
    → Reach (created handle) t
    → 0 < shutdowns t.log
    → (t.clones ≡ 0) × (live t.contexts ≡ 0) × (destroyed t.log ≡ size t.contexts) × Ended t
shutdown_last {t = t} r h =
    let i = Reach-IsCounted r in
    (
      omega (arith, i.counts, i.shut),
      omega (arith, i.counts, i.shut),
      omega (arith, i.counts, i.shut, i.opened),
      elim i.ended [ inl lt ↦ absurd (omega (arith, i.shut)) | inr e ↦ e ],
    )
