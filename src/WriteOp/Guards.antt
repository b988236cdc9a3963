-- ===== src/WriteOp/Guards.antt =====
-- The boxes of the comparisons of a compound write: they lie apart, and what librados marks in them
-- is what is read back.
use librados_rs.Base.{
  ℕ, suc, ◌+◌, ◌<◌, ◌≤◌, ◌≡◌, inl, inr, refl, ap, ◌∙◌, ℤ, pos, negsuc, List, [], ◌∷◌, ◌++◌, Option,
  none, some, if◌then◌else◌, ◌==◌, ==_refl, ==_ne, Bool-cases, length, arith,
}
use librados_rs.Error.{ok}
use librados_rs.Ffi.Memory.{Ptr}
use librados_rs.Ffi.Call.{Cell, Writes}
use librados_rs.Ffi.World.{World, poke, store, store_all}
use librados_rs.WriteOp.Report.{HoldsAll, first_nonzero}

-- Each box is alive and holds a number; the addresses rise from `lo` and lie below the next one.
abbrev pub Boxes : (Ptr → Option Cell) → (next lo : ℕ) → List Ptr → Type 0
Boxes mem next lo [] = Unit
Boxes mem next lo (a ∷ as') =
    (lo ≤ a) × (a < next) × ((z : ℤ) × (mem a ≡ some (Cell.int z))) × Boxes mem next (suc a) as'

-- Writes below leave the boxes as they are.
Boxes-transfer :
    (mem mem' : Ptr → Option Cell) (next lo : ℕ) (as' : List Ptr)
    → ((b : Ptr) → lo ≤ b → mem' b ≡ mem b)
    → Boxes mem next lo as'
    → Boxes mem' next lo as'
Boxes-transfer mem mem' next lo [] same h = tt
Boxes-transfer mem mem' next lo (a ∷ as') same h = (
  h.0,
  h.1,
  (h.2.0, same a h.0 ∙ h.2.1),
  Boxes-transfer mem mem' next (suc a) as' (λ b l. same b (omega arith)) h.3,
)

-- A new box above the others.
pub Boxes-alloc :
    (mem : Ptr → Option Cell) (next : ℕ) (z : ℤ) (lo : ℕ) (as' : List Ptr)
    → Boxes mem next lo as'
    → lo ≤ next
    → Boxes (poke mem next (some (Cell.int z))) (next + 1) lo (as' ++ next ∷ [])
Boxes-alloc mem next z lo [] h l = (l, omega arith, (z, rw (==_refl next)), tt)
Boxes-alloc mem next z lo (a ∷ as') h l = (
  h.0,
  omega arith,
  (h.2.0, rw (==_ne a next (omega arith)) h.2.1),
  Boxes-alloc mem next z (suc a) as' h.3 (omega arith),
)

-- What librados leaves in slot `i` when the comparison of slot `which` fails with the errno
-- `suc e`.
abbrev pub mark : (e : ℕ) → (which : Option ℕ) → (i : ℕ) → ℤ
mark e none i = pos 0
mark e (some j) i = if i == j then negsuc e else pos 0

-- The marks of the slots from `i` on, and the writes that leave them.
unfoldable pub marks : (e : ℕ) → (which : Option ℕ) → (i : ℕ) → List Ptr → List ℤ
marks e which i [] = []
marks e which i (a ∷ as') = mark e which i ∷ marks e which (suc i) as'

unfoldable pub marking : (e : ℕ) → (which : Option ℕ) → (i : ℕ) → List Ptr → Writes
marking e which i [] = []
marking e which i (a ∷ as') = (a, Cell.int (mark e which i)) ∷ marking e which (suc i) as'

abbrev poked : World → Ptr → ℤ → World
poked w a z = record w { mem = poke w.mem a (some (Cell.int z)) }

-- The marks arrive.
pub store_all-marking :
    (e : ℕ) (which : Option ℕ) (i lo : ℕ) (as' : List Ptr) (w : World)
    → Boxes w.mem w.next lo as'
    → (w' : World) × (store_all (marking e which i as') w ≡ (ok tt, w'))
      × HoldsAll w' as' (marks e which i as')
      × ((b : Ptr) → b < lo → w'.mem b ≡ w.mem b)
      × (w'.log ≡ w.log)
unfolding marks marking
store_all-marking e which i lo [] w h = (w, refl, tt, (λ b l. refl), refl)
store_all-marking e which i lo (a ∷ as') w h =
    let z = mark e which i in
    let boxes =
      Boxes-transfer w.mem (poked w a z).mem w.next (suc a) as'
        (λ b l. rw (==_ne b a (omega arith))) h.3 in
    let (w', stored, held, same, log) =
      store_all-marking e which (suc i) (suc a) as' (poked w a z) boxes in
    let here : w'.mem a ≡ some (Cell.int z) = same a (omega arith) ∙ rw (==_refl a) in
    (
      w',
      rw (h.2.1, store) stored,
      (here, held),
      (λ b l. same b (omega arith) ∙ rw (==_ne b a (omega arith))),
      log,
    )

-- The first mark is that of the slot that failed.
pub first_nonzero-marks-none :
    (e i k : ℕ) (as' : List Ptr) → first_nonzero k (marks e none i as') ≡ none
unfolding first_nonzero marks
first_nonzero-marks-none e i k [] = refl
first_nonzero-marks-none e i k (a ∷ as') = first_nonzero-marks-none e (suc i) (suc k) as'

pub first_nonzero-marks-some :
    (e i j : ℕ) (as' : List Ptr)
    → i ≤ j
    → j < i + length as'
    → first_nonzero i (marks e (some j) i as') ≡ some j
unfolding first_nonzero marks
first_nonzero-marks-some e i j [] l h = absurd (omega arith)
first_nonzero-marks-some e i j (a ∷ as') l h = elim (Bool-cases (i == j)) [
  | inl same ↦ rw same (ap some (ground arith))
  | inr ne ↦
      let past : i < j = ground arith in
      rw ne (first_nonzero-marks-some e (suc i) j as' past (omega arith))
]
