-- ===== src/ReadOp/Wired.antt =====
-- The boxes of a compound read: librados holds their addresses, and each is alive with a step of
-- the kind that its handle names.
use librados_rs.Base.{
  ℕ, suc, ◌+◌, ◌<◌, ◌≤◌, ◌≡◌, ◌⊎◌, inl, inr, refl, sym, ap, ◌∙◌, List, [], ◌∷◌, ◌++◌, map, some,
  arith, if◌then◌else◌, ◌==◌, ==_refl, ==_ne, get_elem?,
}
use librados_rs.Error.{ok}
use librados_rs.Error.Laws.{IsCode}
use librados_rs.Ffi.Memory.{Ptr}
use librados_rs.Ffi.Call.{Call, Cell, Writes}
use librados_rs.Ffi.World.{World, poke, store, store_all}
use librados_rs.ReadOp.{Kind, Handle, ReadOp}

-- A box that librados was given, and the kind of its step.
abbrev pub Slot : Type 0
Slot = Ptr × Kind

-- The slots that librados was given for the op since it was created, oldest first.
unfoldable pub registered : Ptr → List Call → List Slot
registered op [] = []
registered op (Call.read_op_read o _ _ step ∷ log) =
    registered op log ++ (if o == op then (step, Kind.data_kind) ∷ [] else [])
registered op (Call.read_op_omap_get_vals2 o _ _ _ step ∷ log) =
    registered op log ++ (if o == op then (step, Kind.vals_kind) ∷ [] else [])
registered op (Call.read_op_omap_get_keys2 o _ _ step ∷ log) =
    registered op log ++ (if o == op then (step, Kind.keys_kind) ∷ [] else [])
registered op (Call.read_op_omap_get_vals_by_keys2 o _ _ _ step ∷ log) =
    registered op log ++ (if o == op then (step, Kind.vals_kind) ∷ [] else [])
registered op (Call.release_read_op o ∷ log) = if o == op then [] else registered op log
registered op (_ ∷ log) = registered op log

-- The cell is a step of this kind, and its `prval` is a code.
abbrev pub IsCell : Kind → Cell → Type 0
IsCell Kind.data_kind (Cell.data_step s) = IsCode s.prval
IsCell Kind.vals_kind (Cell.vals_step s) = IsCode s.prval
IsCell Kind.keys_kind (Cell.keys_step s) = IsCode s.prval
IsCell _ _ = ⊥

abbrev pub HoldsStep : World → Slot → Type 0
HoldsStep w (a, k) = (c : Cell) × (w.mem a ≡ some c) × IsCell k c

-- Each box is alive and holds a step of its kind; the addresses rise from `lo`, so that no two are
-- the same, and lie below the next one.
abbrev pub Alive : World → (lo : ℕ) → List Slot → Type 0
Alive w lo [] = Unit
Alive w lo (s ∷ slots) = (lo ≤ s.0) × (s.0 < w.next) × HoldsStep w s × Alive w (suc s.0) slots

abbrev pub addresses : List Slot → List Ptr
addresses slots = map (λ s. s.0) slots

pub record IsWired (o : ReadOp) (slots : List Slot) (w : World) : Type 0 where
  pub held : registered o.op w.log ≡ slots
  pub steps : o.steps ≡ addresses slots
  pub alive : Alive w 0 slots

-- The handle names a slot of its own kind, of this op.
pub record Names {k : Kind} (h : Handle k) (o : ReadOp) (slots : List Slot) : Type 0 where
  pub own : h.operation ≡ o.operation
  pub address : Ptr
  pub slot : get_elem? slots h.index ≡ some (address, k)

-- What lies at `lo` or above is unchanged.
pub Alive-transfer :
    (w w' : World) (lo : ℕ) (slots : List Slot)
    → ((b : Ptr) → lo ≤ b → b < w.next → w'.mem b ≡ w.mem b)
    → w.next ≤ w'.next
    → Alive w lo slots
    → Alive w' lo slots
Alive-transfer w w' lo [] same n h = tt
Alive-transfer w w' lo (s ∷ slots) same n h = (
  h.0,
  omega arith,
  (h.2.0, same s.0 h.0 h.1 ∙ h.2.1, h.2.2),
  Alive-transfer w w' (suc s.0) slots (λ b l. same b (omega arith)) n h.3,
)

-- A new box above the others.
pub Alive-alloc :
    (w : World) (log : List Call) (c : Cell) (k : Kind) (lo : ℕ) (slots : List Slot)
    → Alive w lo slots
    → lo ≤ w.next
    → IsCell k c
    → Alive
        (record { log = log; next = w.next + 1; mem = poke w.mem w.next (some c) })
        lo
        (slots ++ (w.next, k) ∷ [])
Alive-alloc w log c k lo [] h l cell = (l, omega arith, (c, rw (==_refl w.next), cell), tt)
Alive-alloc w log c k lo (s ∷ slots) h l cell = (
  h.0,
  omega arith,
  (h.2.0, rw (==_ne s.0 w.next (omega arith)) h.2.1, h.2.2),
  Alive-alloc w log c k (suc s.0) slots h.3 (omega arith) cell,
)

abbrev pub IsSlot : Slot → List Slot → Type 0
IsSlot s [] = ⊥
IsSlot s (t ∷ slots) = (s ≡ t) ⊎ IsSlot s slots

-- What librados may write while the op runs: steps of the right kind, with a code, through slots
-- that it holds.
abbrev pub WritesSteps : List Slot → Writes → Type 0
WritesSteps slots [] = Unit
WritesSteps slots ((a, c) ∷ ws) =
    ((k : Kind) × IsSlot (a, k) slots × IsCell k c) × WritesSteps slots ws

-- A slot is alive, at `lo` or above.
slot-Alive :
    (w : World) (lo : ℕ) (slots : List Slot) (s : Slot)
    → Alive w lo slots
    → IsSlot s slots
    → HoldsStep w s × (lo ≤ s.0)
slot-Alive w lo [] s h m = absurd m
slot-Alive w lo (t ∷ slots) s h (inl e) = rw e (h.2, h.0)
slot-Alive w lo (t ∷ slots) s h (inr m) =
    let (held, l) = slot-Alive w (suc t.0) slots s h.3 m in (held, omega arith)

abbrev poked : World → Ptr → Cell → World
poked w a c = record w { mem = poke w.mem a (some c) }

Alive-poke :
    (w : World) (lo : ℕ) (slots : List Slot) (a : Ptr) (k : Kind) (c : Cell)
    → Alive w lo slots
    → IsSlot (a, k) slots
    → IsCell k c
    → Alive (poked w a c) lo slots
Alive-poke w lo [] a k c h m cell = tt
Alive-poke w lo (t ∷ slots) a k c h (inl e) cell =
    let ea : a ≡ t.0 = ap (λ (s : Slot). s.0) e in
    let ek : t.1 ≡ k = sym (ap (λ (s : Slot). s.1) e) in
    let here : (poked w a c).mem t.0 ≡ some c = rw (ea, ==_refl t.0) in
    let cell' : IsCell t.1 c = rw ek cell in
    (
      h.0,
      h.1,
      (c, here, cell'),
      Alive-transfer w (poked w a c) (suc t.0) slots (λ b l n. rw (==_ne b a (omega arith)))
          (omega arith) h.3,
    )
Alive-poke w lo (t ∷ slots) a k c h (inr m) cell =
    let (held, l) = slot-Alive w (suc t.0) slots (a, k) h.3 m in
    (
      h.0,
      h.1,
      (h.2.0, rw (==_ne t.0 a (omega arith)) h.2.1, h.2.2),
      Alive-poke w (suc t.0) slots a k c h.3 m cell,
    )

-- Such writes hit no freed memory, and leave every box alive with a step of its kind.
pub store_all-Alive :
    (w : World) (slots : List Slot) (ws : Writes)
    → Alive w 0 slots
    → WritesSteps slots ws
    → (w' : World) × (store_all ws w ≡ (ok tt, w')) × Alive w' 0 slots × (w'.log ≡ w.log)
store_all-Alive w slots [] h writes = (w, refl, h, refl)
store_all-Alive w slots ((a, c) ∷ ws) h ((k, m, cell), rest) =
    let ((old, here, _), _) = slot-Alive w 0 slots (a, k) h m in
    let (w', stored, alive, log) =
      store_all-Alive (poked w a c) slots ws (Alive-poke w 0 slots a k c h m cell) rest in
    (w', rw (here, store) stored, alive, log)

pub Alive-logged :
    (call : Call) (w : World) (lo : ℕ) (slots : List Slot)
    → Alive w lo slots
    → Alive (record w { log = call ∷ w.log }) lo slots
Alive-logged call w lo slots h =
    Alive-transfer w (record w { log = call ∷ w.log }) lo slots (λ b l n. refl) (omega arith) h
