-- ===== src/WriteOp/Wired.antt =====
-- The boxes of a compound write: librados holds exactly their addresses, and they stay alive
-- until the op has run, so that running it is free of undefined behaviour.
use librados_rs.Base.{
  ℕ, ◌+◌, ◌<◌, ◌≡◌, ◌⊎◌, inl, inr, refl, ℤ, pos, List, [], ◌∷◌, ◌++◌, some, get_elem?, arith,
  if◌then◌else◌, length, Bool-cases, ◌==◌, ==_refl, get_elem?-append_last, take-append_left, take,
}
use librados_rs.Error.{Bytes, ok}
use librados_rs.Ffi.Memory.{Ptr}
use librados_rs.Ffi.Call.{Call, Cell, Writes}
use librados_rs.Ffi.World.{World, poke, store, store_all}
use librados_rs.WriteOp.{CmpHandle, WriteOp, omap_cmp}
use librados_rs.WriteOp.Report.{Holds, HoldsAll}

-- The slots that librados was given for the op since it was created, oldest first.
unfoldable pub registered : Ptr → List Call → List Ptr
registered op [] = []
registered op (Call.write_op_omap_cmp2 o _ _ _ _ _ prval ∷ log) =
    if o == op then registered op log ++ prval ∷ [] else registered op log
registered op (Call.release_write_op o ∷ log) = if o == op then [] else registered op log
registered op (_ ∷ log) = registered op log

-- Membership.
abbrev pub IsIn : Ptr → List Ptr → Type 0
IsIn a [] = ⊥
IsIn a (b ∷ as') = (a ≡ b) ⊎ IsIn a as'

-- Each box is alive, holds a number, and lies below the next address.
abbrev pub AllAlive : World → List Ptr → Type 0
AllAlive w [] = Unit
AllAlive w (a ∷ as') = ((z : ℤ) × Holds w a z) × (a < w.next) × AllAlive w as'

pub record IsWired (o : WriteOp) (w : World) : Type 0 where
  pub slots : registered o.op w.log ≡ o.cmps
  pub alive : AllAlive w o.cmps

AllAlive-append :
    (w : World) (as' : List Ptr) (b : Ptr)
    → AllAlive w as'
    → ((z : ℤ) × Holds w b z)
    → b < w.next
    → AllAlive w (as' ++ b ∷ [])
AllAlive-append w [] b h hb lt = (hb, lt, tt)
AllAlive-append w (a ∷ as') b h hb lt = (h.0, h.1, AllAlive-append w as' b h.2 hb lt)

-- A new box moves no older one.
AllAlive-alloc :
    (w : World) (log : List Call) (c : Cell) (as' : List Ptr)
    → AllAlive w as'
    → AllAlive (record { log = log; next = w.next + 1; mem = poke w.mem w.next (some c) }) as'
AllAlive-alloc w log c [] h = tt
AllAlive-alloc w log c (a ∷ as') h =
    ((h.0.0, ground arith), omega arith, AllAlive-alloc w log c as' h.2)

module _ (o : WriteOp) (key : Bytes) (op : ℕ) (value : Bytes) (w : World) where
  abbrev added : WriteOp
  added = record o { cmps = o.cmps ++ w.next ∷ [] }

  abbrev handle : CmpHandle
  handle = record { index = length o.cmps }

  abbrev after : World
  after = record {
    log = Call.write_op_omap_cmp2 o.op key op value (length key) (length value) w.next ∷ w.log;
    next = w.next + 1;
    mem = poke w.mem w.next (some (Cell.int (pos 0)));
  }

  pub omap_cmp_runs : omap_cmp o key op value w ≡ (ok (added, handle), after)
  unfolding omap_cmp
  omap_cmp_runs = refl

  -- On a well-formed op `omap_cmp` names the new box by its handle, keeps the boxes that older
  -- handles name, and leaves an op whose boxes are alive and are those that librados was given;
  -- the new box holds 0.
  omap_cmp-IsWired :
      IsWired o w
      → let (r, w') = omap_cmp o key op value w in
        (o' : WriteOp) × (h : CmpHandle) × (r ≡ ok (o', h))
        × IsWired o' w'
        × (get_elem? o'.cmps h.index ≡ some w.next)
        × Holds w' w.next (pos 0)
        × (take h.index o'.cmps ≡ o.cmps)
  unfolding omap_cmp registered
  omap_cmp-IsWired i = (
    added,
    handle,
    refl,
    record {
      slots = rw (==_refl o.op, i.slots);
      alive =
          AllAlive-append after o.cmps w.next
            (AllAlive-alloc w after.log (Cell.int (pos 0)) o.cmps i.alive) (pos 0, ground arith)
            (omega arith);
    },
    get_elem?-append_last o.cmps w.next,
    ground arith,
    take-append_left (length o.cmps) o.cmps (w.next ∷ []) refl,
  )

-- What librados may write while the op runs: numbers, through slots that it holds.
abbrev pub WritesSlots : List Ptr → Writes → Type 0
WritesSlots as' [] = Unit
WritesSlots as' ((a, c) ∷ ws) = IsIn a as' × ((z : ℤ) × (c ≡ Cell.int z)) × WritesSlots as' ws

alive_at :
    (w : World) (as' : List Ptr) (a : Ptr) → AllAlive w as' → IsIn a as' → (z : ℤ) × Holds w a z
alive_at w [] a h m = absurd m
alive_at w (b ∷ as') a h (inl e) = rw e h.0
alive_at w (b ∷ as') a h (inr m) = alive_at w as' a h.2 m

AllAlive-poke :
    (w : World) (as' : List Ptr) (a : Ptr) (z : ℤ)
    → AllAlive w as'
    → AllAlive (record w { mem = poke w.mem a (some (Cell.int z)) }) as'
AllAlive-poke w [] a z h = tt
AllAlive-poke w (b ∷ as') a z h = (
  elim (Bool-cases (b == a)) [ inl e ↦ (z, rw e) | inr e ↦ (h.0.0, rw e h.0.1) ],
  h.1,
  AllAlive-poke w as' a z h.2,
)

store-alive :
    (w : World) (a : Ptr) (c : Cell) {old : Cell}
    → w.mem a ≡ some old
    → store a c w ≡ (ok tt, record w { mem = poke w.mem a (some c) })
store-alive w a c h = rw (h, store)

-- Such writes hit no freed memory, and every box still holds a number afterwards.
pub store_all-AllAlive :
    (w : World) (as' : List Ptr) (ws : Writes)
    → AllAlive w as'
    → WritesSlots as' ws
    → (w' : World) × (store_all ws w ≡ (ok tt, w')) × AllAlive w' as' × (w'.log ≡ w.log)
store_all-AllAlive w as' [] h ok_ws = (w, refl, h, refl)
store_all-AllAlive w as' ((a, c) ∷ ws) h (m, (z, e), rest) =
    let (old, held) = alive_at w as' a h m in
    let w₁ : World = record w { mem = poke w.mem a (some (Cell.int z)) } in
    let (w', stored, alive, log) = store_all-AllAlive w₁ as' ws (AllAlive-poke w as' a z h) rest in
    (w', rw (e, store-alive w a (Cell.int z) held) stored, alive, log)

pub HoldsAll-AllAlive :
    (w : World) (as' : List Ptr) → AllAlive w as' → (zs : List ℤ) × HoldsAll w as' zs
HoldsAll-AllAlive w [] h = ([], tt)
HoldsAll-AllAlive w (a ∷ as') h =
    let (zs, held) = HoldsAll-AllAlive w as' h.2 in (h.0.0 ∷ zs, (h.0.1, held))
